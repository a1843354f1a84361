-- ===== src/Log/Recovery.antt =====
-- Recovery after a loss of power, which may be lost again at any write of the recovery.
use native.Mathlib.Decide.{ℕ_discrete}
use csse332lab.Base.{
  ℕ, ◌+◌, ◌<◌, ◌≡◌, refl, ◌∙◌, sym, ap, ◌⊎◌, inl, inr, true, arith, update, update_self, update_ne,
}
use csse332lab.Log.Blocks.{Block, Store, content, bread, reboot}
use csse332lab.Log.Buffers.{content-bread}
use csse332lab.Log.Head.{read_entries_lem, head_block_count, write_head_on, write_head_off}
use csse332lab.Log.Replay.{replay, IsHome, home_start, StandsFor, StandsFor-none}
use csse332lab.Log.Install.{Installed, Stopped, install_loop-Installed}
use csse332lab.Log.{
  Log, read_head, read_entries, write_head, install_trans, recover_from_log, initlog,
}

-- The disk stands for `f`; if the power held, its log is empty and `f` is what the home blocks hold.
pub record Settled (start size : ℕ) (f : ℕ → Block) (s : Store) : Type 0 where
  pub stands : StandsFor start size s.disk f
  pub empty : 0 < s.power → s.disk start 0 ≡ 0
  pub homes : 0 < s.power → (b : ℕ) → IsHome start size b → s.disk b ≡ f b

kept :
    (log : Log) (f : ℕ → Block) (s s' : Store) (c : Block)
    → s'.disk ≡ update s.disk log.start c
    → Installed log f log.n s
    → (b : ℕ) → IsHome log.start log.size b
    → s'.disk b ≡ f b
kept log f s s' c wrote v b hb = rw wrote (
    update_ne s.disk log.start b c
      (λ e. home_start log.start log.size (omega (arith, v.stands.fits)) hb (sym e))
    ∙ sym (v.done b hb)
    ∙ sym (ap (λ k. replay log.start s.disk k b) v.same.count)
    ∙ v.stands.contents b hb)

pub erase-Settled_off :
    (log : Log) (f : ℕ → Block) (s : Store)
    → Stopped log f s
    → Settled log.start log.size f (write_head (record log { n = 0 }) s)
erase-Settled_off log f s (off, stands) =
    let same = write_head_off (record log { n = 0 }) s off in
    record {
      stands = rw same.0 stands;
      empty = λ h. absurd (omega (arith, same.1));
      homes = λ h. absurd (omega (arith, same.1));
    }

-- Erasing the header, once everything is installed.
pub erase-Settled :
    (log : Log) (f : ℕ → Block) (s : Store)
    → Stopped log f s ⊎ Installed log f log.n s
    → Settled log.start log.size f (write_head (record log { n = 0 }) s)
erase-Settled log f s (inl stopped) = erase-Settled_off log f s stopped
erase-Settled log f s (inr v) = elim (ℕ_discrete s.power 0) [
  | yes off ↦ erase-Settled_off log f s (off, v.stands)
  | no on ↦
      let wrote = write_head_on (record log { n = 0 }) s (omega arith) in
      let empty : (write_head (record log { n = 0 }) s).disk log.start 0 ≡ 0 = rw wrote (
        ap (λ (c : Block). c 0) (update_self s.disk log.start _)
        ∙ head_block_count (record log { n = 0 }) s) in
      let homes = λ (b : ℕ) (hb : IsHome log.start log.size b).
        kept log f s (write_head (record log { n = 0 }) s) _ wrote v b hb in
      record {
        stands = StandsFor-none log.start log.size _ f (omega (arith, v.stands.fits)) empty homes;
        empty = λ h. empty;
        homes = λ h. homes;
      }
]

pub recover_from_log-Settled :
    (log : Log) (f : ℕ → Block) (s : Store)
    → ((b : ℕ) → content s b ≡ s.disk b)
    → StandsFor log.start log.size s.disk f
    → Settled log.start log.size f (recover_from_log log s).1
unfolding recover_from_log read_head install_trans
recover_from_log-Settled log f s coherent v =
    let lh = content s log.start in
    let read : Log = record log { n = lh 0; block = read_entries lh (lh 0) 0 log.block } in
    let begun : Installed read f 0 (bread log.start s) = record {
      stands = v;
      same = record {
        count = ap (λ (c : Block). c 0) (sym (coherent log.start));
        entries = λ i hi.
            ap (λ (c : Block). c (i + 1)) (sym (coherent log.start))
            ∙ sym (read_entries_lem lh (lh 0) 0 log.block i (omega arith) (omega arith));
        copies = λ i hi. content-bread log.start _ s ∙ coherent (log.start + i + 1);
      };
      done = λ b hb. refl;
    } in
    erase-Settled read f _ (install_loop-Installed read f true read.n 0 _ (omega arith) begun)

-- However often the power fails during recovery, the disk goes on standing for the same `f`; a
-- recovery that runs to its end leaves `f` in the home blocks and an empty log.
pub initlog_recovers :
    (logstart nlog power : ℕ) (log : Log) (f : ℕ → Block) (s : Store)
    → StandsFor logstart nlog s.disk f
    → Settled logstart nlog f (initlog logstart nlog log (reboot power s)).1
unfolding initlog
initlog_recovers logstart nlog power log f s v =
    recover_from_log-Settled (record log { start = logstart; size = nlog }) f (reboot power s)
      (λ b. refl) v
