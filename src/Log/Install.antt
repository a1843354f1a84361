-- ===== src/Log/Install.antt =====
-- Copying the logged blocks to their homes, with a loss of power at any write.
use native.Mathlib.Decide.{ℕ_discrete}
use csse332lab.Base.{
  ℕ, zero, suc, ◌+◌, ◌<◌, ◌≡◌, refl, ◌∙◌, sym, subst, ◌⊎◌, inl, inr, Bool, arith, update,
}
use csse332lab.Log.Blocks.{Block, Store, content, bread, bwrite}
use csse332lab.Log.Buffers.{content-bread, content-bwrite_ne, disk-bwrite_off, disk-bwrite_on}
use csse332lab.Log.Replay.{
  replay, IsHome, home_copy, StandsFor, StandsFor-install, SameLog-update, replay_step,
}
use csse332lab.Log.{Log, install_loop, unpin_after}

-- The log in memory is the one on the disk, and the logged copies in the buffers too.
pub record Matches (log : Log) (s : Store) : Type 0 where
  pub count : s.disk log.start 0 ≡ log.n
  pub entries : (i : ℕ) → i < log.n → s.disk log.start (i + 1) ≡ log.block i
  pub copies : (i : ℕ) → i < log.n → content s (log.start + i + 1) ≡ s.disk (log.start + i + 1)

-- The disk stands for `f`, and the first `t` entries are installed.
pub record Installed (log : Log) (f : ℕ → Block) (t : ℕ) (s : Store) : Type 0 where
  pub stands : StandsFor log.start log.size s.disk f
  pub same : Matches log s
  pub done : (b : ℕ) → IsHome log.start log.size b → replay log.start s.disk t b ≡ s.disk b

-- The power is gone and the disk stands for `f`, or the work is finished.
abbrev pub Stopped : Log → (ℕ → Block) → Store → Type 0
Stopped log f s = (s.power ≡ 0) × StandsFor log.start log.size s.disk f

module _ (log : Log) (f : ℕ → Block) where
  -- The store after one round.
  abbrev round : Bool → ℕ → Store → Store
  round recovering t s =
      let lbuf = log.start + t + 1 in
      let dbuf = log.block t in
      let read = bread dbuf (bread lbuf s) in
      unpin_after recovering dbuf (bwrite dbuf (content read lbuf) read)

  round_content :
      (t : ℕ) (s : Store)
      → content (bread (log.block t) (bread (log.start + t + 1) s)) (log.start + t + 1)
        ≡ content s (log.start + t + 1)
  round_content t s =
      content-bread (log.block t) _ (bread (log.start + t + 1) s)
      ∙ content-bread (log.start + t + 1) _ s

  round_disk :
      (recovering : Bool) (t : ℕ) (s : Store)
      → t < log.n
      → 0 < s.power
      → Matches log s
      → (round recovering t s).disk
        ≡ update s.disk (s.disk log.start (t + 1)) (s.disk (log.start + t + 1))
  round_disk recovering t s ht on m =
      disk-bwrite_on _ _ (bread (log.block t) (bread (log.start + t + 1) s)) on
      ∙ rw (round_content t s, m.copies t ht, m.entries t ht)

  entry-IsHome :
      {s : Store} {t k : ℕ}
      → t < log.n
      → Installed log f k s
      → IsHome log.start log.size (s.disk log.start (t + 1))
  entry-IsHome {t} ht v = v.stands.homes t (omega (arith, v.same.count))

  Installed-step :
      (t : ℕ) (s s' : Store)
      → t < log.n
      → s'.disk ≡ update s.disk (s.disk log.start (t + 1)) (s.disk (log.start + t + 1))
      → ((i : ℕ) → i < log.n → content s' (log.start + i + 1) ≡ content s (log.start + i + 1))
      → Installed log f t s
      → Installed log f (t + 1) s'
  Installed-step t s s' ht e same v =
      let fits : log.n < log.size = omega (arith, v.stands.fits, v.same.count) in
      let home = entry-IsHome ht v in
      let kept =
        SameLog-update log.start log.size s.disk _ (s.disk (log.start + t + 1)) log.n fits home in
      let head : s'.disk log.start ≡ s.disk log.start = rw e kept.head in
      record {
        stands = rw e (
            StandsFor-install log.start log.size s.disk f t (omega (arith, v.same.count)) v.stands);
        same = record {
          count = rw head v.same.count;
          entries = rw head v.same.entries;
          copies = λ i hi. same i hi ∙ v.same.copies i hi ∙ sym (rw e (kept.copies i hi));
        };
        done = λ b hb.
            rw e (replay_step log.start log.size s.disk t b (omega arith) home (v.done b hb));
      }

  round_copies :
      (recovering : Bool) (t : ℕ) (s : Store)
      → t < log.n
      → Installed log f t s
      → (i : ℕ) → i < log.n
      → content (round recovering t s) (log.start + i + 1) ≡ content s (log.start + i + 1)
  round_copies recovering t s ht v i hi =
      let read = bread (log.block t) (bread (log.start + t + 1) s) in
      let home : IsHome log.start log.size (log.block t) =
        rw (← v.same.entries t ht) (entry-IsHome ht v) in
      content-bwrite_ne (log.block t) (log.start + i + 1) _ read
        (home_copy log.start log.size i (omega (arith, v.stands.fits, v.same.count)) home)
      ∙ content-bread (log.block t) _ (bread (log.start + t + 1) s)
      ∙ content-bread (log.start + t + 1) _ s

  round-Installed :
      (recovering : Bool) (t : ℕ) (s : Store)
      → t < log.n
      → 0 < s.power
      → Installed log f t s
      → Installed log f (t + 1) (round recovering t s)
  round-Installed recovering t s ht on v =
      Installed-step t s (round recovering t s) ht (round_disk recovering t s ht on v.same)
        (round_copies recovering t s ht v) v

  pub install_loop_off :
      (recovering : Bool) (k t : ℕ) (s : Store)
      → s.power ≡ 0
      → ((install_loop recovering log k t s).disk ≡ s.disk)
        × ((install_loop recovering log k t s).power ≡ 0)
  unfolding install_loop
  install_loop_off recovering zero t s off = (refl, off)
  install_loop_off recovering (suc k) t s off =
      let ih = install_loop_off recovering k (t + 1) (round recovering t s) (omega arith) in
      (ih.0 ∙ disk-bwrite_off _ _ (bread (log.block t) (bread (log.start + t + 1) s)) off, ih.1)

  pub install_loop-Installed :
      (recovering : Bool) (k t : ℕ) (s : Store)
      → t + k ≡ log.n
      → Installed log f t s
      → Stopped log f (install_loop recovering log k t s)
        ⊎ Installed log f log.n (install_loop recovering log k t s)
  unfolding install_loop
  install_loop-Installed recovering zero t s e v =
      let e' : log.n ≡ t = omega arith in inr (subst (λ k. Installed log f k s) (sym e') v)
  install_loop-Installed recovering (suc k) t s e v = elim (ℕ_discrete s.power 0) [
    | yes off ↦
        let dead = install_loop_off recovering (suc k) t s off in inl (dead.1, rw dead.0 v.stands)
    | no on ↦
        install_loop-Installed recovering k (t + 1) (round recovering t s) (omega arith)
          (round-Installed recovering t s (omega arith) (omega arith) v)
  ]
