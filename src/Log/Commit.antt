-- ===== src/Log/Commit.antt =====
-- A commit is atomic: whenever the power fails, the disk stands for the state before it or for the
-- state after it.
use native.Mathlib.Decide.{ℕ_discrete}
use csse332lab.Base.{
  ℕ, zero, suc, ◌+◌, ◌≤◌, ◌<◌, ◌≡◌, ◌≢◌, refl, ◌∙◌, sym, ap, subst, ◌⊎◌, inl, inr, false, arith,
  ◌==◌, if◌then◌else◌, ltb, Bool-cases, ==_refl, ==_ne, update, update_self, update_ne,
}
use csse332lab.Log.Blocks.{Block, Store, content, bread, bwrite}
use csse332lab.Log.Buffers.{
  content-bread, content-bwrite_self, content-bwrite_ne, disk-bwrite_off, disk-bwrite_on,
}
use csse332lab.Log.Head.{
  head_block, head_block_count, head_block_entry, write_head_on, write_head_off, write_head-content,
}
use csse332lab.Log.Replay.{replay, IsHome, home_start, home_copy, StandsFor, StandsFor-none}
use csse332lab.Log.Install.{Installed, Stopped, install_loop_off, install_loop-Installed}
use csse332lab.Log.Recovery.{Settled, erase-Settled, erase-Settled_off}
use csse332lab.Log.{Log, logsize, write_log_loop, write_log, write_head, install_trans, commit}

-- The disk as the first `k` logged blocks are written home from the buffers.
abbrev pub staged : Log → Store → ℕ → ℕ → Block
staged log s zero b = s.disk b
staged log s (suc k) b = if log.block k == b then content s b else staged log s k b

-- A log over home blocks that fits, and nothing of it on the disk yet.
pub record IsReady (log : Log) (s : Store) : Type 0 where
  pub fits : log.n < log.size
  pub small : log.n ≤ logsize
  pub homes : (i : ℕ) → i < log.n → IsHome log.start log.size (log.block i)
  pub empty : s.disk log.start 0 ≡ 0

disk_other :
    (s s' : Store) (a : ℕ) (c : Block) (b : ℕ)
    → s'.disk ≡ update s.disk a c
    → b ≢ a
    → s'.disk b ≡ s.disk b
disk_other s s' a c b e ne = rw e (update_ne s.disk a b c ne)

module _ (log : Log) (s₀ : Store) (ready : IsReady log s₀) where
  -- The first `t` blocks are in the log's area, which is all that has changed.
  record Logged (t : ℕ) (s : Store) : Type 0 where
    head : s.disk log.start ≡ s₀.disk log.start
    homes : (b : ℕ) → IsHome log.start log.size b → s.disk b ≡ s₀.disk b
    buffers : (b : ℕ) → IsHome log.start log.size b → content s b ≡ content s₀ b
    copies : (i : ℕ) → i < t → s.disk (log.start + i + 1) ≡ content s₀ (log.block i)
    same : (i : ℕ) → i < t → content s (log.start + i + 1) ≡ s.disk (log.start + i + 1)

  home_ne : (i b : ℕ) → i < log.n → IsHome log.start log.size b → b ≢ log.start + i + 1
  home_ne i b hi hb e = home_copy log.start log.size i (omega (arith, ready.fits)) hb (sym e)

  abbrev log_round : ℕ → Store → Store
  log_round t s =
      let read = bread (log.block t) (bread (log.start + t + 1) s) in
      bwrite (log.start + t + 1) (content read (log.block t)) read

  log_round_content :
      (t b : ℕ) (s : Store)
      → content (bread (log.block t) (bread (log.start + t + 1) s)) b ≡ content s b
  log_round_content t b s =
      content-bread (log.block t) b (bread (log.start + t + 1) s)
      ∙ content-bread (log.start + t + 1) b s

  Logged-step :
      (t : ℕ) (s s' : Store) (c : Block)
      → t < log.n
      → s'.disk ≡ update s.disk (log.start + t + 1) c
      → c ≡ content s₀ (log.block t)
      → content s' (log.start + t + 1) ≡ c
      → ((b : ℕ) → b ≢ log.start + t + 1 → content s' b ≡ content s b)
      → Logged t s
      → Logged (t + 1) s'
  Logged-step t s s' c ht e ec here_now elsewhere v =
      let other = λ (b : ℕ) (ne : b ≢ log.start + t + 1). disk_other s s' _ c b e ne in
      let written : s'.disk (log.start + t + 1) ≡ c =
        rw e (update_self s.disk (log.start + t + 1) c) in
      record {
        head = other log.start (omega arith) ∙ v.head;
        homes = λ b hb. other b (home_ne t b ht hb) ∙ v.homes b hb;
        buffers = λ b hb. elsewhere b (home_ne t b ht hb) ∙ v.buffers b hb;
        copies = λ i hi. elim (ℕ_discrete i t) [
          | yes q ↦ rw q (written ∙ ec)
          | no ne ↦ other _ (omega arith) ∙ v.copies i (omega arith)
        ];
        same = λ i hi. elim (ℕ_discrete i t) [
          | yes q ↦ rw q (here_now ∙ sym written)
          | no ne ↦ elsewhere _ (omega arith) ∙ v.same i (omega arith) ∙ sym (other _ (omega arith))
        ];
      }

  log_round-Logged :
      (t : ℕ) (s : Store) → t < log.n → 0 < s.power → Logged t s → Logged (t + 1) (log_round t s)
  log_round-Logged t s ht on v =
      let read = bread (log.block t) (bread (log.start + t + 1) s) in
      let c = content read (log.block t) in
      Logged-step t s (log_round t s) c ht (disk-bwrite_on (log.start + t + 1) c read on)
        (log_round_content t (log.block t) s ∙ v.buffers (log.block t) (ready.homes t ht))
        (content-bwrite_self (log.start + t + 1) c read)
        (λ b ne. content-bwrite_ne (log.start + t + 1) b c read ne ∙ log_round_content t b s) v

  write_log_loop_off :
      (k t : ℕ) (s : Store)
      → s.power ≡ 0
      → ((write_log_loop log k t s).disk ≡ s.disk) × ((write_log_loop log k t s).power ≡ 0)
  unfolding write_log_loop
  write_log_loop_off zero t s off = (refl, off)
  write_log_loop_off (suc k) t s off =
      let ih = write_log_loop_off k (t + 1) (log_round t s) (omega arith) in
      (ih.0 ∙ disk-bwrite_off _ _ (bread (log.block t) (bread (log.start + t + 1) s)) off, ih.1)

  -- The power is gone before the commit point, or every block is in the log.
  abbrev Before : Store → Type 0
  Before s =
      (s.power ≡ 0)
      × (s.disk log.start ≡ s₀.disk log.start)
      × ((b : ℕ) → IsHome log.start log.size b → s.disk b ≡ s₀.disk b)

  write_log_loop-Logged :
      (k t : ℕ) (s : Store)
      → t + k ≡ log.n
      → Logged t s
      → Before (write_log_loop log k t s) ⊎ Logged log.n (write_log_loop log k t s)
  unfolding write_log_loop
  write_log_loop-Logged zero t s e v =
      let e' : t ≡ log.n = omega arith in inr (subst (λ k. Logged k s) e' v)
  write_log_loop-Logged (suc k) t s e v = elim (ℕ_discrete s.power 0) [
    | yes off ↦
        let dead = write_log_loop_off (suc k) t s off in
        inl (dead.1, rw dead.0 v.head, rw dead.0 v.homes)
    | no on ↦
        write_log_loop-Logged k (t + 1) (log_round t s) (omega arith)
          (log_round-Logged t s (omega arith) (omega arith) v)
  ]

  StandsFor-before :
      (s : Store)
      → s.disk log.start ≡ s₀.disk log.start
      → ((b : ℕ) → IsHome log.start log.size b → s.disk b ≡ s₀.disk b)
      → StandsFor log.start log.size s.disk s₀.disk
  StandsFor-before s head homes =
      StandsFor-none log.start log.size s.disk s₀.disk (omega (arith, ready.fits))
        (rw head ready.empty) homes

  module _ (s s' : Store) (v : Logged log.n s)
      (wrote : s'.disk ≡ update s.disk log.start (head_block log s))
      (buffers : (b : ℕ) → b ≢ log.start → content s' b ≡ content s b) where
    header : s'.disk log.start ≡ head_block log s
    header = rw wrote (update_self s.disk log.start (head_block log s))

    other_home : (b : ℕ) → IsHome log.start log.size b → s'.disk b ≡ s.disk b
    other_home b hb =
        disk_other s s' log.start _ b wrote
          (λ e. home_start log.start log.size (omega (arith, ready.fits)) hb (sym e))

    other_copy : (i : ℕ) → s'.disk (log.start + i + 1) ≡ s.disk (log.start + i + 1)
    other_copy i = disk_other s s' log.start _ (log.start + i + 1) wrote (omega arith)

    entry : (i : ℕ) → i < log.n → s'.disk log.start (i + 1) ≡ log.block i
    entry i hi = ap (λ (c : Block). c (i + 1)) header ∙ head_block_entry log s i hi

    count : s'.disk log.start 0 ≡ log.n
    count = ap (λ (c : Block). c 0) header ∙ head_block_count log s

    -- Behind the commit point the log rebuilds what was staged in the buffers.
    replay-staged :
        (k b : ℕ)
        → k ≤ log.n
        → IsHome log.start log.size b
        → replay log.start s'.disk k b ≡ staged log s₀ k b
    replay-staged zero b hk hb = other_home b hb ∙ v.homes b hb
    replay-staged (suc k) b hk hb =
        let num : suc k ≡ k + 1 = omega arith in
        rw (entry k (omega arith)) (elim (ℕ_discrete (log.block k) b) [
          | yes hit ↦
              rw (hit, ==_refl) (other_copy k ∙ v.copies k (omega arith) ∙ ap (content s₀) hit)
          | no miss ↦ rw (==_ne (log.block k) b miss) (replay-staged k b (omega arith) hb)
        ])

    committed-Installed : Installed log (staged log s₀ log.n) 0 s'
    committed-Installed = record {
      stands = record {
        fits = rw count ready.fits;
        small = rw count ready.small;
        homes = λ i hi.
            let hi' : i < log.n = omega (arith, count) in rw (entry i hi') (ready.homes i hi');
        contents = λ b hb. rw count (replay-staged log.n b (omega arith) hb);
      };
      same = record {
        count = count;
        entries = entry;
        copies = λ i hi. buffers _ (omega arith) ∙ v.same i hi ∙ sym (other_copy i);
      };
      done = λ b hb. refl;
    }

  -- The state before the commit, or the state after it.
  abbrev Atomic : Store → Type 0
  Atomic s =
      ((s.power ≡ 0) × StandsFor log.start log.size s.disk s₀.disk)
      ⊎ Settled log.start log.size (staged log s₀ log.n) s

  after_head :
      (s : Store)
      → Before s ⊎ Logged log.n s
      → Stopped log s₀.disk (write_head log s)
        ⊎ Installed log (staged log s₀ log.n) 0 (write_head log s)
  after_head s (inl (off, head, homes)) =
      let dead = write_head_off log s off in inl (dead.1, rw dead.0 (StandsFor-before s head homes))
  after_head s (inr v) = elim (ℕ_discrete s.power 0) [
    | yes off ↦
        let dead = write_head_off log s off in
        inl (dead.1, rw dead.0 (StandsFor-before s v.head v.homes))
    | no on ↦ inr (
        committed-Installed s (write_head log s) v (write_head_on log s (omega arith))
          (write_head-content log s))
  ]

  after_install :
      (s : Store)
      → Stopped log s₀.disk s ⊎ Installed log (staged log s₀ log.n) 0 s
      → Atomic (write_head (record log { n = 0 }) (install_trans false log s))
  unfolding install_trans
  after_install s (inl (off, stands)) =
      let dead = install_loop_off log s₀.disk false log.n 0 s off in
      let erased = write_head_off (record log { n = 0 }) (install_trans false log s) dead.1 in
      inl (erased.1, (erase-Settled_off log s₀.disk _ (dead.1, rw dead.0 stands)).stands)
  after_install s (inr v) = inr (
      erase-Settled log (staged log s₀ log.n) _
        (install_loop-Installed log (staged log s₀ log.n) false log.n 0 s (omega arith) v))

  logged : Before (write_log log s₀) ⊎ Logged log.n (write_log log s₀)
  unfolding write_log
  logged = write_log_loop-Logged log.n 0 s₀ (omega arith) (record {
    head = refl;
    homes = λ b hb. refl;
    buffers = λ b hb. refl;
    copies = λ i hi. absurd (omega arith);
    same = λ i hi. absurd (omega arith);
  })

  -- With nothing logged the state before is that after it.
  nothing-Settled : log.n ≡ 0 → Settled log.start log.size (staged log s₀ log.n) s₀
  nothing-Settled none_logged = rw none_logged (record {
    stands =
        StandsFor-none log.start log.size s₀.disk s₀.disk (omega (arith, ready.fits)) ready.empty
          (λ b hb. refl);
    empty = λ on. ready.empty;
    homes = λ on b hb. refl;
  })

-- A commit that the power may cut short at any write of a block empties the log in memory. If the
-- power is lost, the disk stands for the home blocks as they were, or for all of them with the
-- logged blocks as they are in the buffers; if the power holds, the latter are at home and the log
-- on the disk is empty.
pub commit_atomic :
    (log : Log) (s : Store)
    → IsReady log s
    → let s' = (commit log s).1 in
      (((s'.power ≡ 0) × StandsFor log.start log.size s'.disk s.disk)
        ⊎ Settled log.start log.size (staged log s log.n) s')
      × ((commit log s).0.n ≡ 0)
unfolding commit
commit_atomic log s ready = elim (Bool-cases (ltb 0 log.n)) [
  | inl some_blocks ↦ rw some_blocks (
    after_install log s ready _ (after_head log s ready (write_log log s) (logged log s ready)),
    refl,
  )
  | inr no_blocks ↦
      let none_logged : log.n ≡ 0 = ground arith in
      rw no_blocks (inr (nothing-Settled log s ready none_logged), none_logged)
]
