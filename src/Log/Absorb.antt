-- ===== src/Log/Absorb.antt =====
-- What `log_write` adds to the log: a block that it has already is absorbed.
use native.Mathlib.Decide.{ℕ_discrete, dec_lt}
use csse332lab.Base.{
  ℕ, zero, suc, ◌+◌, ◌≤◌, ◌<◌, ◌≡◌, ◌≢◌, refl, ◌∙◌, sym, ap, ◌⊎◌, inl, inr, some, arith, ==_refl,
  ==_ne, update, update_self, update_ne,
}
use csse332lab.Log.Blocks.{Block, Store, content, bpin}
use csse332lab.Log.Replay.{IsHome}
use csse332lab.Log.Commit.{IsReady, staged}
use csse332lab.Log.{Log, logsize, find_slot, log_write}

-- What `find_slot` finds among the `k` entries from `i` on.
record Found (block : ℕ → ℕ) (b k i : ℕ) (slot : ℕ) : Type 0 where
  above : i ≤ slot
  below : slot ≤ i + k
  hit : slot < i + k → block slot ≡ b
  miss : (j : ℕ) → i ≤ j → j < slot → block j ≢ b

find_slot-Found : (block : ℕ → ℕ) (b k i : ℕ) → Found block b k i (find_slot block b k i)
unfolding find_slot
find_slot-Found block b zero i = record {
  above = omega arith;
  below = omega arith;
  hit = λ h. absurd (omega arith);
  miss = λ j lo hi. absurd (omega arith);
}
find_slot-Found block b (suc k) i = elim (ℕ_discrete (block i) b) [
  | yes e ↦
      rw (e, ==_refl)
        (record {
          above = omega arith;
          below = omega arith;
          hit = λ h. e;
          miss = λ j lo hi. absurd (omega arith);
        })
  | no ne ↦
      let rest = find_slot-Found block b k (i + 1) in
      rw (==_ne (block i) b ne) (record {
        above = omega (arith, rest.above);
        below = omega (arith, rest.below);
        hit = λ h. rest.hit (omega arith);
        miss = λ j lo hi. elim (ℕ_discrete j i) [
          | yes e ↦ rw e ne
          | no other ↦ rest.miss j (omega arith) hi
        ];
      })
]

update_same : (f : ℕ → ℕ) (a v : ℕ) → f a ≡ v → (i : ℕ) → update f a v i ≡ f i
update_same f a v h i = elim (ℕ_discrete i a) [
  | yes e ↦ rw e (update_self f a v ∙ sym h)
  | no ne ↦ update_ne f a i v ne
]

-- The log after `b` was noted: it was there, or it is the new last entry.
pub record Noted (b : ℕ) (log log' : Log) : Type 0 where
  pub start : log'.start ≡ log.start
  pub size : log'.size ≡ log.size
  pub outstanding : log'.outstanding ≡ log.outstanding
  pub committing : log'.committing ≡ log.committing
  pub room : (log.n < logsize) × (log.n + 1 < log.size)
  pub count : (log'.n ≡ log.n) ⊎ ((log'.n ≡ log.n + 1) × (log'.block log.n ≡ b))
  pub entries : (i : ℕ) → i < log.n → log'.block i ≡ log.block i
  pub slot : ℕ
  pub slot_in : slot < log'.n
  pub slot_holds : log'.block slot ≡ b

-- `log_write` in its two outcomes.
pub log_write-Noted :
    (b : ℕ) (log : Log) (s : Store)
    → log.n < logsize
    → log.n + 1 < log.size
    → 0 < log.outstanding
    → (log' : Log) × (s' : Store) × (log_write b log s ≡ some (log', s'))
      × Noted b log log'
      × ((c : ℕ) → content s' c ≡ content s c)
      × (s'.disk ≡ s.disk)
unfolding log_write
log_write-Noted b log s small fits open_op =
    let found = find_slot-Found log.block b log.n 0 in
    let slot = find_slot log.block b log.n 0 in
    elim (ℕ_discrete slot log.n) [
      | yes fresh ↦ (
        record log { block = update log.block slot b; n = log.n + 1 },
        bpin b s,
        ground arith,
        record {
          start = refl;
          size = refl;
          outstanding = refl;
          committing = refl;
          room = (small, fits);
          count = inr (refl, rw fresh (update_self log.block log.n b));
          entries = λ i hi. update_ne log.block slot i b (omega arith);
          slot = slot;
          slot_in = omega arith;
          slot_holds = update_self log.block slot b;
        },
        λ c. refl,
        refl,
      )
      | no old ↦ (
        record log { block = update log.block slot b },
        s,
        ground arith,
        record {
          start = refl;
          size = refl;
          outstanding = refl;
          committing = refl;
          room = (small, fits);
          count = inl refl;
          entries = λ i hi. update_same log.block slot b (found.hit (omega (arith, found.below))) i;
          slot = slot;
          slot_in = omega (arith, found.below);
          slot_holds = update_self log.block slot b;
        },
        λ c. refl,
        refl,
      )
    ]

lt_unless : (block : ℕ → ℕ) (i k b : ℕ) → i < suc k → block i ≡ b → block k ≢ b → i < k
lt_unless block i k b hi e ne = elim (ℕ_discrete i k) [
  | yes q ↦ absurd (ne (rw (← q) e))
  | no other ↦ omega arith
]

staged_hit :
    (log : Log) (s : Store) (b k i : ℕ) → i < k → log.block i ≡ b → staged log s k b ≡ content s b
staged_hit log s b zero i hi e = absurd (omega arith)
staged_hit log s b (suc k) i hi e = elim (ℕ_discrete (log.block k) b) [
  | yes hit ↦ rw (hit, ==_refl)
  | no miss ↦
      rw (==_ne (log.block k) b miss)
        (staged_hit log s b k i (lt_unless (log.block) i k b hi e miss) e)
]

module _ {b : ℕ} {log log' : Log} (s s' : Store) (noted : Noted b log log')
    (same : (c : ℕ) → content s' c ≡ content s c) (disk : s'.disk ≡ s.disk) where
  staged_same : (k c : ℕ) → k ≤ log.n → staged log' s' k c ≡ staged log s k c
  staged_same zero c h = ap (λ (d : ℕ → Block). d c) disk
  staged_same (suc k) c h =
      rw (noted.entries k (omega arith), same c, staged_same k c (omega arith))

  staged_miss : (c : ℕ) → c ≢ b → staged log' s' log'.n c ≡ staged log s log.n c
  staged_miss c ne = staged_count noted.count
    where
      staged_count :
          (log'.n ≡ log.n) ⊎ ((log'.n ≡ log.n + 1) × (log'.block log.n ≡ b))
          → staged log' s' log'.n c ≡ staged log s log.n c
      staged_count (inl e) = rw e (staged_same log.n c (omega arith))
      staged_count (inr (e, new)) =
          let e' : log'.n ≡ suc log.n = omega arith in
          rw (e', new, ==_ne b c (λ q. ne (sym q))) (staged_same log.n c (omega arith))

Noted-IsHome :
    {b : ℕ} {log log' : Log} {s : Store}
    → Noted b log log'
    → IsReady log s
    → IsHome log.start log.size b
    → (i : ℕ) → i < log'.n
    → IsHome log'.start log'.size (log'.block i)
Noted-IsHome {b} {log} {log'} noted ready home i hi = elim (dec_lt i log.n) [
  | yes old ↦ rw (noted.entries i old, noted.start, noted.size) (ready.homes i old)
  | no new ↦
      let last : i ≡ log.n = ground (arith, noted.count) in
      let holds : log'.block log.n ≡ b = ground (arith, noted.count) in
      rw (last, holds, noted.start, noted.size) home
]

-- `log_write` of a home block, within the space of the log and inside an operation, does not
-- panic; it keeps the log ready, and what a commit would write is as before but for that block,
-- which is now as it is in its buffer.
pub log_write-staged :
    (b : ℕ) (log : Log) (s : Store)
    → IsReady log s
    → IsHome log.start log.size b
    → log.n < logsize
    → log.n + 1 < log.size
    → 0 < log.outstanding
    → (log' : Log) × (s' : Store) × (log_write b log s ≡ some (log', s'))
      × IsReady log' s'
      × (staged log' s' log'.n b ≡ content s b)
      × ((c : ℕ) → c ≢ b → staged log' s' log'.n c ≡ staged log s log.n c)
log_write-staged b log s ready home small fits open_op =
    let (log', s', ran, noted, same, disk) = log_write-Noted b log s small fits open_op in
    (
      log',
      s',
      ran,
      record {
        fits = ground (arith, noted.count, noted.size);
        small = ground (arith, noted.count);
        homes = Noted-IsHome noted ready home;
        empty = rw (disk, noted.start) ready.empty;
      },
      staged_hit log' s' b log'.n noted.slot noted.slot_in noted.slot_holds ∙ same b,
      staged_miss s s' noted same disk,
    )
