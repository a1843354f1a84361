-- ===== src/Log/Space.antt =====
-- The space of the log over the operations that run at once: `begin_op` lets one in only if every
-- operation inside can still log its ten blocks.
use mathlib.Core.Bool.{false≢true}
use native.Mathlib.Decide.{ℕ_discrete}
use csse332lab.Base.{
  ℕ, suc, ◌+◌, ◌-◌, ◌≤◌, ◌<◌, ◌≡◌, ◌≢◌, refl, ◌∙◌, sym, ap, inl, inr, Bool, true, false, Option,
  some, List, [], ◌∷◌, ◌++◌, arith, length, length-append, Bool-cases,
}
use csse332lab.Log.Blocks.{Store}
use csse332lab.Log.Absorb.{log_write-Noted}
use csse332lab.Log.{Log, logsize, maxopblocks, begin_op, leave_op, log_write, commit}

-- The log, and for each operation inside the blocks that it logged so far.
pub record Use : Type 0 where
  pub log : Log
  pub ops : List ℕ

-- The blocks that the operations inside may still log.
abbrev pub room : List ℕ → ℕ
room [] = 0
room (u ∷ us) = maxopblocks - u + room us

-- The steps of all processes, in the order in which they take `log.lock`. An operation logs at
-- most ten blocks.
pub data Step (v w : Use) : Type 0 where
  begins :
      (begin_op v.log).0 ≡ true
      → w ≡ record { log = (begin_op v.log).1; ops = 0 ∷ v.ops }
      → Step v w
  writes :
      (us : List ℕ) (u : ℕ) (vs : List ℕ) (b : ℕ) (s s' : Store) (log : Log)
      → v.ops ≡ us ++ u ∷ vs
      → u < maxopblocks
      → log_write b v.log s ≡ some (log, s')
      → w ≡ record { log = log; ops = us ++ suc u ∷ vs }
      → Step v w
  leaves :
      (us : List ℕ) (u : ℕ) (vs : List ℕ) (last : Bool) (log : Log)
      → v.ops ≡ us ++ u ∷ vs
      → leave_op v.log ≡ some (last, log)
      → w ≡ record { log = log; ops = us ++ vs }
      → Step v w
  commits :
      (s : Store)
      → v.log.committing ≡ true
      → w ≡ record { log = record (commit v.log s).0 { committing = false }; ops = v.ops }
      → Step v w

pub data Reach (v : Use) : Use → Type 0 where
  here : Reach v v
  next : {w x : Use} → Reach v w → Step w x → Reach v x

pub record Reserved (v : Use) : Type 0 where
  pub counted : v.log.outstanding ≡ length v.ops
  pub fits : v.log.n + room v.ops ≤ logsize
  pub quiet : v.log.committing ≡ true → v.ops ≡ []
  pub large : logsize < v.log.size

room-append : (us vs : List ℕ) → room (us ++ vs) ≡ room us + room vs
room-append [] vs = omega arith
room-append (u ∷ us) vs = omega (arith, room-append us vs)

not-nil : (us : List ℕ) (u : ℕ) (vs : List ℕ) → us ++ u ∷ vs ≢ []
not-nil [] u vs e = cc
not-nil (x ∷ us) u vs e = cc

not-committing :
    (v : Use) (us : List ℕ) (u : ℕ) (vs : List ℕ)
    → Reserved v
    → v.ops ≡ us ++ u ∷ vs
    → v.log.committing ≡ false
not-committing v us u vs r e = elim (Bool-cases v.log.committing) [
  | inl busy ↦ absurd (not-nil us u vs (sym e ∙ r.quiet busy))
  | inr idle ↦ idle
]

eq-nil : (us : List ℕ) → length us ≡ 0 → us ≡ []
eq-nil [] h = refl
eq-nil (u ∷ us) h = absurd (omega arith)

-- An operation that has logged fewer than ten blocks can log another.
pub log_write-Reserved :
    (v : Use) (us : List ℕ) (u : ℕ) (vs : List ℕ) (b : ℕ) (s : Store)
    → Reserved v
    → v.ops ≡ us ++ u ∷ vs
    → u < maxopblocks
    → (log : Log) × (s' : Store) × (log_write b v.log s ≡ some (log, s'))
      × Reserved (record { log = log; ops = us ++ suc u ∷ vs })
log_write-Reserved v us u vs b s r e hu =
    let total : room v.ops ≡ room us + (maxopblocks - u + room vs) =
      ap room e ∙ room-append us (u ∷ vs) in
    let many : length v.ops ≡ length us + suc (length vs) =
      ap length e ∙ length-append us (u ∷ vs) in
    let (log, s', ran, noted, same, disk) =
      log_write-Noted b v.log s (omega (arith, r.fits)) (omega (arith, r.fits, r.large))
        (omega (arith, r.counted)) in
    (
      log,
      s',
      ran,
      record {
        counted = noted.outstanding ∙ omega (arith, r.counted, length-append us (suc u ∷ vs));
        fits = ground (arith, noted.count, r.fits, total, room-append us (suc u ∷ vs));
        quiet = λ h. absurd (not-nil us u vs (sym e ∙ r.quiet (sym noted.committing ∙ h)));
        large = omega (arith, noted.size, r.large);
      },
    )

-- An operation inside can leave: `end_op` does not panic.
pub leave_op-Reserved :
    (v : Use) (us : List ℕ) (u : ℕ) (vs : List ℕ)
    → Reserved v
    → v.ops ≡ us ++ u ∷ vs
    → (last : Bool) × (log : Log) × (leave_op v.log ≡ some (last, log))
      × Reserved (record { log = log; ops = us ++ vs })
unfolding leave_op
leave_op-Reserved v us u vs r e =
    let total : room v.ops ≡ room us + (maxopblocks - u + room vs) =
      ap room e ∙ room-append us (u ∷ vs) in
    let many : length v.ops ≡ length us + suc (length vs) =
      ap length e ∙ length-append us (u ∷ vs) in
    let fewer : v.log.outstanding - 1 ≡ length (us ++ vs) =
      omega (arith, r.counted, length-append us vs) in
    let fits : v.log.n + room (us ++ vs) ≤ logsize = omega (arith, r.fits, room-append us vs) in
    let idle : v.log.committing ≡ false = not-committing v us u vs r e in
    let log = record v.log { outstanding = v.log.outstanding - 1 } in
    elim (ℕ_discrete (v.log.outstanding - 1) 0) [
      | yes last ↦ (
        true,
        record log { committing = true },
        ground arith,
        record {
          counted = fewer;
          fits = fits;
          quiet = λ h. eq-nil (us ++ vs) (sym fewer ∙ last);
          large = r.large;
        },
      )
      | no more ↦ (
        false,
        log,
        ground arith,
        record {
          counted = fewer;
          fits = fits;
          quiet = λ h. absurd (false≢true (sym idle ∙ h));
          large = r.large;
        },
      )
    ]
