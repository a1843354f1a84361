-- ===== src/Log/Replay.antt =====
-- What a disk stands for: its home blocks as a recovery would leave them.
use native.Mathlib.Decide.{ℕ_discrete}
use csse332lab.Base.{
  ℕ, zero, suc, ◌+◌, ◌≤◌, ◌<◌, ◌≡◌, ◌≢◌, ◌∙◌, sym, subst, ==_refl, ==_ne, ◌⊎◌, inl, inr, arith,
  ◌==◌, if◌then◌else◌, Bool-cases, update, update_ne,
}
use csse332lab.Log.Blocks.{Block}
use csse332lab.Log.{logsize}

module _ (start : ℕ) where
  -- The block `b` after the first `k` entries of the header on the disk `d` are installed in turn.
  abbrev pub replay : (ℕ → Block) → ℕ → ℕ → Block
  replay d zero b = d b
  replay d (suc k) b = if d start (k + 1) == b then d (start + k + 1) else replay d k b

  -- The header, and the logged copies of its first `k` entries, are the same on two disks.
  pub record SameLog (k : ℕ) (d e : ℕ → Block) : Type 0 where
    pub head : e start ≡ d start
    pub copies : (i : ℕ) → i < k → e (start + i + 1) ≡ d (start + i + 1)

  pub replay_frame :
      (d e : ℕ → Block) (k b : ℕ) → SameLog k d e → e b ≡ d b → replay e k b ≡ replay d k b
  replay_frame d e zero b same h = h
  replay_frame d e (suc k) b same h = rw (
    same.head,
    same.copies k (omega arith),
    replay_frame d e k b (record { head = same.head; copies = λ i hi. same.copies i (omega arith) })
        h,
  )

  -- A block with an entry is rebuilt from the log, whatever stood there.
  pub replay_hit :
      (d e : ℕ → Block) (k b j : ℕ)
      → SameLog k d e
      → j < k
      → d start (j + 1) ≡ b
      → replay e k b ≡ replay d k b
  replay_hit d e zero b j same hj hit = absurd (omega arith)
  replay_hit d e (suc k) b j same hj hit = elim (Bool-cases (d start (k + 1) == b)) [
    | inl yes_k ↦ rw (same.head, yes_k, same.copies k (omega arith))
    | inr no_k ↦
        rw (same.head, no_k)
          (replay_hit d e k b j
            (record { head = same.head; copies = λ i hi. same.copies i (omega arith) })
            (ground (arith)) hit)
  ]

  module _ (size : ℕ) where
    -- Outside the log.
    abbrev pub IsHome : ℕ → Type 0
    IsHome b = (b < start) ⊎ (start + size ≤ b)

    pub home_start : {b : ℕ} → 0 < size → IsHome b → start ≢ b
    home_start pos home = omega arith

    pub home_copy : {b : ℕ} (i : ℕ) → i + 1 < size → IsHome b → start + i + 1 ≢ b
    home_copy i hi home = omega arith

    -- The disk `d` has a log that fits, over home blocks, and its recovery leaves `f` in these.
    pub record StandsFor (d f : ℕ → Block) : Type 0 where
      pub fits : d start 0 < size
      pub small : d start 0 ≤ logsize
      pub homes : (i : ℕ) → i < d start 0 → IsHome (d start (i + 1))
      pub contents : (b : ℕ) → IsHome b → replay d (d start 0) b ≡ f b

    -- A write to a home block leaves the log alone.
    pub SameLog-update :
        (d : ℕ → Block) (a : ℕ) (c : Block) (k : ℕ)
        → k < size
        → IsHome a
        → SameLog k d (update d a c)
    SameLog-update d a c k fits home = record {
      head = update_ne d a start c (home_start (omega arith) home);
      copies = λ i hi. update_ne d a (start + i + 1) c (home_copy i (omega arith) home);
    }

    -- Writing the logged copy of an entry to its home changes nothing of that.
    pub StandsFor-install :
        (d f : ℕ → Block) (j : ℕ)
        → j < d start 0
        → StandsFor d f
        → StandsFor (update d (d start (j + 1)) (d (start + j + 1))) f
    StandsFor-install d f j hj v =
        let same =
          SameLog-update d (d start (j + 1)) (d (start + j + 1)) (d start 0) v.fits
            (v.homes j hj) in
        record {
          fits = rw same.head v.fits;
          small = rw same.head v.small;
          homes = rw same.head v.homes;
          contents = λ b hb. rw same.head (elim (ℕ_discrete (d start (j + 1)) b) [
            | yes hit ↦ replay_hit d _ _ b j same hj hit ∙ v.contents b hb
            | no miss ↦
                replay_frame d _ _ b same (update_ne d _ b _ (λ q. miss (sym q))) ∙ v.contents b hb
          ]);
        }

    -- One more entry installed.
    pub replay_step :
        (d : ℕ → Block) (j b : ℕ)
        → j + 1 < size
        → IsHome (d start (j + 1))
        → replay d j b ≡ d b
        → let e = update d (d start (j + 1)) (d (start + j + 1)) in replay e (j + 1) b ≡ e b
    replay_step d j b fits home h =
        let a = d start (j + 1) in
        let c = d (start + j + 1) in
        let e = update d a c in
        let same = SameLog-update d a c (j + 1) fits home in
        let count : suc j ≡ j + 1 = omega arith in
        subst (λ k. replay e k b ≡ e b) count
          (rw (same.head, same.copies j (omega arith))
            (elim (ℕ_discrete b a) [
              | yes hit ↦ rw (hit, ==_refl)
              | no miss ↦
                  rw (==_ne a b (λ q. miss (sym q)), ==_ne b a miss)
                    (replay_frame d e j b
                        (record { head = same.head; copies = λ i hi. same.copies i (omega arith) })
                        (update_ne d a b c miss)
                      ∙ h)
            ]))

    -- With no entries the home blocks are what they are on the disk.
    pub StandsFor-none :
        (d f : ℕ → Block)
        → 0 < size
        → d start 0 ≡ 0
        → ((b : ℕ) → IsHome b → d b ≡ f b)
        → StandsFor d f
    StandsFor-none d f pos none_left h = record {
      fits = omega arith;
      small = omega arith;
      homes = λ i hi. absurd (omega arith);
      contents = λ b home. rw none_left (h b home);
    }
