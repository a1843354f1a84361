-- ===== src/Fs/Bitmap/Free.antt =====
-- `bfree` against the set of the blocks in use.
use native.Mathlib.Decide.{ℕ_discrete}
use csse332lab.Base.{
  ℕ, ◌%◌, ◌<◌, ◌≡◌, ◌≢◌, refl, ap, sym, subst, ◌∙◌, inl, inr, true, false, not, ◌&&◌, Option, none,
  some, arith, ◌==◌, if◌then◌else◌, Bool-cases, ==_ne, update, update_self, update_ne,
}
use csse332lab.Fs.{Fs}
use csse332lab.Fs.Bitmap.{bpb, bblock, is_clear, unmark, bfree}
use csse332lab.Fs.Bitmap.Bits.{AreBytes, is_clear-unmark, unmark-AreBytes}
use csse332lab.Fs.Bitmap.Alloc.{in_use, MapValid}

-- The block `b` is in use no more.
pub record Freed (b : ℕ) (fs fs' : Fs) : Type 0 where
  pub used : (c : ℕ) → c < fs.sb.size → in_use c fs' ≡ (not (c == b) && in_use c fs)
  pub others : (c : ℕ) → c ≢ bblock b fs → fs'.blocks c ≡ fs.blocks c
  pub itable : fs'.itable ≡ fs.itable
  pub sb : fs'.sb ≡ fs.sb
  pub valid : ((c : ℕ) → c < fs.sb.size → b ≢ bblock c fs) → MapValid fs'

pub data Bfree (b : ℕ) (fs : Fs) : Option (Unit {0} × Fs) → Type 0 where
  freed : (fs' : Fs) → in_use b fs ≡ true → Freed b fs fs' → Bfree b fs (some (tt, fs'))
  was_free : in_use b fs ≡ false → Bfree b fs none

abbrev cleared : ℕ → Fs → Fs
cleared b fs = record fs {
  blocks = update fs.blocks (bblock b fs) (unmark (fs.blocks (bblock b fs)) (b % bpb));
}

module _ (fs : Fs) (v : MapValid fs) (b : ℕ) (hb : b < fs.sb.size) where
  cleared_used : (c : ℕ) → c < fs.sb.size → in_use c (cleared b fs) ≡ (not (c == b) && in_use c fs)
  cleared_used c hc = elim (ℕ_discrete (bblock c fs) (bblock b fs)) [
    | yes e ↦
        let same : (c % bpb == b % bpb) ≡ (c == b) = ground arith in
        ap (λ m. not (is_clear m (c % bpb)))
          (ap (cleared b fs).blocks e ∙ update_self fs.blocks (bblock b fs) _)
        ∙ ap not (is_clear-unmark (fs.blocks (bblock b fs)) (v.bytes b hb) (b % bpb) (c % bpb))
        ∙ ap (λ x. not (if c % bpb == b % bpb then true else is_clear (fs.blocks x) (c % bpb)))
            (sym e)
        ∙ ap (λ t. not (if t then true else is_clear (fs.blocks (bblock c fs)) (c % bpb))) same
        ∙ ground arith
    | no ne ↦
        let apart : (c == b) ≡ false = ground arith in
        ap (λ m. not (is_clear m (c % bpb))) (update_ne fs.blocks (bblock b fs) (bblock c fs) _ ne)
        ∙ rw apart refl
  ]

  cleared-AreBytes : (c : ℕ) → c < fs.sb.size → AreBytes ((cleared b fs).blocks (bblock c fs))
  cleared-AreBytes c hc = elim (ℕ_discrete (bblock c fs) (bblock b fs)) [
    | yes e ↦
        subst AreBytes (sym (ap (cleared b fs).blocks e ∙ update_self fs.blocks (bblock b fs) _))
          (unmark-AreBytes (fs.blocks (bblock b fs)) (v.bytes b hb) (b % bpb))
    | no ne ↦
        subst AreBytes (sym (update_ne fs.blocks (bblock b fs) (bblock c fs) _ ne)) (v.bytes c hc)
  ]

  cleared-Freed : Freed b fs (cleared b fs)
  cleared-Freed = record {
    used = cleared_used;
    others = λ c ne. update_ne fs.blocks (bblock b fs) c _ ne;
    itable = refl;
    sb = refl;
    valid = λ no_map. record {
      bytes = cleared-AreBytes;
      apart = λ a c ha hc unused. elim (ℕ_discrete a b) [
        | yes e ↦ subst (λ x. x ≢ bblock c fs) (sym e) (no_map c hc)
        | no ne ↦
            v.apart a c ha hc (
              ap (λ t. not t && in_use a fs) (sym (==_ne a b ne))
              ∙ sym (cleared_used a ha)
              ∙ unused)
      ];
    };
  }

  -- With such a map, `bfree` of a block in use takes that block alone out of the map; of another it
  -- panics.
  pub bfree-Bfree : Bfree b fs (bfree b fs)
  unfolding bfree
  bfree-Bfree = elim (Bool-cases (is_clear (fs.blocks (bblock b fs)) (b % bpb))) [
    | inl clear ↦ rw clear (was_free (ap not clear))
    | inr set ↦ rw set (freed (cleared b fs) (ap not set) cleared-Freed)
  ]
