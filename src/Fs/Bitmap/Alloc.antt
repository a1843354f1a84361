-- ===== src/Fs/Bitmap/Alloc.antt =====
-- `balloc` against the set of the blocks in use.
use native.Mathlib.Decide.{ℕ_discrete, dec_lt}
use csse332lab.Base.{
  ℕ, zero, suc, ◌+◌, ◌-◌, ◌*◌, ◌/◌, ◌%◌, ◌≤◌, ◌<◌, ◌≡◌, ◌≢◌, refl, ap, sym, subst, ◌∙◌, inl, inr,
  Bool, true, false, not, ◌&&◌, ◌||◌, none, some, arith, ltb, ◌==◌, if◌then◌else◌, Bool-cases,
  Option-cases, ==_refl, ==_ne, update, update_self, update_ne,
}
use csse332lab.Fs.{Block, Fs}
use csse332lab.Fs.Bitmap.{bpb, bblock, is_clear, mark, free_bit, balloc_loop, balloc}
use csse332lab.Fs.Bitmap.Bits.{AreBytes, is_clear-mark, mark-AreBytes}

abbrev pub in_use : ℕ → Fs → Bool
in_use b fs = not (is_clear (fs.blocks (bblock b fs)) (b % bpb))

-- The map is made of bytes, and its own blocks are in use.
pub record MapValid (fs : Fs) : Type 0 where
  pub bytes : (c : ℕ) → c < fs.sb.size → AreBytes (fs.blocks (bblock c fs))
  pub apart : (b c : ℕ) → b < fs.sb.size → c < fs.sb.size → in_use b fs ≡ false → b ≢ bblock c fs

-- The block `b` is taken, and zero.
pub record Allocated (b : ℕ) (fs fs' : Fs) : Type 0 where
  pub used : (c : ℕ) → c < fs.sb.size → in_use c fs' ≡ (c == b || in_use c fs)
  pub zeroed : (i : ℕ) → fs'.blocks b i ≡ 0
  pub others : (c : ℕ) → c ≢ b → c ≢ bblock b fs → fs'.blocks c ≡ fs.blocks c
  pub itable : fs'.itable ≡ fs.itable
  pub sb : fs'.sb ≡ fs.sb

pub data Balloc (fs : Fs) : ℕ × Fs → Type 0 where
  given :
      (b : ℕ) (fs' : Fs)
      → b < fs.sb.size
      → in_use b fs ≡ false
      → Allocated b fs fs'
      → MapValid fs'
      → Balloc fs (b, fs')
  full : ((c : ℕ) → c < fs.sb.size → in_use c fs ≡ true) → Balloc fs (0, fs)

free_bit-some :
    (map : Block) (size b k bi r : ℕ)
    → free_bit map size b k bi ≡ some r
    → (bi ≤ r) × (r < bi + k) × (b + r < size) × (is_clear map r ≡ true)
unfolding free_bit
free_bit-some map size b zero bi r h = cc
free_bit-some map size b (suc k) bi r h = elim (Bool-cases (ltb (b + bi) size)) [
  | inr out ↦ absurd (no_bit (rw out at h))
  | inl in_range ↦ elim (Bool-cases (is_clear map bi)) [
    | inl clear ↦
        let e : bi ≡ r = some_bit (rw (in_range, clear) at h) in
        (omega arith, omega arith, ground arith, rw (← e) clear)
    | inr set ↦
        let (lo, hi, lt, c) = free_bit-some map size b k (bi + 1) r (rw (in_range, set) at h) in
        (omega arith, omega arith, lt, c)
  ]
]
  where
    no_bit : none ≢ some r
    no_bit e = cc

    some_bit : some bi ≡ some r → bi ≡ r
    some_bit e = cc

free_bit-none :
    (map : Block) (size b k bi r : ℕ)
    → free_bit map size b k bi ≡ none
    → bi ≤ r
    → r < bi + k
    → b + r < size
    → is_clear map r ≡ false
unfolding free_bit
free_bit-none map size b zero bi r h lo hi lt = absurd (omega arith)
free_bit-none map size b (suc k) bi r h lo hi lt =
    let in_range : ltb (b + bi) size ≡ true = ground arith in
    elim (Bool-cases (is_clear map bi)) [
      | inl clear ↦ absurd (some_none (rw (in_range, clear) at h))
      | inr set ↦ elim (ℕ_discrete bi r) [
        | yes e ↦ rw (← e) set
        | no ne ↦
            free_bit-none map size b k (bi + 1) r (rw (in_range, set) at h) (omega arith)
              (omega arith) lt
      ]
    ]
  where
    some_none : some bi ≢ none
    some_none e = cc

-- The state with the block `b` marked and zeroed.
abbrev taken : ℕ → Fs → Fs
taken b fs = record fs {
  blocks =
      update (update fs.blocks (bblock b fs) (mark (fs.blocks (bblock b fs)) (b % bpb))) b (λ i. 0);
}

module _ (fs : Fs) (v : MapValid fs) (b : ℕ) (hb : b < fs.sb.size)
    (free : in_use b fs ≡ false) where
  -- The blocks of the map, behind.
  taken_map :
      (c : ℕ)
      → c < fs.sb.size
      → (taken b fs).blocks (bblock c fs) ≡ (
          if bblock c fs == bblock b fs
          then mark (fs.blocks (bblock b fs)) (b % bpb)
          else fs.blocks (bblock c fs))
  taken_map c hc =
      update_ne (update fs.blocks (bblock b fs) (mark (fs.blocks (bblock b fs)) (b % bpb))) b
        (bblock c fs) (λ i. 0) (λ e. v.apart b c hb hc free (sym e))

  taken_used : (c : ℕ) → c < fs.sb.size → in_use c (taken b fs) ≡ (c == b || in_use c fs)
  taken_used c hc = elim (ℕ_discrete (bblock c fs) (bblock b fs)) [
    | yes e ↦
        let same : (c % bpb == b % bpb) ≡ (c == b) = ground arith in
        ap (λ m. not (is_clear m (c % bpb))) (taken_map c hc)
        ∙ ap
            (λ t. not (
              is_clear
                (if t then mark (fs.blocks (bblock b fs)) (b % bpb) else fs.blocks (bblock c fs))
                (c % bpb)))
            (ap (λ x. x == bblock b fs) e ∙ ==_refl (bblock b fs))
        ∙ ap not (is_clear-mark (fs.blocks (bblock b fs)) (v.bytes b hb) (b % bpb) (c % bpb))
        ∙ ap (λ x. not (not (c % bpb == b % bpb) && is_clear (fs.blocks x) (c % bpb))) (sym e)
        ∙ ap (λ t. not (not t && is_clear (fs.blocks (bblock c fs)) (c % bpb))) same
        ∙ ground arith
    | no ne ↦
        let apart : (c == b) ≡ false = ground arith in
        ap (λ m. not (is_clear m (c % bpb))) (taken_map c hc)
        ∙ rw (==_ne (bblock c fs) (bblock b fs) ne, apart) refl
  ]

  taken-AreBytes : (c : ℕ) → c < fs.sb.size → AreBytes ((taken b fs).blocks (bblock c fs))
  taken-AreBytes c hc =
      subst AreBytes (sym (taken_map c hc)) (elim (Bool-cases (bblock c fs == bblock b fs)) [
        | inl same ↦ rw same (mark-AreBytes (fs.blocks (bblock b fs)) (v.bytes b hb) (b % bpb))
        | inr other ↦ rw other (v.bytes c hc)
      ])

  taken-MapValid : MapValid (taken b fs)
  taken-MapValid = record {
    bytes = taken-AreBytes;
    apart = λ a c ha hc unused.
        v.apart a c ha hc (or_right (a == b) (in_use a fs) (sym (taken_used a ha) ∙ unused));
  }
    where
      or_right : (x y : Bool) → (x || y) ≡ false → y ≡ false
      or_right true y h = cc
      or_right false y h = h

  taken-Allocated : Allocated b fs (taken b fs)
  taken-Allocated = record {
    used = taken_used;
    zeroed = λ i. ap (λ (f : Block). f i) (update_self marked b (λ i. 0));
    others = λ c ne ne_map.
        update_ne marked b c (λ i. 0) ne
        ∙ update_ne fs.blocks (bblock b fs) c (mark (fs.blocks (bblock b fs)) (b % bpb)) ne_map;
    itable = refl;
    sb = refl;
  }
    where
      marked : ℕ → Block
      marked = update fs.blocks (bblock b fs) (mark (fs.blocks (bblock b fs)) (b % bpb))

balloc_loop-Balloc :
    (k q : ℕ) (fs : Fs)
    → MapValid fs
    → fs.sb.size < q * 8192 + k * 8192
    → ((c : ℕ) → c < q * 8192 → c < fs.sb.size → in_use c fs ≡ true)
    → Balloc fs (balloc_loop k (q * 8192) fs)
unfolding balloc_loop
balloc_loop-Balloc zero q fs v enough before = full (λ c hc. before c (omega arith) hc)
balloc_loop-Balloc (suc k) q fs v enough before = elim (Bool-cases (ltb (q * 8192) fs.sb.size)) [
  | inr past ↦ rw past (full (λ c hc. before c (ground arith) hc))
  | inl more ↦
      rw more
        (elim (Option-cases
          (free_bit (fs.blocks (bblock (q * 8192) fs)) fs.sb.size (q * 8192) bpb 0)) [
            | inl no_bit ↦ rw no_bit (
                let next : q * 8192 + bpb ≡ (q + 1) * 8192 = omega arith in
                rw next (
                  balloc_loop-Balloc k (q + 1) fs v (omega arith) (λ c hc lt.
                    elim (dec_lt c (q * 8192)) [
                      | yes h ↦ before c h lt
                      | no h ↦
                          let r : c % bpb ≡ c - q * 8192 = omega arith in
                          let same : bblock (q * 8192) fs ≡ bblock c fs = omega arith in
                          let set =
                            free_bit-none (fs.blocks (bblock (q * 8192) fs)) fs.sb.size (q * 8192)
                              bpb 0 (c - q * 8192) no_bit (omega arith) (omega arith)
                              (omega arith) in
                          ap not (
                            ap (λ m. is_clear m (c % bpb)) (ap fs.blocks (sym same))
                            ∙ ap (is_clear (fs.blocks (bblock (q * 8192) fs))) r
                            ∙ set)
                    ])))
            | inr (bi, found) ↦
                let (lo, hi, lt, clear) =
                  free_bit-some (fs.blocks (bblock (q * 8192) fs)) fs.sb.size (q * 8192) bpb 0 bi
                    found in
                let r : (q * 8192 + bi) % bpb ≡ bi = omega arith in
                let same : bblock (q * 8192 + bi) fs ≡ bblock (q * 8192) fs = omega arith in
                rw found (taken_given (q * 8192 + bi) (q * 8192) bi lt r same clear)
          ])
]
  where
    taken_given :
        (b at bi : ℕ)
        → b < fs.sb.size
        → b % bpb ≡ bi
        → bblock b fs ≡ bblock at fs
        → is_clear (fs.blocks (bblock at fs)) bi ≡ true
        → Balloc fs (
          b,
          record fs {
            blocks =
                update
                  (update fs.blocks (bblock at fs) (mark (fs.blocks (bblock at fs)) bi))
                  b
                  (λ i. 0);
          },
        )
    taken_given b at bi hb r same clear =
        let free : in_use b fs ≡ false =
          ap (λ x. not (is_clear (fs.blocks x) (b % bpb))) same
          ∙ ap (λ x. not (is_clear (fs.blocks (bblock at fs)) x)) r
          ∙ ap not clear in
        let given_b : Balloc fs (b, taken b fs) =
          given b (taken b fs) hb free (taken-Allocated fs v b hb free)
            (taken-MapValid fs v b hb free) in
        subst
          (λ x. Balloc fs (
            b,
            record fs { blocks = update (update fs.blocks x (mark (fs.blocks x) bi)) b (λ i. 0) },
          ))
          same
          (subst
            (λ x. Balloc fs (
              b,
              record fs {
                blocks =
                    update (update fs.blocks (bblock b fs) (mark (fs.blocks (bblock b fs)) x)) b
                      (λ i. 0);
              },
            ))
            r given_b)

-- With a map of bytes whose own blocks are in use, `balloc` gives a block of the disk that was not
-- in use, zeroed, and marks that block alone as in use; it gives 0 and changes nothing only if all
-- blocks are in use.
pub balloc-Balloc : (fs : Fs) → MapValid fs → (r : ℕ × Fs) × (balloc fs ≡ some r) × Balloc fs r
unfolding balloc
balloc-Balloc fs v = (
  balloc_loop (fs.sb.size / bpb + 1) 0 fs,
  refl,
  balloc_loop-Balloc (fs.sb.size / bpb + 1) 0 fs v (omega arith) (λ c h. absurd (omega arith)),
)
