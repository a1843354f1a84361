-- ===== src/Bcache/Search.antt =====
-- What `bget` finds: the searches of the list, from its front and from its end.
use native.Mathlib.Decide.{ℕ_discrete}
use csse332lab.Base.{
  In, ℕ, zero, suc, ◌+◌, ◌<◌, ◌≡◌, ◌≢◌, refl, sym, subst, ap, List, [], ◌∷◌, ◌++◌, arith, ==_ne,
  ==_refl, false, Option, none, some, inl, inr, All, All-append, length, length-append,
}
use csse332lab.Bcache.{head, nbuf, Bcache, set_buf, incr, find_cached, find_unused, bget}
use csse332lab.Bcache.Links.{Links}
use csse332lab.Bcache.Order.{IsRing, head-Avoids}

-- The list from the least recently used buffer on.
pub reverse : List ℕ → List ℕ
reverse [] = []
reverse (x ∷ xs) = reverse xs ++ x ∷ []

length-reverse : (xs : List ℕ) → length (reverse xs) ≡ length xs
unfolding reverse
length-reverse [] = refl
length-reverse (x ∷ xs) = rw (length-append (reverse xs) (x ∷ []), length-reverse xs) (omega arith)

pub All-reverse : (P : ℕ → Type 0) (xs : List ℕ) → All P xs → All P (reverse xs)
unfolding reverse
All-reverse P [] h = tt
All-reverse P (x ∷ xs) h = All-append P (reverse xs) (x ∷ []) (All-reverse P xs h.1) (h.0, tt)

Links-snoc :
    (next prev : ℕ → ℕ) (a : ℕ) (xs : List ℕ) (y z : ℕ)
    → Links next prev a xs y
    → next y ≡ z
    → prev z ≡ y
    → Links next prev a (xs ++ y ∷ []) z
Links-snoc next prev a [] y z l n p = (l.0, l.1, (n, p))
Links-snoc next prev a (x ∷ xs) y z l n p = (l.0, l.1, Links-snoc next prev x xs y z l.2 n p)

Links-reverse :
    (next prev : ℕ → ℕ) (a : ℕ) (xs : List ℕ) (z : ℕ)
    → Links next prev a xs z
    → Links prev next z (reverse xs) a
unfolding reverse
Links-reverse next prev a [] z l = (l.1, l.0)
Links-reverse next prev a (x ∷ xs) z l =
    Links-snoc prev next z (reverse xs) x a (Links-reverse next prev x xs z l.2) l.1 l.0

-- What a search for the first buffer with `P` gives.
pub data Found (P : ℕ → Type 0) (xs : List ℕ) : Option ℕ → Type 0 where
  at :
      (b : ℕ) (ys zs : List ℕ) → xs ≡ ys ++ b ∷ zs → P b → All (λ c. ¬ P c) ys → Found P xs (some b)
  nowhere : All (λ c. ¬ P c) xs → Found P xs none

-- A buffer in front that has not `P`.
skip :
    (P : ℕ → Type 0) (x : ℕ) (xs : List ℕ) (r : Option ℕ)
    → ¬ P x
    → Found P xs r
    → Found P (x ∷ xs) r
skip P x xs (some _) ne (at b ys zs e is before) =
    at b (x ∷ ys) zs (ap (λ l. x ∷ l) e) is (ne, before)
skip P x xs none ne (nowhere h) = nowhere (ne, h)

module _ (s : Bcache) where
  abbrev pub Caches : (dev blockno : ℕ) → ℕ → Type 0
  Caches dev blockno b = ((s.buf b).dev ≡ dev) × ((s.buf b).blockno ≡ blockno)

  abbrev pub Unused : ℕ → Type 0
  Unused b = (s.buf b).refcnt ≡ 0

  find_cached-Found :
      (dev blockno : ℕ) (k a : ℕ) (xs : List ℕ)
      → Links s.next s.prev a xs head
      → All (λ x. head ≢ x) xs
      → length xs < k
      → Found (Caches dev blockno) xs (find_cached dev blockno s k (s.next a))
  unfolding find_cached
  find_cached-Found dev blockno zero a xs l h lt = absurd (omega arith)
  find_cached-Found dev blockno (suc k) a [] l h lt = rw l.0 (nowhere tt)
  find_cached-Found dev blockno (suc k) a (x ∷ xs) l h lt =
      let rest = find_cached-Found dev blockno k x xs l.2 h.1 (omega arith) in
      rw (l.0, ==_ne x head (λ e. h.0 (sym e)))
        (elim (ℕ_discrete (s.buf x).dev dev) [
          | no ne ↦ rw (==_ne (s.buf x).dev dev ne) (
              skip (Caches dev blockno) x xs (find_cached dev blockno s k (s.next x)) (λ c. ne c.0)
                rest)
          | yes e ↦ elim (ℕ_discrete (s.buf x).blockno blockno) [
            | no ne ↦
                rw (e, ==_refl dev, ==_ne (s.buf x).blockno blockno ne)
                  (skip (Caches dev blockno) x xs (find_cached dev blockno s k (s.next x))
                    (λ c. ne c.1) rest)
            | yes e' ↦ rw (e, ==_refl dev, e', ==_refl blockno) (at x [] xs refl (e, e') tt)
          ]
        ])

  find_unused-Found :
      (k a : ℕ) (xs : List ℕ)
      → Links s.prev s.next a xs head
      → All (λ x. head ≢ x) xs
      → length xs < k
      → Found Unused xs (find_unused s k (s.prev a))
  unfolding find_unused
  find_unused-Found zero a xs l h lt = absurd (omega arith)
  find_unused-Found (suc k) a [] l h lt = rw l.0 (nowhere tt)
  find_unused-Found (suc k) a (x ∷ xs) l h lt =
      let rest = find_unused-Found k x xs l.2 h.1 (omega arith) in
      rw (l.0, ==_ne x head (λ e. h.0 (sym e)))
        (elim (ℕ_discrete (s.buf x).refcnt 0) [
          | no ne ↦
              rw (==_ne (s.buf x).refcnt 0 ne)
                (skip Unused x xs (find_unused s k (s.prev x)) ne rest)
          | yes e ↦ rw e (at x [] xs refl e tt)
        ])

  -- What `bget` does: a buffer of the block gets a reference; without one, the last in the list
  -- that has none is taken for the block; without that, it panics.
  pub data Gets (dev blockno : ℕ) (xs : List ℕ) : Option (ℕ × Bcache) → Type 0 where
    cached :
        (b : ℕ)
        → In b xs
        → Caches dev blockno b
        → Gets dev blockno xs
            (some (b, set_buf b (record (s.buf b) { refcnt = incr (s.buf b).refcnt }) s))
    recycled :
        (b : ℕ) (ys zs : List ℕ)
        → reverse xs ≡ ys ++ b ∷ zs
        → All (λ c. ¬ Unused c) ys
        → Unused b
        → All (λ c. ¬ Caches dev blockno c) xs
        → Gets dev blockno xs (
            some (
              b,
              set_buf b
                  (record (s.buf b) { dev = dev; blockno = blockno; valid = false; refcnt = 1 })
                  s,
            ))
    all_used :
        All (λ c. ¬ Caches dev blockno c) xs
        → All (λ c. ¬ Unused c) (reverse xs)
        → Gets dev blockno xs none

  In-at : (b : ℕ) (ys zs : List ℕ) → In b (ys ++ b ∷ zs)
  In-at b [] zs = inl refl
  In-at b (y ∷ ys) zs = inr (In-at b ys zs)

  -- `bget` when its searches have given `c` and `u`.
  abbrev outcome : (dev blockno : ℕ) (c u : Option ℕ) → Option (ℕ × Bcache)
  outcome dev blockno c u = elim c [
    | some b ↦ some (b, set_buf b (record (s.buf b) { refcnt = incr (s.buf b).refcnt }) s)
    | none ↦ elim u [
      | some b ↦ some (
        b,
        set_buf b (record (s.buf b) { dev = dev; blockno = blockno; valid = false; refcnt = 1 }) s,
      )
      | none ↦ none
    ]
  ]

  outcome-Gets :
      (dev blockno : ℕ) (xs : List ℕ) (c u : Option ℕ)
      → Found (Caches dev blockno) xs c
      → Found Unused (reverse xs) u
      → Gets dev blockno xs (outcome dev blockno c u)
  outcome-Gets dev blockno xs (some _) u (at b ys zs e is before) hu =
      cached b (subst (In b) (sym e) (In-at b ys zs)) is
  outcome-Gets dev blockno xs none (some _) (nowhere miss) (at b ys zs e is before) =
      recycled b ys zs e before is miss
  outcome-Gets dev blockno xs none none (nowhere miss) (nowhere used) = all_used miss used

  -- The buffers form the list `xs`, each of them once. Then `bget` gives a buffer of the block, if
  -- there is one, with a reference more; if there is none, it takes the buffer without a reference
  -- that was used least recently (all behind it in the list are in use); it panics only if all
  -- buffers are in use. The searches end within their rounds.
  pub bget-Gets :
      (dev blockno : ℕ) (xs : List ℕ) → IsRing s xs → Gets dev blockno xs (bget dev blockno s)
  unfolding bget
  bget-Gets dev blockno xs r =
      let away = head-Avoids xs r.listed.buffers in
      outcome-Gets dev blockno xs (find_cached dev blockno s (nbuf + 1) (s.next head))
        (find_unused s (nbuf + 1) (s.prev head))
        (find_cached-Found dev blockno (nbuf + 1) head xs r.listed.links away
          (omega (arith, r.number)))
        (find_unused-Found (nbuf + 1) head (reverse xs)
          (Links-reverse s.next s.prev head xs head r.listed.links)
          (All-reverse (λ x. head ≢ x) xs away) (omega (arith, r.number, length-reverse xs)))
