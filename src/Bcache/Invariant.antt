-- ===== src/Bcache/Invariant.antt =====
-- What every sequence of calls of the buffer cache keeps.
use native.Mathlib.Decide.{ℕ_discrete}
use csse332lab.Base.{
  count, count-front, count-other, count_le, ℕ, ◌+◌, ◌^◌, ◌<◌, ◌≡◌, ◌≢◌, refl, sym, subst, ◌∙◌, ap,
  inl, inr, List, ◌∷◌, ◌++◌, arith, ◌==◌, ==_refl, ==_ne, Bool-cases, update, update_self,
  update_ne, length, length-append, All, All-front,
}
use csse332lab.Bcache.{nbuf, Buf, Bcache, set_buf, incr, decr, to_front, unlink, put_ref}
use csse332lab.Bcache.Order.{set_buf-IsRing, move-IsRing}
use csse332lab.Bcache.Steps.{Sound}

-- A change of one buffer that leaves its block as it is.
module _ (s : Bcache) (b : ℕ) (x : Buf) where
  pub same :
      x.dev ≡ (s.buf b).dev
      → x.blockno ≡ (s.buf b).blockno
      → (c : ℕ)
      → ((update s.buf b x c).dev ≡ (s.buf c).dev)
        × ((update s.buf b x c).blockno ≡ (s.buf c).blockno)
  same d n c = elim (ℕ_discrete c b) [
    | yes e ↦ rw (e, ==_refl b) (d, n)
    | no ne ↦ rw (==_ne c b ne) (refl, refl)
  ]

  touch-Sound :
      (refs refs' : List ℕ)
      → b < nbuf
      → x.dev ≡ (s.buf b).dev
      → x.blockno ≡ (s.buf b).blockno
      → x.refcnt ≡ count b refs'
      → ((c : ℕ) → c ≢ b → count c refs' ≡ count c refs)
      → length refs' < 2 ^ 32
      → All (λ c. c < nbuf) refs'
      → Sound s refs
      → Sound (set_buf b x s) refs'
  touch-Sound refs refs' lt d n r others few range h = record {
    ring = (h.ring.0, set_buf-IsRing s b x h.ring.0 h.ring.1);
    unique = λ i j hi hj ne ed en.
        let (di, ni) = same d n i in
        let (dj, nj) = same d n j in
        h.unique i j hi hj (λ e. ne (di ∙ e)) (sym di ∙ ed ∙ dj) (sym ni ∙ en ∙ nj);
    counted = λ c hc. elim (ℕ_discrete c b) [
      | yes e ↦
          subst (λ c. (update s.buf b x c).refcnt ≡ count c refs') (sym e)
            (ap (λ y. y.refcnt) (update_self s.buf b x) ∙ r)
      | no ne ↦ ap (λ y. y.refcnt) (update_ne s.buf b c x ne) ∙ h.counted c hc ∙ sym (others c ne)
    ];
    range = range;
    few = few;
  }

  -- A change of its other fields.
  pub work-Sound :
      (refs : List ℕ)
      → b < nbuf
      → x.dev ≡ (s.buf b).dev
      → x.blockno ≡ (s.buf b).blockno
      → x.refcnt ≡ (s.buf b).refcnt
      → Sound s refs
      → Sound (set_buf b x s) refs
  work-Sound refs lt d n r h =
      touch-Sound refs refs lt d n (r ∙ h.counted b lt) (λ c ne. refl) h.few h.range h

-- A reference more, and one less.
pub more-Sound :
    (s : Bcache) (b : ℕ) (refs : List ℕ)
    → b < nbuf
    → length refs + 1 < 2 ^ 32
    → Sound s refs
    → Sound (set_buf b (record (s.buf b) { refcnt = incr (s.buf b).refcnt }) s) (b ∷ refs)
more-Sound s b refs lt few h =
    touch-Sound s b (record (s.buf b) { refcnt = incr (s.buf b).refcnt }) refs (b ∷ refs) lt refl
      refl (rw (h.counted b lt) (let le = count_le b refs in ground arith)) (λ c ne. ground arith)
      (omega arith) (lt, h.range) h

module _ (s : Bcache) (b : ℕ) (xs ys : List ℕ) where
  pub less-Sound :
      Sound s (xs ++ b ∷ ys)
      → Sound (set_buf b (record (s.buf b) { refcnt = decr (s.buf b).refcnt }) s) (xs ++ ys)
  less-Sound h =
      let (lt, range) = All-front (λ c. c < nbuf) b xs ys h.range in
      let le = count_le b (xs ++ b ∷ ys) in
      let front = count-front b xs ys in
      touch-Sound s b (record (s.buf b) { refcnt = decr (s.buf b).refcnt }) (xs ++ b ∷ ys)
        (xs ++ ys) lt refl refl (rw (h.counted b lt, front) (omega (arith, h.few)))
        (λ c ne. sym (count-other c b xs ys ne))
        (omega (arith, h.few, length-append xs (b ∷ ys), length-append xs ys)) range h

  pub put_ref-Sound : Sound s (xs ++ b ∷ ys) → Sound (put_ref b s) (xs ++ ys)
  unfolding put_ref to_front unlink
  put_ref-Sound h =
      let t = set_buf b (record (s.buf b) { refcnt = decr (s.buf b).refcnt }) s in
      let (lt, _) = All-front (λ c. c < nbuf) b xs ys h.range in
      elim (Bool-cases ((t.buf b).refcnt == 0)) [
        | inl e ↦ rw e (front-Sound t b (xs ++ ys) lt (less-Sound h))
        | inr e ↦ rw e (less-Sound h)
      ]
    where
      front-Sound :
          (t : Bcache) (b : ℕ) (refs : List ℕ)
          → b < nbuf
          → Sound t refs
          → Sound (to_front b (unlink b t)) refs
      front-Sound t b refs lt h =
          let (us, vs, _, ring) = move-IsRing t b h.ring.0 lt h.ring.1 in
          record {
            ring = (b ∷ (us ++ vs), ring);
            unique = h.unique;
            counted = h.counted;
            range = h.range;
            few = h.few;
          }
