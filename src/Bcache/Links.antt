-- ===== src/Bcache/Links.antt =====
-- A list through `next` and `prev`, and what `unlink` and `to_front` do to it.
use csse332lab.Base.{
  ℕ, ◌≡◌, ◌≢◌, sym, subst, ◌∙◌, ap, List, [], ◌∷◌, ◌++◌, update, update_self, update_ne, All,
  All-mono, All-append_left, Avoids, Distinct, All-front,
}

-- From `a` through `xs` to `z`, forwards and backwards.
abbrev pub Links : (next prev : ℕ → ℕ) → ℕ → List ℕ → ℕ → Type 0
Links next prev a [] z = (next a ≡ z) × (prev z ≡ a)
Links next prev a (x ∷ xs) z = (next a ≡ x) × (prev x ≡ a) × Links next prev x xs z

-- Links that are not touched stay.
pub Links-same :
    (next prev next' prev' : ℕ → ℕ) (a : ℕ) (xs : List ℕ) (z : ℕ)
    → Links next prev a xs z
    → All (λ c. next' c ≡ next c) (a ∷ xs)
    → All (λ c. prev' c ≡ prev c) xs
    → prev' z ≡ prev z
    → Links next' prev' a xs z
Links-same next prev next' prev' a [] z l n p e = (n.0 ∙ l.0, e ∙ l.1)
Links-same next prev next' prev' a (x ∷ xs) z l n p e =
    (n.0 ∙ l.0, p.0 ∙ l.1, Links-same next prev next' prev' x xs z l.2 n.1 p.1 e)

-- A write at `c` does not touch what avoids it.
pub update-Avoids :
    (f : ℕ → ℕ) (c v : ℕ) (xs : List ℕ) → Avoids c xs → All (λ x. update f c v x ≡ f x) xs
update-Avoids f c v xs h =
    All-mono (λ x. c ≢ x) (λ x. update f c v x ≡ f x) (λ x ne. update_ne f c x v (λ e. ne (sym e)))
      xs h

pub Avoids-right : (a : ℕ) (xs ys : List ℕ) → Avoids a (xs ++ ys) → Avoids a ys
Avoids-right a [] ys h = h
Avoids-right a (x ∷ xs) ys h = Avoids-right a xs ys h.1

module _ (next prev : ℕ → ℕ) (b : ℕ) where
  -- The neighbours of `b` are among the elements before it and behind it.
  prev_ne :
      (c a : ℕ) (ys zs : List ℕ) (z : ℕ)
      → Links next prev a (ys ++ b ∷ zs) z
      → c ≢ a
      → Avoids c ys
      → c ≢ prev b
  prev_ne c a [] zs z l ne h = λ e. ne (e ∙ l.1)
  prev_ne c a (y ∷ ys) zs z l ne h = prev_ne c y ys zs z l.2 h.0 h.1

  pub next_ne :
      (c a : ℕ) (ys zs : List ℕ) (z : ℕ)
      → Links next prev a (ys ++ b ∷ zs) z
      → c ≢ z
      → Avoids c zs
      → c ≢ next b
  next_ne c a [] [] z l ne h = λ e. ne (e ∙ l.2.0)
  next_ne c a [] (w ∷ zs) z l ne h = λ e. h.0 (e ∙ l.2.0)
  next_ne c a (y ∷ ys) zs z l ne h = next_ne c y ys zs z l.2 ne h

  abbrev pub next' : ℕ → ℕ
  next' = update next (prev b) (next b)

  abbrev pub prev' : ℕ → ℕ
  prev' = update prev (next b) (prev b)

  pub Links-unlink :
      (a : ℕ) (ys zs : List ℕ) (z : ℕ)
      → Links next prev a (ys ++ b ∷ zs) z
      → Distinct (ys ++ b ∷ zs)
      → Avoids a (ys ++ b ∷ zs)
      → Avoids z (ys ++ b ∷ zs)
      → Links next' prev' a (ys ++ zs) z
  Links-unlink a [] [] z l d ha hz = (
    ap next' (sym l.1) ∙ update_self next (prev b) (next b) ∙ l.2.0,
    ap prev' (sym l.2.0) ∙ update_self prev (next b) (prev b) ∙ l.1,
  )
  Links-unlink a [] (w ∷ zs) z l d ha hz = (
    ap next' (sym l.1) ∙ update_self next (prev b) (next b) ∙ l.2.0,
    ap prev' (sym l.2.0) ∙ update_self prev (next b) (prev b) ∙ l.1,
    Links-same next prev next' prev' w zs z l.2.2
        (update-Avoids next (prev b) (next b) (w ∷ zs)
          (subst (λ x. Avoids x (w ∷ zs)) (sym l.1) ha.1))
        (update-Avoids prev (next b) (prev b) zs (subst (λ x. Avoids x zs) (sym l.2.0) d.1.0))
        (update_ne prev (next b) z (prev b) (λ e. hz.1.0 (e ∙ l.2.0))),
  )
  Links-unlink a (y ∷ ys) zs z l d ha hz =
      let behind = All-front (λ x. y ≢ x) b ys zs d.0 in
      let before = All-append_left (λ x. a ≢ x) (y ∷ ys) (b ∷ zs) ha in
      (
        update_ne next (prev b) a (next b) (prev_ne a y ys zs z l.2 before.0 before.1) ∙ l.0,
        update_ne prev (next b) y (prev b)
              (next_ne y y ys zs z l.2 (λ e. hz.0 (sym e)) (Avoids-right y ys zs behind.1))
            ∙ l.1,
        Links-unlink y ys zs z l.2 d.1 d.0 hz.1,
      )
