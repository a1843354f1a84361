-- ===== src/Sysfile/Held.antt =====
-- The references to open files that the descriptors of a process are.
use native.Mathlib.Decide.{ℕ_discrete}
use csse332lab.Base.{
  ℕ, zero, suc, ◌+◌, ◌≤◌, ◌<◌, ◌≡◌, ◌≢◌, refl, sym, ◌∙◌, ap, Option, none, some, List, [], ◌∷◌,
  ◌++◌, arith, ◌==◌, ==_refl, ==_ne, if◌then◌else◌, update, update_ne, All, All-In, count, In,
  In-split, inl, inr,
}
use csse332lab.Files.{nfile, Ftable}
use csse332lab.Files.Refs.{Counted}
use csse332lab.Sysfile.{nofile}

-- The file of a descriptor before those of others.
abbrev add : Option ℕ → List ℕ → List ℕ
add none refs = refs
add (some f) refs = f ∷ refs

-- The files of `k` descriptors from `fd` on.
abbrev held_from : (ℕ → Option ℕ) → ℕ → ℕ → List ℕ
held_from fds zero fd = []
held_from fds (suc k) fd = add (fds fd) (held_from fds k (fd + 1))

abbrev pub held : (ℕ → Option ℕ) → List ℕ
held fds = held_from fds nofile 0

-- The references of a descriptor to `c`.
abbrev pub refers : ℕ → Option ℕ → ℕ
refers c none = 0
refers c (some f) = if f == c then 1 else 0

count-add :
    (c : ℕ) (x : Option ℕ) (refs : List ℕ) → count c (add x refs) ≡ refers c x + count c refs
count-add c none refs = omega arith
count-add c (some f) refs = refl

held_from-same :
    (c : ℕ) (fds gds : ℕ → Option ℕ) (k from : ℕ)
    → ((fd : ℕ) → from ≤ fd → fds fd ≡ gds fd)
    → count c (held_from fds k from) ≡ count c (held_from gds k from)
held_from-same c fds gds zero from h = refl
held_from-same c fds gds (suc k) from h =
    rw
      (
        count-add c (fds from) (held_from fds k (from + 1)),
        count-add c (gds from) (held_from gds k (from + 1)),
        h from (omega arith),
        held_from-same c fds gds k (from + 1) (λ fd le. h fd (omega arith)),
      )
      refl

held_from-update :
    (c : ℕ) (fds : ℕ → Option ℕ) (fd : ℕ) (x : Option ℕ) (k from : ℕ)
    → from ≤ fd
    → fd < from + k
    → count c (held_from (update fds fd x) k from) + refers c (fds fd)
      ≡ count c (held_from fds k from) + refers c x
held_from-update c fds fd x zero from le lt = absurd (omega arith)
held_from-update c fds fd x (suc k) from le lt =
    let one = count-add c (fds from) (held_from fds k (from + 1)) in
    let other = count-add c (update fds fd x from) (held_from (update fds fd x) k (from + 1)) in
    elim (ℕ_discrete from fd) [
      | yes e ↦
          let at : update fds fd x from ≡ x = rw (e, ==_refl fd) refl in
          let rest =
            held_from-same c (update fds fd x) fds k (from + 1)
              (λ g le. update_ne fds fd g x (omega arith)) in
          let there : refers c (update fds fd x from) ≡ refers c x = ap (refers c) at in
          let here : refers c (fds fd) ≡ refers c (fds from) = ap (λ g. refers c (fds g)) (sym e) in
          omega (arith, one, other, rest, there, here)
      | no ne ↦
          let at = ap (refers c) (update_ne fds fd from x ne) in
          let rest = held_from-update c fds fd x k (from + 1) (omega arith) (omega arith) in
          omega (arith, one, other, rest, at)
    ]

-- Giving the descriptor `fd` another file.
pub held-update :
    (c : ℕ) (fds : ℕ → Option ℕ) (fd : ℕ) (x : Option ℕ)
    → fd < nofile
    → count c (held (update fds fd x)) + refers c (fds fd) ≡ count c (held fds) + refers c x
held-update c fds fd x lt = held_from-update c fds fd x nofile 0 (omega arith) lt

pub held-same :
    (c : ℕ) (fds gds : ℕ → Option ℕ)
    → ((fd : ℕ) → fds fd ≡ gds fd)
    → count c (held fds) ≡ count c (held gds)
held-same c fds gds h = held_from-same c fds gds nofile 0 (λ fd le. h fd)

pub count-append : (c : ℕ) (xs ys : List ℕ) → count c (xs ++ ys) ≡ count c xs + count c ys
count-append c [] ys = omega arith
count-append c (x ∷ xs) ys = omega (arith, count-append c xs ys)

count-In : (c : ℕ) (xs : List ℕ) → count c xs ≢ 0 → In c xs
count-In c [] h = h refl
count-In c (x ∷ xs) h = elim (ℕ_discrete c x) [
  | yes e ↦ inl e
  | no ne ↦ inr (count-In c xs (let far = ==_ne x c (λ e. ne (sym e)) in ground arith))
]

-- A file that is referred to, among the references.
pub count-split :
    (c : ℕ) (xs : List ℕ) → count c xs ≢ 0 → (ys : List ℕ) × (zs : List ℕ) × (xs ≡ ys ++ c ∷ zs)
count-split c xs h = In-split c xs (count-In c xs h)

-- A file that has a descriptor is referred to.
pub held_some :
    (fds : ℕ → Option ℕ) (fd f : ℕ) → fd < nofile → fds fd ≡ some f → count f (held fds) ≢ 0
held_some fds fd f lt e z =
    let moved = held-update f fds fd none lt in
    let one : refers f (fds fd) ≡ 1 = ap (refers f) e ∙ rw (==_refl f) refl in
    absurd (omega (arith, moved, one, z))

All-counted : (P : ℕ → Type 0) (xs : List ℕ) → ((c : ℕ) → count c xs ≢ 0 → P c) → All P xs
All-counted P [] h = tt
All-counted P (x ∷ xs) h = (h x (ground arith), All-counted P xs (λ c ne. h c (ground arith)))

-- The order of the references does not matter.
pub Counted-same :
    (t : Ftable) (refs refs' : List ℕ)
    → ((c : ℕ) → count c refs' ≡ count c refs)
    → Counted t refs
    → Counted t refs'
Counted-same t refs refs' same h = record {
  counted = λ f lt. h.counted f lt ∙ sym (same f);
  unused = h.unused;
  range =
      All-counted (λ f. f < nfile) refs'
        (λ c ne. All-In (λ f. f < nfile) refs c h.range (count-In c refs (λ z. ne (same c ∙ z))));
}
