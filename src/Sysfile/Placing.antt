-- ===== src/Sysfile/Placing.antt =====
-- Descriptors that are given and taken back: `fdalloc`.
use native.Mathlib.Decide.{ℕ_discrete}
use mathlib.Core.Option.{some-ne-none}
use csse332lab.Base.{
  ℕ, zero, suc, ◌+◌, ◌≤◌, ◌<◌, ◌≡◌, ◌≢◌, refl, sym, ◌∙◌, Bool, Option, none, some, List, arith, ap,
  update,
}
use csse332lab.Files.{Ftable}
use csse332lab.Sysfile.{nofile, Sys, gives, fdalloc, set_descriptor, free_descriptor, clear}
use csse332lab.Sysfile.Rules.{Yields, Triple}
use csse332lab.Sysfile.Triples.{Kept}

-- Two functions that agree go on doing so.
update-same :
    (fds gds : ℕ → Option ℕ) (fd g : ℕ) (x : Option ℕ)
    → ((fd : ℕ) → fds fd ≡ gds fd)
    → update fds fd x g ≡ update gds fd x g
update-same fds gds fd g x h = rw (h g) refl

-- The lowest descriptor that is not in use.
pub record Lowest (fds : ℕ → Option ℕ) (fd : ℕ) : Type 0 where
  pub in_range : fd < nofile
  pub free : fds fd ≡ none
  pub lower : (g : ℕ) → g < fd → fds g ≢ none

abbrev pub Placed : Bool → List ℕ → (ℕ → Option ℕ) → ℕ → Option ℕ → Sys → Type 0
Placed op refs fds f none s = Kept op refs fds s
Placed op refs fds f (some fd) s = Lowest fds fd × Kept op refs (update fds fd (some f)) s

-- What the search gives from `from` on.
abbrev Found : (fds : ℕ → Option ℕ) (from : ℕ) → Option ℕ → Type 0
Found fds from none = Unit
Found fds from (some fd) =
    (fd < nofile) × (fds fd ≡ none) × ((g : ℕ) → from ≤ g → g < fd → fds g ≢ none)

free_descriptor-Found :
    (fds : ℕ → Option ℕ) (k from : ℕ)
    → from + k ≤ nofile
    → Found fds from (free_descriptor fds k from)
unfolding free_descriptor
free_descriptor-Found fds zero from le = tt
free_descriptor-Found fds (suc k) from le =
    go (fds from) refl (free_descriptor fds k (from + 1))
      (free_descriptor-Found fds k (from + 1) (omega arith))
  where
    further : (f : ℕ) (r : Option ℕ) → fds from ≡ some f → Found fds (from + 1) r → Found fds from r
    further f none e h = tt
    further f (some fd) e (lt, free, lower) = (
      lt,
      free,
      λ g le below. elim (ℕ_discrete g from) [
        | yes at ↦ λ z. some-ne-none _ (sym e ∙ (ap fds (sym at) ∙ z))
        | no ne ↦ lower g (omega arith) below
      ],
    )

    go :
        (x : Option ℕ)
        → fds from ≡ x
        → (r : Option ℕ) → Found fds (from + 1) r
        → Found fds from (elim x [ none ↦ some from | some f ↦ r ])
    go none e r h = (omega arith, e, λ g le lt. absurd (omega arith))
    go (some f) e r h = further f r e h

pub fdalloc_lem :
    (op : Bool) (refs : List ℕ) (fds : ℕ → Option ℕ) (f : ℕ)
    → Triple (Kept op refs fds) (fdalloc f) (Placed op refs fds f)
unfolding fdalloc
fdalloc_lem op refs fds f = record {
  runs = λ s h.
      go s h (free_descriptor s.ofile nofile 0)
        (free_descriptor-Found s.ofile nofile 0 (omega arith));
}
  where
    go :
        (s : Sys)
        → Kept op refs fds s
        → (r : Option ℕ) → Found s.ofile 0 r
        → Yields (Placed op refs fds f) (elim r [
          | none ↦ gives none s
          | some fd ↦ gives (some fd) (set_descriptor fd (some f) s)
        ])
    go s h none found = h
    go s h (some fd) (lt, free, lower) = (
      record {
        in_range = lt;
        free = sym (h.same fd) ∙ free;
        lower = λ g below z. lower g (omega arith) below (h.same g ∙ z);
      },
      record {
        in_op = h.in_op;
        counted = h.counted;
        same = λ g. update-same s.ofile fds fd g (some f) h.same;
      },
    )

pub fdalloc_frame :
    (F : Ftable → Type 0) (f : ℕ) → Triple (λ s. F s.files) (fdalloc f) (λ _ s. F s.files)
unfolding fdalloc
fdalloc_frame F f = record { runs = λ s h. go s h (free_descriptor s.ofile nofile 0) }
  where
    go :
        (s : Sys)
        → F s.files
        → (r : Option ℕ)
        → Yields {A = Option ℕ}
            (λ _ s. F s.files)
            (elim r [
              | none ↦ gives none s
              | some fd ↦ gives (some fd) (set_descriptor fd (some f) s)
            ])
    go s h none = h
    go s h (some fd) = h

pub clear_lem :
    (op : Bool) (refs : List ℕ) (fds : ℕ → Option ℕ) (fd : ℕ)
    → Triple (Kept op refs fds) (clear fd) (λ _. Kept op refs (update fds fd none))
unfolding clear
clear_lem op refs fds fd = record {
  runs = λ s h. record {
    in_op = h.in_op;
    counted = h.counted;
    same = λ g. update-same s.ofile fds fd g none h.same;
  };
}
