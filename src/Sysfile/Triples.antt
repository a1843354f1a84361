-- ===== src/Sysfile/Triples.antt =====
-- What a transaction does and does not change.
use csse332lab.Base.{ℕ, ◌≡◌, refl, ◌∙◌, Bool, true, false, Option, none, some, List, count}
use csse332lab.Fs.{Fs, M}
use csse332lab.Files.{Ftable}
use csse332lab.Files.Refs.{Counted}
use csse332lab.Sysfile.{Sys, gives, panics, begin_op, end_op, inside}
use csse332lab.Sysfile.Held.{Counted-same}
use csse332lab.Sysfile.Rules.{Yields, Triple}

-- Whether a transaction is open, the references to the open files, and the descriptors.
pub record Kept (op : Bool) (refs : List ℕ) (fds : ℕ → Option ℕ) (s : Sys) : Type 0 where
  pub in_op : s.op ≡ op
  pub counted : Counted s.files refs
  pub same : (fd : ℕ) → s.ofile fd ≡ fds fd

-- The same state, with other names for the references and the descriptors.
pub Kept-same :
    (op : Bool) (refs refs' : List ℕ) (fds fds' : ℕ → Option ℕ)
    → ((c : ℕ) → count c refs' ≡ count c refs)
    → ((fd : ℕ) → fds fd ≡ fds' fd)
    → (s : Sys) → Kept op refs fds s
    → Kept op refs' fds' s
Kept-same op refs refs' fds fds' counts descriptors s h = record {
  in_op = h.in_op;
  counted = Counted-same s.files refs refs' counts h.counted;
  same = λ fd. h.same fd ∙ descriptors fd;
}

module _ (refs : List ℕ) (fds : ℕ → Option ℕ) where
  pub begin_op_lem : Triple (Kept false refs fds) begin_op (λ _. Kept true refs fds)
  unfolding begin_op
  begin_op_lem = record {
    runs = λ s h. rw h.in_op (record { in_op = refl; counted = h.counted; same = h.same });
  }

  pub end_op_lem : Triple (Kept true refs fds) end_op (λ _. Kept false refs fds)
  unfolding end_op
  end_op_lem = record {
    runs = λ s h. rw h.in_op (record { in_op = refl; counted = h.counted; same = h.same });
  }

  pub inside_lem :
      {A : Type 0} (m : M A) → Triple (Kept true refs fds) (inside m) (λ _. Kept true refs fds)
  unfolding inside
  inside_lem {A = A} m = record { runs = λ s h. rw h.in_op (go s h (m s.fs)) }
    where
      go :
          (s : Sys)
          → Kept true refs fds s
          → (r : Option (A × Fs))
          → Yields {A = A}
              (λ _. Kept true refs fds)
              (elim r [ none ↦ panics | some (a, fs) ↦ gives a (record s { fs = fs }) ])
      go s h none = tt
      go s h (some (a, fs)) = record { in_op = h.in_op; counted = h.counted; same = h.same }

-- The same with what holds of the open files, which a transaction does not change.
module _ (refs : List ℕ) (fds : ℕ → Option ℕ) (F : Ftable → Type 0) where
  pub inside_frame :
      {A : Type 0} (m : M A)
      → Triple
          (λ s. Kept true refs fds s × F s.files)
          (inside m)
          (λ _ s. Kept true refs fds s × F s.files)
  unfolding inside
  inside_frame {A = A} m = record { runs = λ s h. rw h.0.in_op (go s h (m s.fs)) }
    where
      go :
          (s : Sys)
          → Kept true refs fds s × F s.files
          → (r : Option (A × Fs))
          → Yields {A = A}
              (λ _ s. Kept true refs fds s × F s.files)
              (elim r [ none ↦ panics | some (a, fs) ↦ gives a (record s { fs = fs }) ])
      go s h none = tt
      go s h (some (a, fs)) =
          (record { in_op = h.0.in_op; counted = h.0.counted; same = h.0.same }, h.1)

  pub end_op_frame :
      Triple
        (λ s. Kept true refs fds s × F s.files)
        end_op
        (λ _ s. Kept false refs fds s × F s.files)
  unfolding end_op
  end_op_frame = record {
    runs =
        λ s h. rw h.0.in_op (record { in_op = refl; counted = h.0.counted; same = h.0.same }, h.1);
  }
