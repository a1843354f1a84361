-- ===== src/Sysfile/Filing.antt =====
-- The triples of the operations on open files.
use csse332lab.Base.{
  ℕ, ◌≡◌, ◌≢◌, refl, sym, subst, ◌∙◌, Bool, Option, none, some, List, ◌∷◌, ap, update_self, count,
}
use csse332lab.Files.{Ftable, File, fd_none, nfile, filealloc}
use csse332lab.Files.Refs.{Counted, Allocated, given, full, filealloc-Allocated}
use csse332lab.Files.Sharing.{
  filealloc-Counted, filealloc_full, set-Counted, filedup-Counted, filedup-some,
}
use csse332lab.Sysfile.{Sys, dup_file}
use csse332lab.Sysfile.Calls.{alloc_file, set_file}
use csse332lab.Sysfile.Held.{count-split}
use csse332lab.Sysfile.Rules.{Yields, Triple}
use csse332lab.Sysfile.Triples.{Kept}

-- A reference more to a file to which there is one.
pub dup_file_lem :
    (op : Bool) (refs : List ℕ) (fds : ℕ → Option ℕ) (f : ℕ)
    → count f refs ≢ 0
    → Triple (Kept op refs fds) (dup_file f) (λ _. Kept op (f ∷ refs) fds)
unfolding dup_file
dup_file_lem op refs fds f ne = record {
  runs = λ s h.
      let (xs, ys, e) = count-split f refs ne in
      let counted = subst (Counted s.files) e h.counted in
      let dup = filedup-some s.files f xs ys counted in
      rw (Yields, dup)
        (record {
          in_op = h.in_op;
          counted = rw e (filedup-Counted s.files f xs ys counted _ dup);
          same = h.same;
        });
}

-- Who has a reference sets the other fields.
pub set_file_lem :
    (op : Bool) (refs : List ℕ) (fds : ℕ → Option ℕ) (f : ℕ) (g : File → File)
    → count f refs ≢ 0
    → ((x : File) → (g x).ref ≡ x.ref)
    → Triple (Kept op refs fds) (set_file f g) (λ _. Kept op refs fds)
unfolding set_file
set_file_lem op refs fds f g ne keeps = record {
  runs = λ s h.
      let (xs, ys, e) = count-split f refs ne in
      record {
        in_op = h.in_op;
        counted = rw e (
            set-Counted s.files f xs ys (subst (Counted s.files) e h.counted) (g (s.files f))
              (keeps (s.files f)));
        same = h.same;
      };
}

abbrev pub Fresh : Bool → List ℕ → (ℕ → Option ℕ) → Option ℕ → Sys → Type 0
Fresh op refs fds none s = Kept op refs fds s
Fresh op refs fds (some f) s = Kept op (f ∷ refs) fds s × ((s.files f).type ≡ fd_none)

pub alloc_file_lem :
    (op : Bool) (refs : List ℕ) (fds : ℕ → Option ℕ)
    → Triple (Kept op refs fds) alloc_file (Fresh op refs fds)
unfolding alloc_file
alloc_file_lem op refs fds = record {
  runs = λ s h. go s h (filealloc s.files) refl (filealloc-Allocated s.files);
}
  where
    go :
        (s : Sys)
        → Kept op refs fds s
        → (r : Option ℕ × Ftable) → filealloc s.files ≡ r
        → Allocated s.files 0 nfile r
        → Fresh op refs fds r.0 (record s { files = r.1 })
    go s h _ e (given f le lt z) = (
      record {
        in_op = h.in_op;
        counted = filealloc-Counted s.files _ refs f h.counted e;
        same = h.same;
      },
      ap (λ x. x.type) (update_self s.files f (record (s.files f) { ref = 1 }))
          ∙ h.counted.unused f lt z,
    )
    go s h _ e (full none_free) = record {
      in_op = h.in_op;
      counted = filealloc_full s.files _ refs h.counted e;
      same = h.same;
    }

-- A file that is given has had no references.
abbrev pub IsNew : List ℕ → Option ℕ → Type 0
IsNew refs none = Unit
IsNew refs (some f) = count f refs ≡ 0

pub alloc_file-IsNew :
    (op : Bool) (refs : List ℕ) (fds : ℕ → Option ℕ)
    → Triple (Kept op refs fds) alloc_file (λ r _. IsNew refs r)
unfolding alloc_file
alloc_file-IsNew op refs fds = record {
  runs = λ s h. go s h (filealloc s.files) (filealloc-Allocated s.files);
}
  where
    go :
        (s : Sys)
        → Kept op refs fds s
        → (r : Option ℕ × Ftable) → Allocated s.files 0 nfile r
        → IsNew refs r.0
    go s h _ (given f le lt z) = sym (h.counted.counted f lt) ∙ z
    go s h _ (full none_free) = tt
