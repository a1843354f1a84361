-- ===== src/Files/Sharing.antt =====
-- What those who share an open file rely on, over every sequence of calls.
use mathlib.Core.Option.{some-injective}
use csse332lab.Base.{
  ℕ, ◌+◌, ◌<◌, ◌≡◌, refl, sym, subst, ◌∙◌, false, Option, none, some, List, [], ◌∷◌, ◌++◌, arith,
  ltb, update, All, All-front, count, count-front, count-other,
}
use csse332lab.Files.{nfile, fd_none, File, Ftable, filealloc, filedup, fileclose, Closing}
use csse332lab.Files.Refs.{
  Allocated, given, full, filealloc-Allocated, Users, Step, allocates, is_full, sets, dups, closes,
  Reach, here, next, Counted, touch-Counted, Closes, not_last, last, fileclose-Closes,
}

pub filealloc-Counted :
    (t t' : Ftable) (refs : List ℕ) (f : ℕ)
    → Counted t refs
    → filealloc t ≡ (some f, t')
    → Counted t' (f ∷ refs)
filealloc-Counted t t' refs f h e = subst Kept e (outcome (filealloc t) (filealloc-Allocated t))
  where
    Kept : Option ℕ × Ftable → Type 0
    Kept (none, t) = Unit
    Kept (some f, t) = Counted t (f ∷ refs)

    outcome : (r : Option ℕ × Ftable) → Allocated t 0 nfile r → Kept r
    outcome r (given f _ lt z) =
        touch-Counted t f (record (t f) { ref = 1 }) refs (f ∷ refs)
          (let c = sym (h.counted f lt) ∙ z in ground arith) (λ e. absurd (omega (arith, e)))
          (λ c ne. ground arith) (lt, h.range) h
    outcome r (full _) = tt

pub filealloc_full :
    (t t' : Ftable) (refs : List ℕ) → Counted t refs → filealloc t ≡ (none, t') → Counted t' refs
filealloc_full t t' refs h e = subst Kept e (outcome (filealloc t) (filealloc-Allocated t))
  where
    Kept : Option ℕ × Ftable → Type 0
    Kept (none, t) = Counted t refs
    Kept (some f, t) = Unit

    outcome : (r : Option ℕ × Ftable) → Allocated t 0 nfile r → Kept r
    outcome r (given f _ lt z) = tt
    outcome r (full _) = h

module _ (t : Ftable) (f : ℕ) (xs ys : List ℕ) (h : Counted t (xs ++ f ∷ ys)) where
  abbrev in_range : f < nfile
  in_range = (All-front (λ c. c < nfile) f xs ys h.range).0

  referred : (t f).ref ≡ count f (xs ++ ys) + 1
  referred = h.counted f in_range ∙ count-front f xs ys

  pub set-Counted : (x : File) → x.ref ≡ (t f).ref → Counted (update t f x) (xs ++ f ∷ ys)
  set-Counted x e =
      touch-Counted t f x (xs ++ f ∷ ys) (xs ++ f ∷ ys) (e ∙ h.counted f in_range)
        (λ z. absurd (omega (arith, z, e, referred))) (λ c ne. refl) h.range h

  -- A file that is referred to can be duplicated.
  pub filedup-some : filedup f t ≡ some (update t f (record (t f) { ref = (t f).ref + 1 }))
  unfolding filedup
  filedup-some =
      let some_ref : ltb (t f).ref 1 ≡ false = ground (arith, referred) in rw some_ref refl

  pub filedup-Counted : (t' : Ftable) → filedup f t ≡ some t' → Counted t' (f ∷ (xs ++ f ∷ ys))
  filedup-Counted t' e =
      subst (λ t'. Counted t' (f ∷ (xs ++ f ∷ ys))) (some-injective _ _ (sym filedup-some ∙ e))
        (touch-Counted t f (record (t f) { ref = (t f).ref + 1 }) (xs ++ f ∷ ys)
          (f ∷ (xs ++ f ∷ ys)) (let c = h.counted f in_range in ground arith)
          (λ z. absurd (omega (arith, z))) (λ c ne. ground arith) (in_range, h.range) h)

  pub fileclose-Counted :
      (c : Closing) (t' : Ftable) → fileclose f t ≡ some (c, t') → Counted t' (xs ++ ys)
  fileclose-Counted c t' e = subst Kept e (outcome (fileclose f t) (fileclose-Closes t f xs ys h))
    where
      range : All (λ c. c < nfile) (xs ++ ys)
      range = (All-front (λ c. c < nfile) f xs ys h.range).1

      Kept : Option (Closing × Ftable) → Type 0
      Kept none = Unit
      Kept (some (_, t)) = Counted t (xs ++ ys)

      outcome : (r : Option (Closing × Ftable)) → Closes t f (xs ++ ys) r → Kept r
      outcome r (not_last nz) =
          touch-Counted t f (record (t f) { ref = count f (xs ++ ys) }) (xs ++ f ∷ ys) (xs ++ ys)
            refl (λ z. absurd (nz z)) (λ c ne. sym (count-other c f xs ys ne)) range h
      outcome r (last c _ z) =
          touch-Counted t f (record (t f) { ref = 0; type = fd_none }) (xs ++ f ∷ ys) (xs ++ ys)
            (sym z) (λ z. refl) (λ c ne. sym (count-other c f xs ys ne)) range h

Step-Counted : (s t : Users) → Step s t → Counted s.table s.refs → Counted t.table t.refs
Step-Counted s t (allocates f table e et) h = rw et (filealloc-Counted s.table table s.refs f h e)
Step-Counted s t (is_full table e et) h = rw et (filealloc_full s.table table s.refs h e)
Step-Counted s t (sets f xs ys x e same et) h =
    rw (et, e) (set-Counted s.table f xs ys (subst (Counted s.table) e h) x same)
Step-Counted s t (dups f xs ys table e dup et) h =
    rw (et, e) (filedup-Counted s.table f xs ys (subst (Counted s.table) e h) table dup)
Step-Counted s t (closes f xs ys c table e close et) h =
    rw et (fileclose-Counted s.table f xs ys (subst (Counted s.table) e h) c table close)

-- Before the first call: static memory, all 0.
abbrev pub IsFresh : Ftable → Type 0
IsFresh t = (f : ℕ) → ((t f).ref ≡ 0) × ((t f).type ≡ fd_none)

abbrev pub start : Ftable → Users
start t = record { table = t; refs = [] }

Reach-Counted : (t : Ftable) (s : Users) → IsFresh t → Reach (start t) s → Counted s.table s.refs
Reach-Counted t s h here = record {
  counted = λ f lt. (h f).0;
  unused = λ f lt z. (h f).1;
  range = tt;
}
Reach-Counted t s h (next r step) = Step-Counted _ s step (Reach-Counted t _ h r)

-- After every sequence of calls of `filealloc`, and of `filedup` and `fileclose` on files to which
-- a reference is held: for such a file neither of the two panics. `filedup` counts one reference
-- more. While there are other references `fileclose` only takes this one off the count; the last
-- one frees the entry, and what it goes on to close is the end of the pipe for which the file was
-- open, the inode of a file or device, or nothing for a file without a type.
pub Reach-Closes :
    (t : Ftable) (s : Users) (f : ℕ) (xs ys : List ℕ)
    → IsFresh t
    → Reach (start t) s
    → s.refs ≡ xs ++ f ∷ ys
    → (filedup f s.table
        ≡ some (update s.table f (record (s.table f) { ref = (s.table f).ref + 1 })))
      × Closes s.table f (xs ++ ys) (fileclose f s.table)
Reach-Closes t s f xs ys h r e =
    let counted = subst (Counted s.table) e (Reach-Counted t s h r) in
    (filedup-some s.table f xs ys counted, fileclose-Closes s.table f xs ys counted)
