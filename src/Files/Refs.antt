-- ===== src/Files/Refs.antt =====
-- The references to the open files: `filealloc`, `filedup` and `fileclose` over every sequence of
-- calls.
use native.Mathlib.Decide.{ℕ_discrete}
use csse332lab.Base.{
  ℕ, zero, suc, ◌+◌, ◌-◌, ◌≤◌, ◌<◌, ◌≡◌, ◌≢◌, refl, sym, ◌∙◌, ap, true, false, Option, none, some,
  List, ◌∷◌, ◌++◌, ◌⊎◌, inl, inr, arith, ltb, ==_refl, ==_ne, update, All, All-front, count,
  count-front,
}
use csse332lab.Files.{
  nfile, FileType, fd_none, fd_pipe, fd_inode, fd_device, File, Ftable, filealloc, filealloc_loop,
  filedup, fileclose, Closing, in_use, no_resource, closes_pipe, puts_inode, closing,
}

-- What the search of `filealloc` gives over `k` entries from `from` on.
pub data Allocated (t : Ftable) (from k : ℕ) : Option ℕ × Ftable → Type 0 where
  given :
      (f : ℕ)
      → from ≤ f
      → f < from + k
      → (t f).ref ≡ 0
      → Allocated t from k (some f, update t f (record (t f) { ref = 1 }))
  full : ((f : ℕ) → from ≤ f → f < from + k → (t f).ref ≢ 0) → Allocated t from k (none, t)

filealloc_loop-Allocated : (k from : ℕ) (t : Ftable) → Allocated t from k (filealloc_loop k from t)
unfolding filealloc_loop
filealloc_loop-Allocated zero from t = full (λ f le lt. absurd (omega arith))
filealloc_loop-Allocated (suc k) from t = elim (ℕ_discrete (t from).ref 0) [
  | yes e ↦ rw e (given from (omega arith) (omega arith) e)
  | no ne ↦
      rw (==_ne (t from).ref 0 ne)
        (further (filealloc_loop k (from + 1) t) (filealloc_loop-Allocated k (from + 1) t) ne)
]
  where
    further :
        (r : Option ℕ × Ftable)
        → Allocated t (from + 1) k r
        → (t from).ref ≢ 0
        → Allocated t from (suc k) r
    further r (given f le lt e) ne = given f (omega arith) (omega arith) e
    further r (full h) ne = full (λ f le lt. elim (ℕ_discrete f from) [
      | yes e ↦ λ z. ne (ap (λ f. (t f).ref) (sym e) ∙ z)
      | no far ↦ h f (omega arith) (omega arith)
    ])

pub filealloc-Allocated : (t : Ftable) → Allocated t 0 nfile (filealloc t)
unfolding filealloc
filealloc-Allocated t = filealloc_loop-Allocated nfile 0 t

-- The table, and the references that descriptors and calls under way hold.
pub record Users : Type 0 where
  pub table : Ftable
  pub refs : List ℕ

pub data Step (s t : Users) : Type 0 where
  allocates :
      (f : ℕ) (table : Ftable)
      → filealloc s.table ≡ (some f, table)
      → t ≡ record { table = table; refs = f ∷ s.refs }
      → Step s t
  is_full :
      (table : Ftable)
      → filealloc s.table ≡ (none, table)
      → t ≡ record { table = table; refs = s.refs }
      → Step s t
  -- Who has a reference sets the other fields: sys_open, pipealloc, the offset.
  sets :
      (f : ℕ) (xs ys : List ℕ) (x : File)
      → s.refs ≡ xs ++ f ∷ ys
      → x.ref ≡ (s.table f).ref
      → t ≡ record { table = update s.table f x; refs = s.refs }
      → Step s t
  dups :
      (f : ℕ) (xs ys : List ℕ) (table : Ftable)
      → s.refs ≡ xs ++ f ∷ ys
      → filedup f s.table ≡ some table
      → t ≡ record { table = table; refs = f ∷ s.refs }
      → Step s t
  closes :
      (f : ℕ) (xs ys : List ℕ) (c : Closing) (table : Ftable)
      → s.refs ≡ xs ++ f ∷ ys
      → fileclose f s.table ≡ some (c, table)
      → t ≡ record { table = table; refs = xs ++ ys }
      → Step s t

pub data Reach (s : Users) : Users → Type 0 where
  here : Reach s s
  next : {t u : Users} → Reach s t → Step t u → Reach s u

pub record Counted (t : Ftable) (refs : List ℕ) : Type 0 where
  pub counted : (f : ℕ) → f < nfile → (t f).ref ≡ count f refs
  pub unused : (f : ℕ) → f < nfile → (t f).ref ≡ 0 → (t f).type ≡ fd_none
  pub range : All (λ f. f < nfile) refs

-- A change of one entry, whose reference count is then that of `refs'`.
pub touch-Counted :
    (t : Ftable) (f : ℕ) (x : File) (refs refs' : List ℕ)
    → x.ref ≡ count f refs'
    → (x.ref ≡ 0 → x.type ≡ fd_none)
    → ((c : ℕ) → c ≢ f → count c refs' ≡ count c refs)
    → All (λ c. c < nfile) refs'
    → Counted t refs
    → Counted (update t f x) refs'
touch-Counted t f x refs refs' e idle others range h = record {
  counted = λ c lt. elim (ℕ_discrete c f) [
    | yes e' ↦ rw (e', ==_refl f) e
    | no ne ↦ rw (==_ne c f ne) (h.counted c lt ∙ sym (others c ne))
  ];
  unused = λ c lt. elim (ℕ_discrete c f) [
    | yes e' ↦ rw (e', ==_refl f) idle
    | no ne ↦ rw (==_ne c f ne) (h.unused c lt)
  ];
  range = range;
}

-- What is to be closed with the last reference to a file: the end of its pipe that it was open
-- for, or the reference to its inode.
pub data IsBehind (x : File) : Closing → Type 0 where
  behind_none : x.type ≡ fd_none → IsBehind x no_resource
  behind_pipe : x.type ≡ fd_pipe → IsBehind x (closes_pipe x.pipe x.writable)
  behind_inode : (x.type ≡ fd_inode) ⊎ (x.type ≡ fd_device) → IsBehind x (puts_inode x.ip)

closing-IsBehind : (x : File) → IsBehind x (closing x)
unfolding closing
closing-IsBehind x = go x.type refl
  where
    go :
        (type : FileType)
        → x.type ≡ type
        → IsBehind x (elim type [
          | fd_none ↦ no_resource
          | fd_pipe ↦ closes_pipe x.pipe x.writable
          | fd_inode ↦ puts_inode x.ip
          | fd_device ↦ puts_inode x.ip
        ])
    go fd_none e = behind_none e
    go fd_pipe e = behind_pipe e
    go fd_inode e = behind_inode (inl e)
    go fd_device e = behind_inode (inr e)

-- What `fileclose` of a file gives when the references besides are `refs`: only the last one
-- gives up what is behind the file, and frees the entry.
pub data Closes (t : Ftable) (f : ℕ) (refs : List ℕ) : Option (Closing × Ftable) → Type 0 where
  not_last :
      count f refs ≢ 0
      → Closes t f refs (some (in_use, update t f (record (t f) { ref = count f refs })))
  last :
      (c : Closing)
      → IsBehind (t f) c
      → count f refs ≡ 0
      → Closes t f refs (some (c, update t f (record (t f) { ref = 0; type = fd_none })))

pub fileclose-Closes :
    (t : Ftable) (f : ℕ) (xs ys : List ℕ)
    → Counted t (xs ++ f ∷ ys)
    → Closes t f (xs ++ ys) (fileclose f t)
unfolding fileclose
fileclose-Closes t f xs ys h =
    let (lt, _) = All-front (λ c. c < nfile) f xs ys h.range in
    let e : (t f).ref ≡ count f (xs ++ ys) + 1 = h.counted f lt ∙ count-front f xs ys in
    let left : (t f).ref - 1 ≡ count f (xs ++ ys) = omega (arith, e) in
    let some_ref : ltb (t f).ref 1 ≡ false = ground (arith, e) in
    rw (some_ref, left)
      elim (ℕ_discrete (count f (xs ++ ys)) 0) [
        | yes z ↦ rw z (last (closing (t f)) (closing-IsBehind (t f)) z)
        | no nz ↦
            let more : ltb 0 (count f (xs ++ ys)) ≡ true = ground (arith, nz) in
            rw more (not_last nz)
      ]
