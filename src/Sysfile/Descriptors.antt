-- ===== src/Sysfile/Descriptors.antt =====
-- The calls on descriptors: `sys_dup` and `sys_close`.
use mathlib.Core.Option.{some-ne-none}
use csse332lab.Base.{
  ℕ, ◌<◌, ◌≡◌, refl, sym, ◌∙◌, Bool, true, false, Option, none, some, List, ◌∷◌, ◌++◌, arith,
  if◌then◌else◌, ltb, update, ap, count,
}
use csse332lab.Sysfile.{
  nofile, Sys, gives, ret, ◌>>=◌, ◌>>◌, fdalloc, clear, dup_file, argfd, sys_dup, close_file,
  sys_close,
}
use csse332lab.Sysfile.Held.{held, refers, held-update, held_some, count-append}
use csse332lab.Sysfile.Rules.{Yields, Triple, bind_lem, ret_lem, pre_lem, fact_lem}
use csse332lab.Sysfile.Triples.{Kept, Kept-same}
use csse332lab.Sysfile.Placing.{fdalloc_lem, clear_lem, Lowest, Placed}
use csse332lab.Sysfile.Filing.{dup_file_lem}
use csse332lab.Sysfile.GivingUp.{close_file_lem}

-- Outside of a transaction, where the references are those of the descriptors and of others.
abbrev pub Sound : (others : List ℕ) (fds : ℕ → Option ℕ) → Sys → Type 0
Sound others fds = Kept false (others ++ held fds) fds

-- A reference that becomes that of a descriptor, and back.
pub held-move :
    (others : List ℕ) (fds : ℕ → Option ℕ) (fd f c : ℕ)
    → fd < nofile
    → fds fd ≡ none
    → count c (others ++ held (update fds fd (some f))) ≡ count c (f ∷ (others ++ held fds))
held-move others fds fd f c lt free =
    let a = count-append c others (held (update fds fd (some f))) in
    let b = count-append c others (held fds) in
    let moved = held-update c fds fd (some f) lt in
    let zero_refs : refers c (fds fd) ≡ 0 = ap (refers c) free in
    omega (arith, a, b, moved, zero_refs)

pub held-take :
    (others : List ℕ) (fds : ℕ → Option ℕ) (fd f c : ℕ)
    → fd < nofile
    → fds fd ≡ some f
    → count c (f ∷ (others ++ held (update fds fd none))) ≡ count c (others ++ held fds)
held-take others fds fd f c lt e =
    let a = count-append c others (held (update fds fd none)) in
    let b = count-append c others (held fds) in
    let moved = held-update c fds fd none lt in
    let one : refers c (fds fd) ≡ refers c (some f) = ap (refers c) e in
    omega (arith, a, b, moved, one)

argfd-in_range : (fd f : ℕ) (s : Sys) → argfd fd s ≡ some f → (fd < nofile) × (s.ofile fd ≡ some f)
unfolding argfd
argfd-in_range fd f s e = go (ltb fd nofile) refl e
  where
    go :
        (t : Bool)
        → ltb fd nofile ≡ t
        → (if t then s.ofile fd else none) ≡ some f
        → (fd < nofile) × (s.ofile fd ≡ some f)
    go true below e = (ground (arith, below), e)
    go false beyond e = absurd (some-ne-none f (sym e))

-- How `sys_dup` ends.
abbrev pub Duped : List ℕ → (ℕ → Option ℕ) → ℕ → Option ℕ → Sys → Type 0
Duped others fds fd none s = Sound others fds s
Duped others fds fd (some n) s = Lowest fds n × Sound others (update fds n (fds fd)) s

dup_placed_lem :
    (others : List ℕ) (fds : ℕ → Option ℕ) (fd f : ℕ)
    → fd < nofile
    → fds fd ≡ some f
    → (r : Option ℕ)
    → Triple
        (Placed false (others ++ held fds) fds f r)
        (elim r [ none ↦ ret none | some n ↦ dup_file f >> ret (some n) ])
        (Duped others fds fd)
dup_placed_lem others fds fd f lt e none = ret_lem none (λ s h. h)
dup_placed_lem others fds fd f lt e (some n) = fact_lem (λ lowest.
    bind_lem _ _
      (dup_file_lem false (others ++ held fds) (update fds n (some f)) f (λ z.
        let there = held_some fds fd f lt e in
        let all = count-append f others (held fds) in there (omega (arith, all, z))))
      (λ _. ret_lem (some n) (λ s h. (
        lowest,
        Kept-same false (f ∷ (others ++ held fds)) (others ++ held (update fds n (fds fd)))
            (update fds n (some f)) (update fds n (fds fd))
            (λ c. rw e (held-move others fds n f c lowest.in_range lowest.free)) (λ g. rw e refl) s
            h,
      ))))

-- `sys_dup` gives the lowest descriptor that is not in use, and it is one of the same file; it
-- fails without a change.
pub sys_dup_lem :
    (others : List ℕ) (fds : ℕ → Option ℕ) (fd : ℕ)
    → Triple (Sound others fds) (sys_dup fd) (Duped others fds fd)
unfolding sys_dup
sys_dup_lem others fds fd = record { runs = λ s h. go s h (argfd fd s) refl }
  where
    go :
        (s : Sys)
        → Sound others fds s
        → (r : Option ℕ) → argfd fd s ≡ r
        → Yields (Duped others fds fd) (elim r [
          | none ↦ gives none s
          | some f ↦
              (fdalloc f
                  >>= (λ r. elim r [ none ↦ ret none | some n ↦ dup_file f >> ret (some n) ]))
                s
        ])
    go s h none e = h
    go s h (some f) e =
        let (lt, at) = argfd-in_range fd f s e in
        (bind_lem _ _ (fdalloc_lem false (others ++ held fds) fds f)
            (dup_placed_lem others fds fd f lt (sym (h.same fd) ∙ at))).runs
          s h

abbrev pub Closed : List ℕ → (ℕ → Option ℕ) → ℕ → Option ℕ → Sys → Type 0
Closed others fds fd none s = Sound others fds s
Closed others fds fd (some n) s = Sound others (update fds fd none) s

-- `sys_close` frees the descriptor, or fails without a change.
pub sys_close_lem :
    (end : ℕ) (others : List ℕ) (fds : ℕ → Option ℕ) (fd : ℕ)
    → Triple (Sound others fds) (sys_close end fd) (Closed others fds fd)
unfolding sys_close
sys_close_lem end others fds fd = record { runs = λ s h. go s h (argfd fd s) refl }
  where
    run :
        (f : ℕ)
        → fd < nofile
        → fds fd ≡ some f
        → Triple
            (Sound others fds)
            (clear fd >> close_file end f >> ret (some 0))
            (Closed others fds fd)
    run f lt e =
        let without = update fds fd none in
        bind_lem _ _
          (bind_lem _ _ (clear_lem false (others ++ held fds) fds fd) (λ _.
            pre_lem
              (Kept-same false (others ++ held fds) (f ∷ (others ++ held without)) without without
                (λ c. held-take others fds fd f c lt e) (λ g. refl))
              (close_file_lem end (others ++ held without) without f)))
          (λ _. ret_lem (some 0) (λ s h. h))

    go :
        (s : Sys)
        → Sound others fds s
        → (r : Option ℕ) → argfd fd s ≡ r
        → Yields (Closed others fds fd) (elim r [
          | none ↦ gives none s
          | some f ↦ (clear fd >> close_file end f >> ret (some 0)) s
        ])
    go s h none e = h
    go s h (some f) e =
        let (lt, at) = argfd-in_range fd f s e in (run f lt (sym (h.same fd) ∙ at)).runs s h
