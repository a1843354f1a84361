-- ===== src/Sysfile/GivingUp.antt =====
-- `fileclose` as the system calls use it.
use csse332lab.Base.{
  ℕ, ◌≡◌, ◌≢◌, sym, ◌∙◌, refl, Bool, true, false, Option, none, some, List, [], ◌∷◌, if◌then◌else◌,
  update, ◌⊎◌, inl, inr,
}
use csse332lab.Files.{
  Ftable, File, fd_none, fileclose, Closing, in_use, no_resource, closes_pipe, puts_inode, fd_pipe,
  fd_inode, fd_device,
}
use csse332lab.Files.Refs.{
  IsBehind, behind_none, behind_pipe, behind_inode, Closes, not_last, last, fileclose-Closes,
}
use csse332lab.Files.Sharing.{fileclose-Counted}
use csse332lab.Fs.Content.{iput}
use csse332lab.Kalloc.{Kmem, kfree}
use csse332lab.Pipe.{Pipe, pipeclose}
use csse332lab.Sysfile.{Sys, gives, panics, misuse, close_pipe, close_behind, close_file}
use csse332lab.Sysfile.Rules.{Yields, Triple, bind_lem, ret_lem}
use csse332lab.Sysfile.Triples.{Kept, begin_op_lem, end_op_lem, inside_lem}

module _ (end : ℕ) (refs : List ℕ) (fds : ℕ → Option ℕ) where
  close_pipe_lem :
      (op : Bool) (pi : ℕ) (writable : Bool)
      → Triple (Kept op refs fds) (close_pipe end pi writable) (λ _. Kept op refs fds)
  unfolding close_pipe
  close_pipe_lem op pi writable = record {
    runs = λ s h. go s h (pipeclose writable (s.pipes pi)) (kfree end pi s.kmem);
  }
    where
      go :
          (s : Sys)
          → Kept op refs fds s
          → (r : Pipe × Bool) (k : Option Kmem)
          → Yields {A = Unit {0}}
              (λ _. Kept op refs fds)
              (let t = record s { pipes = update s.pipes pi r.0 } in
                if r.1
                then elim k [ none ↦ panics | some kmem ↦ gives tt (record t { kmem = kmem }) ]
                else gives tt t)
      go s h (p, true) none = tt
      go s h (p, true) (some kmem) = record { in_op = h.in_op; counted = h.counted; same = h.same }
      go s h (p, false) k = record { in_op = h.in_op; counted = h.counted; same = h.same }

  close_behind_lem :
      (c : Closing) → Triple (Kept false refs fds) (close_behind end c) (λ _. Kept false refs fds)
  unfolding close_behind
  close_behind_lem in_use = ret_lem tt (λ s h. h)
  close_behind_lem no_resource = ret_lem tt (λ s h. h)
  close_behind_lem (closes_pipe pi writable) = close_pipe_lem false pi writable
  close_behind_lem (puts_inode i) =
      bind_lem _ _ (bind_lem _ _ (begin_op_lem refs fds) (λ _. inside_lem refs fds (iput i)))
        (λ _. end_op_lem refs fds)

  -- Giving up a reference, outside of a transaction.
  pub close_file_lem :
      (f : ℕ) → Triple (Kept false (f ∷ refs) fds) (close_file end f) (λ _. Kept false refs fds)
  unfolding close_file
  close_file_lem f = record {
    runs = λ s h. go s h (fileclose f s.files) refl (fileclose-Closes s.files f [] refs h.counted);
  }
    where
      behind :
          (s : Sys) (c : Closing) (t : Ftable)
          → Kept false (f ∷ refs) fds s
          → fileclose f s.files ≡ some (c, t)
          → Yields (λ _. Kept false refs fds) (close_behind end c (record s { files = t }))
      behind s c t h e =
          (close_behind_lem c).runs (record s { files = t })
            (record {
              in_op = h.in_op;
              counted = fileclose-Counted s.files f [] refs h.counted c t e;
              same = h.same;
            })

      go :
          (s : Sys)
          → Kept false (f ∷ refs) fds s
          → (r : Option (Closing × Ftable)) → fileclose f s.files ≡ r
          → Closes s.files f refs r
          → Yields {A = Unit {0}}
              (λ _. Kept false refs fds)
              (elim r [
                | none ↦ misuse
                | some (c, files) ↦ close_behind end c (record s { files = files })
              ])
      go s h _ e (not_last nz) = behind s _ _ h e
      go s h _ e (last c _ z) = behind s _ _ h e

  close_nothing_lem :
      (c : Closing)
      → (c ≡ in_use) ⊎ (c ≡ no_resource)
      → Triple (Kept true refs fds) (close_behind end c) (λ _. Kept true refs fds)
  unfolding close_behind
  close_nothing_lem c (inl e) = rw e (ret_lem tt (λ s h. h))
  close_nothing_lem c (inr e) = rw e (ret_lem tt (λ s h. h))

  -- Behind a file without a type there is nothing.
  fresh-no_resource : (x : File) (c : Closing) → x.type ≡ fd_none → IsBehind x c → c ≡ no_resource
  fresh-no_resource x c e (behind_none _) = refl
  fresh-no_resource x c e (behind_pipe e') = absurd (typed (sym e ∙ e'))
    where
      typed : fd_none ≢ fd_pipe
      typed q = cc
  fresh-no_resource x c e (behind_inode (inl e')) = absurd (typed (sym e ∙ e'))
    where
      typed : fd_none ≢ fd_inode
      typed q = cc
  fresh-no_resource x c e (behind_inode (inr e')) = absurd (typed (sym e ∙ e'))
    where
      typed : fd_none ≢ fd_device
      typed q = cc

  -- Of a file behind which there is nothing, in a transaction.
  pub close_fresh_lem :
      (f : ℕ)
      → Triple
          (λ s. Kept true (f ∷ refs) fds s × ((s.files f).type ≡ fd_none))
          (close_file end f)
          (λ _. Kept true refs fds)
  unfolding close_file
  close_fresh_lem f = record {
    runs = λ s h.
        go s h.0 h.1 (fileclose f s.files) refl (fileclose-Closes s.files f [] refs h.0.counted);
  }
    where
      behind :
          (s : Sys) (c : Closing) (t : Ftable)
          → Kept true (f ∷ refs) fds s
          → (c ≡ in_use) ⊎ (c ≡ no_resource)
          → fileclose f s.files ≡ some (c, t)
          → Yields (λ _. Kept true refs fds) (close_behind end c (record s { files = t }))
      behind s c t h nothing e =
          (close_nothing_lem c nothing).runs (record s { files = t })
            (record {
              in_op = h.in_op;
              counted = fileclose-Counted s.files f [] refs h.counted c t e;
              same = h.same;
            })

      go :
          (s : Sys)
          → Kept true (f ∷ refs) fds s
          → (s.files f).type ≡ fd_none
          → (r : Option (Closing × Ftable)) → fileclose f s.files ≡ r
          → Closes s.files f refs r
          → Yields {A = Unit {0}}
              (λ _. Kept true refs fds)
              (elim r [
                | none ↦ misuse
                | some (c, files) ↦ close_behind end c (record s { files = files })
              ])
      go s h fresh _ e (not_last nz) = behind s _ _ h (inl refl) e
      go s h fresh _ e (last c b z) =
          behind s _ _ h (inr (fresh-no_resource (s.files f) c fresh b)) e
