-- ===== src/Sysfile/Ends.antt =====
-- `pipealloc`: the two files that it gives, and what it takes back where it fails.
use csse332lab.Base.{
  ℕ, ◌≡◌, ◌≢◌, refl, Bool, true, false, not, Option, none, some, List, ◌∷◌, arith, if◌then◌else◌,
  ◌==◌, ==_refl, update, update_self, update_ne, count,
}
use csse332lab.Files.{File, Ftable, fd_pipe}
use csse332lab.Kalloc.{Kmem, kalloc}
use csse332lab.Pipe.{pipe_init}
use csse332lab.Sysfile.{Sys, gives, ◌>>◌, close_file}
use csse332lab.Sysfile.Calls.{set_file}
use csse332lab.Sysfile.Pipes.{new_pipe, pipe_end, with_files, second_file, first_file, pipealloc}
use csse332lab.Sysfile.Rules.{
  Yields, Triple, bind_lem, ret_lem, both_lem, if_lem, pre_lem, fact_lem,
}
use csse332lab.Sysfile.Triples.{Kept, Kept-same}
use csse332lab.Sysfile.Filing.{alloc_file_lem, alloc_file-IsNew, IsNew, set_file_lem, Fresh}
use csse332lab.Sysfile.GivingUp.{close_file_lem}

-- The end of a pipe for reading or for writing.
pub record IsEnd (pi : ℕ) (writable : Bool) (f : File) : Type 0 where
  pub type : f.type ≡ fd_pipe
  pub pipe : f.pipe ≡ pi
  pub readable : f.readable ≡ not writable
  pub writes : f.writable ≡ writable

-- The two ends of one pipe.
abbrev pub Ends : (rf wf : ℕ) → Ftable → Type 0
Ends rf wf t = (pi : ℕ) × (IsEnd pi false (t rf) × IsEnd pi true (t wf))

abbrev pub Allocated : List ℕ → (ℕ → Option ℕ) → Option (ℕ × ℕ) → Sys → Type 0
Allocated refs fds none s = Kept false refs fds s
Allocated refs fds (some (rf, wf)) s = Kept false (wf ∷ rf ∷ refs) fds s × Ends rf wf s.files

pipe_end-IsEnd : (pi : ℕ) (writable : Bool) (f : File) → IsEnd pi writable (pipe_end pi writable f)
pipe_end-IsEnd pi true f = record { type = refl; pipe = refl; readable = refl; writes = refl }
pipe_end-IsEnd pi false f = record { type = refl; pipe = refl; readable = refl; writes = refl }

new_file_ne : (f g : ℕ) (refs : List ℕ) → count g (f ∷ refs) ≡ 0 → f ≢ g
new_file_ne f g refs z e = let one : (f == g) ≡ true = rw e (==_refl g) in ground (arith, one, z)

module _ (end : ℕ) (refs : List ℕ) (fds : ℕ → Option ℕ) where
  new_pipe_lem : Triple (Kept false refs fds) new_pipe (λ _. Kept false refs fds)
  unfolding new_pipe
  new_pipe_lem = record { runs = λ s h. go s h (kalloc s.kmem) ((kalloc s.kmem).0 == 0) }
    where
      go :
          (s : Sys)
          → Kept false refs fds s
          → (r : ℕ × Kmem) (failed : Bool)
          → Yields {A = ℕ}
              (λ _. Kept false refs fds)
              (let t = record s { kmem = r.1 } in
                if failed
                then gives 0 t
                else gives r.0 (record t { pipes = update s.pipes r.0 (pipe_init (λ i. 5)) }))
      go s h r true = record { in_op = h.in_op; counted = h.counted; same = h.same }
      go s h r false = record { in_op = h.in_op; counted = h.counted; same = h.same }

  -- Both files are given up.
  pub close_both_lem :
      (rf wf : ℕ)
      → Triple
          (Kept false (wf ∷ rf ∷ refs) fds)
          (close_file end rf >> close_file end wf)
          (λ _. Kept false refs fds)
  close_both_lem rf wf =
      pre_lem
        (Kept-same false (wf ∷ rf ∷ refs) (rf ∷ wf ∷ refs) fds fds (λ c. omega arith) (λ g. refl))
        (bind_lem _ _ (close_file_lem end (wf ∷ refs) fds rf) (λ _. close_file_lem end refs fds wf))

  set_end_lem :
      (f pi : ℕ) (writable : Bool) (all : List ℕ)
      → count f all ≢ 0
      → Triple
          (Kept false all fds)
          (set_file f (pipe_end pi writable))
          (λ _ s. Kept false all fds s × IsEnd pi writable (s.files f))
  unfolding set_file
  set_end_lem f pi writable all ne = record {
    runs = λ s h. (
      (set_file_lem false all fds f (pipe_end pi writable) ne (λ x. refl)).runs s h,
      rw (update_self s.files f (pipe_end pi writable (s.files f)))
          (pipe_end-IsEnd pi writable (s.files f)),
    );
  }

  set_other_lem :
      (f g : ℕ) (h : File → File) (F : File → Type 0)
      → f ≢ g
      → Triple (λ s. F (s.files f)) (set_file g h) (λ _ s. F (s.files f))
  unfolding set_file
  set_other_lem f g h F ne = record {
    runs = λ s p. rw (update_ne s.files g f (h (s.files g)) ne) p;
  }

module _ (end : ℕ) where
  -- From the two files on.
  with_files_lem :
      (refs : List ℕ) (fds : ℕ → Option ℕ) (f0 f1 : ℕ)
      → f0 ≢ f1
      → Triple (Kept false (f1 ∷ f0 ∷ refs) fds) (with_files end f0 f1) (Allocated refs fds)
  unfolding with_files
  with_files_lem refs fds f0 f1 ne =
      let all = f1 ∷ f0 ∷ refs in
      let mine0 : count f0 all ≢ 0 = λ z. let at = ==_refl f0 in ground (arith, z, at) in
      let mine1 : count f1 all ≢ 0 = λ z. let at = ==_refl f1 in ground (arith, z, at) in
      bind_lem _ _ (new_pipe_lem end all fds) (λ pi.
        if_lem (pi == 0) _ _
          (bind_lem _ _ (close_both_lem end refs fds f0 f1) (λ _. ret_lem none (λ s h. h)))
          (bind_lem _ _ (set_end_lem end refs fds f0 pi false all mine0) (λ _.
            bind_lem _ _
              (both_lem (set_end_lem end refs fds f1 pi true all mine1)
                (set_other_lem end refs fds f0 f1 (pipe_end pi true) (IsEnd pi false) ne))
              (λ _. ret_lem (some (f0, f1)) (λ s h. (h.0.0, (pi, (h.1, h.0.1))))))))

  second_file_lem :
      (refs : List ℕ) (fds : ℕ → Option ℕ) (f0 : ℕ) (got : Option ℕ)
      → Triple
          (λ s. IsNew (f0 ∷ refs) got × Fresh false (f0 ∷ refs) fds got s)
          (second_file end f0 got)
          (Allocated refs fds)
  unfolding second_file
  second_file_lem refs fds f0 none =
      fact_lem (λ _. bind_lem _ _ (close_file_lem end refs fds f0) (λ _. ret_lem none (λ s h. h)))
  second_file_lem refs fds f0 (some f1) =
      fact_lem
        (λ new. pre_lem (λ s h. h.0) (with_files_lem refs fds f0 f1 (new_file_ne f0 f1 refs new)))

  first_file_lem :
      (refs : List ℕ) (fds : ℕ → Option ℕ) (got : Option ℕ)
      → Triple (Fresh false refs fds got) (first_file end got) (Allocated refs fds)
  unfolding first_file
  first_file_lem refs fds none = ret_lem none (λ s h. h)
  first_file_lem refs fds (some f0) =
      pre_lem (λ s h. (h.0, h.0))
        (bind_lem _ _
          (both_lem (alloc_file-IsNew false (f0 ∷ refs) fds) (alloc_file_lem false (f0 ∷ refs) fds))
          (second_file_lem refs fds f0))

  pub pipealloc_lem :
      (refs : List ℕ) (fds : ℕ → Option ℕ)
      → Triple (Kept false refs fds) (pipealloc end) (Allocated refs fds)
  unfolding pipealloc
  pipealloc_lem refs fds = bind_lem _ _ (alloc_file_lem false refs fds) (first_file_lem refs fds)
