-- ===== src/Sysfile/Piping.antt =====
-- `sys_pipe`: the two descriptors that it gives, and what it takes back where it fails.
use native.Mathlib.Decide.{ℕ_discrete}
use csse332lab.Base.{
  ℕ, ◌≡◌, refl, sym, ◌∙◌, Bool, false, Option, none, some, List, ◌∷◌, ◌++◌, arith, ==_refl, ==_ne,
  update, update_ne, ap, count,
}
use csse332lab.Sysfile.{Sys, ret}
use csse332lab.Sysfile.Pipes.{second_descriptor, first_descriptor, with_ends, sys_pipe}
use csse332lab.Sysfile.Held.{held}
use csse332lab.Sysfile.Rules.{
  Yields, Triple, bind_lem, ret_lem, both_lem, if_lem, pre_lem, fact_lem,
}
use csse332lab.Sysfile.Triples.{Kept, Kept-same}
use csse332lab.Sysfile.Placing.{fdalloc_lem, fdalloc_frame, clear_lem, Placed, Lowest}
use csse332lab.Sysfile.Descriptors.{Sound, held-move}
use csse332lab.Sysfile.GivingUp.{close_file_lem}
use csse332lab.Sysfile.Ends.{Ends, Allocated, close_both_lem, pipealloc_lem}

-- How `sys_pipe` ends.
abbrev pub Piped : List ℕ → (ℕ → Option ℕ) → Option ℕ → Sys → Type 0
Piped others fds none s = Sound others fds s
Piped others fds (some _) s =
    (rf : ℕ) × (wf : ℕ) × (fd0 : ℕ) × (fd1 : ℕ) × (Lowest fds fd0
      × (Lowest (update fds fd0 (some rf)) fd1
          × (Sound others (update (update fds fd0 (some rf)) fd1 (some wf)) s
              × Ends rf wf s.files)))

-- Two descriptors that were free are so again.
restored_one :
    (fds : ℕ → Option ℕ) (fd : ℕ) (x : Option ℕ)
    → fds fd ≡ none
    → (g : ℕ) → update (update fds fd x) fd none g ≡ fds g
restored_one fds fd x free g = elim (ℕ_discrete g fd) [
  | yes e ↦ rw (e, ==_refl fd) (sym free)
  | no ne ↦ rw (==_ne g fd ne) refl
]

restored_both :
    (fds : ℕ → Option ℕ) (fd0 fd1 : ℕ) (x y : Option ℕ)
    → fds fd0 ≡ none
    → update fds fd0 x fd1 ≡ none
    → fds fd1 ≡ none
    → (g : ℕ) → update (update (update (update fds fd0 x) fd1 y) fd0 none) fd1 none g ≡ fds g
restored_both fds fd0 fd1 x y free0 free free1 g = elim (ℕ_discrete g fd1) [
  | yes e ↦ rw (e, ==_refl fd1) (sym free1)
  | no ne ↦ rw (==_ne g fd1 ne) elim (ℕ_discrete g fd0) [
    | yes e ↦ rw (e, ==_refl fd0) (sym free0)
    | no ne ↦ rw (==_ne g fd0 ne) refl
  ]
]

-- A free descriptor besides one that has been given was free before.
free_before :
    (fds : ℕ → Option ℕ) (fd0 fd1 : ℕ) (x : Option ℕ)
    → fds fd0 ≡ none
    → update fds fd0 x fd1 ≡ none
    → fds fd1 ≡ none
free_before fds fd0 fd1 x free0 free = elim (ℕ_discrete fd1 fd0) [
  | yes e ↦ ap fds e ∙ free0
  | no ne ↦ sym (update_ne fds fd0 fd1 x ne) ∙ free
]

module _ (end : ℕ) (others : List ℕ) (fds : ℕ → Option ℕ) (rf wf : ℕ) where
  abbrev all : List ℕ
  all = wf ∷ rf ∷ (others ++ held fds)

  abbrev fds0 : ℕ → ℕ → Option ℕ
  fds0 fd0 = update fds fd0 (some rf)

  success_lem :
      (fd0 fd1 : ℕ) (r : ℕ)
      → Lowest fds fd0
      → Lowest (fds0 fd0) fd1
      → Triple
          (λ s. Kept false all (update (fds0 fd0) fd1 (some wf)) s × Ends rf wf s.files)
          (ret (some r))
          (Piped others fds)
  success_lem fd0 fd1 r low0 low1 = ret_lem (some r) (λ s h.
      let gds = update (fds0 fd0) fd1 (some wf) in
      let moved : (c : ℕ) → count c (others ++ held gds) ≡ count c all = λ c.
        let a = held-move others fds fd0 rf c low0.in_range low0.free in
        let b = held-move others (fds0 fd0) fd1 wf c low1.in_range low1.free in
        omega (arith, a, b) in
      let kept = Kept-same false all (others ++ held gds) gds gds moved (λ g. refl) s h.0 in
      (rf, wf, fd0, fd1, (low0, (low1, (kept, h.1)))))

  -- From the second descriptor on.
  second_descriptor_lem :
      (copyout : ℕ → ℕ → Bool) (fdarray fd0 : ℕ)
      → Lowest fds fd0
      → (r1 : Option ℕ)
      → Triple
          (λ s. Placed false all (fds0 fd0) wf r1 s × Ends rf wf s.files)
          (second_descriptor end copyout fdarray rf wf fd0 r1)
          (Piped others fds)
  unfolding second_descriptor
  second_descriptor_lem copyout fdarray fd0 low0 none =
      pre_lem (λ s h. h.0)
        (bind_lem _ _
          (bind_lem _ _
            (bind_lem _ _ (clear_lem false all (fds0 fd0) fd0) (λ _.
              pre_lem
                (Kept-same false all (rf ∷ wf ∷ (others ++ held fds)) (update (fds0 fd0) fd0 none)
                  fds (λ c. omega arith) (restored_one fds fd0 (some rf) low0.free))
                (close_file_lem end (wf ∷ (others ++ held fds)) fds rf)))
            (λ _. close_file_lem end (others ++ held fds) fds wf))
          (λ _. ret_lem none (λ s h. h)))
  second_descriptor_lem copyout fdarray fd0 low0 (some fd1) =
      let gds = update (fds0 fd0) fd1 (some wf) in
      pre_lem (λ s h. (h.0.0, (h.0.1, h.1)))
        (fact_lem (λ low1. if_lem _ _ _ (success_lem fd0 fd1 0 low0 low1) (
          pre_lem (λ s h. h.0)
            (bind_lem _ _
              (bind_lem _ _
                (bind_lem _ _
                  (bind_lem _ _ (clear_lem false all gds fd0)
                    (λ _. clear_lem false all (update gds fd0 none) fd1))
                  (λ _.
                    pre_lem
                      (Kept-same false all (rf ∷ wf ∷ (others ++ held fds))
                        (update (update gds fd0 none) fd1 none) fds (λ c. omega arith)
                        (restored_both fds fd0 fd1 (some rf) (some wf) low0.free low1.free
                          (free_before fds fd0 fd1 (some rf) low0.free low1.free)))
                      (close_file_lem end (wf ∷ (others ++ held fds)) fds rf)))
                (λ _. close_file_lem end (others ++ held fds) fds wf))
              (λ _. ret_lem none (λ s h. h))))))

  -- From the first descriptor on.
  first_descriptor_lem :
      (copyout : ℕ → ℕ → Bool) (fdarray : ℕ) (r0 : Option ℕ)
      → Triple
          (λ s. Placed false all fds rf r0 s × Ends rf wf s.files)
          (first_descriptor end copyout fdarray rf wf r0)
          (Piped others fds)
  unfolding first_descriptor
  first_descriptor_lem copyout fdarray none =
      pre_lem (λ s h. h.0)
        (bind_lem _ _ (close_both_lem end (others ++ held fds) fds rf wf)
          (λ _. ret_lem none (λ s h. h)))
  first_descriptor_lem copyout fdarray (some fd0) =
      pre_lem (λ s h. (h.0.0, (h.0.1, h.1)))
        (fact_lem (λ low0.
          bind_lem _ _
            (both_lem (fdalloc_lem false all (fds0 fd0) wf) (fdalloc_frame (Ends rf wf) wf))
            (second_descriptor_lem copyout fdarray fd0 low0)))

with_ends_lem :
    (end : ℕ) (others : List ℕ) (fds : ℕ → Option ℕ) (copyout : ℕ → ℕ → Bool) (fdarray : ℕ)
    → (got : Option (ℕ × ℕ))
    → Triple
        (Allocated (others ++ held fds) fds got)
        (with_ends end copyout fdarray got)
        (Piped others fds)
unfolding with_ends
with_ends_lem end others fds copyout fdarray none = ret_lem none (λ s h. h)
with_ends_lem end others fds copyout fdarray (some (rf, wf)) =
    bind_lem _ _
      (both_lem (fdalloc_lem false (wf ∷ rf ∷ (others ++ held fds)) fds rf)
        (fdalloc_frame (Ends rf wf) rf))
      (first_descriptor_lem end others fds rf wf copyout fdarray)

-- `sys_pipe` gives the two lowest free descriptors, for the ends of one pipe, or takes back all
-- that it has done to the descriptors.
pub sys_pipe_lem :
    (end : ℕ) (others : List ℕ) (fds : ℕ → Option ℕ) (copyout : ℕ → ℕ → Bool) (fdarray : ℕ)
    → Triple (Sound others fds) (sys_pipe end copyout fdarray) (Piped others fds)
unfolding sys_pipe
sys_pipe_lem end others fds copyout fdarray =
    bind_lem _ _ (pipealloc_lem end (others ++ held fds) fds)
      (with_ends_lem end others fds copyout fdarray)

-- From a state without a transaction in which each open file has as many references as the
-- descriptors of the process and the others have, sys_pipe that does not end in a panic gives the
-- two lowest free descriptors to the two ends of one pipe, the first for reading and the second
-- for writing, or fails with the descriptors as they were; the state is again such a state.
pub sys_pipe-Piped :
    (end : ℕ) (others : List ℕ) (copyout : ℕ → ℕ → Bool) (fdarray : ℕ) (s : Sys)
    → Sound others s.ofile s
    → Yields (Piped others s.ofile) (sys_pipe end copyout fdarray s)
sys_pipe-Piped end others copyout fdarray s h =
    (sys_pipe_lem end others s.ofile copyout fdarray).runs s h
