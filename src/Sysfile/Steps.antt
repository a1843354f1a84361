-- ===== src/Sysfile/Steps.antt =====
-- The system calls of a process, one after the other.
use csse332lab.Base.{
  ℕ, ◌≡◌, refl, Bool, false, Option, none, some, List, [], ◌∷◌, ◌++◌, arith, update,
}
use csse332lab.Files.Refs.{Counted}
use csse332lab.Sysfile.{Sys, S, ret, ◌>>=◌, sys_dup, sys_close}
use csse332lab.Sysfile.Calls.{sys_link, sys_unlink, sys_open, sys_mkdir, sys_mknod, sys_chdir}
use csse332lab.Sysfile.Pipes.{sys_pipe}
use csse332lab.Sysfile.Held.{held, held-same, count-append, Counted-same}
use csse332lab.Sysfile.Rules.{Yields, Triple, bind_lem, ret_lem, post_lem}
use csse332lab.Sysfile.Descriptors.{Sound, Duped, sys_dup_lem, Closed, sys_close_lem}
use csse332lab.Sysfile.Transactions.{
  sys_link_lem, sys_unlink_lem, sys_mkdir_lem, sys_mknod_lem, sys_chdir_lem,
}
use csse332lab.Sysfile.Opening.{Opened, sys_open_lem}
use csse332lab.Sysfile.Piping.{Piped, sys_pipe_lem}

-- The calls, with their arguments.
pub data Call : Type 0 where
  dup : (fd : ℕ) → Call
  close : (fd : ℕ) → Call
  link : (old new : Option (List ℕ)) → Call
  unlink_path : (path : Option (List ℕ)) → Call
  open_path : (path : Option (List ℕ)) → (omode : ℕ) → Call
  mkdir : (path : Option (List ℕ)) → Call
  mknod : (path : Option (List ℕ)) → (major minor : ℕ) → Call
  chdir : (path : Option (List ℕ)) → Call
  pipe : (copyout : ℕ → ℕ → Bool) → (fdarray : ℕ) → Call

-- What a state must be for a process to make calls: no transaction is open, and each open file has
-- as many references as the descriptors and the others have. A call that has failed has left the
-- descriptors as they were.
abbrev pub Settled : List ℕ → Sys → Type 0
Settled others s = (s.op ≡ false) × Counted s.files (others ++ held s.ofile)

abbrev pub Unchanged : (ℕ → Option ℕ) → Option ℕ → Sys → Type 0
Unchanged fds none s = (fd : ℕ) → s.ofile fd ≡ fds fd
Unchanged fds (some n) s = Unit

abbrev pub Fails : List ℕ → (ℕ → Option ℕ) → Option ℕ → Sys → Type 0
Fails others fds r s = Settled others s × Unchanged fds r s

pub Settled-Sound : (others : List ℕ) (s : Sys) → Settled others s → Sound others s.ofile s
Settled-Sound others s h = record { in_op = h.0; counted = h.1; same = λ fd. refl }

Sound-Settled :
    (others : List ℕ) (fds : ℕ → Option ℕ) (s : Sys) → Sound others fds s → Settled others s
Sound-Settled others fds s h = (
  h.in_op,
  Counted-same s.files (others ++ held fds) (others ++ held s.ofile)
      (λ c.
        let a = count-append c others (held fds) in
        let b = count-append c others (held s.ofile) in
        let moved = held-same c s.ofile fds h.same in omega (arith, a, b, moved))
      h.counted,
)

module _ (end : ℕ) where
  abbrev pub perform : Call → S (Option ℕ)
  perform (dup fd) = sys_dup fd
  perform (close fd) = sys_close end fd
  perform (link old new) = sys_link old new
  perform (unlink_path path) = sys_unlink path
  perform (open_path path omode) = sys_open end path omode
  perform (mkdir path) = sys_mkdir path
  perform (mknod path major minor) = sys_mknod path major minor
  perform (chdir path) = sys_chdir path
  perform (pipe copyout fdarray) = sys_pipe end copyout fdarray

  fails_lem :
      (others : List ℕ) (fds : ℕ → Option ℕ) (m : S (Option ℕ))
      → Triple (Sound others fds) m (λ _. Sound others fds)
      → Triple (Sound others fds) m (Fails others fds)
  fails_lem others fds m h = post_lem (λ r s k. (Sound-Settled others fds s k, unchanged r s k)) h
    where
      unchanged : (r : Option ℕ) (s : Sys) → Sound others fds s → Unchanged fds r s
      unchanged none s k = k.same
      unchanged (some n) s k = tt

  perform_lem :
      (others : List ℕ) (fds : ℕ → Option ℕ) (c : Call)
      → Triple (Sound others fds) (perform c) (Fails others fds)
  perform_lem others fds (dup fd) = post_lem go (sys_dup_lem others fds fd)
    where
      go : (r : Option ℕ) (s : Sys) → Duped others fds fd r s → Fails others fds r s
      go none s h = (Sound-Settled others fds s h, h.same)
      go (some n) s h = (Sound-Settled others (update fds n (fds fd)) s h.1, tt)
  perform_lem others fds (close fd) = post_lem go (sys_close_lem end others fds fd)
    where
      go : (r : Option ℕ) (s : Sys) → Closed others fds fd r s → Fails others fds r s
      go none s h = (Sound-Settled others fds s h, h.same)
      go (some n) s h = (Sound-Settled others (update fds fd none) s h, tt)
  perform_lem others fds (open_path path omode) =
      post_lem go (sys_open_lem end others fds omode path)
    where
      go : (r : Option ℕ) (s : Sys) → Opened others fds omode r s → Fails others fds r s
      go none s h = (Sound-Settled others fds s h, h.same)
      go (some fd) s (low, (f, (h, mode))) = (Sound-Settled others (update fds fd (some f)) s h, tt)
  perform_lem others fds (pipe copyout fdarray) =
      post_lem go (sys_pipe_lem end others fds copyout fdarray)
    where
      go : (r : Option ℕ) (s : Sys) → Piped others fds r s → Fails others fds r s
      go none s h = (Sound-Settled others fds s h, h.same)
      go (some n) s (rf, wf, fd0, fd1, (low0, (low1, (h, ends)))) =
          (Sound-Settled others (update (update fds fd0 (some rf)) fd1 (some wf)) s h, tt)
  perform_lem others fds (link old new) =
      fails_lem others fds _ (sys_link_lem (others ++ held fds) fds old new)
  perform_lem others fds (unlink_path path) =
      fails_lem others fds _ (sys_unlink_lem (others ++ held fds) fds path)
  perform_lem others fds (mkdir path) =
      fails_lem others fds _ (sys_mkdir_lem (others ++ held fds) fds path)
  perform_lem others fds (mknod path major minor) =
      fails_lem others fds _ (sys_mknod_lem (others ++ held fds) fds path major minor)
  perform_lem others fds (chdir path) =
      fails_lem others fds _ (sys_chdir_lem (others ++ held fds) fds path)

  -- The calls, one after the other: their results.
  abbrev pub perform_all : List Call → S (List (Option ℕ))
  perform_all [] = ret []
  perform_all (c ∷ cs) = do r ← perform c; rs ← perform_all cs; ret (r ∷ rs)

  perform_all_lem :
      (others : List ℕ) (cs : List Call)
      → Triple (Settled others) (perform_all cs) (λ _. Settled others)
  perform_all_lem others [] = ret_lem [] (λ s h. h)
  perform_all_lem others (c ∷ cs) =
      bind_lem _ _
        (record {
          runs = λ s h.
              (post_lem (λ r s k. k.0) (perform_lem others s.ofile c)).runs s
                (Settled-Sound others s h);
        })
        (λ r. bind_lem _ _ (perform_all_lem others cs) (λ rs. ret_lem (r ∷ rs) (λ s h. h)))

  -- Whatever system calls a process makes, one after the other, from a state without a transaction
  -- in which each open file has as many references as the descriptors of the process and the
  -- others have: if no panic of the file system or of `kfree` stops it, it ends in such a state.
  -- On no path is the file system called outside of a transaction, is a transaction begun in
  -- another or ended outside, or is a file duplicated or closed to which there is no reference.
  pub perform_all-Settled :
      (others : List ℕ) (cs : List Call) (s : Sys)
      → Settled others s
      → Yields (λ _. Settled others) (perform_all cs s)
  perform_all-Settled others cs s h = (perform_all_lem others cs).runs s h

  -- A system call that fails, from such a state, has left every descriptor as it was.
  pub perform-Unchanged :
      (others : List ℕ) (c : Call) (s : Sys)
      → Settled others s
      → Yields (Unchanged s.ofile) (perform c s)
  perform-Unchanged others c s h =
      (post_lem (λ r s k. k.1) (perform_lem others s.ofile c)).runs s (Settled-Sound others s h)
