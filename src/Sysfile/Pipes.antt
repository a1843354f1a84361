-- ===== src/Sysfile/Pipes.antt =====
-- `sys_pipe`, and `pipealloc` of kernel/pipe.c.
use csse332lab.Base.{
  ℕ, ◌+◌, ◌%◌, ◌^◌, Bool, true, false, Option, none, some, ◌==◌, if◌then◌else◌, update,
}
use csse332lab.Files.{File, fd_pipe}
use csse332lab.Kalloc.{kalloc}
use csse332lab.Pipe.{pipe_init}
use csse332lab.Sysfile.{gives, S, ret, ◌>>=◌, ◌>>◌, fdalloc, clear, close_file}
use csse332lab.Sysfile.Calls.{alloc_file, set_file}

-- `kalloc`, which fills the page with the byte 5, and the fields of `struct pipe` in it; 0 without
-- a page.
unfoldable pub new_pipe : S ℕ
new_pipe s =
    let (pi, kmem) = kalloc s.kmem in
    let t = record s { kmem = kmem } in
    if pi == 0
    then gives 0 t
    else gives pi (record t { pipes = update s.pipes pi (pipe_init (λ i. 5)) })

abbrev pub pipe_end : (pi : ℕ) (writable : Bool) → File → File
pipe_end pi writable f = record f {
  type = fd_pipe;
  readable = if writable then false else true;
  writable = writable;
  pipe = pi;
}

module _ (end : ℕ) where
  -- `pipealloc` with both files; 0 is the null pointer. Behind `bad:` there is never a page.
  unfoldable pub with_files : (f0 f1 : ℕ) → S (Option (ℕ × ℕ))
  with_files f0 f1 = do
    pi ← new_pipe
    if pi == 0 then close_file end f0 >> close_file end f1 >> ret none else (do
      set_file f0 (pipe_end pi false)
      set_file f1 (pipe_end pi true)
      ret (some (f0, f1)))

  -- Behind the second `filealloc`.
  unfoldable pub second_file : (f0 : ℕ) → Option ℕ → S (Option (ℕ × ℕ))
  second_file f0 none = close_file end f0 >> ret none
  second_file f0 (some f1) = with_files f0 f1

  -- Behind the first one.
  unfoldable pub first_file : Option ℕ → S (Option (ℕ × ℕ))
  first_file none = ret none
  first_file (some f0) = alloc_file >>= second_file f0

  -- The two ends; `none` is -1.
  unfoldable pub pipealloc : S (Option (ℕ × ℕ))
  pipealloc = alloc_file >>= first_file

  -- `copyout addr fd` says whether the int `fd` could be stored at the user address `addr`.
  module _ (copyout : ℕ → ℕ → Bool) (fdarray : ℕ) where
    -- `sys_pipe` behind the second `fdalloc`.
    unfoldable pub second_descriptor : (rf wf fd0 : ℕ) → Option ℕ → S (Option ℕ)
    second_descriptor rf wf fd0 none =
        clear fd0 >> close_file end rf >> close_file end wf >> ret none
    second_descriptor rf wf fd0 (some fd1) =
        if (if copyout fdarray fd0 then copyout ((fdarray + 4) % 2 ^ 64) fd1 else false)
        then ret (some 0)
        else clear fd0 >> clear fd1 >> close_file end rf >> close_file end wf >> ret none

    -- Behind the first one.
    unfoldable pub first_descriptor : (rf wf : ℕ) → Option ℕ → S (Option ℕ)
    first_descriptor rf wf none = close_file end rf >> close_file end wf >> ret none
    first_descriptor rf wf (some fd0) = fdalloc wf >>= second_descriptor rf wf fd0

    -- Behind `pipealloc`.
    unfoldable pub with_ends : Option (ℕ × ℕ) → S (Option ℕ)
    with_ends none = ret none
    with_ends (some (rf, wf)) = fdalloc rf >>= first_descriptor rf wf

    unfoldable pub sys_pipe : S (Option ℕ)
    sys_pipe = pipealloc >>= with_ends
