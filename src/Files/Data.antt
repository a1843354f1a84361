-- ===== src/Files/Data.antt =====
-- kernel/file.c: `filestat`, `fileread` and `filewrite`, over the parts of the kernel that they
-- call. Counts are not negative.
pub mod Writing
use csse332lab.Base.{
  ℕ, zero, suc, ◌+◌, ◌-◌, ◌*◌, ◌/◌, ◌%◌, ◌^◌, Bool, true, false, not, ◌||◌, Option, none, some, ltb,
  ◌==◌, if◌then◌else◌, update,
}
use csse332lab.Files.{FileType, fd_none, fd_pipe, fd_inode, fd_device, File, Ftable}

abbrev pub ndev : ℕ
ndev = 10

abbrev pub maxopblocks : ℕ
maxopblocks = 10

-- What file.c calls, on the rest of the kernel's state: a call panics where it gives `none`, and
-- the count `none` is -1. An entry of `devsw` may be the null pointer. `stati` gives the numbers
-- of a `struct stat` in its order, and `copyout` whether they could be stored.
pub record Calls (W Stat : Type 0) : Type 0 where
  pub piperead : (pipe addr n : ℕ) → W → Option (Option ℕ × W)
  pub pipewrite : (pipe addr n : ℕ) → W → Option (Option ℕ × W)
  pub read : ℕ → Option ((addr n : ℕ) → W → Option (Option ℕ × W))
  pub write : ℕ → Option ((addr n : ℕ) → W → Option (Option ℕ × W))
  pub begin_op : W → Option W
  pub end_op : W → Option W
  pub ilock : ℕ → W → Option W
  pub iunlock : ℕ → W → Option W
  pub stati : ℕ → W → Stat
  pub copyout : (addr : ℕ) → Stat → W → Bool × W
  pub readi : (ip addr off n : ℕ) → W → Option (Option ℕ × W)
  pub writei : (ip addr off n : ℕ) → W → Option (Option ℕ × W)

abbrev pub bind : {A B : Type 0} → Option A → (A → Option B) → Option B
bind none k = none
bind (some a) k = k a

-- `f->off += r` where r is positive.
abbrev pub advance : Option ℕ → File → File
advance none f = f
advance (some r) f = record f { off = (f.off + r) % 2 ^ 32 }

module _ {W Stat : Type 0} (calls : Calls W Stat) where
  -- True is 0, false -1.
  pub filestat : File → (addr : ℕ) → W → Option (Bool × W)
  filestat f addr w = elim f.type [
    | fd_none ↦ some (false, w)
    | fd_pipe ↦ some (false, w)
    | fd_inode ↦ stat
    | fd_device ↦ stat
  ]
    where
      stat : Option (Bool × W)
      stat =
          bind (calls.ilock f.ip w) (λ v.
            bind (calls.iunlock f.ip v) (λ w. some (calls.copyout addr (calls.stati f.ip v) w)))

  -- A call through `devsw`.
  abbrev pub device :
      (ℕ → Option ((addr n : ℕ) → W → Option (Option ℕ × W)))
      → File
      → (addr n : ℕ) → W
      → Option (Option ℕ × File × W)
  device table f addr n w =
      if not (ltb f.major ndev) then some (none, f, w) else elim (table f.major) [
        | none ↦ some (none, f, w)
        | some call ↦ bind (call addr n w) (λ (r, w). some (r, f, w))
      ]

  pub fileread : File → (addr n : ℕ) → W → Option (Option ℕ × File × W)
  fileread f addr n w = if not f.readable then some (none, f, w) else elim f.type [
    | fd_pipe ↦ bind (calls.piperead f.pipe addr n w) (λ (r, w). some (r, f, w))
    | fd_device ↦ device calls.read f addr n w
    | fd_inode ↦ bind (calls.ilock f.ip w) (λ w.
        bind (calls.readi f.ip addr f.off n w)
          (λ (r, w). bind (calls.iunlock f.ip w) (λ w. some (r, advance r f, w))))
    | fd_none ↦ none
  ]

  -- The most that one transaction writes.
  abbrev pub max : ℕ
  max = (maxopblocks - 1 - 1 - 2) / 2 * 1024

  -- One transaction of `filewrite`, of `m` bytes.
  pub write_chunk : File → (addr m : ℕ) → W → Option (Option ℕ × File × W)
  write_chunk f addr m w = bind (calls.begin_op w) (λ w. bind (calls.ilock f.ip w) (λ w.
      bind (calls.writei f.ip addr f.off m w) (λ (r, w).
        bind (calls.iunlock f.ip w) (λ w. bind (calls.end_op w) (λ w. some (r, advance r f, w))))))

  abbrev pub chunk : ℕ → ℕ
  chunk left = if ltb max left then max else left

  -- Whether `writei` has written the `m` bytes.
  abbrev pub is_all : Option ℕ → ℕ → Bool
  is_all none m = false
  is_all (some r) m = r == m

  -- The loop of `filewrite`, with at most `k` rounds: what `i` is behind it.
  pub filewrite_loop : ℕ → File → (addr i n : ℕ) → W → Option (ℕ × File × W)
  filewrite_loop zero f addr i n w = some (i, f, w)
  filewrite_loop (suc k) f addr i n w =
      if not (ltb i n)
      then some (i, f, w)
      else bind (write_chunk f (addr + i) (chunk (n - i)) w) (λ (r, f, w).
        let rest = filewrite_loop k f addr (i + chunk (n - i)) n w in
        if is_all r (chunk (n - i)) then rest else some (i, f, w))

  pub filewrite : File → (addr n : ℕ) → W → Option (Option ℕ × File × W)
  filewrite f addr n w = if not f.writable then some (none, f, w) else elim f.type [
    | fd_pipe ↦ bind (calls.pipewrite f.pipe addr n w) (λ (r, w). some (r, f, w))
    | fd_device ↦ device calls.write f addr n w
    | fd_inode ↦
        bind (filewrite_loop n f addr 0 n w)
          (λ (i, f, w). some (if i == n then some n else none, f, w))
    | fd_none ↦ none
  ]
