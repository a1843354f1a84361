-- ===== src/Sysfile/Filewrite.antt =====
-- What `filewrite` calls, as kernel/fs.c is modelled and as a transaction is in the system calls.
use csse332lab.Base.{
  ℕ, ◌+◌, ◌<◌, ◌≡◌, refl, Bool, true, false, Option, none, some, arith, ltb, ==_refl,
}
use csse332lab.Fs.{Fs}
use csse332lab.Fs.Inodes.{ilock, iunlock, Stat, stati}
use csse332lab.Fs.Content.{writei}
use csse332lab.Fs.Content.Writing.{Locked, Written, writei-Written}
use csse332lab.Files.Data.{Calls}
use csse332lab.Files.Data.Writing.{Laws, Fits, Bounded}
use csse332lab.Sysfile.{Sys, Outcome, gives, panics, misuse, begin_op, end_op, inside}

-- The state and the value behind code that does not panic.
abbrev pub behind : {A : Type 0} → Outcome A → Option (A × Sys)
behind (gives a s) = some (a, s)
behind panics = none
behind misuse = none

abbrev pub state_behind : Outcome (Unit {0}) → Option Sys
state_behind (gives _ s) = some s
state_behind panics = none
state_behind misuse = none

-- `memory` are the bytes of the user, `copyin addr tot m` is the number of the `m` bytes at
-- `addr + tot` that can be read. The pipes, the devices and what is
-- read are those of `rest`.
module _ (memory : ℕ → ℕ) (copyin : ℕ → ℕ → ℕ → ℕ) (rest : Calls Sys Stat) where
  pub kernel_calls : Calls Sys Stat
  kernel_calls = record rest {
    begin_op = λ s. state_behind (begin_op s);
    end_op = λ s. state_behind (end_op s);
    ilock = λ i s. state_behind (inside (ilock i) s);
    iunlock = λ i s. state_behind (inside (iunlock i) s);
    stati = λ i s. stati (s.fs.itable i);
    writei =
        λ i addr off m s. behind (inside (writei (λ j. memory (addr + j)) (copyin addr) i off m) s);
  }

  -- The inode is loaded and referred to, and nobody holds its lock.
  pub record Idle (i : ℕ) (op : Bool) (s : Sys) : Type 0 where
    pub in_op : s.op ≡ op
    pub referred : 0 < (s.fs.itable i).ref
    pub unlocked : (s.fs.itable i).locked ≡ false
    pub valid : (s.fs.itable i).valid ≡ true

  abbrev pub Holds : ℕ → Sys → Type 0
  Holds i s = (s.op ≡ true) × Locked i s.fs

  begins :
      (i : ℕ) (s : Sys)
      → Idle i false s
      → (t : Sys) × (kernel_calls.begin_op s ≡ some t) × Idle i true t
  unfolding kernel_calls begin_op
  begins i s h = rw h.in_op (
    record s { op = true },
    refl,
    record { in_op = refl; referred = h.referred; unlocked = h.unlocked; valid = h.valid },
  )

  ends :
      (i : ℕ) (s : Sys)
      → Idle i true s
      → (t : Sys) × (kernel_calls.end_op s ≡ some t) × Idle i false t
  unfolding kernel_calls end_op
  ends i s h = rw h.in_op (
    record s { op = false },
    refl,
    record { in_op = refl; referred = h.referred; unlocked = h.unlocked; valid = h.valid },
  )

  locks :
      (i : ℕ) (s : Sys) → Idle i true s → (t : Sys) × (kernel_calls.ilock i s ≡ some t) × Holds i t
  unfolding kernel_calls inside ilock
  locks i s h =
      let referred : ltb (s.fs.itable i).ref 1 ≡ false = ground (arith, h.referred) in
      rw (h.in_op, referred, h.unlocked, h.valid)
        (
          _,
          refl,
          (
            h.in_op,
            record {
              referred = rw (==_refl i) h.referred;
              locked = rw (==_refl i) refl;
              valid = rw (==_refl i) refl;
            },
          ),
        )

  unlocks :
      (i : ℕ) (s : Sys)
      → Holds i s
      → (t : Sys) × (kernel_calls.iunlock i s ≡ some t) × Idle i true t
  unfolding kernel_calls inside iunlock
  unlocks i s (op, h) =
      let referred : ltb (s.fs.itable i).ref 1 ≡ false = ground (arith, h.referred) in
      rw (op, h.locked, referred)
        (
          _,
          refl,
          record {
            in_op = op;
            referred = rw (==_refl i) h.referred;
            unlocked = rw (==_refl i) refl;
            valid = rw (==_refl i) h.valid;
          },
        )

  writes :
      (i addr off m : ℕ) (s : Sys)
      → 0 < m
      → Fits off m
      → Holds i s
      → (r : Option ℕ) × (t : Sys) × (kernel_calls.writei i addr off m s ≡ some (r, t))
        × Holds i t
        × Bounded r m
  unfolding kernel_calls inside
  writes i addr off m s pos fits (op, h) =
      let (r, fs, e, w) =
        (writei-Written i (λ j. memory (addr + j)) (copyin addr) off m (omega (arith, fits))).runs
          s.fs h in
      rw (op, e) (done r fs w)
    where
      done :
          (r : Option ℕ) (fs : Fs)
          → Written i m r fs
          → (r' : Option ℕ) × (t : Sys) × (◌≡◌ {A = Option (Option ℕ × Sys)}
              (some (r, record s { fs = fs }))
              (some (r', t)))
            × Holds i t
            × Bounded r' m
      done none fs w = (none, record s { fs = fs }, refl, (op, w), tt)
      done (some r) fs w = (some r, record s { fs = fs }, refl, (op, w.1), w.0)

  -- kernel/fs.c and the transactions keep to what `filewrite` relies on.
  unfoldable pub kernel_Laws : (i : ℕ) → Laws kernel_calls i
  unfolding begins locks writes unlocks ends
  kernel_Laws i = record {
    Out = Idle i false;
    In = Idle i true;
    Held = Holds i;
    begins = begins i;
    locks = locks i;
    writes = λ addr off m s. writes i addr off m s;
    unlocks = unlocks i;
    ends = ends i;
  }
