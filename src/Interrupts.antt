-- ===== src/Interrupts.antt =====
-- kernel/spinlock.c: how the locks of one CPU turn its interrupts off and on again.
pub mod Nesting
mod Tests
use csse332lab.Base.{
  ℕ, ◌+◌, ◌-◌, Bool, true, false, ◌&&◌, Option, none, some, ltb, ◌==◌, if◌then◌else◌,
}

-- Of `struct cpu` what the two functions use, and whether the interrupts of the CPU are on.
pub record Cpu : Type 0 where
  pub noff : ℕ
  pub intena : Bool
  pub intr : Bool

pub push_off : Cpu → Cpu
push_off c =
    let old = c.intr in
    let off = record c { intr = false } in
    let kept = if off.noff == 0 then record off { intena = old } else off in
    record kept { noff = kept.noff + 1 }

-- `none` is a panic.
pub pop_off : Cpu → Option Cpu
pop_off c =
    if c.intr
    then none
    else if ltb c.noff 1
    then none
    else let d = record c { noff = c.noff - 1 } in
      some (if d.noff == 0 && d.intena then record d { intr = true } else d)
