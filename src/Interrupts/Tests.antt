-- ===== src/Interrupts/Tests.antt =====
-- Two nested locks on a CPU whose interrupts are on.
use csse332lab.Base.{◌≡◌, refl, true, false, some, arith}
use csse332lab.Interrupts.{Cpu, push_off, pop_off}
use csse332lab.Interrupts.Nesting.{IsValid, Matched, nothing, more, Restored, push_off-pop_off}

abbrev idle : Cpu
idle = record { noff = 0; intena = false; intr = true }

abbrev inside : Cpu
inside = record { noff = 1; intena = true; intr = false }

idle-IsValid : IsValid idle
idle-IsValid h = absurd (omega arith)

inner_lock : Matched (push_off idle) inside
unfolding push_off pop_off
inner_lock = more nothing nothing refl

push_off-pop_off_example : (c : Cpu) × (pop_off inside ≡ some c) × Restored idle c
push_off-pop_off_example = push_off-pop_off idle inside idle-IsValid inner_lock
