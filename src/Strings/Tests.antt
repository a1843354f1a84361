-- ===== src/Strings/Tests.antt =====
-- Runs of the string functions, and the theorems on them at concrete memories.
use csse332lab.Base.{ℕ, ◌+◌, ◌<◌, ◌≡◌, refl, some, arith, ◌==◌, if◌then◌else◌, pos}
use csse332lab.Strings.{
  Bytes, memmove, copy_up, copy_down, strncmp, strncpy, safestrcpy, safestrcpy_loop, strlen,
  strlen_loop,
}
use csse332lab.Strings.Copy.{Copied, memmove-Copied}
use csse332lab.Strings.Names.{strncmp-strncpy, safestrcpy-ends}

-- "abc" at the address 10, with a zero byte behind it
abbrev memory : Bytes
memory a = if a == 10 then 97 else if a == 11 then 98 else if a == 12 then 99 else 0

moved_over_itself : memmove 11 10 3 memory 13 ≡ 99
unfolding memmove copy_up copy_down
moved_over_itself = refl

length_of_abc : strlen 20 10 memory ≡ some 3
unfolding strlen strlen_loop
length_of_abc = refl

truncated : safestrcpy 30 10 3 memory 32 ≡ 0
unfolding safestrcpy safestrcpy_loop
truncated = refl

memmove-Copied_example : Copied 11 10 3 memory (memmove 11 10 3 memory)
memmove-Copied_example = memmove-Copied 11 10 3 memory

strncmp-strncpy_example : strncmp 10 30 2 (strncpy 30 10 2 memory) ≡ pos 0
strncmp-strncpy_example = strncmp-strncpy 30 10 2 memory (omega arith)

safestrcpy-ends_example : (m : ℕ) × (m < 3) × (safestrcpy 30 10 3 memory (30 + m) ≡ 0)
safestrcpy-ends_example = safestrcpy-ends 30 10 3 memory (omega arith)
