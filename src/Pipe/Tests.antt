-- ===== src/Pipe/Tests.antt =====
-- kernel/pipe.c: small runs, and the theorems at concrete inputs.
use csse332lab.Base.{
  ℕ, zero, suc, ◌+◌, ◌-◌, ◌%◌, ◌^◌, ◌<◌, ◌≡◌, refl, Bool, true, false, Option, none, some, List, [],
  ◌∷◌, ◌++◌, arith, update,
}
use csse332lab.Pipe.{
  Pipe, WriteEnd, ReadEnd, put, skip, write_section, read_loop, read_section, is_empty,
}
use csse332lab.Pipe.Ring.{IsValid, queue}
use csse332lab.Pipe.Sections.{write_section-queue, read_section-queue}
use csse332lab.Pipe.History.{writes, reads, History, start, next, History-fifo}
use csse332lab.Pipe.Wakeup.{Awake, write_section-Awake, write_section_killed}

-- An open pipe whose counters are about to wrap, with a reader asleep.
abbrev empty : Pipe
empty = record {
  buf = λ i. 0;
  nread = 2 ^ 32 - 1;
  nwrite = 2 ^ 32 - 1;
  readopen = true;
  writeopen = true;
  read_sleepers = 1;
  write_sleepers = 0;
}

-- The caller's bytes are 100, 101 and so on.
abbrev bytes : ℕ → Option ℕ
bytes i = some (100 + i)

abbrev alive : ℕ → Bool
alive i = false

abbrev filled : Pipe
filled = record (put 101 (put 100 empty)) { read_sleepers = 0 }

write_two :
    write_section alive bytes 2 0 empty ≡ (100 ∷ 101 ∷ [], WriteEnd.returned (some 2), filled)
unfolding write_section put
write_two = refl

read_one :
    let (chs, end, q) = read_section false (λ i. true) 1 filled in
    (chs ≡ 100 ∷ []) × (end ≡ ReadEnd.returned (some 1)) × (queue q ≡ 101 ∷ [])
unfolding read_section read_loop put skip
read_one = (refl, refl, refl)

write_past_full : (write_section alive bytes 600 0 empty).1 ≡ WriteEnd.sleeping 512
unfolding write_section put
write_past_full = refl

-- The byte that cannot be copied out is gone from the pipe.
read_unwritable :
    let (chs, end, q) = read_section false (λ i. false) 2 filled in
    (end ≡ ReadEnd.returned (some 0)) × (queue q ≡ 101 ∷ [])
unfolding read_section read_loop put skip
read_unwritable = (refl, refl)

empty-IsValid : IsValid empty
empty-IsValid = omega arith

empty-Awake : Awake empty
empty-Awake = record { readers = λ h. (refl, refl); writers = λ h. absurd (omega arith) }

write_section-queue_example :
    let (chs, end, q) = write_section alive bytes 2 0 empty in
    IsValid q × (queue q ≡ queue empty ++ chs)
write_section-queue_example = write_section-queue alive bytes 2 0 empty empty-IsValid

read_section-queue_example :
    let (chs, end, q) = read_section false (λ i. true) 1 empty in
    IsValid q × (queue empty ≡ chs ++ queue q)
read_section-queue_example = read_section-queue false (λ i. true) 1 empty empty-IsValid

round_trip :
    History empty
      (([] ++ (100 ∷ 101 ∷ [])) ++ [])
      (([] ++ []) ++ (100 ∷ []))
      (read_section false (λ i. true) 1 (write_section alive bytes 2 0 empty).2).2
unfolding write_section read_section read_loop put skip
round_trip =
    next (next start (writes alive bytes 2 0 refl refl refl refl))
      (reads false (λ i. true) 1 refl refl refl refl)

History-fifo_example :
    let q = (read_section false (λ i. true) 1 (write_section alive bytes 2 0 empty).2).2 in
    IsValid q × (queue empty ++ (100 ∷ 101 ∷ []) ≡ 100 ∷ queue q)
History-fifo_example = History-fifo empty-IsValid round_trip

write_section-Awake_example : Awake (write_section alive bytes 2 0 empty).2
write_section-Awake_example = write_section-Awake alive bytes 2 0 empty (λ j h. refl) empty-Awake

write_section_killed_example :
    let (chs, end, q) = write_section (λ i. csse332lab.Base.leb 1 i) bytes 2 0 empty in
    (end ≡ WriteEnd.returned none) × (q.read_sleepers ≡ 1) × (is_empty q ≡ false)
write_section_killed_example =
    write_section_killed (λ i. csse332lab.Base.leb 1 i) bytes 0 0 100 empty empty-IsValid refl refl
      refl refl refl
