-- ===== src/Vm/Tests.antt =====
-- Page tables on a concrete memory.
use csse332lab.Base.{
  List, ◌==◌, if◌then◌else◌, false, [], ◌∷◌, ℕ, ◌≡◌, refl, Option, none, some, Bool,
}
use csse332lab.Vm.{Vm, mappages, map_loop, walk, walk_level, walkaddr}
use csse332lab.Vm.Copy.{Copied, copyin, copyin_loop, copyin-Copied}
use csse332lab.Kalloc.{Kmem, kalloc, kfree}

-- The allocator of the kernel with three free pages, above the root table in the page 0x80030.
abbrev end_of_kernel : ℕ
end_of_kernel = 0x80022000

abbrev kmem : Kmem
kmem = record {
  word = λ a. if a == 0x80031000 then 0x80032000 else if a == 0x80032000 then 0x80033000 else 0;
  freelist = 0x80031000;
}

abbrev free_pages : List ℕ
free_pages = 0x80031000 ∷ 0x80032000 ∷ 0x80033000 ∷ []

abbrev root : ℕ
root = 0x80030000

-- A root table without entries.
abbrev empty : Vm Kmem
empty = record { word = λ a. 0; free = kmem }

abbrev after : Option (Bool × Vm Kmem) → Vm Kmem
after none = empty
after (some (_, s)) = s

abbrev one_page : Vm Kmem
one_page = after (mappages kalloc (kfree end_of_kernel) root 0x5000 4096 0x80050000 22 empty)

looked_up : walkaddr kalloc (kfree end_of_kernel) root 0x5000 one_page ≡ 0x80050000
unfolding walkaddr walk_level mappages map_loop walk kalloc
looked_up = refl

copyin-Copied_example :
    Copied kalloc
      (kfree end_of_kernel)
      root
      one_page
      (λ a. a)
      0x5FF0
      4
      (copyin kalloc (kfree end_of_kernel) root one_page (λ a. a) 0x5FF0 4)
copyin-Copied_example = copyin-Copied kalloc (kfree end_of_kernel) root one_page (λ a. a) 0x5FF0 4

-- The page behind the mapped one is not mapped.
copied_bytes :
    copyin kalloc (kfree end_of_kernel) root one_page (λ a. a) 0x5FFE 4
    ≡ (0x80050FFE ∷ 0x80050FFF ∷ [], false)
unfolding copyin copyin_loop walkaddr walk_level mappages map_loop walk kalloc
copied_bytes = refl
