-- ===== src/Kalloc.antt =====
-- kernel/kalloc.c: the allocator of physical pages. The free pages form a linked list whose links
-- are the first words of the pages themselves. Each function's work between `acquire` and `release`
-- of `kmem.lock` is one step here.
pub mod Chain
pub mod Clients
mod Tests
use csse332lab.Base.{
  ℕ, zero, suc, ◌+◌, ◌-◌, ◌*◌, ◌/◌, ◌%◌, ◌^◌, Bool, true, false, not, ◌||◌, Option, none, some, ltb,
  leb, ◌==◌, if◌then◌else◌, update,
}

abbrev pub pgsize : ℕ
pgsize = 4096

-- KERNBASE + 128 MB
abbrev pub phystop : ℕ
phystop = 0x80000000 + 128 * 1024 * 1024

-- `kmem` and the memory that it links: `word a` is the 8-byte word at address `a`, of which only
-- the first word of a page is ever used; `freelist` is 0 for the null pointer.
pub record Kmem : Type 0 where
  pub word : ℕ → ℕ
  pub freelist : ℕ

-- PGROUNDUP, in `uint64` arithmetic
abbrev pub pgroundup : ℕ → ℕ
pgroundup sz = (sz + pgsize - 1) % 2 ^ 64 / pgsize * pgsize

-- What `memset` leaves in the first word of a page filled with the byte `c`.
abbrev pub filled : ℕ → ℕ
filled c = c * 0x0101010101010101

-- `end` is the linker's first address after the kernel.
module _ (end : ℕ) where
  abbrev pub bad_page : ℕ → Bool
  bad_page pa = not (pa % pgsize == 0) || ltb pa end || leb phystop pa

  -- `none` is `panic("kfree")`.
  pub kfree : ℕ → Kmem → Option Kmem
  kfree pa k =
      if bad_page pa
      then none
      else let junk = update k.word pa (filled 1) in
        some (record { word = update junk pa k.freelist; freelist = pa })

  -- The loop of `freerange`: `n` bounds the rounds that are left.
  pub freerange_loop : ℕ → ℕ → ℕ → Kmem → Option Kmem
  freerange_loop zero p pa_end k = some k
  freerange_loop (suc n) p pa_end k =
      if leb (p + pgsize) pa_end
      then elim (kfree p k) [ none ↦ none | some k' ↦ freerange_loop n (p + pgsize) pa_end k' ]
      else some k

  pub freerange : ℕ → ℕ → Kmem → Option Kmem
  unfolding freerange_loop
  freerange pa_start pa_end k = freerange_loop (pa_end / pgsize + 1) (pgroundup pa_start) pa_end k

  pub kinit : Kmem → Option Kmem
  unfolding freerange
  kinit k = freerange end phystop k

-- The page, 0 if there is none, and the allocator.
unfoldable pub kalloc : Kmem → ℕ × Kmem
kalloc k =
    let r = k.freelist in
    if r == 0
    then (0, k)
    else (r, record { word = update k.word r (filled 5); freelist = k.word r })
