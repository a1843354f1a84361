-- ===== src/Vm.antt =====
-- kernel/vm.c: the page tables of Sv39 in memory. A table is 512 words of 8 bytes in a page; a
-- word is named by its address. The allocator of pages is a parameter: `kalloc` gives 0 where no
-- page is left, and `kfree` panics with `none`. What they write into a page that they take or give
-- is not kept, since a page that is handed out is overwritten whole. Data pages have no content.
pub mod Tables
pub mod Walk
pub mod Mapping
pub mod Allocator
pub mod Copy
mod Tests
use csse332lab.Base.{
  ℕ, zero, suc, ◌+◌, ◌-◌, ◌*◌, ◌/◌, ◌%◌, ◌^◌, Bool, true, false, not, ◌&&◌, Option, none, some, ltb,
  leb, ◌==◌, if◌then◌else◌, update,
}

abbrev pub pgsize : ℕ
pgsize = 4096

abbrev pub maxva : ℕ
maxva = 2 ^ 38

-- PX(level, va)
abbrev pub px : ℕ → ℕ → ℕ
px level va = va / 2 ^ (12 + 9 * level) % 512

abbrev pub pte2pa : ℕ → ℕ
pte2pa pte = pte / 1024 * 4096

abbrev pub pa2pte : ℕ → ℕ
pa2pte pa = pa / 4096 * 1024

-- PTE_V, PTE_U and PTE_FLAGS
abbrev pub is_valid : ℕ → Bool
is_valid pte = pte % 2 == 1

abbrev pub is_user : ℕ → Bool
is_user pte = pte / 16 % 2 == 1

abbrev pub pte_flags : ℕ → ℕ
pte_flags pte = pte % 1024

-- PA2PTE(pa) | perm | PTE_V, for flags below bit 10.
abbrev pub leaf : (pa perm : ℕ) → ℕ
leaf pa perm = pa2pte pa + (if perm % 2 == 1 then perm else perm + 1)

abbrev pub pgrounddown : ℕ → ℕ
pgrounddown a = a / pgsize * pgsize

abbrev pub pgroundup : ℕ → ℕ
pgroundup sz = (sz + pgsize - 1) % 2 ^ 64 / pgsize * pgsize

pub record Vm (K : Type 0) : Type 0 where
  pub word : ℕ → ℕ
  pub free : K

-- memset(page, 0, PGSIZE)
abbrev pub zero_page : ℕ → (ℕ → ℕ) → ℕ → ℕ
zero_page p word a = if a / 4096 == p / 4096 then 0 else word a

module _ {K : Type 0} (kalloc : K → ℕ × K) (kfree : ℕ → K → Option K) where
  -- The loop of `walk`, at `level`: the address of the entry, `none` for 0.
  pub walk_level : ℕ → (pagetable va : ℕ) (alloc : Bool) → Vm K → Option ℕ × Vm K
  walk_level zero pt va alloc s = (some (pt + 8 * px 0 va), s)
  walk_level (suc level) pt va alloc s =
      let a = pt + 8 * px (suc level) va in
      let (p, free) = kalloc s.free in
      let down = walk_level level (pte2pa (s.word a)) va alloc s in
      let new =
        walk_level level p va alloc
          (record { word = update (zero_page p s.word) a (pa2pte p + 1); free = free }) in
      if is_valid (s.word a)
      then down
      else if not alloc
      then (none, s)
      else if p == 0
      then (none, record s { free = free })
      else new

  -- The outer `none` is a panic.
  pub walk : (pagetable va : ℕ) (alloc : Bool) → Vm K → Option (Option ℕ × Vm K)
  walk pt va alloc s = if leb maxva va then none else some (walk_level 2 pt va alloc s)

  abbrev pub result : {A B : Type 0} → Option A → (A → Option B) → Option B
  result none k = none
  result (some a) k = k a

  -- 0 where the address is not mapped.
  pub walkaddr : (pagetable va : ℕ) → Vm K → ℕ
  walkaddr pt va s = if leb maxva va then 0 else elim (walk_level 2 pt va false s).0 [
    | none ↦ 0
    | some pte ↦
        if not (is_valid (s.word pte))
        then 0
        else if not (is_user (s.word pte))
        then 0
        else pte2pa (s.word pte)
  ]

  -- The loop of `mappages`, with at most `k` rounds: true is 0, false -1.
  pub map_loop : ℕ → (pagetable a last pa perm : ℕ) → Vm K → Option (Bool × Vm K)
  map_loop zero pt a last pa perm s = none
  map_loop (suc k) pt a last pa perm s = result (walk pt a true s) (λ (pte, s). elim pte [
    | none ↦ some (false, s)
    | some pte ↦
        let s' = record s { word = update s.word pte (leaf pa perm) } in
        let rest = map_loop k pt (a + pgsize) last (pa + pgsize) perm s' in
        if is_valid (s.word pte) then none else if a == last then some (true, s') else rest
  ])

  pub mappages : (pagetable va size pa perm : ℕ) → Vm K → Option (Bool × Vm K)
  mappages pt va size pa perm s =
      let a = pgrounddown va in
      let last = pgrounddown (va + size - 1) in
      if size == 0 then none else map_loop ((last - a) / pgsize + 1) pt a last pa perm s

  pub kvmmap : (pagetable va pa sz perm : ℕ) → Vm K → Option (Vm K)
  kvmmap pt va pa sz perm s =
      result (mappages pt va sz pa perm s) (λ (ok, s). if ok then some s else none)

  -- The loop of `uvmunmap`, over `k` pages.
  pub unmap_loop : ℕ → (pagetable a : ℕ) (do_free : Bool) → Vm K → Option (Vm K)
  unmap_loop zero pt a do_free s = some s
  unmap_loop (suc k) pt a do_free s = result (walk pt a false s) (λ (pte, s). elim pte [
    | none ↦ none
    | some pte ↦
        if not (is_valid (s.word pte))
        then none
        else if pte_flags (s.word pte) == 1
        then none
        else if do_free
        then result (kfree (pte2pa (s.word pte)) s.free) (λ free.
          unmap_loop k pt (a + pgsize) do_free (record { word = update s.word pte 0; free = free }))
        else unmap_loop k pt (a + pgsize) do_free (record s { word = update s.word pte 0 })
  ])

  pub uvmunmap : (pagetable va npages : ℕ) (do_free : Bool) → Vm K → Option (Vm K)
  uvmunmap pt va npages do_free s =
      if not (va % pgsize == 0) then none else unmap_loop npages pt va do_free s

  -- 0 if there is no page.
  pub uvmcreate : Vm K → ℕ × Vm K
  uvmcreate s =
      let (p, free) = kalloc s.free in
      if p == 0
      then (0, record s { free = free })
      else (p, record { word = zero_page p s.word; free = free })

  pub uvmdealloc : (pagetable oldsz newsz : ℕ) → Vm K → Option (ℕ × Vm K)
  uvmdealloc pt oldsz newsz s =
      if leb oldsz newsz
      then some (oldsz, s)
      else if ltb (pgroundup newsz) (pgroundup oldsz)
      then result
          (uvmunmap pt (pgroundup newsz) ((pgroundup oldsz - pgroundup newsz) / pgsize) true s)
          (λ s. some (newsz, s))
      else some (newsz, s)

  -- The loop of `uvmalloc`, with at most `k` rounds; `perm` is PTE_R|PTE_U|xperm.
  pub uvmalloc_loop : ℕ → (pagetable oldsz a newsz perm : ℕ) → Vm K → Option (ℕ × Vm K)
  uvmalloc_loop zero pt oldsz a newsz perm s = some (newsz, s)
  uvmalloc_loop (suc k) pt oldsz a newsz perm s =
      let (mem, free) = kalloc s.free in
      let undo : Vm K → Option (ℕ × Vm K) =
        λ s. result (uvmdealloc pt a oldsz s) (λ (_, s). some (0, s)) in
      if leb newsz a
      then some (newsz, s)
      else if mem == 0
      then undo (record s { free = free })
      else result
          (mappages pt a pgsize mem perm (record { word = zero_page mem s.word; free = free }))
          (λ (ok, s).
            if ok
            then uvmalloc_loop k pt oldsz (a + pgsize) newsz perm s
            else result (kfree mem s.free) (λ free. undo (record s { free = free })))

  pub uvmalloc : (pagetable oldsz newsz perm : ℕ) → Vm K → Option (ℕ × Vm K)
  uvmalloc pt oldsz newsz perm s =
      if ltb newsz oldsz
      then some (oldsz, s)
      else let from = pgroundup oldsz in
        uvmalloc_loop ((newsz - from) / pgsize + 1) pt from from newsz perm s

  pub uvmclear : (pagetable va : ℕ) → Vm K → Option (Vm K)
  uvmclear pt va s = result (walk pt va false s) (λ (pte, s). elim pte [
    | none ↦ none
    | some pte ↦ some (record s {
      word = update s.word pte (if is_user (s.word pte) then s.word pte - 16 else s.word pte);
    })
  ])
