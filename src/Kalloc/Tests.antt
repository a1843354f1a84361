-- ===== src/Kalloc/Tests.antt =====
-- kernel/kalloc.c: small runs, and the theorems at concrete inputs.
use csse332lab.Base.{
  ℕ, ◌+◌, ◌*◌, ◌-◌, ◌≡◌, ◌≢◌, refl, some, none, Option, List, [], ◌∷◌, ◌++◌, arith, update,
}
use csse332lab.Kalloc.{Kmem, pgsize, phystop, kfree, kalloc, kinit}
use csse332lab.Kalloc.Chain.{IsPage, HasFree, kfree-HasFree, kalloc-cons, kinit_frees}
use csse332lab.Kalloc.Clients.{Users, allocated, Reach, here, next, IsPartition, Reach-Partition}

-- Two pages below the top of memory, and a kernel that ends just before them.
abbrev top : ℕ
top = phystop - pgsize

abbrev end : ℕ
end = phystop - 2 * pgsize - 100

abbrev none_free : Kmem
none_free = record { word = λ a. 7; freelist = 0 }

-- Both pages free, the upper one first.
abbrev both_free : Kmem
both_free = record {
  word = update (update (λ a. 7) (top - pgsize) 0) top (top - pgsize);
  freelist = top;
}

both_HasFree : HasFree end both_free (top ∷ (top - pgsize) ∷ [])
both_HasFree = record { chain = ground arith; distinct = omega arith; pages = omega arith }

kalloc_twice : (kalloc (kalloc both_free).1).0 ≡ top - pgsize
unfolding kalloc
kalloc_twice = refl

kfree_unaligned : kfree end (top + 8) both_free ≡ none
unfolding kfree
kfree_unaligned = refl

kinit_frees_example :
    (k' : Kmem) × (l : List ℕ) × (kinit end none_free ≡ some k')
    × HasFree end k' l
    × ((a : ℕ) → IsPage end a → ¬ csse332lab.Base.Avoids a l)
kinit_frees_example = kinit_frees end none_free (omega arith) (omega arith) refl

kfree-HasFree_example :
    (k' : Kmem) × (kfree end top (kalloc both_free).1 ≡ some k')
    × HasFree end k' (top ∷ (top - pgsize) ∷ [])
kfree-HasFree_example =
    kfree-HasFree end top (kalloc both_free).1 ((top - pgsize) ∷ []) (omega arith) (omega arith)
      (omega arith) (kalloc-cons end top both_free _ both_HasFree).1

kalloc-cons_example :
    ((kalloc both_free).0 ≡ top) × HasFree end (kalloc both_free).1 ((top - pgsize) ∷ [])
kalloc-cons_example = kalloc-cons end top both_free ((top - pgsize) ∷ []) both_HasFree

start : Users
start = record { kmem = both_free; held = [] }

start-Partition : IsPartition end 2 start
unfolding start
start-Partition = (
  top ∷ (top - pgsize) ∷ [],
  record { free = both_HasFree; distinct = omega arith; pages = tt; counted = refl },
)

one_held : Users
unfolding start
one_held = record { kmem = (kalloc both_free).1; held = (kalloc both_free).0 ∷ [] }

Reach-one_held : Reach end start one_held
unfolding start one_held kalloc
Reach-one_held = next here (allocated (omega arith) refl)

Reach-Partition_example : IsPartition end 2 one_held
Reach-Partition_example = Reach-Partition end (omega arith) start-Partition Reach-one_held
