-- ===== src/Kalloc/Clients.antt =====
-- The users of the allocator: which pages they hold, over every sequence of calls.
use csse332lab.Base.{
  ℕ, ◌+◌, ◌<◌, ◌≡◌, ◌≢◌, sym, ◌∙◌, ap, some, List, [], ◌∷◌, ◌++◌, arith, length, length-append, All,
  All-append_left, Avoids, Distinct, All-front, Distinct-front, Distinct-middle,
}
use csse332lab.Kalloc.{Kmem, kfree, kalloc}
use csse332lab.Kalloc.Chain.{IsPage, HasFree, kfree-HasFree, kalloc-cons, kalloc-nil}
use mathlib.Core.List.{append_assoc}
use mathlib.Core.Option.{some-injective}

-- The allocator, and the pages that were handed out and not given back.
pub record Users : Type 0 where
  pub kmem : Kmem
  pub held : List ℕ

module _ (end : ℕ) where
  -- A call of `kalloc` by any part of the kernel, or a call of `kfree` on a page that is held.
  pub data Step (s t : Users) : Type 0 where
    allocated :
        (kalloc s.kmem).0 ≢ 0
        → t ≡ record { kmem = (kalloc s.kmem).1; held = (kalloc s.kmem).0 ∷ s.held }
        → Step s t
    refused :
        (kalloc s.kmem).0 ≡ 0 → t ≡ record { kmem = (kalloc s.kmem).1; held = s.held } → Step s t
    freed :
        (pa : ℕ) (xs ys : List ℕ) (k : Kmem)
        → s.held ≡ xs ++ pa ∷ ys
        → kfree end pa s.kmem ≡ some k
        → t ≡ record { kmem = k; held = xs ++ ys }
        → Step s t

  pub data Reach (s : Users) : Users → Type 0 where
    here : Reach s s
    next : {t u : Users} → Reach s t → Step t u → Reach s u

  -- The free pages `l` and the held ones are pages of the range, none of them twice.
  pub record Partition (total : ℕ) (s : Users) (l : List ℕ) : Type 0 where
    pub free : HasFree end s.kmem l
    pub distinct : Distinct (l ++ s.held)
    pub pages : All (IsPage end) s.held
    pub counted : length l + length s.held ≡ total

  abbrev pub IsPartition : ℕ → Users → Type 0
  IsPartition total s = (l : List ℕ) × Partition total s l

  alloc-Partition :
      {total : ℕ} {s t : Users} (l : List ℕ)
      → Partition total s l
      → (kalloc s.kmem).0 ≢ 0
      → t ≡ record { kmem = (kalloc s.kmem).1; held = (kalloc s.kmem).0 ∷ s.held }
      → IsPartition total t
  alloc-Partition {s} [] p some_page e =
      absurd (some_page (ap (λ r. r.0) (kalloc-nil end s.kmem p.free)))
  alloc-Partition {total} {s} {t} (r ∷ l) p some_page e =
      let taken = kalloc-cons end r s.kmem l p.free in
      rw (e, taken.0)
        (
          l,
          record {
            free = taken.1;
            distinct = Distinct-middle r l s.held p.distinct.0 p.distinct.1;
            pages = (p.free.pages.0, p.pages);
            counted = omega (arith, p.counted);
          },
        )

  refuse-Partition :
      {total : ℕ} {s t : Users} (l : List ℕ)
      → Partition total s l
      → (kalloc s.kmem).0 ≡ 0
      → t ≡ record { kmem = (kalloc s.kmem).1; held = s.held }
      → IsPartition total t
  refuse-Partition {s} [] p null e = rw (e, kalloc-nil end s.kmem p.free) ([], p)
  refuse-Partition {s} (r ∷ l) p null e =
      absurd (p.free.chain.1 (sym (kalloc-cons end r s.kmem l p.free).0 ∙ null))

  -- What a partition says of a page that is held.
  held-IsPage :
      {total : ℕ} {s : Users} {l : List ℕ} (pa : ℕ) (xs ys : List ℕ)
      → Partition total s l
      → s.held ≡ xs ++ pa ∷ ys
      → IsPage end pa
        × All (IsPage end) (xs ++ ys)
        × Avoids pa (l ++ (xs ++ ys))
        × Distinct (l ++ (xs ++ ys))
  held-IsPage {s} {l} pa xs ys p e =
      let pages = All-front (IsPage end) pa xs ys (rw e at p.pages) in
      let distinct : Distinct ((l ++ xs) ++ pa ∷ ys) = rw append_assoc (rw e at p.distinct) in
      let apart = Distinct-front pa (l ++ xs) ys distinct in
      (pages.0, pages.1, rw (append_assoc l xs ys) at apart.0, rw (append_assoc l xs ys) at apart.1)

  -- Freeing a held page does not panic.
  pub kfree_held :
      {total : ℕ} {s : Users} {l : List ℕ} (pa : ℕ) (xs ys : List ℕ)
      → 0 < end
      → Partition total s l
      → s.held ≡ xs ++ pa ∷ ys
      → (k : Kmem) × (kfree end pa s.kmem ≡ some k)
        × Partition total (record { kmem = k; held = xs ++ ys }) (pa ∷ l)
  kfree_held {total} {s} {l} pa xs ys pos p e =
      let (page, rest, out, apart) = held-IsPage pa xs ys p e in
      let (k, ran, free) =
        kfree-HasFree end pa s.kmem l pos page (All-append_left (λ x. pa ≢ x) l (xs ++ ys) out)
          p.free in
      (
        k,
        ran,
        record {
          free = free;
          distinct = (out, apart);
          pages = rest;
          counted =
              omega
                (arith, p.counted, ap length e, length-append xs (pa ∷ ys), length-append xs ys);
        },
      )

  Step-Partition :
      {total : ℕ} {s t : Users} → 0 < end → Step s t → IsPartition total s → IsPartition total t
  Step-Partition pos (allocated some_page e) (l, p) = alloc-Partition l p some_page e
  Step-Partition pos (refused null e) (l, p) = refuse-Partition l p null e
  Step-Partition pos (freed pa xs ys k held ran e) (l, p) =
      let (k', ran', q) = kfree_held pa xs ys pos p held in
      let same : k' ≡ k = some-injective _ _ (sym ran' ∙ ran) in rw (e, ← same) (pa ∷ l, q)

  -- Over every sequence of calls that frees only pages that are held, the pages of the range stay
  -- parted into free and held ones, none twice and none lost.
  pub Reach-Partition :
      {total : ℕ} {s t : Users} → 0 < end → IsPartition total s → Reach s t → IsPartition total t
  Reach-Partition pos p here = p
  Reach-Partition pos p (next r st) = Step-Partition pos st (Reach-Partition pos p r)
