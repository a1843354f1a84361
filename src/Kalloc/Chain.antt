-- ===== src/Kalloc/Chain.antt =====
-- The free list as a list of pages.
use native.Mathlib.Decide.{ℕ_discrete}
use csse332lab.Base.{
  ℕ, zero, suc, ◌+◌, ◌-◌, ◌*◌, ◌/◌, ◌%◌, ◌≤◌, ◌<◌, ◌≡◌, ◌≢◌, refl, ◌↔◌, inl, inr, none, some, List,
  [], ◌∷◌, arith, update, update_self, Bool-cases, All, All-mono, Avoids, Distinct,
}
use csse332lab.Kalloc.{
  Kmem, pgsize, phystop, pgroundup, bad_page, filled, kfree, freerange_loop, freerange, kinit,
  kalloc,
}

-- Following the links from `p` visits the pages `l`, and ends at the null pointer.
abbrev pub Chain : (ℕ → ℕ) → ℕ → List ℕ → Type 0
Chain word p [] = p ≡ 0
Chain word p (x ∷ xs) = (p ≡ x) × (x ≢ 0) × Chain word (word x) xs

-- A page that `kfree` accepts.
pub record IsPage (end a : ℕ) : Type 0 where
  pub aligned : a % pgsize ≡ 0
  pub above : end ≤ a
  pub below : a < phystop

-- The allocator `k` has exactly the free pages `l`.
pub record HasFree (end : ℕ) (k : Kmem) (l : List ℕ) : Type 0 where
  pub chain : Chain k.word k.freelist l
  pub distinct : Distinct l
  pub pages : All (IsPage end) l

Chain-update :
    (word : ℕ → ℕ) (a v p : ℕ) (l : List ℕ)
    → Avoids a l
    → Chain word p l
    → Chain (update word a v) p l
Chain-update word a v p [] out c = c
Chain-update word a v p (x ∷ xs) out c = ground (arith, Chain-update word a v (word x) xs)

-- `kfree` of a page that is not free makes it the first free page.
pub kfree-HasFree :
    (end pa : ℕ) (k : Kmem) (l : List ℕ)
    → 0 < end
    → IsPage end pa
    → Avoids pa l
    → HasFree end k l
    → (k' : Kmem) × (kfree end pa k ≡ some k') × HasFree end k' (pa ∷ l)
unfolding kfree
kfree-HasFree end pa k l pos page out free = (
  record { word = update (update k.word pa (filled 1)) pa k.freelist; freelist = pa },
  ground arith,
  record {
    chain = (
      refl,
      omega arith,
      rw (update_self (update k.word pa (filled 1)) pa k.freelist)
          (Chain-update _ pa _ _ l out (Chain-update k.word pa _ _ l out free.chain)),
    );
    distinct = (out, free.distinct);
    pages = (page, free.pages);
  },
)

-- `kfree` panics on exactly the addresses that are no pages of the allocator.
pub kfree-panic : (end pa : ℕ) (k : Kmem) → (kfree end pa k ≡ none) ↔ ¬ IsPage end pa
unfolding kfree
kfree-panic end pa k = (
  λ e p. ground arith,
  λ h. elim (Bool-cases (bad_page end pa)) [
    | inl bad ↦ rw bad
    | inr good ↦ absurd (h (ground arith))
  ],
)

kalloc_taken :
    (k : Kmem)
    → k.freelist ≢ 0
    → kalloc k ≡ (
      k.freelist,
      record { word = update k.word k.freelist (filled 5); freelist = k.word k.freelist },
    )
unfolding kalloc
kalloc_taken k h = ground arith

-- `kalloc` takes the first free page.
pub kalloc-cons :
    (end r : ℕ) (k : Kmem) (l : List ℕ)
    → HasFree end k (r ∷ l)
    → ((kalloc k).0 ≡ r) × HasFree end (kalloc k).1 l
kalloc-cons end r k l free =
    rw (kalloc_taken k (rw free.chain.0 free.chain.1), free.chain.0)
      (
        refl,
        record {
          chain = Chain-update k.word r _ _ l free.distinct.0 free.chain.2;
          distinct = free.distinct.1;
          pages = free.pages.1;
        },
      )

-- With no free page it returns the null pointer, and changes nothing.
pub kalloc-nil : (end : ℕ) (k : Kmem) → HasFree end k [] → kalloc k ≡ (0, k)
unfolding kalloc
kalloc-nil end k free = ground arith

-- The pages from `p` up, `n` of them, put one after the other before `l`.
abbrev pub upward : ℕ → ℕ → List ℕ → List ℕ
upward zero p l = l
upward (suc n) p l = upward n (p + pgsize) (p ∷ l)

freerange_loop-upward :
    (end n m p pa_end : ℕ) (k : Kmem) (l : List ℕ)
    → 0 < end
    → end ≤ p
    → p % pgsize ≡ 0
    → pa_end ≤ phystop
    → p + m * pgsize ≤ pa_end
    → pa_end < p + (m + 1) * pgsize
    → m < n
    → All (λ a. a < p) l
    → HasFree end k l
    → (k' : Kmem) × (freerange_loop end n p pa_end k ≡ some k') × HasFree end k' (upward m p l)
unfolding freerange_loop
freerange_loop-upward end zero m p pa_end k l pos hp al he lo hi fuel low free =
    absurd (omega arith)
freerange_loop-upward end (suc n) zero p pa_end k l pos hp al he lo hi fuel low free =
    (k, ground arith, free)
freerange_loop-upward end (suc n) (suc m) p pa_end k l pos hp al he lo hi fuel low free =
    let fresh : Avoids p l = All-mono (λ a. a < p) (λ a. p ≢ a) (λ a h. omega arith) l low in
    let (k', e, free') = kfree-HasFree end p k l pos (omega arith) fresh free in
    let next : All (λ a. a < p + pgsize) (p ∷ l) =
      (omega arith, All-mono (λ a. a < p) (λ a. a < p + pgsize) (λ a h. omega arith) l low) in
    let (k'', e', free'') =
      freerange_loop-upward end n m (p + pgsize) pa_end k' (p ∷ l) pos (omega arith) (omega arith)
        he (omega arith) (omega arith) (omega arith) next free' in
    (k'', ground (arith, e, e'), free'')

-- A page of the range is among `upward`, as is what it was put before.
upward_keeps : (m p a : ℕ) (l : List ℕ) → ¬ Avoids a l → ¬ Avoids a (upward m p l)
upward_keeps zero p a l h = h
upward_keeps (suc m) p a l h = upward_keeps m (p + pgsize) a (p ∷ l) (λ out. h out.1)

upward_covers :
    (m p a : ℕ) (l : List ℕ)
    → p % pgsize ≡ 0
    → a % pgsize ≡ 0
    → p ≤ a
    → a < p + m * pgsize
    → ¬ Avoids a (upward m p l)
upward_covers zero p a l hp ha lo hi = absurd (omega arith)
upward_covers (suc m) p a l hp ha lo hi = elim (ℕ_discrete a p) [
  | yes e ↦ upward_keeps m (p + pgsize) a (p ∷ l) (λ out. out.0 e)
  | no ne ↦ upward_covers m (p + pgsize) a (p ∷ l) (omega arith) ha (omega arith) (omega arith)
]

-- From an empty free list `kinit` does not panic, and frees every page between the end of the
-- kernel and the top of memory, each once.
pub kinit_frees :
    (end : ℕ) (k : Kmem)
    → 0 < end
    → end ≤ phystop
    → k.freelist ≡ 0
    → (k' : Kmem) × (l : List ℕ) × (kinit end k ≡ some k')
      × HasFree end k' l
      × ((a : ℕ) → IsPage end a → ¬ Avoids a l)
unfolding kinit freerange
kinit_frees end k pos top empty =
    let start = pgroundup end in
    let m = (phystop - start) / pgsize in
    let (k', e, free) =
      freerange_loop-upward end (phystop / pgsize + 1) m start phystop k [] pos (omega arith)
        (omega arith) (omega arith) (omega arith) (omega arith) (omega arith) tt
        (record { chain = empty; distinct = tt; pages = tt }) in
    (
      k',
      upward m start [],
      e,
      free,
      λ a page. upward_covers m start a [] (omega arith) page.aligned (omega arith) (omega arith),
    )
