-- ===== src/Vm/Allocator.antt =====
-- The allocator of kernel/kalloc.c as the one of the page tables.
use csse332lab.Base.{ℕ, ◌*◌, ◌/◌, ◌%◌, ◌≡◌, ◌≢◌, sym, subst, ap, List, [], ◌∷◌, arith, Avoids}
use csse332lab.Kalloc.{Kmem, kalloc}
use csse332lab.Kalloc.Chain.{HasFree, kalloc-cons, kalloc-nil}
use csse332lab.Vm.Tables.{Allocates}

module _ (end : ℕ) where
  -- The free list is well formed, and the page `q` is not on it.
  abbrev pub InUse : Kmem → ℕ → Type 0
  InUse k q = (l : List ℕ) × (HasFree end k l × Avoids (q * 4096) l)

  kalloc-aligned : (k : Kmem) (q : ℕ) → InUse k q → (kalloc k).0 ≢ 0 → (kalloc k).0 % 4096 ≡ 0
  kalloc-aligned k q ([], (free, out)) nz = absurd (nz (ap (λ r. r.0) (kalloc-nil end k free)))
  kalloc-aligned k q (r ∷ l, (free, out)) nz =
      rw (kalloc-cons end r k l free).0 free.pages.0.aligned

  kalloc-fresh : (k : Kmem) → (kalloc k).0 ≢ 0 → ¬ InUse k ((kalloc k).0 / 4096)
  kalloc-fresh k nz ([], (free, out)) = nz (ap (λ r. r.0) (kalloc-nil end k free))
  kalloc-fresh k nz (r ∷ l, (free, out)) =
      let e = (kalloc-cons end r k l free).0 in
      let page = free.pages.0.aligned in out.0 (omega (arith, e, page))

  kalloc-taken :
      (k : Kmem) (q : ℕ) → InUse k q → (kalloc k).0 ≢ 0 → InUse (kalloc k).1 ((kalloc k).0 / 4096)
  kalloc-taken k q ([], (free, out)) nz = absurd (nz (ap (λ r. r.0) (kalloc-nil end k free)))
  kalloc-taken k q (r ∷ l, (free, out)) nz =
      let (e, rest) = kalloc-cons end r k l free in
      let page = free.pages.0.aligned in
      let at : r ≡ (kalloc k).0 / 4096 * 4096 = omega (arith, e, page) in
      (l, (rest, subst (λ a. Avoids a l) at free.distinct.0))

  kalloc-stays : (k : Kmem) (q : ℕ) → InUse k q → InUse (kalloc k).1 q
  kalloc-stays k q ([], (free, out)) =
      ([], (subst (λ m. HasFree end m []) (sym (ap (λ r. r.1) (kalloc-nil end k free))) free, tt))
  kalloc-stays k q (r ∷ l, (free, out)) = (l, ((kalloc-cons end r k l free).1, out.1))

  -- `kalloc` keeps to what the page tables rely on.
  unfoldable pub kalloc-Allocates : Allocates kalloc
  unfolding kalloc-aligned kalloc-fresh kalloc-taken kalloc-stays
  kalloc-Allocates = record {
    Used = InUse;
    aligned = kalloc-aligned;
    fresh = kalloc-fresh;
    taken = kalloc-taken;
    stays = kalloc-stays;
  }
