-- ===== src/Vm/Tables.antt =====
-- The tables on the way of a walk, and the pages in use.
use csse332lab.Base.{
  ℕ, zero, suc, ◌+◌, ◌*◌, ◌/◌, ◌%◌, ◌^◌, ◌≡◌, ◌≢◌, refl, sym, subst, ◌∙◌, ap, true, false, arith,
  ==_refl, update, update_ne,
}
use csse332lab.Vm.{px, pte2pa, pa2pte, is_valid, Vm, zero_page}

-- What the tables rely on, of an allocator of which some page is in use, as the table at the root
-- is: a page that it gives is aligned, was not in use and then is, and pages in use stay so.
pub record Allocates {K : Type 0} (kalloc : K → ℕ × K) : Type 1 where
  pub Used : K → ℕ → Type 0
  pub aligned : (k : K) (q : ℕ) → Used k q → (kalloc k).0 ≢ 0 → (kalloc k).0 % 4096 ≡ 0
  pub fresh : (k : K) → (kalloc k).0 ≢ 0 → ¬ Used k ((kalloc k).0 / 4096)
  pub taken :
      (k : K) (q : ℕ) → Used k q → (kalloc k).0 ≢ 0 → Used (kalloc k).1 ((kalloc k).0 / 4096)
  pub stays : (k : K) (q : ℕ) → Used k q → Used (kalloc k).1 q

true_ne : true ≡ false → ⊥
true_ne e = ground (arith, e)

module _ (va : ℕ) where
  -- The entry of `va` in the table `pt` of a level.
  abbrev pub entry : (level pt : ℕ) → ℕ
  entry level pt = pt + 8 * px level va

  -- Page `q` is none of the tables that are there for `va` from `pt` on.
  abbrev pub Off : ℕ → (q pt : ℕ) → (ℕ → ℕ) → Type 0
  Off zero q pt word = q ≢ pt / 4096
  Off (suc l) q pt word =
      (q ≢ pt / 4096)
      × (is_valid (word (entry (suc l) pt)) ≡ true
          → Off l q (pte2pa (word (entry (suc l) pt))) word)

  pub entry_page : (level pt : ℕ) → pt % 4096 ≡ 0 → entry level pt / 4096 ≡ pt / 4096
  entry_page level pt e = let i = va / 2 ^ (12 + 9 * level) in omega (arith, e)

  -- A table of zeros has none below it.
  pub Off-empty :
      (l q pt : ℕ) (word : ℕ → ℕ)
      → q ≢ pt / 4096
      → (is_valid (word (entry l pt)) ≡ false)
      → Off l q pt word
  Off-empty zero q pt word ne z = ne
  Off-empty (suc l) q pt word ne z = (ne, λ e. absurd (true_ne (sym e ∙ z)))

module _ {K : Type 0} {kalloc : K → ℕ × K} (laws : Allocates kalloc) (va : ℕ) where
  -- The tables that are there are pages in use, none of them twice.
  abbrev pub Way : ℕ → ℕ → Vm K → Type 0
  Way zero pt s = (pt % 4096 ≡ 0) × laws.Used s.free (pt / 4096)
  Way (suc l) pt s =
      (pt % 4096 ≡ 0)
      × laws.Used s.free (pt / 4096)
      × (is_valid (s.word (entry va (suc l) pt)) ≡ true
          → Way l (pte2pa (s.word (entry va (suc l) pt))) s
            × Off va l (pt / 4096) (pte2pa (s.word (entry va (suc l) pt))) s.word)

  pub Way-empty :
      (l pt : ℕ) (s : Vm K)
      → pt % 4096 ≡ 0
      → laws.Used s.free (pt / 4096)
      → is_valid (s.word (entry va l pt)) ≡ false
      → Way l pt s
  Way-empty zero pt s a u z = (a, u)
  Way-empty (suc l) pt s a u z = (a, u, λ e. absurd (true_ne (sym e ∙ z)))

  -- The state in which a new table goes on being walked.
  abbrev pub with_table : (level pt : ℕ) → Vm K → Vm K
  with_table level pt s = record {
    word =
        update (zero_page (kalloc s.free).0 s.word) (entry va level pt)
          (pa2pte (kalloc s.free).0 + 1);
    free = (kalloc s.free).1;
  }

  -- The new table is empty.
  pub new_empty :
      (level l pt : ℕ) (s : Vm K)
      → pt % 4096 ≡ 0
      → laws.Used s.free (pt / 4096)
      → (kalloc s.free).0 ≢ 0
      → (with_table level pt s).word (entry va l (kalloc s.free).0) ≡ 0
  new_empty level l pt s a u nz =
      let p = (kalloc s.free).0 in
      let page = entry_page va l p (laws.aligned s.free (pt / 4096) u nz) in
      let other : entry va l p ≢ entry va level pt = λ e. laws.fresh s.free nz (
        subst (laws.Used s.free)
          (sym (entry_page va level pt a) ∙ ap (λ x. x / 4096) (sym e) ∙ page) u) in
      update_ne (zero_page p s.word) (entry va level pt) (entry va l p) (pa2pte p + 1) other
      ∙ rw (page, ==_refl (p / 4096)) refl

  module _ (l pt : ℕ) (s : Vm K) (a : pt % 4096 ≡ 0) (u : laws.Used s.free (pt / 4096))
      (nz : (kalloc s.free).0 ≢ 0) where
    no_child : is_valid ((with_table (suc l) pt s).word (entry va l (kalloc s.free).0)) ≡ false
    no_child = rw (new_empty (suc l) l pt s a u nz) refl

    pub new_Way : Way l (kalloc s.free).0 (with_table (suc l) pt s)
    new_Way =
        Way-empty l (kalloc s.free).0 (with_table (suc l) pt s)
          (laws.aligned s.free (pt / 4096) u nz) (laws.taken s.free (pt / 4096) u nz) no_child

    -- A page that was in use is not the new table.
    pub new_Off :
        (q : ℕ) → laws.Used s.free q → Off va l q (kalloc s.free).0 (with_table (suc l) pt s).word
    new_Off q used =
        Off-empty va l q (kalloc s.free).0 (with_table (suc l) pt s).word
          (λ e. laws.fresh s.free nz (subst (laws.Used s.free) e used)) no_child
