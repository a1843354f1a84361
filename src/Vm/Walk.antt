-- ===== src/Vm/Walk.antt =====
-- `walk`: what a walk that may allocate tables leaves, a walk finds again.
use mathlib.Core.Option.{some-injective}
use csse332lab.Base.{
  ℕ, zero, suc, ◌+◌, ◌/◌, ◌≡◌, ◌≢◌, refl, sym, subst, ◌∙◌, ap, inl, inr, Bool, true, false, Option,
  none, some, arith, ==_ne, Bool-cases, update_self, update_ne,
}
use native.Mathlib.Decide.{ℕ_discrete}
use csse332lab.Vm.{pte2pa, pa2pte, is_valid, Vm, zero_page, walk_level}
use csse332lab.Vm.Tables.{Allocates, entry, Off, Way, entry_page, with_table, new_Way, new_Off}

no_entry : {a : ℕ} → ◌≡◌ {A = Option ℕ} none (some a) → ⊥
no_entry h = ground (arith, h)

module _ {K : Type 0} (kalloc : K → ℕ × K) (kfree : ℕ → K → Option K) (laws : Allocates kalloc)
    (va : ℕ) where
  abbrev go : ℕ → ℕ → Bool → Vm K → Option ℕ × Vm K
  go l pt alloc s = walk_level kalloc kfree l pt va alloc s

  -- `walk_level` where the entry is valid, and where a new table is made.
  walk-valid :
      (l pt : ℕ) (alloc : Bool) (s : Vm K)
      → is_valid (s.word (entry va (suc l) pt)) ≡ true
      → go (suc l) pt alloc s ≡ go l (pte2pa (s.word (entry va (suc l) pt))) alloc s
  unfolding walk_level
  walk-valid l pt alloc s e = rw e refl

  walk_new :
      (l pt : ℕ) (s : Vm K)
      → is_valid (s.word (entry va (suc l) pt)) ≡ false
      → (kalloc s.free).0 ≢ 0
      → go (suc l) pt true s ≡ go l (kalloc s.free).0 true (with_table laws va (suc l) pt s)
  unfolding walk_level
  walk_new l pt s e nz = rw (e, ==_ne (kalloc s.free).0 0 nz) refl

  walk_full :
      (l pt : ℕ) (s : Vm K)
      → is_valid (s.word (entry va (suc l) pt)) ≡ false
      → (kalloc s.free).0 ≡ 0
      → go (suc l) pt true s ≡ (none, record s { free = (kalloc s.free).1 })
  unfolding walk_level
  walk_full l pt s e z = rw (e, z) refl

  -- What a walk that gives `r` from `s` on does with the page of `x`: nothing, and its entry is
  -- not there.
  pub record Spares (x : ℕ) (s : Vm K) (r : Option ℕ × Vm K) : Type 0 where
    pub word : r.1.word x ≡ s.word x
    pub apart : (e : ℕ) → r.0 ≡ some e → e / 4096 ≢ x / 4096

  -- That is so for a page in use that is none of the tables on the way.
  pub walk_level-Spares :
      (l pt x : ℕ) (s : Vm K)
      → Way laws va l pt s
      → laws.Used s.free (x / 4096)
      → Off va l (x / 4096) pt s.word
      → Spares x s (go l pt true s)
  unfolding walk_level
  walk_level-Spares zero pt x s path used off = record {
    word = refl;
    apart = λ e h q.
        off
          (sym q ∙ ap (λ y. y / 4096) (sym (some-injective _ _ h)) ∙ entry_page va zero pt path.0);
  }
  walk_level-Spares (suc l) pt x s path used off =
      elim (Bool-cases (is_valid (s.word (entry va (suc l) pt)))) [
        | inl e ↦ subst (Spares x s) (sym (walk-valid l pt true s e)) (
            walk_level-Spares l (pte2pa (s.word (entry va (suc l) pt))) x s (path.2 e).0 used
              (off.1 e))
        | inr e ↦ elim (ℕ_discrete (kalloc s.free).0 0) [
          | yes z ↦
              subst (Spares x s) (sym (walk_full l pt s e z))
                (record { word = refl; apart = λ _ h. absurd (no_entry h) })
          | no nz ↦
              let p = (kalloc s.free).0 in
              let t = with_table laws va (suc l) pt s in
              let ih =
                walk_level-Spares l p x t (new_Way laws va l pt s path.0 path.1 nz)
                  (laws.stays s.free (x / 4096) used)
                  (new_Off laws va l pt s path.0 path.1 nz (x / 4096) used) in
              let same : t.word x ≡ s.word x =
                update_ne (zero_page p s.word) (entry va (suc l) pt) x (pa2pte p + 1)
                  (λ q. off.0 (ap (λ y. y / 4096) q ∙ entry_page va (suc l) pt path.0))
                ∙ rw
                    (==_ne (x / 4096) (p / 4096)
                      (λ q. laws.fresh s.free nz (subst (laws.Used s.free) q used)))
                    refl in
              subst (Spares x s) (sym (walk_new l pt s e nz))
                (record { word = ih.word ∙ same; apart = ih.apart })
        ]
      ]

  -- What a walk with `alloc` has found a later walk finds, whatever is in the entry by then.
  pub walk_level_again :
      (l pt e : ℕ) (s t : Vm K)
      → Way laws va l pt s
      → (go l pt true s).0 ≡ some e
      → ((x : ℕ) → x ≢ e → t.word x ≡ (go l pt true s).1.word x)
      → (go l pt false t).0 ≡ some e
  unfolding walk_level
  walk_level_again zero pt e s t path h same = h
  walk_level_again (suc l) pt e s t path h same =
      let a = entry va (suc l) pt in
      let page = sym (entry_page va (suc l) pt path.0) in
      let used = subst (laws.Used s.free) page path.1 in
      elim (Bool-cases (is_valid (s.word a))) [
        | inl v ↦
            let child = pte2pa (s.word a) in
            let below = path.2 v in
            let step = walk-valid l pt true s v in
            let h' : (go l child true s).0 ≡ some e = sym (ap (λ r. r.0) step) ∙ h in
            let spares =
              walk_level-Spares l child a s below.0 used
                (subst (λ q. Off va l q child s.word) page below.1) in
            follow l pt child e t (λ ne. same a ne ∙ ap (λ r. r.1.word a) step ∙ spares.word)
              (spares.apart e h') v refl
              (walk_level_again l child e s t below.0 h'
                (λ x ne. same x ne ∙ ap (λ r. r.1.word x) step))
        | inr v ↦ elim (ℕ_discrete (kalloc s.free).0 0) [
          | yes z ↦ absurd (no_entry (sym (ap (λ r. r.0) (walk_full l pt s v z)) ∙ h))
          | no nz ↦
              let p = (kalloc s.free).0 in
              let n = with_table laws va (suc l) pt s in
              let step = walk_new l pt s v nz in
              let path' = new_Way laws va l pt s path.0 path.1 nz in
              let h' : (go l p true n).0 ≡ some e = sym (ap (λ r. r.0) step) ∙ h in
              let spares =
                walk_level-Spares l p a n path' (laws.stays s.free (a / 4096) used)
                  (new_Off laws va l pt s path.0 path.1 nz (a / 4096) used) in
              let table : n.word a ≡ pa2pte p + 1 =
                update_self (zero_page p s.word) a (pa2pte p + 1) in
              follow l pt p e t (λ ne. same a ne ∙ ap (λ r. r.1.word a) step ∙ spares.word ∙ table)
                (spares.apart e h') (ground arith)
                (omega (arith, laws.aligned s.free (pt / 4096) path.1 nz))
                (walk_level_again l p e n t path' h'
                  (λ x ne. same x ne ∙ ap (λ r. r.1.word x) step))
        ]
      ]
    where
      -- Through an entry that is not `e` to the table below it.
      follow :
          (l pt child e : ℕ) (t : Vm K) {w : ℕ}
          → (entry va (suc l) pt ≢ e → t.word (entry va (suc l) pt) ≡ w)
          → e / 4096 ≢ entry va (suc l) pt / 4096
          → is_valid w ≡ true
          → pte2pa w ≡ child
          → (go l child false t).0 ≡ some e
          → (go (suc l) pt false t).0 ≡ some e
      follow l pt child e t same apart v down ih =
          let is = same (λ q. apart (ap (λ x. x / 4096) (sym q))) in
          ap (λ r. r.0) (walk-valid l pt false t (ap is_valid is ∙ v))
          ∙ subst (λ c. (go l c false t).0 ≡ some e) (sym (ap pte2pa is ∙ down)) ih
