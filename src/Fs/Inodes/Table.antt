-- ===== src/Fs/Inodes/Table.antt =====
-- `iget` and the table of inodes in memory.
use native.Mathlib.Decide.{ℕ_discrete}
use csse332lab.Base.{
  ℕ, zero, suc, ◌+◌, ◌<◌, ◌≡◌, ◌≢◌, ap, sym, subst, ◌∙◌, inl, inr, Bool, true, false, ◌&&◌, Option,
  none, some, arith, ltb, ◌==◌, Bool-cases, ==_ne, update, update_self, update_ne,
}
use csse332lab.Fs.{Fs, Inode, ninode}
use csse332lab.Fs.Inodes.{Entry, present, empty, full, remember, iget_loop, iget}

-- The entry is in use for the inode.
abbrev pub holds : (dev inum : ℕ) → Inode → Bool
holds dev inum ip = ltb 0 ip.ref && ip.dev == dev && ip.inum == inum

-- No inode has two entries.
abbrev pub IsUnique : (ℕ → Inode) → Type 0
IsUnique t =
    (dev inum i j : ℕ)
    → i < ninode
    → j < ninode
    → holds dev inum (t i) ≡ true
    → holds dev inum (t j) ≡ true
    → i ≡ j

-- What the scan of the first `n` entries has found, none of them in use for the inode.
data Before (t : ℕ → Inode) (n : ℕ) : Entry → Type 0 where
  has_empty : (i : ℕ) → i < n → (t i).ref ≡ 0 → Before t n (empty i)
  all_used : ((j : ℕ) → j < n → (t j).ref ≢ 0) → Before t n full

data Scanned (dev inum : ℕ) (t : ℕ → Inode) : Entry → Type 0 where
  at_entry : (i : ℕ) → i < ninode → holds dev inum (t i) ≡ true → Scanned dev inum t (present i)
  at_end :
      (e : Entry)
      → ((j : ℕ) → j < ninode → holds dev inum (t j) ≡ false)
      → Before t ninode e
      → Scanned dev inum t e

module _ (dev inum : ℕ) (t : ℕ → Inode) where
  Before-remember : (i : ℕ) (e : Entry) → Before t i e → Before t (i + 1) (remember i (t i).ref e)
  Before-remember i _ (has_empty e h z) = has_empty e (omega arith) z
  Before-remember i _ (all_used h) = elim (ℕ_discrete (t i).ref 0) [
    | yes z ↦
        subst (λ r. Before t (i + 1) (remember i r full)) (sym z) (has_empty i (omega arith) z)
    | no ne ↦ rw (==_ne (t i).ref 0 ne) (
        all_used (λ j hj. elim (ℕ_discrete j i) [
          | yes e ↦ subst (λ x. (t x).ref ≢ 0) (sym e) ne
          | no other ↦ h j (omega arith)
        ]))
  ]

  none_suc :
      (i : ℕ)
      → ((j : ℕ) → j < i → holds dev inum (t j) ≡ false)
      → holds dev inum (t i) ≡ false
      → (j : ℕ) → j < i + 1
      → holds dev inum (t j) ≡ false
  none_suc i h last j hj = elim (ℕ_discrete j i) [
    | yes e ↦ subst (λ x. holds dev inum (t x) ≡ false) (sym e) last
    | no ne ↦ h j (omega arith)
  ]

  iget_loop-Scanned :
      (k i : ℕ) (seen : Entry)
      → i + k ≡ ninode
      → ((j : ℕ) → j < i → holds dev inum (t j) ≡ false)
      → Before t i seen
      → Scanned dev inum t (iget_loop dev inum t k i seen)
  unfolding iget_loop
  iget_loop-Scanned zero i seen e h b =
      at_end seen (λ j hj. h j (omega arith)) (subst (λ n. Before t n seen) (omega arith) b)
  iget_loop-Scanned (suc k) i seen e h b = elim (Bool-cases (holds dev inum (t i))) [
    | inl hit ↦ rw hit (at_entry i (omega arith) hit)
    | inr miss ↦ rw miss (
        iget_loop-Scanned k (i + 1) (remember i (t i).ref seen) (omega arith) (none_suc i h miss)
          (Before-remember i seen b))
  ]

-- What `iget` comes to: an entry of the inode with one reference more, a free entry that is the
-- inode's now, or a panic if no entry is free.
pub data Iget (dev inum : ℕ) (fs : Fs) : Option (ℕ × Fs) → Type 0 where
  shared :
      (i : ℕ) (t : ℕ → Inode)
      → i < ninode
      → holds dev inum (fs.itable i) ≡ true
      → t i ≡ record (fs.itable i) { ref = (fs.itable i).ref + 1 }
      → ((j : ℕ) → j ≢ i → t j ≡ fs.itable j)
      → IsUnique t
      → Iget dev inum fs (some (i, record fs { itable = t }))
  fresh :
      (i : ℕ) (t : ℕ → Inode)
      → i < ninode
      → (fs.itable i).ref ≡ 0
      → ((j : ℕ) → j < ninode → holds dev inum (fs.itable j) ≡ false)
      → t i ≡ record (fs.itable i) { dev = dev; inum = inum; ref = 1; valid = false }
      → ((j : ℕ) → j ≢ i → t j ≡ fs.itable j)
      → IsUnique t
      → Iget dev inum fs (some (i, record fs { itable = t }))
  no_entry : ((j : ℕ) → j < ninode → (fs.itable j).ref ≢ 0) → Iget dev inum fs none

-- A change of one entry keeps the entries unique if it was in use for the same inode, or if there
-- was no entry for the one that it is in use for now.
IsUnique-update :
    (t : ℕ → Inode) (i : ℕ) (ip : Inode)
    → IsUnique t
    → ((dev inum : ℕ)
        → holds dev inum ip ≡ true
        → (j : ℕ) → j < ninode
        → j ≢ i
        → holds dev inum (t j) ≡ false)
    → IsUnique (update t i ip)
IsUnique-update t i ip u alone dev inum a b ha hb p q = elim (ℕ_discrete a i) [
  | yes x ↦ elim (ℕ_discrete b i) [
    | yes y ↦ x ∙ sym y
    | no y ↦ absurd (clash (alone dev inum (here a x p) b hb y) (there b y q))
  ]
  | no x ↦ elim (ℕ_discrete b i) [
    | yes y ↦ absurd (clash (alone dev inum (here b y q) a ha x) (there a x p))
    | no y ↦ u dev inum a b ha hb (there a x p) (there b y q)
  ]
]
  where
    clash : {x : Bool} → x ≡ false → x ≡ true → ⊥
    clash e f = cc

    here : (c : ℕ) → c ≡ i → holds dev inum (update t i ip c) ≡ true → holds dev inum ip ≡ true
    here c e h =
        subst (λ (x : Inode). holds dev inum x ≡ true) (ap (update t i ip) e ∙ update_self t i ip) h

    there : (c : ℕ) → c ≢ i → holds dev inum (update t i ip c) ≡ true → holds dev inum (t c) ≡ true
    there c ne h = subst (λ (x : Inode). holds dev inum x ≡ true) (update_ne t i c ip ne) h

-- With a table in which no inode has two entries, `iget` gives the entry of the inode with one
-- reference more, or a free entry that is the inode's now, or panics if no entry is free; again no
-- inode has two entries.
pub iget-Iget : (dev inum : ℕ) (fs : Fs) → IsUnique fs.itable → Iget dev inum fs (iget dev inum fs)
unfolding iget
iget-Iget dev inum fs u = decided (iget_loop dev inum fs.itable ninode 0 full) (
    iget_loop-Scanned dev inum fs.itable ninode 0 full (omega arith) (λ j h. absurd (omega arith))
      (all_used (λ j h. absurd (omega arith))))
  where
    ended : Entry → Option (ℕ × Fs)
    ended e = elim e [
      | present i ↦ some (
        i,
        record fs {
          itable = update fs.itable i (record (fs.itable i) { ref = (fs.itable i).ref + 1 });
        },
      )
      | empty i ↦ some (
        i,
        record fs {
          itable =
              update fs.itable i
                (record (fs.itable i) { dev = dev; inum = inum; ref = 1; valid = false });
        },
      )
      | full ↦ none
    ]

    decided : (e : Entry) → Scanned dev inum fs.itable e → Iget dev inum fs (ended e)
    decided _ (at_entry i hi hit) =
        shared i (update fs.itable i _) hi hit (update_self fs.itable i _)
          (λ j ne. update_ne fs.itable i j _ ne)
          (IsUnique-update fs.itable i _ u (λ d n held j hj ne.
            elim (Bool-cases (holds d n (fs.itable j))) [
              | inr no_entry_j ↦ no_entry_j
              | inl other ↦ absurd (ne (u d n j i hj hi other (ground arith)))
            ]))
    decided _ (at_end _ none_of (has_empty i hi z)) =
        fresh i (update fs.itable i _) hi z none_of (update_self fs.itable i _)
          (λ j ne. update_ne fs.itable i j _ ne)
          (IsUnique-update fs.itable i _ u (λ d n held j hj ne.
            let same_dev : d ≡ dev = ground arith in
            let same_inum : n ≡ inum = ground arith in rw (same_dev, same_inum) (none_of j hj)))
    decided _ (at_end _ none_of (all_used h)) = no_entry h
