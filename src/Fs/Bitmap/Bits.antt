-- ===== src/Fs/Bitmap/Bits.antt =====
-- The bits of a byte, by evaluation over all bytes, and the bits of a map.
use Prim.Native.Nat.{bit_and, bit_or}
use csse332lab.Base.{
  ℕ, zero, suc, ◌-◌, ◌/◌, ◌%◌, ◌^◌, ◌<◌, ◌≡◌, ◌≢◌, refl, ap, ◌∙◌, Bool, true, false, not, ◌&&◌,
  arith, ltb, ◌==◌, if◌then◌else◌, ==_refl, Bool-cases, inl, inr, ==_ne,
}
use native.Mathlib.Decide.{ℕ_discrete}
use csse332lab.Fs.{Block}
use csse332lab.Fs.Bitmap.{is_clear, mark, unmark}

-- The test passes for the numbers before `n`.
passes : (ℕ → Bool) → ℕ → Bool
passes test zero = true
passes test (suc n) = if test n then passes test n else false

passes_at : (test : ℕ → Bool) (n i : ℕ) → i < n → passes test n ≡ true → test i ≡ true
unfolding passes
passes_at test zero i lt ok = absurd (omega arith)
passes_at test (suc n) i lt ok = elim (Bool-cases (test n)) [
  | inr fails ↦ absurd (false_not_true (rw fails at ok))
  | inl good ↦ elim (ℕ_discrete i n) [
    | yes last ↦ rw last good
    | no before ↦ passes_at test n i (omega arith) (rw good at ok)
  ]
]
  where
    false_not_true : false ≢ true
    false_not_true e = cc

abbrev same_bool : Bool → Bool → Bool
same_bool true b = b
same_bool false b = not b

same_bool-eq : (a b : Bool) → same_bool a b ≡ true → a ≡ b
same_bool-eq true true h = refl
same_bool-eq true false h = cc
same_bool-eq false true h = cc
same_bool-eq false false h = refl

ltb-lt : (a : ℕ) → ltb a 256 ≡ true → a < 256
ltb-lt a h = ground arith

-- A law of a byte and two numbers of bits holds if it does in all cases.
abbrev table : (ℕ → ℕ → ℕ → Bool) → Bool
table law = passes (λ x. passes (λ k. passes (λ j. law x k j) 8) 8) 256

table_sound :
    (law : ℕ → ℕ → ℕ → Bool)
    → table law ≡ true
    → (x k j : ℕ) → x < 256
    → k < 8
    → j < 8
    → law x k j ≡ true
table_sound law h x k j hx hk hj =
    let at_byte = passes_at (λ x. passes (λ k. passes (λ j. law x k j) 8) 8) 256 x hx h in
    let at_first = passes_at (λ k. passes (λ j. law x k j) 8) 8 k hk at_byte in
    passes_at (λ j. law x k j) 8 j hj at_first

abbrev set_law : ℕ → ℕ → ℕ → Bool
set_law x k j =
    same_bool (bit_and (bit_or x (2 ^ k)) (2 ^ j) == 0) (not (j == k) && bit_and x (2 ^ j) == 0)

abbrev clear_law : ℕ → ℕ → ℕ → Bool
clear_law x k j =
    same_bool (bit_and (bit_and x (255 - 2 ^ k)) (2 ^ j) == 0)
      (if j == k then true else bit_and x (2 ^ j) == 0)

set_table : table set_law ≡ true
unfolding passes
set_table = refl

clear_table : table clear_law ≡ true
unfolding passes
clear_table = refl

set_byte_table : table (λ x k j. ltb (bit_or x (2 ^ k)) 256) ≡ true
unfolding passes
set_byte_table = refl

clear_byte_table : table (λ x k j. ltb (bit_and x (255 - 2 ^ k)) 256) ≡ true
unfolding passes
clear_byte_table = refl

module _ (x k j : ℕ) (hx : x < 256) (hk : k < 8) (hj : j < 8) where
  set_bit : (bit_and (bit_or x (2 ^ k)) (2 ^ j) == 0) ≡ (not (j == k) && bit_and x (2 ^ j) == 0)
  set_bit = same_bool-eq _ _ (table_sound set_law set_table x k j hx hk hj)

  clear_bit :
      (bit_and (bit_and x (255 - 2 ^ k)) (2 ^ j) == 0)
      ≡ (if j == k then true else bit_and x (2 ^ j) == 0)
  clear_bit = same_bool-eq _ _ (table_sound clear_law clear_table x k j hx hk hj)

  set_byte : bit_or x (2 ^ k) < 256
  set_byte =
      ltb-lt _ (table_sound (λ x k j. ltb (bit_or x (2 ^ k)) 256) set_byte_table x k j hx hk hj)

  clear_byte : bit_and x (255 - 2 ^ k) < 256
  clear_byte =
      ltb-lt _
        (table_sound (λ x k j. ltb (bit_and x (255 - 2 ^ k)) 256) clear_byte_table x k j hx hk hj)

-- All of a block is bytes.
abbrev pub AreBytes : Block → Type 0
AreBytes map = (i : ℕ) → map i < 256

module _ (map : Block) (bytes : AreBytes map) (bi : ℕ) where
  pub is_clear-mark : (bj : ℕ) → is_clear (mark map bi) bj ≡ (not (bj == bi) && is_clear map bj)
  unfolding is_clear mark
  is_clear-mark bj = elim (ℕ_discrete (bj / 8) (bi / 8)) [
    | yes e ↦
        let test : (bj % 8 == bi % 8) ≡ (bj == bi) = ground arith in
        rw (e, ==_refl)
          (set_bit (map (bi / 8)) (bi % 8) (bj % 8) (bytes (bi / 8)) (omega arith) (omega arith)
            ∙ ap (λ t. not t && bit_and (map (bi / 8)) (2 ^ (bj % 8)) == 0) test)
    | no ne ↦
        let test : (bj == bi) ≡ false = ground arith in rw (test, ==_ne (bj / 8) (bi / 8) ne) refl
  ]

  pub is_clear-unmark :
      (bj : ℕ) → is_clear (unmark map bi) bj ≡ (if bj == bi then true else is_clear map bj)
  unfolding is_clear unmark
  is_clear-unmark bj = elim (ℕ_discrete (bj / 8) (bi / 8)) [
    | yes e ↦
        let test : (bj % 8 == bi % 8) ≡ (bj == bi) = ground arith in
        rw (e, ==_refl)
          (clear_bit (map (bi / 8)) (bi % 8) (bj % 8) (bytes (bi / 8)) (omega arith) (omega arith)
            ∙ ap (λ t. if t then true else bit_and (map (bi / 8)) (2 ^ (bj % 8)) == 0) test)
    | no ne ↦
        let test : (bj == bi) ≡ false = ground arith in rw (test, ==_ne (bj / 8) (bi / 8) ne) refl
  ]

  pub mark-AreBytes : AreBytes (mark map bi)
  unfolding mark
  mark-AreBytes i = elim (ℕ_discrete i (bi / 8)) [
    | yes e ↦
        rw (e, ==_refl)
          (set_byte (map (bi / 8)) (bi % 8) 0 (bytes (bi / 8)) (omega arith) (omega arith))
    | no ne ↦ rw (==_ne i (bi / 8) ne) (bytes i)
  ]

  pub unmark-AreBytes : AreBytes (unmark map bi)
  unfolding unmark
  unmark-AreBytes i = elim (ℕ_discrete i (bi / 8)) [
    | yes e ↦
        rw (e, ==_refl)
          (clear_byte (map (bi / 8)) (bi % 8) 0 (bytes (bi / 8)) (omega arith) (omega arith))
    | no ne ↦ rw (==_ne i (bi / 8) ne) (bytes i)
  ]
