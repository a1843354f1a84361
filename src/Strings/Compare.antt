-- ===== src/Strings/Compare.antt =====
-- Comparisons, and the length of a string.
use native.Mathlib.Decide.{ℕ_discrete}
use native.Mathlib.Nat.{add-zero}
use csse332lab.Base.{
  ℕ, zero, suc, ◌+◌, ◌-◌, ◌≤◌, ◌<◌, ◌≡◌, ◌≢◌, refl, ◌∙◌, ap, ◌↔◌, true, some, arith, ◌==◌, ==_refl,
  ==_ne, pos, sub_ℕ,
}
use csse332lab.Strings.{Bytes, memcmp, strlen_loop, strlen}

sub-ne : (a b : ℕ) → a ≢ b → sub_ℕ a b ≢ pos 0
sub-ne a b ne e = ground arith

abbrev pub Agree : ℕ → ℕ → ℕ → Bytes → Type 0
Agree p q n mem = (i : ℕ) → i < n → mem (p + i) ≡ mem (q + i)

Agree-head : (p q n : ℕ) (mem : Bytes) → Agree p q (suc n) mem → mem p ≡ mem q
Agree-head p q n mem h =
    ap mem {x = p} {y = p + 0} (omega arith)
    ∙ h 0 (omega arith)
    ∙ ap mem {x = q + 0} {y = q} (omega arith)

Agree-tail : (p q n : ℕ) (mem : Bytes) → Agree p q (suc n) mem → Agree (p + 1) (q + 1) n mem
Agree-tail p q n mem h i hi =
    ap mem {x = p + 1 + i} {y = p + (i + 1)} (omega arith)
    ∙ h (i + 1) (omega arith)
    ∙ ap mem {x = q + (i + 1)} {y = q + 1 + i} (omega arith)

Agree-cons :
    (p q n : ℕ) (mem : Bytes) → mem p ≡ mem q → Agree (p + 1) (q + 1) n mem → Agree p q (suc n) mem
Agree-cons p q n mem e h i hi = elim (ℕ_discrete i 0) [
  | yes z ↦ rw (z, add-zero, add-zero) e
  | no ne ↦
      ap mem {x = p + i} {y = p + 1 + (i - 1)} (omega arith)
      ∙ h (i - 1) (omega arith)
      ∙ ap mem {x = q + 1 + (i - 1)} {y = q + i} (omega arith)
]

-- `memcmp` is 0 exactly when the `n` bytes agree.
pub memcmp-zero_iff : (s1 s2 n : ℕ) (mem : Bytes) → (memcmp s1 s2 n mem ≡ pos 0) ↔ Agree s1 s2 n mem
unfolding memcmp
memcmp-zero_iff s1 s2 zero mem = (λ e i hi. absurd (omega arith), λ h. refl)
memcmp-zero_iff s1 s2 (suc n) mem =
    let ih = memcmp-zero_iff (s1 + 1) (s2 + 1) n mem in
    elim (ℕ_discrete (mem s1) (mem s2)) [
      | yes same ↦
          let test : (mem s1 == mem s2) ≡ true = rw same (==_refl (mem s2)) in
          rw test (λ e. Agree-cons s1 s2 n mem same (ih.0 e), λ h. ih.1 (Agree-tail s1 s2 n mem h))
      | no differ ↦
          rw (==_ne _ _ differ)
            (λ e. absurd (sub-ne _ _ differ e), λ h. absurd (differ (Agree-head s1 s2 n mem h)))
    ]

-- The loop of `strlen` from `n` on.
pub strlen_loop-first :
    (s k n m : ℕ) (mem : Bytes)
    → n ≤ m
    → m < n + k
    → mem (s + m) ≡ 0
    → ((i : ℕ) → n ≤ i → i < m → mem (s + i) ≢ 0)
    → strlen_loop s k n mem ≡ some m
unfolding strlen_loop
strlen_loop-first s zero n m mem lo hi nul before = absurd (omega arith)
strlen_loop-first s (suc k) n m mem lo hi nul before = elim (ℕ_discrete n m) [
  | yes e ↦ rw (e, nul)
  | no ne ↦ rw (==_ne (mem (s + n)) 0 (before n (omega arith) (omega arith))) (
      strlen_loop-first s k (n + 1) m mem (omega arith) (omega arith) nul
        (λ i lo' hi'. before i (omega arith) hi'))
]

-- `strlen` finds the first zero byte, if it is given a round for every byte up to it.
pub strlen-first :
    (k s m : ℕ) (mem : Bytes)
    → m < k
    → mem (s + m) ≡ 0
    → ((i : ℕ) → i < m → mem (s + i) ≢ 0)
    → strlen k s mem ≡ some m
unfolding strlen
strlen-first k s m mem hk nul before =
    strlen_loop-first s k 0 m mem (omega arith) (omega arith) nul (λ i lo hi. before i hi)
