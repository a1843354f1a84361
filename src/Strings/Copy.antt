-- ===== src/Strings/Copy.antt =====
-- Copies and fills.
use native.Mathlib.Decide.{ℕ_discrete}
use native.Mathlib.Nat.{add-zero}
use csse332lab.Base.{
  ℕ, zero, suc, ◌+◌, ◌-◌, ◌%◌, ◌≤◌, ◌<◌, ◌≡◌, refl, ◌∙◌, ap, ◌⊎◌, inl, inr, arith, ltb, leb, ◌&&◌,
  if◌then◌else◌, Bool-cases, ==_ne, update, update_self, update_ne,
}
use csse332lab.Strings.{Bytes, memset_loop, memset, copy_down, copy_up, memmove, user_memmove}

-- The bytes [d, d + n) of `after` are the bytes [s, s + n) of `before`, the others are unchanged.
pub record Copied (d s n : ℕ) (before after : Bytes) : Type 0 where
  pub copied : (i : ℕ) → i < n → after (d + i) ≡ before (s + i)
  pub others : (b : ℕ) → (b < d) ⊎ (d + n ≤ b) → after b ≡ before b

copy_up-Copied :
    (d s n : ℕ) (mem : Bytes) → (d ≤ s) ⊎ (s + n ≤ d) → Copied d s n mem (copy_up d s n mem)
unfolding copy_up
copy_up-Copied d s zero mem apart = record {
  copied = λ i hi. absurd (omega arith);
  others = λ b hb. refl;
}
copy_up-Copied d s (suc n) mem apart =
    let ih = copy_up-Copied (d + 1) (s + 1) n (update mem d (mem s)) (ground arith) in
    record {
      copied = λ i hi. elim (ℕ_discrete i 0) [
        | yes e ↦
            rw (e, add-zero, add-zero) (ih.others d (inl (omega arith)) ∙ update_self mem d (mem s))
        | no ne ↦
            ap (copy_up (d + 1) (s + 1) n (update mem d (mem s))) {x = d + i} {y = d + 1 + (i - 1)}
              (omega arith)
            ∙ ih.copied (i - 1) (omega arith)
            ∙ ap (update mem d (mem s)) {x = s + 1 + (i - 1)} {y = s + i} (omega arith)
            ∙ update_ne mem d (s + i) (mem s) (ground arith)
      ];
      others = λ b hb. ih.others b (ground arith) ∙ update_ne mem d b (mem s) (ground arith);
    }

copy_down-Copied :
    (d s n : ℕ) (mem : Bytes)
    → (s ≤ d) ⊎ (d + n ≤ s)
    → Copied d s n mem (copy_down (d + n) (s + n) n mem)
unfolding copy_down
copy_down-Copied d s zero mem apart = record {
  copied = λ i hi. absurd (omega arith);
  others = λ b hb. refl;
}
copy_down-Copied d s (suc n) mem apart =
    let a : d + suc n - 1 ≡ d + n = omega arith in
    let b : s + suc n - 1 ≡ s + n = omega arith in
    let wrote = update mem (d + n) (mem (s + n)) in
    let ih = copy_down-Copied d s n wrote (ground arith) in
    rw (a, b)
      (record {
        copied = λ i hi. elim (ℕ_discrete i n) [
          | yes e ↦
              rw e (ih.others (d + n) (inr (omega arith)) ∙ update_self mem (d + n) (mem (s + n)))
          | no ne ↦
              ih.copied i (omega arith) ∙ update_ne mem (d + n) (s + i) (mem (s + n)) (ground arith)
        ];
        others = λ c hc.
            ih.others c (ground arith) ∙ update_ne mem (d + n) c (mem (s + n)) (ground arith);
      })

-- `memmove` copies the source as it was before the call, however the two ranges overlap, and
-- writes nowhere else.
pub memmove-Copied : (dst src n : ℕ) (mem : Bytes) → Copied dst src n mem (memmove dst src n mem)
unfolding memmove
memmove-Copied dst src zero mem = record {
  copied = λ i hi. absurd (omega arith);
  others = λ b hb. refl;
}
memmove-Copied dst src (suc n) mem =
    let some_bytes = ==_ne (suc n) 0 (omega arith) in
    elim (Bool-cases (ltb src dst && ltb dst (src + suc n))) [
      | inl over ↦ rw (some_bytes, over) (copy_down-Copied dst src (suc n) mem (inl (ground arith)))
      | inr clear ↦ rw (some_bytes, clear) (copy_up-Copied dst src (suc n) mem (ground arith))
    ]

-- So does that of the user library.
pub user_memmove-Copied :
    (vdst vsrc n : ℕ) (mem : Bytes) → Copied vdst vsrc n mem (user_memmove vdst vsrc n mem)
unfolding user_memmove
user_memmove-Copied vdst vsrc n mem = elim (Bool-cases (ltb vdst vsrc)) [
  | inl before ↦ rw before (copy_up-Copied vdst vsrc n mem (inl (ground arith)))
  | inr behind ↦ rw behind (copy_down-Copied vdst vsrc n mem (inl (ground arith)))
]

memset_loop-fills :
    (dst c k i : ℕ) (mem : Bytes) (b : ℕ)
    → memset_loop dst c k i mem b
      ≡ (if leb (dst + i) b && ltb b (dst + i + k) then c % 256 else mem b)
unfolding memset_loop
memset_loop-fills dst c zero i mem b = ground arith
memset_loop-fills dst c (suc k) i mem b =
    memset_loop-fills dst c k (i + 1) (update mem (dst + i) (c % 256)) b ∙ ground arith

-- `memset` fills exactly the `n` bytes from `dst` on, with the low byte of its argument.
pub memset-fills :
    (dst c n : ℕ) (mem : Bytes) (b : ℕ)
    → memset dst c n mem b ≡ (if leb dst b && ltb b (dst + n) then c % 256 else mem b)
unfolding memset
memset-fills dst c n mem b = rw (memset_loop-fills dst c n 0 mem b, add-zero)
