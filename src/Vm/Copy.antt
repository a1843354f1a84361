-- ===== src/Vm/Copy.antt =====
-- kernel/vm.c: `copyin`, from user to kernel memory. The memory of the pages is a function from
-- addresses to bytes, and what is copied is the list of the bytes that go to `dst`, which is no
-- part of a user page.
use csse332lab.Base.{
  ℕ, zero, suc, ◌+◌, ◌-◌, ◌*◌, ◌/◌, ◌%◌, ◌≤◌, ◌<◌, ◌≡◌, ◌≢◌, refl, subst, ◌∙◌, ap, Bool, true,
  false, Option, List, [], ◌∷◌, ◌++◌, arith, ltb, ◌==◌, ==_ne, Bool-cases, inl, inr, if◌then◌else◌,
}
use native.Mathlib.Decide.{ℕ_discrete}
use csse332lab.Vm.{Vm, pgsize, pgrounddown, walkaddr}

-- `n` bytes from the address `a` on.
abbrev pub run : (ℕ → ℕ) → ℕ → ℕ → List ℕ
run memory a zero = []
run memory a (suc n) = memory a ∷ run memory (a + 1) n

module _ {K : Type 0} (kalloc : K → ℕ × K) (kfree : ℕ → K → Option K) (pt : ℕ) (s : Vm K)
    (memory : ℕ → ℕ) where
  -- The bytes of this round.
  abbrev pub part : (srcva len : ℕ) → ℕ
  part srcva len = let n = pgsize - (srcva - pgrounddown srcva) in if ltb len n then len else n

  -- The loop of `copyin`, with at most `k` rounds: what is copied, and whether that is all.
  unfoldable pub copyin_loop : ℕ → (srcva len : ℕ) → List ℕ × Bool
  copyin_loop zero srcva len = ([], len == 0)
  copyin_loop (suc k) srcva len =
      let va0 = pgrounddown srcva in
      let pa0 = walkaddr kalloc kfree pt va0 s in
      let rest = copyin_loop k (va0 + pgsize) (len - part srcva len) in
      if len == 0
      then ([], true)
      else if pa0 == 0
      then ([], false)
      else (run memory (pa0 + (srcva - va0)) (part srcva len) ++ rest.0, rest.1)

  unfoldable pub copyin : (srcva len : ℕ) → List ℕ × Bool
  copyin srcva len = copyin_loop len srcva len

  -- The byte at a user address, where it is mapped.
  abbrev pub user_byte : ℕ → ℕ
  user_byte va = memory (walkaddr kalloc kfree pt (pgrounddown va) s + va % pgsize)

  abbrev pub IsMapped : ℕ → Type 0
  IsMapped va = walkaddr kalloc kfree pt (pgrounddown va) s ≢ 0

  run_append : (f : ℕ → ℕ) (a m n : ℕ) → run f a (m + n) ≡ run f a m ++ run f (a + m) n
  run_append f a zero n =
      let now : zero + n ≡ n = omega arith in
      let here : a + zero ≡ a = omega arith in rw (now, here) refl
  run_append f a (suc m) n =
      let now : suc m + n ≡ suc (m + n) = omega arith in
      let shift : a + suc m ≡ a + 1 + m = omega arith in
      rw (now, shift) (ap (λ l. f a ∷ l) (run_append f (a + 1) m n))

  -- In one page the bytes of memory are those of the user addresses.
  run_page :
      (n srcva : ℕ)
      → srcva % 4096 + n ≤ 4096
      → run memory (walkaddr kalloc kfree pt (pgrounddown srcva) s + (srcva - pgrounddown srcva)) n
        ≡ run user_byte srcva n
  run_page n srcva le =
      let off : srcva - srcva / 4096 * 4096 ≡ srcva % 4096 = omega arith in
      rw off (go n (srcva / 4096 * 4096) (srcva % 4096) srcva (omega arith) (omega arith) le)
    where
      go :
          (n page off va : ℕ)
          → va ≡ page + off
          → page % 4096 ≡ 0
          → off + n ≤ 4096
          → run memory (walkaddr kalloc kfree pt page s + off) n ≡ run user_byte va n
      go zero page off va e p le = refl
      go (suc n) page off va e p le =
          let at : va / 4096 * 4096 ≡ page = omega arith in
          let from : va % 4096 ≡ off = omega arith in
          let next : walkaddr kalloc kfree pt page s + off + 1
              ≡ walkaddr kalloc kfree pt page s + (off + 1) =
            omega arith in
          rw (at, from, next)
            (ap (λ l. memory (walkaddr kalloc kfree pt page s + off) ∷ l)
              (go n page (off + 1) (va + 1) (omega arith) p (omega arith)))

  -- All the addresses in a page are mapped with it.
  page_IsMapped :
      (p srcva : ℕ)
      → srcva % 4096 + p ≤ 4096
      → IsMapped srcva
      → (m : ℕ) → m < p
      → IsMapped (srcva + m)
  page_IsMapped p srcva le mapped m lt =
      let same : (srcva + m) / 4096 * 4096 ≡ srcva / 4096 * 4096 = omega arith in rw same mapped

  -- All `len` bytes of the user are copied, and are mapped, or those before the first page that is not mapped.
  pub data Copied (srcva len : ℕ) : List ℕ × Bool → Type 0 where
    whole :
        ((m : ℕ) → m < len → IsMapped (srcva + m))
        → Copied srcva len (run user_byte srcva len, true)
    fails :
        (m : ℕ) → m < len → ¬ IsMapped (srcva + m) → Copied srcva len (run user_byte srcva m, false)

  join :
      (srcva p q : ℕ) (r : List ℕ × Bool)
      → ((m : ℕ) → m < p → IsMapped (srcva + m))
      → Copied (srcva + p) q r
      → Copied srcva (p + q) (run user_byte srcva p ++ r.0, r.1)
  join srcva p q r there (whole rest) = rw⁻¹ (run_append user_byte srcva p q) (
      whole (λ m lt. elim (Bool-cases (ltb m p)) [
        | inl h ↦ there m (ground arith)
        | inr h ↦ subst IsMapped (ground arith) (rest (m - p) (ground arith))
      ]))
  join srcva p q r there (fails m lt unmapped) =
      rw⁻¹ (run_append user_byte srcva p m)
        (fails (p + m) (omega arith) (subst (λ a. ¬ IsMapped a) (omega arith) unmapped))

  -- Where nothing is left it does not matter from where it is copied.
  from_there : (a b q : ℕ) (r : List ℕ × Bool) → (q ≢ 0 → a ≡ b) → Copied a q r → Copied b q r
  from_there a b zero r e (whole h) = whole (λ m lt. absurd (omega arith))
  from_there a b zero r e (fails m lt unmapped) = absurd (omega (arith, lt))
  from_there a b (suc q) r e c = subst (λ x. Copied x (suc q) r) (e (λ z. omega (arith, z))) c

  copyin_loop-Copied : (k srcva len : ℕ) → len ≤ k → Copied srcva len (copyin_loop k srcva len)
  unfolding copyin_loop
  copyin_loop-Copied zero srcva len le =
      let none : len ≡ 0 = omega arith in rw none (whole (λ m lt. absurd (omega arith)))
  copyin_loop-Copied (suc k) srcva len le = elim (ℕ_discrete len 0) [
    | yes z ↦ rw z (whole (λ m lt. absurd (omega arith)))
    | no nz ↦ elim (ℕ_discrete (walkaddr kalloc kfree pt (pgrounddown srcva) s) 0) [
      | yes z ↦
          let here : srcva + 0 ≡ srcva = omega arith in
          rw (==_ne len 0 nz, z)
            (fails 0 (omega arith)
              (λ m. m (ap (λ a. walkaddr kalloc kfree pt (pgrounddown a) s) here ∙ z)))
      | no mapped ↦
          let p = part srcva len in
          let fits : srcva % 4096 + p ≤ 4096 = ground arith in
          let some_of : p ≤ len = ground arith in
          let any : 0 < p = ground arith in
          let sum : p + (len - p) ≡ len = omega arith in
          let rest = copyin_loop-Copied k (pgrounddown srcva + pgsize) (len - p) (omega arith) in
          rw
            (
              ==_ne len 0 nz,
              ==_ne (walkaddr kalloc kfree pt (pgrounddown srcva) s) 0 mapped,
              run_page p srcva fits,
            )
            (subst
              (λ n. Copied srcva n (
                run user_byte srcva p ++ (copyin_loop k (pgrounddown srcva + pgsize) (len - p)).0,
                (copyin_loop k (pgrounddown srcva + pgsize) (len - p)).1,
              ))
              sum
              (join srcva p (len - p) (copyin_loop k (pgrounddown srcva + pgsize) (len - p))
                (page_IsMapped p srcva fits mapped)
                (from_there (pgrounddown srcva + pgsize) (srcva + p) (len - p)
                  (copyin_loop k (pgrounddown srcva + pgsize) (len - p)) (λ more. ground arith)
                  rest)))
    ]
  ]

  -- `copyin` copies the `len` bytes that are at the user addresses from `srcva` on, page by page
  -- as they are mapped, if all are mapped, or fails behind the bytes before an address whose page
  -- is not mapped; its loop ends within `len` rounds.
  pub copyin-Copied : (srcva len : ℕ) → Copied srcva len (copyin srcva len)
  unfolding copyin
  copyin-Copied srcva len = copyin_loop-Copied len srcva len (omega arith)
