-- ===== src/Strings.antt =====
-- kernel/string.c, and the functions of user/ulib.c that differ from it. Memory is a store of bytes
-- by address; no object wraps round the end of the address space.
pub mod Copy
pub mod Compare
pub mod Names
mod Tests
use csse332lab.Base.{
  ℕ, zero, suc, ◌+◌, ◌-◌, ◌*◌, ◌%◌, Bool, true, false, not, ◌&&◌, Option, none, some, ltb, leb,
  ◌==◌, if◌then◌else◌, update, ℤ, pos, sub_ℕ,
}

abbrev pub Bytes : Type 0
Bytes = ℕ → ℕ

-- cdst[i] = c, for the `k` bytes from `i` on
pub memset_loop : ℕ → ℕ → ℕ → ℕ → Bytes → Bytes
memset_loop dst c zero i mem = mem
memset_loop dst c (suc k) i mem = memset_loop dst c k (i + 1) (update mem (dst + i) (c % 256))

pub memset : ℕ → ℕ → ℕ → Bytes → Bytes
memset dst c n mem = memset_loop dst c n 0 mem

-- while(n-- > 0){ if(*s1 != *s2) return *s1 - *s2; s1++, s2++; } return 0;
pub memcmp : ℕ → ℕ → ℕ → Bytes → ℤ
memcmp s1 s2 zero mem = pos 0
memcmp s1 s2 (suc n) mem =
    let rest = memcmp (s1 + 1) (s2 + 1) n mem in
    if mem s1 == mem s2 then rest else sub_ℕ (mem s1) (mem s2)

-- while(n-- > 0) *--d = *--s;
pub copy_down : ℕ → ℕ → ℕ → Bytes → Bytes
copy_down d s zero mem = mem
copy_down d s (suc n) mem = copy_down (d - 1) (s - 1) n (update mem (d - 1) (mem (s - 1)))

-- while(n-- > 0) *d++ = *s++;
pub copy_up : ℕ → ℕ → ℕ → Bytes → Bytes
copy_up d s zero mem = mem
copy_up d s (suc n) mem = copy_up (d + 1) (s + 1) n (update mem d (mem s))

pub memmove : ℕ → ℕ → ℕ → Bytes → Bytes
memmove dst src n mem =
    if n == 0
    then mem
    else if ltb src dst && ltb dst (src + n)
    then copy_down (dst + n) (src + n) n mem
    else copy_up dst src n mem

pub memcpy : ℕ → ℕ → ℕ → Bytes → Bytes
memcpy dst src n mem = memmove dst src n mem

-- `memmove` of user/ulib.c
pub user_memmove : ℕ → ℕ → ℕ → Bytes → Bytes
user_memmove vdst vsrc n mem =
    if ltb vdst vsrc then copy_up vdst vsrc n mem else copy_down (vdst + n) (vsrc + n) n mem

pub strncmp : ℕ → ℕ → ℕ → Bytes → ℤ
strncmp p q zero mem = pos 0
strncmp p q (suc n) mem =
    let rest = strncmp (p + 1) (q + 1) n mem in
    if not (mem p == 0) && mem p == mem q then rest else sub_ℕ (mem p) (mem q)

-- while(n-- > 0) *s++ = 0;
pub zero_fill : ℕ → ℕ → Bytes → Bytes
zero_fill s zero mem = mem
zero_fill s (suc n) mem = zero_fill (s + 1) n (update mem s 0)

pub strncpy : ℕ → ℕ → ℕ → Bytes → Bytes
strncpy s t zero mem = mem
strncpy s t (suc n) mem =
    let wrote = update mem s (mem t) in
    let rest = strncpy (s + 1) (t + 1) n wrote in
    if mem t == 0 then zero_fill (s + 1) n wrote else rest

-- The loop of `safestrcpy`, behind `--n`: `n` more bytes may be copied.
pub safestrcpy_loop : ℕ → ℕ → ℕ → Bytes → Bytes
safestrcpy_loop s t zero mem = update mem s 0
safestrcpy_loop s t (suc n) mem =
    let wrote = update mem s (mem t) in
    let rest = safestrcpy_loop (s + 1) (t + 1) n wrote in
    if mem t == 0 then update wrote (s + 1) 0 else rest

pub safestrcpy : ℕ → ℕ → ℕ → Bytes → Bytes
safestrcpy s t zero mem = mem
safestrcpy s t (suc n) mem = safestrcpy_loop s t n mem

-- for(n = 0; s[n]; n++) ; with `k` rounds at most, `none` if these are not enough
pub strlen_loop : ℕ → ℕ → ℕ → Bytes → Option ℕ
strlen_loop s zero n mem = none
strlen_loop s (suc k) n mem =
    let rest = strlen_loop s k (n + 1) mem in if mem (s + n) == 0 then some n else rest

pub strlen : ℕ → ℕ → Bytes → Option ℕ
strlen k s mem = strlen_loop s k 0 mem
