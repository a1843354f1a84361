-- ===== src/Fs/Content/Reading.antt =====
-- `readi` reads the content of the file.
use csse332lab.Base.{
  ℕ, zero, suc, ◌+◌, ◌-◌, ◌*◌, ◌/◌, ◌%◌, ◌^◌, ◌≤◌, ◌<◌, ◌≡◌, ◌≢◌, refl, ap, ap₂, sym, ◌∙◌, inl, inr,
  true, false, some, List, [], ◌∷◌, ◌++◌, arith, ltb, ◌==◌, if◌then◌else◌, Bool-cases, ==_ne,
}
use csse332lab.Fs.{Fs, ◌>>=◌, bsize, maxfile}
use csse332lab.Fs.Content.{min, bytes, readi_loop, readi, add_uint}
use csse332lab.Fs.Content.Mapping.{block_of, bmap_there}

-- The byte at the offset `p`, and the `n` bytes from there on.
abbrev pub byte_at : (i p : ℕ) → Fs → ℕ
byte_at i p fs = fs.blocks (block_of i (p / bsize) fs) (p % bsize)

pub contents : (i off n : ℕ) → Fs → List ℕ
contents i off zero fs = []
contents i off (suc n) fs = byte_at i off fs ∷ contents i (off + 1) n fs

-- The inode has a block for every byte before `end`.
abbrev pub IsMapped : (i end : ℕ) → Fs → Type 0
IsMapped i end fs = (p : ℕ) → p < end → block_of i (p / bsize) fs ≢ 0

contents-append :
    (i off m n : ℕ) (fs : Fs)
    → contents i off (m + n) fs ≡ contents i off m fs ++ contents i (off + m) n fs
unfolding contents
contents-append i off zero n fs =
    let a : 0 + n ≡ n = omega arith in let b : off + 0 ≡ off = omega arith in rw (a, b) refl
contents-append i off (suc m) n fs =
    let a : suc m + n ≡ suc (m + n) = omega arith in
    let b : off + 1 + m ≡ off + suc m = omega arith in
    rw a (
      ap (λ l. byte_at i off fs ∷ l)
        (contents-append i (off + 1) m n fs
          ∙ ap (λ x. contents i (off + 1) m fs ++ contents i x n fs) b))

-- The bytes of one block.
bytes-contents :
    (i off m : ℕ) (fs : Fs) (at : ℕ)
    → off / bsize ≡ at
    → m ≤ bsize - off % bsize
    → bytes (fs.blocks (block_of i at fs)) (off % bsize) m ≡ contents i off m fs
unfolding bytes contents
bytes-contents i off zero fs at e h = refl
bytes-contents i off (suc zero) fs at e h =
    ap (λ x. fs.blocks (block_of i x fs) (off % bsize) ∷ []) (sym e)
bytes-contents i off (suc (suc m)) fs at e h =
    let next : (off + 1) % bsize ≡ off % bsize + 1 = omega arith in
    let same : (off + 1) / bsize ≡ at = omega arith in
    ap₂ ◌∷◌ (ap (λ x. fs.blocks (block_of i x fs) (off % bsize)) (sym e)) (
      ap (λ o. bytes (fs.blocks (block_of i at fs)) o (suc m)) (sym next)
      ∙ bytes-contents i (off + 1) (suc m) fs at same (omega arith))

module _ (i : ℕ) (fs : Fs) where
  readi_loop-contents :
      (k tot off left : ℕ)
      → left ≤ k
      → off + left ≤ maxfile * bsize
      → IsMapped i (off + left) fs
      → readi_loop (λ t m. true) i k tot off left fs
        ≡ some ((contents i off left fs, some (tot + left)), fs)
  unfolding readi_loop contents
  readi_loop-contents zero tot off left h top mapped =
      let none_left : left ≡ 0 = omega arith in
      let same : tot + 0 ≡ tot = omega arith in rw (none_left, same) refl
  readi_loop-contents (suc k) tot off left h top mapped = elim (Bool-cases (left == 0)) [
    | inl done ↦
        let none_left : left ≡ 0 = ground arith in
        let same : tot + 0 ≡ tot = omega arith in rw (none_left, same) refl
    | inr more ↦
        let m = min left (bsize - off % bsize) in
        let bn : off / bsize < maxfile = ground arith in
        let has = mapped off (ground arith) in
        let some_block : (block_of i (off / bsize) fs == 0) ≡ false = ==_ne _ 0 has in
        let ih =
          readi_loop-contents k (tot + m) (off + m) (left - m) (ground arith) (ground arith)
            (λ p hp. mapped p (ground arith)) in
        let one_block : m ≤ bsize - off % bsize = ground arith in
        let split : m + (left - m) ≡ left = ground arith in
        let count : tot + m + (left - m) ≡ tot + left = ground arith in
        let whole =
          ap₂ (λ (l : List ℕ) (n : ℕ). some ((l, some n), fs))
            (ap (λ l. l ++ contents i (off + m) (left - m) fs)
                (bytes-contents i off m fs (off / bsize) refl one_block)
              ∙ sym (contents-append i off m (left - m) fs)
              ∙ ap (λ x. contents i off x fs) split)
            count in
        rw (more, bmap_there i (off / bsize) fs bn has, ◌>>=◌)
          (rw some_block (rw (ih, ◌>>=◌) whole))
  ]

  -- `readi` of a file without holes, no larger than a file can be, at an offset that does not wrap
  -- round, to memory to which every copy succeeds, gives the bytes of its content from the offset on, no more than the file has, with their
  -- number, and changes nothing.
  pub readi-contents :
      (off n : ℕ)
      → off + n < 2 ^ 32
      → (fs.itable i).size ≤ maxfile * bsize
      → IsMapped i (fs.itable i).size fs
      → let count = min n ((fs.itable i).size - off) in
        readi (λ t m. true) i off n fs ≡ some ((contents i off count fs, some count), fs)
  unfolding readi contents
  readi-contents off n word top mapped = elim (Bool-cases (ltb (fs.itable i).size off)) [
    | inl behind ↦
        let no_bytes : min n ((fs.itable i).size - off) ≡ 0 = ground arith in
        rw (behind, no_bytes) refl
    | inr inside ↦
        let no_wrap : ltb (add_uint off n) off ≡ false = ground arith in
        let count : (if ltb (fs.itable i).size (add_uint off n)
              then (fs.itable i).size - off
              else n)
            ≡ min n ((fs.itable i).size - off) =
          ground arith in
        let m = min n ((fs.itable i).size - off) in
        rw (inside, no_wrap, count)
          (readi_loop-contents m 0 off m (omega arith) (ground arith)
              (λ p hp. mapped p (ground arith))
            ∙ ap (λ (x : ℕ). some ((contents i off m fs, some x), fs)) {x = 0 + m} {y = m}
                (omega arith))
  ]
