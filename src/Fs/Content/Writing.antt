-- ===== src/Fs/Content/Writing.antt =====
-- `writei` to a locked inode does not panic, and writes no more than it is asked to.
use csse332lab.Base.{
  ℕ, zero, suc, ◌+◌, ◌-◌, ◌*◌, ◌/◌, ◌%◌, ◌^◌, ◌≤◌, ◌<◌, ◌≡◌, refl, ap, inl, inr, Bool, true, false,
  ◌||◌, Option, none, some, arith, Option-cases, ltb, ◌==◌, ==_refl, if◌then◌else◌, Bool-cases,
  update,
}
use csse332lab.Fs.{
  Fs, Inode, M, ret, ◌>>=◌, inode, bread, log_write, Block, ndirect, nindirect, maxfile, bsize,
}
use csse332lab.Fs.Bytes.{get32, put32}
use csse332lab.Fs.Bitmap.{bpb, bblock, balloc, balloc_loop, free_bit}
use csse332lab.Fs.Inodes.{iupdate}
use csse332lab.Fs.Content.{
  set_addr, direct, indirect, bmap, set_size, min, add_uint, written, writei_loop, writei,
}

-- From a state with `P` the code ends, in a state with `Q`.
pub record Runs {A : Type 0} (P : Fs → Type 0) (m : M A) (Q : A → Fs → Type 0) : Type 0 where
  pub runs : (fs : Fs) → P fs → (a : A) × (fs' : Fs) × (m fs ≡ some (a, fs')) × Q a fs'

then_lem :
    {A B : Type 0} {P : Fs → Type 0} {Q : A → Fs → Type 0} {R : B → Fs → Type 0} (m : M A)
    (k : A → M B)
    → Runs P m Q
    → ((a : A) → Runs (Q a) (k a) R)
    → Runs P (m >>= k) R
then_lem m k hm hk = record {
  runs = λ fs h.
      let (a, fs', e, q) = hm.runs fs h in
      let (b, fs'', e', r) = (hk a).runs fs' q in (b, fs'', rw (◌>>=◌, e) e', r);
}

ret_runs :
    {A : Type 0} {P : Fs → Type 0} {Q : A → Fs → Type 0} (a : A)
    → ((fs : Fs) → P fs → Q a fs)
    → Runs P (ret a) Q
ret_runs a h = record { runs = λ fs p. (a, fs, refl, h fs p) }

if_runs :
    {A : Type 0} {P : Fs → Type 0} {Q : A → Fs → Type 0} (t : Bool) (m n : M A)
    → (t ≡ true → Runs P m Q)
    → (t ≡ false → Runs P n Q)
    → Runs P (if t then m else n) Q
if_runs true m n hm hn = hm refl
if_runs false m n hm hn = hn refl

-- The inode is referred to, locked and loaded.
pub record Locked (i : ℕ) (fs : Fs) : Type 0 where
  pub referred : 0 < (fs.itable i).ref
  pub locked : (fs.itable i).locked ≡ true
  pub valid : (fs.itable i).valid ≡ true

balloc_loop-itable : (k b : ℕ) (fs : Fs) → (balloc_loop k b fs).1.itable ≡ fs.itable
unfolding balloc_loop
balloc_loop-itable zero b fs = refl
balloc_loop-itable (suc k) b fs = elim (Bool-cases (ltb b fs.sb.size)) [
  | inl e ↦ rw e (elim (Option-cases (free_bit (fs.blocks (bblock b fs)) fs.sb.size b bpb 0)) [
    | inl full ↦ rw full (balloc_loop-itable k (b + bpb) fs)
    | inr (bi, free) ↦ rw free refl
  ])
  | inr e ↦ rw e refl
]

module _ (i : ℕ) where
  -- Code that does not panic, and leaves the inode locked.
  abbrev pub Writes : {A : Type 0} → M A → Type 0
  Writes m = Runs (Locked i) m (λ _. Locked i)

  balloc-Writes : Writes balloc
  unfolding balloc
  balloc-Writes = record {
    runs = λ fs h.
        let out = balloc_loop (fs.sb.size / bpb + 1) 0 fs in
        let same = ap (λ (t : ℕ → Inode). t i) (balloc_loop-itable (fs.sb.size / bpb + 1) 0 fs) in
        (
          out.0,
          out.1,
          refl,
          record {
            referred = rw same h.referred;
            locked = rw same h.locked;
            valid = rw same h.valid;
          },
        );
  }

  log_write-Writes : (b : ℕ) (c : Block) → Writes (log_write b c)
  log_write-Writes b c = record {
    runs = λ fs h. (
      tt,
      record fs { blocks = update fs.blocks b c },
      refl,
      record { referred = h.referred; locked = h.locked; valid = h.valid },
    );
  }

  bread-Writes : (b : ℕ) → Writes (bread b)
  bread-Writes b = record { runs = λ fs h. (fs.blocks b, fs, refl, h) }

  inode-Writes : Writes (inode i)
  inode-Writes = record { runs = λ fs h. (fs.itable i, fs, refl, h) }

  iupdate-Writes : Writes (iupdate i)
  unfolding iupdate
  iupdate-Writes = record {
    runs =
        λ fs h. (tt, _, refl, record { referred = h.referred; locked = h.locked; valid = h.valid });
  }

  set_addr-Writes : (n addr : ℕ) → Writes (set_addr i n addr)
  set_addr-Writes n addr = record {
    runs = λ fs h. (
      tt,
      _,
      refl,
      record {
        referred = rw (==_refl i) h.referred;
        locked = rw (==_refl i) h.locked;
        valid = rw (==_refl i) h.valid;
      },
    );
  }

  set_size-Writes : (size : ℕ) → Writes (set_size i size)
  set_size-Writes size = record {
    runs = λ fs h. (
      tt,
      _,
      refl,
      record {
        referred = rw (==_refl i) h.referred;
        locked = rw (==_refl i) h.locked;
        valid = rw (==_refl i) h.valid;
      },
    );
  }

  gives : {A : Type 0} (a : A) → Writes (ret a)
  gives a = ret_runs a (λ fs h. h)

  direct-Writes : (n : ℕ) → Writes (direct i n)
  unfolding direct
  direct-Writes n = record {
    runs = λ fs h. elim (Bool-cases ((fs.itable i).addrs n == 0)) [
      | inl e ↦ rw e (
          (then_lem balloc _ balloc-Writes (λ new.
              if_runs (new == 0) _ _ (λ _. gives 0)
                (λ _. then_lem (set_addr i n new) _ (set_addr-Writes n new) (λ _. gives new)))).runs
            fs h)
      | inr e ↦ rw e ((fs.itable i).addrs n, fs, refl, h)
    ];
  }

  indirect-Writes : (addr bn : ℕ) → Writes (indirect addr bn)
  unfolding indirect
  indirect-Writes addr bn = record {
    runs = λ fs h. elim (Bool-cases (get32 (fs.blocks addr) (4 * bn) == 0)) [
      | inl e ↦ rw e (
          (then_lem balloc _ balloc-Writes (λ new.
              if_runs (new == 0) _ _ (λ _. gives 0)
                (λ _. then_lem (bread addr) _ (bread-Writes addr) (λ now.
                  then_lem (log_write addr (put32 (4 * bn) new now)) _
                    (log_write-Writes addr (put32 (4 * bn) new now)) (λ _. gives new))))).runs
            fs h)
      | inr e ↦ rw e (get32 (fs.blocks addr) (4 * bn), fs, refl, h)
    ];
  }

  bmap-Writes : (bn : ℕ) → bn < maxfile → Writes (bmap i bn)
  unfolding bmap
  bmap-Writes bn lt =
      if_runs (ltb bn ndirect) _ _ (λ _. direct-Writes bn)
        (λ e.
          let near : ltb (bn - ndirect) nindirect ≡ true = ground (arith, e) in
          rw near (
            then_lem (direct i ndirect) _ (direct-Writes ndirect) (λ addr.
              if_runs (addr == 0) _ _ (λ _. gives 0) (λ _. indirect-Writes addr (bn - ndirect)))))

  -- The count is at most `n`.
  abbrev Counts : ℕ → ℕ × ℕ → Fs → Type 0
  Counts n (tot, end) fs = (tot ≤ n) × Locked i fs

  writei_loop-Counts :
      (memory : ℕ → ℕ) (copyin : ℕ → ℕ → ℕ) (k tot off left n : ℕ)
      → tot + left ≤ n
      → off + left ≤ maxfile * bsize
      → Runs (Locked i) (writei_loop memory copyin i k tot off left) (Counts n)
  unfolding writei_loop
  writei_loop-Counts memory copyin zero tot off left n le top = record {
    runs = λ fs h. ((tot, off), fs, refl, (omega arith, h));
  }
  writei_loop-Counts memory copyin (suc k) tot off left n le top = record {
    runs = λ fs h. elim (Bool-cases (left == 0)) [
      | inl e ↦ rw e ((tot, off), fs, refl, (omega arith, h))
      | inr e ↦
          let m = min left (bsize - off % bsize) in
          let some_of : m ≤ left = ground arith in
          let there : off / bsize < maxfile = ground (arith, e) in
          rw e (
            (then_lem (bmap i (off / bsize)) _ (bmap-Writes (off / bsize) there) (λ addr.
                then_lem (bread addr) _ (bread-Writes addr) (λ data_of.
                  if_runs (addr == 0) _ _ (λ _. stops)
                    (λ _.
                      if_runs (ltb (copyin tot m) m) _ _
                        (λ _.
                          then_lem
                            (log_write addr
                              (written data_of memory tot (off % bsize) (copyin tot m)))
                            _ (log_write-Writes addr _) (λ _. stops))
                        (λ _.
                          then_lem (log_write addr (written data_of memory tot (off % bsize) m)) _
                            (log_write-Writes addr _)
                            (λ _.
                              writei_loop-Counts memory copyin k (tot + m) (off + m) (left - m) n
                                (omega (arith, some_of, le))
                                (omega (arith, some_of, top)))))))).runs
              fs h)
    ];
  }
    where
      stops : Runs (Locked i) (ret (tot, off)) (Counts n)
      stops = ret_runs (tot, off) (λ fs h. (omega arith, h))

  -- What `writei` gives for `n` bytes: fewer, all, or -1.
  abbrev pub Written : ℕ → Option ℕ → Fs → Type 0
  Written n none fs = Locked i fs
  Written n (some r) fs = (r ≤ n) × Locked i fs

  finish-Written :
      (n tot end : ℕ)
      → tot ≤ n
      → Runs
          (Locked i)
          (inode i >>= (λ ip.
            (if ltb ip.size end then set_size i end else ret tt)
            >>= (λ _. iupdate i >>= (λ _. ret (some tot)))))
          (Written n)
  finish-Written n tot end le = then_lem (inode i) _ inode-Writes (λ ip.
      then_lem (if ltb ip.size end then set_size i end else ret tt) _
        (if_runs (ltb ip.size end) _ _ (λ _. set_size-Writes end) (λ _. gives tt))
        (λ _. then_lem (iupdate i) _ iupdate-Writes (λ _. ret_runs (some tot) (λ fs h. (le, h)))))

  -- `writei` to a locked inode, of fewer than 2^31 bytes, does not panic, writes no more than it is
  -- asked to, and leaves the inode locked.
  pub writei-Written :
      (memory : ℕ → ℕ) (copyin : ℕ → ℕ → ℕ) (off n : ℕ)
      → n < 2 ^ 31
      → Runs (Locked i) (writei memory copyin i off n) (Written n)
  unfolding writei
  writei-Written memory copyin off n small = record {
    runs = λ fs h. elim (Bool-cases (ltb (fs.itable i).size off || ltb (add_uint off n) off)) [
      | inl e ↦ rw e (none, fs, refl, h)
      | inr e ↦ elim (Bool-cases (ltb (maxfile * bsize) (add_uint off n))) [
        | inl e' ↦ rw (e, e') (none, fs, refl, h)
        | inr e' ↦
            let top : off + n ≤ maxfile * bsize = ground (arith, e, e') in
            rw (e, e')
              ((then_lem (writei_loop memory copyin i n 0 off n) _
                  (writei_loop-Counts memory copyin n 0 off n n (omega arith) top)
                  (λ (tot, end). record {
                    runs = λ fs h. (finish-Written n tot end h.0).runs fs h.1;
                  })).runs
                fs h)
      ]
    ];
  }
