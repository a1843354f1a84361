-- ===== src/Fs/Bytes/Fields.antt =====
-- Numbers that are written into a block, read back.
use native.Mathlib.Decide.{ℕ_discrete}
use csse332lab.Base.{ℕ, zero, suc, ◌+◌, ◌*◌, ◌^◌, ◌≤◌, ◌<◌, ◌≡◌, refl, ◌∙◌, ◌⊎◌, inl, arith}
use csse332lab.Fs.{Block, ndirect}
use csse332lab.Fs.Bytes.{
  get16, get32, put16, put32, Dinode, read_dinode, write_dinode, put_addrs, dinode_size,
}

pub get16-put16 : (o v : ℕ) (b : Block) → v < 2 ^ 16 → get16 (put16 o v b) o ≡ v
unfolding put16
get16-put16 o v b h = ground arith

pub get32-put32 : (o v : ℕ) (b : Block) → v < 2 ^ 32 → get32 (put32 o v b) o ≡ v
unfolding put32
get32-put32 o v b h = ground arith

pub put16_others : (o v : ℕ) (b : Block) (i : ℕ) → (i < o) ⊎ (o + 2 ≤ i) → put16 o v b i ≡ b i
unfolding put16
put16_others o v b i h = ground arith

pub put32_others : (o v : ℕ) (b : Block) (i : ℕ) → (i < o) ⊎ (o + 4 ≤ i) → put32 o v b i ≡ b i
unfolding put32
put32_others o v b i h = ground arith

pub put_addrs_others :
    (addrs : ℕ → ℕ) (o n : ℕ) (b : Block) (i : ℕ)
    → (i < o) ⊎ (o + 4 * n ≤ i)
    → put_addrs addrs o n b i ≡ b i
unfolding put_addrs
put_addrs_others addrs o zero b i h = refl
put_addrs_others addrs o (suc n) b i h =
    put32_others (o + 4 * n) (addrs n) (put_addrs addrs o n b) i (ground arith)
    ∙ put_addrs_others addrs o n b i (ground arith)

-- Fields of blocks that agree on the bytes there.
pub get16-eq :
    (a b : Block) (o : ℕ) → ((i : ℕ) → o ≤ i → i < o + 2 → a i ≡ b i) → get16 a o ≡ get16 b o
get16-eq a b o h = ground (arith, h o, h (o + 1))

pub get32-eq :
    (a b : Block) (o : ℕ) → ((i : ℕ) → o ≤ i → i < o + 4 → a i ≡ b i) → get32 a o ≡ get32 b o
get32-eq a b o h = ground (arith, h o, h (o + 1), h (o + 2), h (o + 3))

pub get32-put_addrs :
    (addrs : ℕ → ℕ) (o n : ℕ) (b : Block) (i : ℕ)
    → i < n
    → addrs i < 2 ^ 32
    → get32 (put_addrs addrs o n b) (o + 4 * i) ≡ addrs i
unfolding put_addrs
get32-put_addrs addrs o zero b i h w = absurd (omega arith)
get32-put_addrs addrs o (suc n) b i h w = elim (ℕ_discrete i n) [
  | yes e ↦ rw e (get32-put32 (o + 4 * n) (addrs n) (put_addrs addrs o n b) (rw (← e) w))
  | no ne ↦
      get32-eq (put32 (o + 4 * n) (addrs n) (put_addrs addrs o n b)) (put_addrs addrs o n b)
        (o + 4 * i)
        (λ j lo hi.
          put32_others (o + 4 * n) (addrs n) (put_addrs addrs o n b) j (inl (omega arith)))
      ∙ get32-put_addrs addrs o n b i (omega arith) w
]

-- The fields of an inode fit into those on the disk.
pub record FitsDisk (d : Dinode) : Type 0 where
  pub type : d.type < 2 ^ 16
  pub major : d.major < 2 ^ 16
  pub minor : d.minor < 2 ^ 16
  pub nlink : d.nlink < 2 ^ 16
  pub size : d.size < 2 ^ 32
  pub addrs : (i : ℕ) → i ≤ ndirect → d.addrs i < 2 ^ 32

-- The same inode, in the addresses that there are.
pub record SameDinode (d e : Dinode) : Type 0 where
  pub type : d.type ≡ e.type
  pub major : d.major ≡ e.major
  pub minor : d.minor ≡ e.minor
  pub nlink : d.nlink ≡ e.nlink
  pub size : d.size ≡ e.size
  pub addrs : (i : ℕ) → i ≤ ndirect → d.addrs i ≡ e.addrs i

pub read_dinode-SameDinode :
    (a b : Block) (o : ℕ)
    → ((i : ℕ) → o ≤ i → i < o + dinode_size → a i ≡ b i)
    → SameDinode (read_dinode a o) (read_dinode b o)
unfolding read_dinode
read_dinode-SameDinode a b o h = record {
  type = get16-eq a b o (λ i lo hi. h i (omega arith) (omega arith));
  major = get16-eq a b (o + 2) (λ i lo hi. h i (omega arith) (omega arith));
  minor = get16-eq a b (o + 4) (λ i lo hi. h i (omega arith) (omega arith));
  nlink = get16-eq a b (o + 6) (λ i lo hi. h i (omega arith) (omega arith));
  size = get32-eq a b (o + 8) (λ i lo hi. h i (omega arith) (omega arith));
  addrs = λ n hn. get32-eq a b (o + 12 + 4 * n) (λ i lo hi. h i (omega arith) (omega arith));
}

module _ (d : Dinode) (o : ℕ) (b : Block) where
  b1 : Block
  b1 = put16 o d.type b

  b2 : Block
  b2 = put16 (o + 2) d.major b1

  b3 : Block
  b3 = put16 (o + 4) d.minor b2

  b4 : Block
  b4 = put16 (o + 6) d.nlink b3

  b5 : Block
  b5 = put32 (o + 8) d.size b4

  -- What each later write leaves of the bytes before it, and behind it.
  later5 : (i : ℕ) → i < o + 12 → write_dinode d o b i ≡ b5 i
  unfolding write_dinode b5 b4 b3 b2 b1
  later5 i h = put_addrs_others d.addrs (o + 12) (ndirect + 1) b5 i (inl h)

  later4 : (i : ℕ) → i < o + 8 → write_dinode d o b i ≡ b4 i
  unfolding b5
  later4 i h = later5 i (omega arith) ∙ put32_others (o + 8) d.size b4 i (inl h)

  later3 : (i : ℕ) → i < o + 6 → write_dinode d o b i ≡ b3 i
  unfolding b4
  later3 i h = later4 i (omega arith) ∙ put16_others (o + 6) d.nlink b3 i (inl h)

  later2 : (i : ℕ) → i < o + 4 → write_dinode d o b i ≡ b2 i
  unfolding b3
  later2 i h = later3 i (omega arith) ∙ put16_others (o + 4) d.minor b2 i (inl h)

  later1 : (i : ℕ) → i < o + 2 → write_dinode d o b i ≡ b1 i
  unfolding b2
  later1 i h = later2 i (omega arith) ∙ put16_others (o + 2) d.major b1 i (inl h)

  pub write_dinode_others : (i : ℕ) → (i < o) ⊎ (o + dinode_size ≤ i) → write_dinode d o b i ≡ b i
  unfolding write_dinode b5 b4 b3 b2 b1
  write_dinode_others i h =
      put_addrs_others d.addrs (o + 12) (ndirect + 1) b5 i (ground arith)
      ∙ put32_others (o + 8) d.size b4 i (ground arith)
      ∙ put16_others (o + 6) d.nlink b3 i (ground arith)
      ∙ put16_others (o + 4) d.minor b2 i (ground arith)
      ∙ put16_others (o + 2) d.major b1 i (ground arith)
      ∙ put16_others o d.type b i (ground arith)

  -- An inode that is written to the disk is read back as it is.
  pub read_dinode-write_dinode : FitsDisk d → SameDinode (read_dinode (write_dinode d o b) o) d
  unfolding read_dinode write_dinode b5 b4 b3 b2 b1
  read_dinode-write_dinode f = record {
    type = get16-eq w b1 o (λ i lo hi. later1 i hi) ∙ type1;
    major = get16-eq w b2 (o + 2) (λ i lo hi. later2 i (omega arith)) ∙ major2;
    minor = get16-eq w b3 (o + 4) (λ i lo hi. later3 i (omega arith)) ∙ minor3;
    nlink = get16-eq w b4 (o + 6) (λ i lo hi. later4 i (omega arith)) ∙ nlink4;
    size = get32-eq w b5 (o + 8) (λ i lo hi. later5 i (omega arith)) ∙ size5;
    addrs = λ i hi. addrs6 i hi;
  }
    where
      w : Block
      w = write_dinode d o b

      type1 : get16 b1 o ≡ d.type
      type1 = get16-put16 o d.type b f.type

      major2 : get16 b2 (o + 2) ≡ d.major
      major2 = get16-put16 (o + 2) d.major b1 f.major

      minor3 : get16 b3 (o + 4) ≡ d.minor
      minor3 = get16-put16 (o + 4) d.minor b2 f.minor

      nlink4 : get16 b4 (o + 6) ≡ d.nlink
      nlink4 = get16-put16 (o + 6) d.nlink b3 f.nlink

      size5 : get32 b5 (o + 8) ≡ d.size
      size5 = get32-put32 (o + 8) d.size b4 f.size

      addrs6 : (i : ℕ) → i ≤ ndirect → get32 w (o + 12 + 4 * i) ≡ d.addrs i
      addrs6 i hi = get32-put_addrs d.addrs (o + 12) (ndirect + 1) b5 i (omega arith) (f.addrs i hi)
