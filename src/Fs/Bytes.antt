-- ===== src/Fs/Bytes.antt =====
-- Numbers in the bytes of a block, lowest byte first, and `struct dinode` and `struct superblock`.
pub mod Fields
use csse332lab.Base.{ℕ, zero, suc, ◌+◌, ◌*◌, ◌/◌, ◌%◌, ltb, ◌==◌, if◌then◌else◌, update}
use csse332lab.Fs.{Block, Superblock, ndirect}

abbrev pub get16 : Block → ℕ → ℕ
get16 b o = b o + 256 * b (o + 1)

abbrev pub get32 : Block → ℕ → ℕ
get32 b o = b o + 256 * b (o + 1) + 65536 * b (o + 2) + 16777216 * b (o + 3)

pub put16 : ℕ → ℕ → Block → Block
put16 o v b = update (update b o (v % 256)) (o + 1) (v / 256 % 256)

pub put32 : ℕ → ℕ → Block → Block
put32 o v b =
    update
      (update (update (update b o (v % 256)) (o + 1) (v / 256 % 256)) (o + 2) (v / 65536 % 256))
      (o + 3) (v / 16777216 % 256)

pub record Dinode : Type 0 where
  pub type : ℕ
  pub major : ℕ
  pub minor : ℕ
  pub nlink : ℕ
  pub size : ℕ
  pub addrs : ℕ → ℕ

abbrev pub dinode_size : ℕ
dinode_size = 64

unfoldable pub read_dinode : Block → ℕ → Dinode
read_dinode b o = record {
  type = get16 b o;
  major = get16 b (o + 2);
  minor = get16 b (o + 4);
  nlink = get16 b (o + 6);
  size = get32 b (o + 8);
  addrs = λ i. get32 b (o + 12 + 4 * i);
}

-- The first `n` of the addresses.
pub put_addrs : (ℕ → ℕ) → ℕ → ℕ → Block → Block
put_addrs addrs o zero b = b
put_addrs addrs o (suc n) b = put32 (o + 4 * n) (addrs n) (put_addrs addrs o n b)

pub write_dinode : Dinode → ℕ → Block → Block
write_dinode d o b =
    let b = put16 o d.type b in
    let b = put16 (o + 2) d.major b in
    let b = put16 (o + 4) d.minor b in
    let b = put16 (o + 6) d.nlink b in
    let b = put32 (o + 8) d.size b in put_addrs d.addrs (o + 12) (ndirect + 1) b

pub read_superblock : Block → Superblock
read_superblock b = record {
  magic = get32 b 0;
  size = get32 b 4;
  nblocks = get32 b 8;
  ninodes = get32 b 12;
  nlog = get32 b 16;
  logstart = get32 b 20;
  inodestart = get32 b 24;
  bmapstart = get32 b 28;
}
