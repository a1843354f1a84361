-- ===== src/Fs/Dirs.antt =====
-- Directories: `namecmp`, `dirlookup` and `dirlink`. A name is the list of its bytes before the
-- zero byte.
pub mod Entries
use csse332lab.Base.{
  ℕ, zero, suc, ◌+◌, ◌-◌, ◌*◌, ◌/◌, ◌%◌, Bool, true, false, not, ◌&&◌, Option, none, some, List, [],
  ◌∷◌, ltb, leb, ◌==◌, if◌then◌else◌,
}
use csse332lab.Fs.{Fs, M, ret, panic, ◌>>=◌, ◌>>◌, inode, t_dir}
use csse332lab.Fs.Bytes.{get16}
use csse332lab.Fs.Inodes.{iget}
use csse332lab.Fs.Content.{readi, writei, iput}

abbrev pub dirsiz : ℕ
dirsiz = 14

-- `sizeof(struct dirent)`: two bytes of `inum` and the name.
abbrev pub dirent_size : ℕ
dirent_size = 16

pub record Dirent : Type 0 where
  pub inum : ℕ
  pub name : List ℕ

abbrev pub nth : List ℕ → ℕ → ℕ
nth [] n = 0
nth (c ∷ cs) zero = c
nth (c ∷ cs) (suc n) = nth cs n

-- The bytes before the first zero byte, `n` at most.
unfoldable pub cstring : ℕ → List ℕ → List ℕ
cstring zero cs = []
cstring (suc n) [] = []
cstring (suc n) (c ∷ cs) = if c == 0 then [] else c ∷ cstring n cs

-- The entry that its 16 bytes stand for.
unfoldable pub dirent : List ℕ → Dirent
dirent [] = record { inum = 0; name = [] }
dirent (a ∷ []) = record { inum = a; name = [] }
dirent (a ∷ b ∷ name) = record { inum = a + 256 * b; name = cstring dirsiz name }

-- `strncmp(s, t, n) == 0`
unfoldable pub same_name : ℕ → List ℕ → List ℕ → Bool
same_name zero s t = true
same_name (suc n) [] [] = true
same_name (suc n) [] (d ∷ t) = false
same_name (suc n) (c ∷ s) [] = false
same_name (suc n) (c ∷ s) (d ∷ t) = c == d && same_name n s t

-- namecmp(s, t) == 0
unfoldable pub namecmp : List ℕ → List ℕ → Bool
namecmp s t = same_name dirsiz s t

-- `readi` of an entry; reading less is a panic.
unfoldable pub read_dirent : (dp off : ℕ) → M Dirent
read_dirent dp off = do
  (data_of, got) ← readi (λ tot m. true) dp off dirent_size
  elim got [ some n ↦ if n == dirent_size then ret (dirent data_of) else panic | none ↦ panic ]

-- The loop of `dirlookup`, with `k` entries at most: the inode and the offset of its entry.
unfoldable pub dirlookup_loop : (dp : ℕ) (name : List ℕ) → ℕ → ℕ → M (Option (ℕ × ℕ))
dirlookup_loop dp name zero off fs = some (none, fs)
dirlookup_loop dp name (suc k) off fs =
    if not (ltb off (fs.itable dp).size)
    then some (none, fs)
    else (do
      de ← read_dirent dp off
      if de.inum == 0
          then dirlookup_loop dp name k (off + dirent_size)
          else if namecmp name de.name
          then (do d ← inode dp; i ← iget d.dev de.inum; ret (some (i, off)))
          else dirlookup_loop dp name k (off + dirent_size))
        fs

unfoldable pub dirlookup : (dp : ℕ) (name : List ℕ) → M (Option (ℕ × ℕ))
dirlookup dp name fs =
    if not ((fs.itable dp).type == t_dir)
    then none
    else dirlookup_loop dp name ((fs.itable dp).size / dirent_size + 1) 0 fs

-- The loop of `dirlink`: the offset of an empty entry, or of the end.
pub empty_dirent : (dp : ℕ) → ℕ → ℕ → M ℕ
empty_dirent dp zero off fs = some (off, fs)
empty_dirent dp (suc k) off fs =
    if not (ltb off (fs.itable dp).size)
    then some (off, fs)
    else (do
      de ← read_dirent dp off
      if de.inum == 0 then ret off else empty_dirent dp k (off + dirent_size))
        fs

-- The bytes of an entry, as `strncpy` fills them.
pub dirent_bytes : Dirent → ℕ → ℕ
dirent_bytes de j =
    if j == 0
    then de.inum % 256
    else if j == 1
    then de.inum / 256 % 256
    else if ltb j dirent_size
    then nth (cstring dirsiz de.name) (j - 2)
    else 0

-- True for 0, false for -1.
pub dirlink : (dp : ℕ) (name : List ℕ) (inum : ℕ) → M Bool
dirlink dp name inum = do
  hit ← dirlookup dp name
  elim hit [
    | some (i, _) ↦ iput i >> ret false
    | none ↦ (do
      d ← inode dp
      off ← empty_dirent dp (d.size / dirent_size + 1) 0
      done ←
          writei (dirent_bytes (record { inum = inum; name = name })) (λ tot m. m) dp off
            dirent_size
      elim done [ some n ↦ ret (n == dirent_size) | none ↦ ret false ])
  ]
