-- ===== src/Fs/Paths.antt =====
-- Path names: `skipelem` and `namex`. A path is the list of its bytes before the zero byte.
pub mod Elements
use csse332lab.Base.{
  ℕ, zero, suc, ◌+◌, ◌-◌, Bool, true, false, not, ◌&&◌, Option, none, some, List, [], ◌∷◌, ltb,
  ◌==◌, if◌then◌else◌, length,
}
use csse332lab.Fs.{Fs, M, ret, panic, ◌>>=◌, ◌>>◌, inode, t_dir, rootdev, rootino}
use csse332lab.Fs.Inodes.{iget, idup, ilock, iunlock}
use csse332lab.Fs.Content.{iput, iunlockput}
use csse332lab.Fs.Dirs.{dirsiz, dirlookup}

abbrev pub slash : ℕ
slash = b'/'

-- while(*path == '/') path++;
unfoldable pub skip_slashes : List ℕ → List ℕ
skip_slashes [] = []
skip_slashes (c ∷ path) = if c == slash then skip_slashes path else c ∷ path

-- while(*path != '/' && *path != 0) path++; with what was passed over
unfoldable pub split_elem : List ℕ → List ℕ × List ℕ
split_elem [] = ([], [])
split_elem (c ∷ path) =
    let (elem, rest) = split_elem path in if c == slash then ([], c ∷ path) else (c ∷ elem, rest)

abbrev pub take : ℕ → List ℕ → List ℕ
take zero cs = []
take (suc n) [] = []
take (suc n) (c ∷ cs) = c ∷ take n cs

-- The name of the next element and the path behind it; `none` if there is none.
unfoldable pub skipelem : List ℕ → Option (List ℕ × List ℕ)
skipelem path = elim (skip_slashes path) [
  | [] ↦ none
  | c ∷ rest ↦ let (s, behind) = split_elem (c ∷ rest) in some (take dirsiz s, skip_slashes behind)
]

abbrev pub is_empty : List ℕ → Bool
is_empty [] = true
is_empty (c ∷ cs) = false

-- The body of the loop of `namex` at the inode `i`, for the element `name` with `path` behind it;
-- `onward` goes on from the inode that is found.
unfoldable pub namex_elem :
    (nameiparent : Bool) (i : ℕ) (name path : List ℕ)
    → (onward : ℕ → M (Option (ℕ × List ℕ))) → M (Option (ℕ × List ℕ))
namex_elem nameiparent i name path onward = do
  ilock i
  ip ← inode i
  if not (ip.type == t_dir)
      then iunlockput i >> ret none
      else if nameiparent && is_empty path
      then iunlock i >> ret (some (i, name))
      else (do
        hit ← dirlookup i name
        elim hit [ none ↦ iunlockput i >> ret none | some (next, _) ↦ iunlockput i >> onward next ])

-- The loop, with `k` rounds at most: the inode, and the name.
unfoldable pub namex_loop :
    (nameiparent : Bool) → ℕ → ℕ → List ℕ → (name : List ℕ) → M (Option (ℕ × List ℕ))
namex_loop nameiparent zero i path name = ret none
namex_loop nameiparent (suc k) i path name = elim (skipelem path) [
  | none ↦ if nameiparent then iput i >> ret none else ret (some (i, name))
  | some (name, path) ↦
      namex_elem nameiparent i name path (λ next. namex_loop nameiparent k next path name)
]

abbrev pub is_absolute : List ℕ → Bool
is_absolute [] = false
is_absolute (c ∷ path) = c == slash

-- A path has no more elements than bytes.
unfoldable pub namex : (nameiparent : Bool) → List ℕ → M (Option (ℕ × List ℕ))
namex parent path fs =
    (do
      i ← (if is_absolute path then iget rootdev rootino else idup fs.cwd)
      namex_loop parent (length path + 1) i path [])
      fs

unfoldable pub namei : List ℕ → M (Option ℕ)
namei path = do r ← namex false path; elim r [ none ↦ ret none | some (i, _) ↦ ret (some i) ]

unfoldable pub nameiparent : List ℕ → M (Option (ℕ × List ℕ))
nameiparent path = namex true path
