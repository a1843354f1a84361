-- ===== src/Fs/Dirs/Entries.antt =====
-- `dirlookup` against the entries of a directory.
use native.Mathlib.Decide.{ℕ_discrete}
use csse332lab.Base.{
  ℕ, zero, suc, ◌+◌, ◌-◌, ◌*◌, ◌/◌, ◌%◌, ◌≤◌, ◌<◌, ◌≡◌, refl, ap, sym, subst, ◌∙◌, inl, inr, Bool,
  true, false, not, ◌&&◌, Option, none, some, List, arith, ltb, ◌==◌, if◌then◌else◌, Bool-cases,
}
use csse332lab.Fs.{Fs, ◌>>=◌, bsize, maxfile, t_dir}
use csse332lab.Fs.Inodes.{iget}
use csse332lab.Fs.Content.Reading.{contents, IsMapped, readi-contents}
use csse332lab.Fs.Dirs.{
  Dirent, dirent, dirent_size, namecmp, read_dirent, dirlookup_loop, dirlookup,
}

-- A directory without holes.
pub record IsDirectory (dp : ℕ) (fs : Fs) : Type 0 where
  pub type : (fs.itable dp).type ≡ t_dir
  pub size : (fs.itable dp).size ≤ maxfile * bsize
  pub whole : (fs.itable dp).size % dirent_size ≡ 0
  pub mapped : IsMapped dp (fs.itable dp).size fs

-- The entry at the offset.
abbrev pub entry : (dp off : ℕ) → Fs → Dirent
entry dp off fs = dirent (contents dp off dirent_size fs)

-- The entry is in use and has the name.
abbrev pub names : (name : List ℕ) → Dirent → Bool
names name de = not (de.inum == 0) && namecmp name de.name

-- No entry before the offset `end` has the name.
abbrev pub NoneNamed : (dp : ℕ) (name : List ℕ) (end : ℕ) → Fs → Type 0
NoneNamed dp name end fs =
    (off : ℕ) → off < end → off % dirent_size ≡ 0 → names name (entry dp off fs) ≡ false

-- The result of `dirlookup` for the entry at `off`: a reference to its inode, if `iget` has one.
abbrev pub referenced : (dp off : ℕ) → Fs → Option (Option (ℕ × ℕ) × Fs)
referenced dp off fs = elim (iget (fs.itable dp).dev (entry dp off fs).inum fs) [
  | none ↦ none
  | some (i, fs') ↦ some (some (i, off), fs')
]

pub data Looked (dp : ℕ) (name : List ℕ) (fs : Fs) (r : Option (Option (ℕ × ℕ) × Fs)) : Type 0 where
  found :
      (off : ℕ)
      → off < (fs.itable dp).size
      → off % dirent_size ≡ 0
      → names name (entry dp off fs) ≡ true
      → NoneNamed dp name off fs
      → r ≡ referenced dp off fs
      → Looked dp name fs r
  missing : NoneNamed dp name (fs.itable dp).size fs → r ≡ some (none, fs) → Looked dp name fs r

module _ (dp : ℕ) (fs : Fs) (d : IsDirectory dp fs) where
  read_dirent-entry :
      (off : ℕ)
      → off < (fs.itable dp).size
      → off % dirent_size ≡ 0
      → read_dirent dp off fs ≡ some (entry dp off fs, fs)
  unfolding read_dirent
  read_dirent-entry off h aligned =
      let room : (if ltb dirent_size ((fs.itable dp).size - off)
            then dirent_size
            else (fs.itable dp).size - off)
          ≡ dirent_size =
        ground arith in
      let read = readi-contents dp fs off dirent_size (omega arith) d.size d.mapped in
      rw (read, ◌>>=◌) (rw room refl)

  NoneNamed-next :
      (name : List ℕ) (off : ℕ)
      → off % dirent_size ≡ 0
      → NoneNamed dp name off fs
      → names name (entry dp off fs) ≡ false
      → NoneNamed dp name (off + dirent_size) fs
  NoneNamed-next name off aligned before last at h aligned' = elim (ℕ_discrete at off) [
    | yes e ↦ subst (λ x. names name (entry dp x fs) ≡ false) (sym e) last
    | no ne ↦ before at (omega arith) aligned'
  ]

  dirlookup_loop-Looked :
      (name : List ℕ) (k off : ℕ)
      → off % dirent_size ≡ 0
      → (fs.itable dp).size < off + dirent_size * k
      → NoneNamed dp name off fs
      → Looked dp name fs (dirlookup_loop dp name k off fs)
  unfolding dirlookup_loop
  dirlookup_loop-Looked name zero off aligned enough before =
      missing (λ at h a. before at (omega arith) a) refl
  dirlookup_loop-Looked name (suc k) off aligned enough before =
      elim (Bool-cases (ltb off (fs.itable dp).size)) [
        | inr past ↦ rw past (missing (λ at h a. before at (ground arith) a) refl)
        | inl more ↦
            let inside : off < (fs.itable dp).size = ground arith in
            let aligned' : (off + dirent_size) % dirent_size ≡ 0 = omega arith in
            let later = dirlookup_loop-Looked name k (off + dirent_size) aligned' (omega arith) in
            rw more (
              rw (read_dirent-entry off inside aligned, ◌>>=◌)
                (elim (Bool-cases ((entry dp off fs).inum == 0)) [
                  | inl free ↦ rw free (
                      later (
                        NoneNamed-next name off aligned before
                          (ap (λ b. not b && namecmp name (entry dp off fs).name) free)))
                  | inr taken ↦ rw taken (elim (Bool-cases (namecmp name (entry dp off fs).name)) [
                    | inl same ↦ rw same (
                        found off inside aligned
                          (ap (λ b. not b && namecmp name (entry dp off fs).name) taken ∙ same)
                          before (ground arith))
                    | inr other ↦ rw other (
                        later (
                          NoneNamed-next name off aligned before
                            (ap (λ b. not b && namecmp name (entry dp off fs).name) taken ∙ other)))
                  ])
                ]))
      ]

  -- In a directory without holes `dirlookup` finds the first entry in use that has the name, and
  -- gets a reference to its inode with its offset; without one it finds nothing, and changes
  -- nothing.
  pub dirlookup-Looked : (name : List ℕ) → Looked dp name fs (dirlookup dp name fs)
  unfolding dirlookup
  dirlookup-Looked name =
      let test : ((fs.itable dp).type == t_dir) ≡ true = ap (λ x. x == t_dir) d.type in
      rw test (
        dirlookup_loop-Looked name ((fs.itable dp).size / dirent_size + 1) 0 refl (omega arith)
          (λ at h a. absurd (omega arith)))
