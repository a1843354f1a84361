-- ===== src/Fs/Inodes/Disk.antt =====
-- An inode that `iupdate` stores is the one that `ilock` loads.
use native.Mathlib.Decide.{ℕ_discrete}
use csse332lab.Base.{
  ℕ, ◌≡◌, ◌≢◌, refl, ap, sym, subst, ◌∙◌, some, arith, update, update_self, update_ne,
}
use csse332lab.Fs.{Fs, Block}
use csse332lab.Fs.Bytes.{Dinode, read_dinode, write_dinode}
use csse332lab.Fs.Bytes.Fields.{
  FitsDisk, SameDinode, read_dinode-write_dinode, write_dinode_others, read_dinode-SameDinode,
}
use csse332lab.Fs.Inodes.{iblock, ioffset, stored, iupdate}

-- The inode `inum` on the disk.
abbrev pub on_disk : ℕ → Fs → Dinode
on_disk inum fs = read_dinode (fs.blocks (iblock inum fs)) (ioffset inum)

-- `iupdate` puts an inode in memory whose fields fit on the disk there under its number, as it is
-- read back from its block, and leaves every other inode on the disk, and every other block, as it
-- was.
pub iupdate-on_disk :
    (i : ℕ) (fs : Fs)
    → FitsDisk (stored (fs.itable i))
    → (fs' : Fs) × (iupdate i fs ≡ some (tt, fs'))
      × SameDinode (on_disk (fs.itable i).inum fs') (stored (fs.itable i))
      × ((inum : ℕ) → inum ≢ (fs.itable i).inum → SameDinode (on_disk inum fs') (on_disk inum fs))
      × ((b : ℕ) → b ≢ iblock (fs.itable i).inum fs → fs'.blocks b ≡ fs.blocks b)
unfolding iupdate
iupdate-on_disk i fs fits = (
  record fs { blocks = update fs.blocks at new },
  refl,
  subst (λ b. SameDinode (read_dinode b (ioffset (fs.itable i).inum)) (stored (fs.itable i)))
      (sym (update_self fs.blocks at new))
      (read_dinode-write_dinode (stored (fs.itable i)) (ioffset (fs.itable i).inum) (fs.blocks at)
        fits),
  others,
  λ b ne. update_ne fs.blocks at b new ne,
)
  where
    at : ℕ
    at = iblock (fs.itable i).inum fs

    new : Block
    new = write_dinode (stored (fs.itable i)) (ioffset (fs.itable i).inum) (fs.blocks at)

    others :
        (inum : ℕ)
        → inum ≢ (fs.itable i).inum
        → SameDinode
            (read_dinode (update fs.blocks at new (iblock inum fs)) (ioffset inum))
            (on_disk inum fs)
    others inum ne =
        read_dinode-SameDinode (update fs.blocks at new (iblock inum fs))
          (fs.blocks (iblock inum fs)) (ioffset inum)
          (λ j lo hi. elim (ℕ_discrete (iblock inum fs) at) [
            | no apart ↦ ap (λ (f : Block). f j) (update_ne fs.blocks at (iblock inum fs) new apart)
            | yes e ↦
                ap (λ x. update fs.blocks at new x j) e
                ∙ ap (λ (f : Block). f j) (update_self fs.blocks at new)
                ∙ write_dinode_others (stored (fs.itable i)) (ioffset (fs.itable i).inum)
                    (fs.blocks at) j (omega arith)
                ∙ ap (λ x. fs.blocks x j) (sym e)
          ])
