-- ===== src/Sysfile/Opening.antt =====
-- `sys_open`: the descriptor and the file that it gives.
use csse332lab.Base.{
  ℕ, ◌<◌, ◌≡◌, refl, Bool, true, false, not, ◌&&◌, ◌||◌, Option, none, some, List, ◌∷◌, ◌++◌, arith,
  if◌then◌else◌, ltb, ◌==◌, ==_refl, update, update_self, ◌⊎◌, inl, inr,
}
use csse332lab.Fs.{Inode}
use csse332lab.Fs.Inodes.{iunlock}
use csse332lab.Fs.Content.{itrunc, iunlockput}
use csse332lab.Files.{File, Ftable, fd_none, fd_inode, fd_device}
use csse332lab.Files.Data.{ndev}
use csse332lab.Sysfile.{Sys, ret, ◌>>◌, end_op}
use csse332lab.Sysfile.Calls.{
  with_descriptor, open_descriptor, with_file, give_up, open_file, sys_open, opened, set_file,
  o_wronly, o_rdwr,
}
use csse332lab.Sysfile.Tree.{t_device}
use csse332lab.Sysfile.Held.{held}
use csse332lab.Sysfile.Rules.{
  Yields, Triple, bind_lem, ret_lem, if_lem, test_lem, option_lem, pre_lem, fact_lem, both_lem,
}
use csse332lab.Sysfile.Triples.{Kept, Kept-same, inside_lem, end_op_lem, inside_frame, end_op_frame}
use csse332lab.Sysfile.Placing.{fdalloc_lem, fdalloc_frame, Placed, Lowest}
use csse332lab.Sysfile.Filing.{alloc_file_lem, set_file_lem, Fresh}
use csse332lab.Sysfile.Descriptors.{Sound, held-move}
use csse332lab.Sysfile.GivingUp.{close_fresh_lem}
use csse332lab.Sysfile.Transactions.{begins, within, open_inode_lem}

-- A file that is open as the mode says: on a device whose number `devsw` has an entry for, or from
-- its first byte on.
abbrev pub Opens : (omode : ℕ) → File → Type 0
Opens omode f =
    (f.readable ≡ not (o_wronly omode))
    × (f.writable ≡ o_wronly omode || o_rdwr omode)
    × (((f.type ≡ fd_device) × (f.major < ndev)) ⊎ ((f.type ≡ fd_inode) × (f.off ≡ 0)))

-- How `sys_open` ends.
abbrev pub Opened : List ℕ → (ℕ → Option ℕ) → (omode : ℕ) → Option ℕ → Sys → Type 0
Opened others fds omode none s = Sound others fds s
Opened others fds omode (some fd) s =
    Lowest fds fd × ((f : ℕ) × (Sound others (update fds fd (some f)) s × Opens omode (s.files f)))

opened-Opens :
    (i : ℕ) (ip : Inode) (omode : ℕ) (f : File)
    → (ip.type == t_device && not (ltb ip.major ndev)) ≡ false
    → Opens omode (opened i ip omode f)
unfolding opened
opened-Opens i ip omode f e = go (ip.type == t_device) e
  where
    go :
        (device : Bool)
        → (device && not (ltb ip.major ndev)) ≡ false
        → Opens omode (
            let g =
              if device
              then record f { type = fd_device; major = ip.major }
              else record f { type = fd_inode; off = 0 } in
            record g {
              ip = i;
              readable = not (o_wronly omode);
              writable = o_wronly omode || o_rdwr omode;
            })
    go true e = (refl, refl, inl (refl, ground (arith, e)))
    go false e = (refl, refl, inr (refl, refl))

opened-ref : (i : ℕ) (ip : Inode) (omode : ℕ) (f : File) → (opened i ip omode f).ref ≡ f.ref
unfolding opened
opened-ref i ip omode f = go (ip.type == t_device)
  where
    go :
        (device : Bool)
        → (if device
            then record f { type = fd_device; major = ip.major }
            else record f { type = fd_inode; off = 0 }).ref
          ≡ f.ref
    go true = refl
    go false = refl

module _ (end : ℕ) (others : List ℕ) (fds : ℕ → Option ℕ) (omode : ℕ) where
  abbrev refs : List ℕ
  refs = others ++ held fds

  leaving_none : Triple (Kept true refs fds) (end_op >> ret none) (Opened others fds omode)
  leaving_none = bind_lem _ _ (end_op_lem refs fds) (λ _. ret_lem none (λ s h. h))

  gives_up : (i : ℕ) → Triple (Kept true refs fds) (give_up i) (Opened others fds omode)
  gives_up i =
      bind_lem _ _ (bind_lem _ _ (inside_lem refs fds (iunlockput i)) (λ _. end_op_lem refs fds))
        (λ _. ret_lem none (λ s h. h))

  -- The fields of a file to which there is a reference are set.
  set_opened_lem :
      (f fd i : ℕ) (ip : Inode)
      → (ip.type == t_device && not (ltb ip.major ndev)) ≡ false
      → Triple
          (Kept true (f ∷ refs) (update fds fd (some f)))
          (set_file f (opened i ip omode))
          (λ _ s. Kept true (f ∷ refs) (update fds fd (some f)) s × Opens omode (s.files f))
  unfolding set_file
  set_opened_lem f fd i ip e = record {
    runs = λ s h. (
      (set_file_lem true (f ∷ refs) (update fds fd (some f)) f (opened i ip omode)
            (λ z. absurd (let at = ==_refl f in ground (arith, z, at)))
            (opened-ref i ip omode)).runs
          s h,
      rw (update_self s.files f (opened i ip omode (s.files f)))
          (opened-Opens i ip omode (s.files f) e),
    );
  }

  -- From the descriptor on.
  with_descriptor_lem :
      (f i : ℕ) (ip : Inode)
      → (ip.type == t_device && not (ltb ip.major ndev)) ≡ false
      → (fd : ℕ) → Lowest fds fd
      → Triple
          (Kept true (f ∷ refs) (update fds fd (some f)))
          (with_descriptor end i omode ip f fd)
          (Opened others fds omode)
  unfolding with_descriptor
  with_descriptor_lem f i ip e fd lowest =
      let gds = update fds fd (some f) in
      let Mode : Ftable → Type 0 = λ t. Opens omode (t f) in
      bind_lem _ _ (set_opened_lem f fd i ip e) (λ _.
        bind_lem _ _
          (if_lem _ _ _ (inside_frame (f ∷ refs) gds Mode (itrunc i)) (ret_lem tt (λ s h. h)))
          (λ _. bind_lem _ _ (inside_frame (f ∷ refs) gds Mode (iunlock i)) (λ _.
            bind_lem _ _ (end_op_frame (f ∷ refs) gds Mode) (λ _. ret_lem (some fd) (λ s h. (
              lowest,
              (
                f,
                (
                  Kept-same false (f ∷ refs) (others ++ held gds) gds gds
                      (λ c. held-move others fds fd f c lowest.in_range lowest.free) (λ g. refl) s
                      h.0,
                  h.1,
                ),
              ),
            ))))))

  -- From the file on.
  open_descriptor_lem :
      (f i : ℕ) (ip : Inode)
      → (ip.type == t_device && not (ltb ip.major ndev)) ≡ false
      → (r : Option ℕ)
      → Triple
          (λ s. Placed true (f ∷ refs) fds f r s × ((s.files f).type ≡ fd_none))
          (open_descriptor end i omode ip f r)
          (Opened others fds omode)
  unfolding open_descriptor
  open_descriptor_lem f i ip e none =
      bind_lem _ _ (close_fresh_lem end refs fds f) (λ _. gives_up i)
  open_descriptor_lem f i ip e (some fd) =
      pre_lem (λ s h. h.0) (fact_lem (λ lowest. with_descriptor_lem f i ip e fd lowest))

  with_file_lem :
      (i : ℕ) (ip : Inode)
      → (ip.type == t_device && not (ltb ip.major ndev)) ≡ false
      → (got : Option ℕ)
      → Triple (Fresh true refs fds got) (with_file end i omode ip got) (Opened others fds omode)
  unfolding with_file
  with_file_lem i ip e none = gives_up i
  with_file_lem i ip e (some f) =
      bind_lem _ _
        (both_lem (fdalloc_lem true (f ∷ refs) fds f) (fdalloc_frame (λ t. (t f).type ≡ fd_none) f))
        (open_descriptor_lem f i ip e)

  open_file_lem :
      (i : ℕ) → Triple (Kept true refs fds) (open_file end i omode) (Opened others fds omode)
  unfolding open_file
  open_file_lem i = within refs fds _ (λ ip.
      test_lem (ip.type == t_device && not (ltb ip.major ndev)) _ _ (λ _. gives_up i)
        (λ e. bind_lem _ _ (alloc_file_lem true refs fds) (with_file_lem i ip e)))

  -- `sys_open` fails without a change to the descriptors, or gives the lowest free one, for a file
  -- that is open as the mode says.
  pub sys_open_lem :
      (path : Option (List ℕ))
      → Triple (Sound others fds) (sys_open end path omode) (Opened others fds omode)
  unfolding sys_open
  sys_open_lem none = ret_lem none (λ s h. h)
  sys_open_lem (some path) = begins refs fds (λ _.
      bind_lem _ _ (open_inode_lem refs fds path omode)
        (λ found. option_lem found leaving_none (λ i. open_file_lem i)))

-- From a state without a transaction in which each open file has as many references as the
-- descriptors of the process and the others have, sys_open that does not end in a panic of the
-- file system fails with the descriptors as they were, or gives the lowest free descriptor, for a
-- file that can be read and written as the mode says and is on a device below NDEV or at its first
-- byte; the state is again such a state.
pub sys_open-Opened :
    (end : ℕ) (others : List ℕ) (path : Option (List ℕ)) (omode : ℕ) (s : Sys)
    → Sound others s.ofile s
    → Yields (Opened others s.ofile omode) (sys_open end path omode s)
sys_open-Opened end others path omode s h = (sys_open_lem end others s.ofile omode path).runs s h
