-- ===== src/Sysfile/Transactions.antt =====
-- The system calls that take paths, on every path through them.
use csse332lab.Base.{ℕ, true, false, not, Option, none, some, List, ◌==◌}
use csse332lab.Fs.{M, t_dir}
use csse332lab.Sysfile.{Sys, S, ret, ◌>>=◌, ◌>>◌, begin_op, end_op, inside}
use csse332lab.Sysfile.Calls.{
  sys_link, sys_unlink, open_inode, make, sys_mkdir, sys_mknod, set_cwd, sys_chdir,
}
use csse332lab.Sysfile.Rules.{Triple, bind_lem, ret_lem, if_lem, option_lem}
use csse332lab.Sysfile.Triples.{Kept, begin_op_lem, end_op_lem, inside_lem}

module _ (refs : List ℕ) (fds : ℕ → Option ℕ) where
  abbrev In : Sys → Type 0
  In = Kept true refs fds

  abbrev Out : Sys → Type 0
  Out = Kept false refs fds

  pub begins :
      {A : Type 0} {R : A → Sys → Type 0} {k : Unit {0} → S A}
      → ((u : Unit {0}) → Triple In (k u) R)
      → Triple Out (begin_op >>= k) R
  begins h = bind_lem _ _ (begin_op_lem refs fds) h

  pub within :
      {A B : Type 0} {R : B → Sys → Type 0} {k : A → S B} (m : M A)
      → ((a : A) → Triple In (k a) R)
      → Triple In (inside m >>= k) R
  within m h = bind_lem _ _ (inside_lem refs fds m) h

  -- end_op(); return r;
  pub leaves : (r : Option ℕ) → Triple In (end_op >> ret r) (λ _. Out)
  leaves r = bind_lem _ _ (end_op_lem refs fds) (λ _. ret_lem r (λ s h. h))

  pub leaves_after :
      (m : M (Unit {0})) (r : Option ℕ) → Triple In (inside m >> end_op >> ret r) (λ _. Out)
  leaves_after m r =
      bind_lem _ _ (bind_lem _ _ (inside_lem refs fds m) (λ _. end_op_lem refs fds))
        (λ _. ret_lem r (λ s h. h))

  pub sys_link_lem : (old new : Option (List ℕ)) → Triple Out (sys_link old new) (λ _. Out)
  unfolding sys_link
  sys_link_lem none new = ret_lem none (λ s h. h)
  sys_link_lem (some old) none = ret_lem none (λ s h. h)
  sys_link_lem (some old) (some new) = begins (λ _. within _ (λ found.
      option_lem found (leaves none) (λ i. within _ (λ _. within _ (λ ip.
        if_lem (ip.type == t_dir) _ _ (leaves_after _ none) (
          within _ (λ _. within _ (λ _. within _ (λ _. within _ (λ parent.
            option_lem parent (leaves_after _ none) (λ (dp, name). within _ (λ linked.
              if_lem linked _ _ (leaves_after _ (some 0)) (leaves_after _ none)))))))))))))

  pub sys_unlink_lem : (path : Option (List ℕ)) → Triple Out (sys_unlink path) (λ _. Out)
  unfolding sys_unlink
  sys_unlink_lem none = ret_lem none (λ s h. h)
  sys_unlink_lem (some path) = begins (λ _. within _ (λ parent.
      option_lem parent (leaves none) (λ (dp, name).
        within _
          (λ _. within _ (λ removed. if_lem removed _ _ (leaves (some 0)) (leaves_after _ none))))))

  make_lem :
      (path : Option (List ℕ)) (type major minor : ℕ)
      → Triple Out (make path type major minor) (λ _. Out)
  unfolding make
  make_lem none type major minor =
      bind_lem _ _ (bind_lem _ _ (begin_op_lem refs fds) (λ _. end_op_lem refs fds))
        (λ _. ret_lem none (λ s h. h))
  make_lem (some path) type major minor =
      begins (λ _. within _ (λ made. option_lem made (leaves none) (λ i. leaves_after _ (some 0))))

  pub sys_mkdir_lem : (path : Option (List ℕ)) → Triple Out (sys_mkdir path) (λ _. Out)
  unfolding sys_mkdir
  sys_mkdir_lem path = make_lem path _ _ _

  pub sys_mknod_lem :
      (path : Option (List ℕ)) (major minor : ℕ)
      → Triple Out (sys_mknod path major minor) (λ _. Out)
  unfolding sys_mknod
  sys_mknod_lem path major minor = make_lem path _ _ _

  set_cwd_lem : (i : ℕ) → Triple Out (set_cwd i) (λ _. Out)
  unfolding set_cwd
  set_cwd_lem i = record {
    runs = λ s h. record { in_op = h.in_op; counted = h.counted; same = h.same };
  }

  pub sys_chdir_lem : (path : Option (List ℕ)) → Triple Out (sys_chdir path) (λ _. Out)
  unfolding sys_chdir
  sys_chdir_lem none =
      bind_lem _ _ (bind_lem _ _ (begin_op_lem refs fds) (λ _. end_op_lem refs fds))
        (λ _. ret_lem none (λ s h. h))
  sys_chdir_lem (some path) = begins (λ _. within _ (λ found. option_lem found (leaves none) (λ i.
      within _ (λ _. within _ (λ ip. if_lem (not (ip.type == t_dir)) _ _ (leaves_after _ none) (
        within _ (λ _. within _ (λ _.
          bind_lem _ _ (end_op_lem refs fds)
            (λ _. bind_lem _ _ (set_cwd_lem i) (λ _. ret_lem (some 0) (λ s h. h)))))))))))

  pub open_inode_lem : (path : List ℕ) (omode : ℕ) → Triple In (open_inode path omode) (λ _. In)
  unfolding open_inode
  open_inode_lem path omode = if_lem _ _ _ (inside_lem refs fds _) (
      within _ (λ found. option_lem found (ret_lem none (λ s h. h)) (λ i. within _ (λ _.
        within _ (λ ip.
          if_lem _ _ _ (bind_lem _ _ (inside_lem refs fds _) (λ _. ret_lem none (λ s h. h)))
            (ret_lem (some i) (λ s h. h)))))))
