-- ===== src/Files/Tests.antt =====
-- Open files on concrete calls.
use csse332lab.Base.{◌+◌, ◌≡◌, refl, false, some, [], ◌∷◌, update}
use csse332lab.Files.{fd_none, File, Ftable, filealloc, filealloc_loop, filedup, fileclose}
use csse332lab.Files.Refs.{Users, allocates, Reach, here, next, Closes}
use csse332lab.Files.Sharing.{start, Reach-Closes}

abbrev no_file : File
no_file = record {
  type = fd_none;
  ref = 0;
  readable = false;
  writable = false;
  pipe = 0;
  ip = 0;
  off = 0;
  major = 0;
}

abbrev no_files : Ftable
no_files = λ f. no_file

abbrev one_file : Ftable
one_file = (filealloc no_files).1

abbrev users : Users
users = record { table = one_file; refs = 0 ∷ [] }

opened : Reach (start no_files) users
unfolding filealloc filealloc_loop
opened = next here (allocates 0 one_file refl refl)

Reach-Closes_example :
    (filedup 0 users.table
      ≡ some (update users.table 0 (record (users.table 0) { ref = (users.table 0).ref + 1 })))
    × Closes users.table 0 [] (fileclose 0 users.table)
Reach-Closes_example = Reach-Closes no_files users 0 [] [] (λ f. (refl, refl)) opened refl
