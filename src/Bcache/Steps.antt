-- ===== src/Bcache/Steps.antt =====
-- The users of the buffer cache: the references to buffers that they hold, over every sequence of
-- calls and in every order of the processes.
use csse332lab.Base.{
  count, ℕ, ◌+◌, ◌^◌, ◌<◌, ◌≡◌, ◌≢◌, true, false, some, List, ◌∷◌, ◌++◌, length, All,
}
use csse332lab.Bcache.{
  Block, nbuf, Bcache, set_buf, bget, lock_buf, unlock_buf, fill, bwrite, put_ref, bpin, bunpin,
}
use csse332lab.Bcache.Order.{IsRing}

-- The cache, and the references that were handed out and not given back.
pub record Users : Type 0 where
  pub cache : Bcache
  pub refs : List ℕ

-- A call by a process. Only who has a reference to a buffer goes on with it, and only who has its
-- lock reads and writes it. There are fewer references than a `uint` counts.
pub data Step (s t : Users) : Type 0 where
  gets :
      (dev blockno b : ℕ) (c : Bcache)
      → dev ≢ 0
      → length s.refs + 1 < 2 ^ 32
      → bget dev blockno s.cache ≡ some (b, c)
      → t ≡ record { cache = c; refs = b ∷ s.refs }
      → Step s t
  locks :
      (b : ℕ) (xs ys : List ℕ)
      → s.refs ≡ xs ++ b ∷ ys
      → (s.cache.buf b).locked ≡ false
      → t ≡ record { cache = lock_buf b s.cache; refs = s.refs }
      → Step s t
  fills :
      (b : ℕ) (xs ys : List ℕ)
      → s.refs ≡ xs ++ b ∷ ys
      → (s.cache.buf b).locked ≡ true
      → t ≡ record { cache = fill b s.cache; refs = s.refs }
      → Step s t
  edits :
      (b : ℕ) (xs ys : List ℕ) (bytes : Block)
      → s.refs ≡ xs ++ b ∷ ys
      → (s.cache.buf b).locked ≡ true
      → t ≡ record {
        cache = set_buf b (record (s.cache.buf b) { bytes = bytes }) s.cache;
        refs = s.refs;
      }
      → Step s t
  writes :
      (b : ℕ) (xs ys : List ℕ) (c : Bcache)
      → s.refs ≡ xs ++ b ∷ ys
      → bwrite b s.cache ≡ some c
      → t ≡ record { cache = c; refs = s.refs }
      → Step s t
  unlocks :
      (b : ℕ) (xs ys : List ℕ)
      → s.refs ≡ xs ++ b ∷ ys
      → (s.cache.buf b).locked ≡ true
      → t ≡ record { cache = unlock_buf b s.cache; refs = s.refs }
      → Step s t
  puts :
      (b : ℕ) (xs ys : List ℕ)
      → s.refs ≡ xs ++ b ∷ ys
      → t ≡ record { cache = put_ref b s.cache; refs = xs ++ ys }
      → Step s t
  pins :
      (b : ℕ) (xs ys : List ℕ)
      → s.refs ≡ xs ++ b ∷ ys
      → length s.refs + 1 < 2 ^ 32
      → t ≡ record { cache = bpin b s.cache; refs = b ∷ s.refs }
      → Step s t
  unpins :
      (b : ℕ) (xs ys : List ℕ)
      → s.refs ≡ xs ++ b ∷ ys
      → t ≡ record { cache = bunpin b s.cache; refs = xs ++ ys }
      → Step s t

pub data Reach (s : Users) : Users → Type 0 where
  here : Reach s s
  next : {t u : Users} → Reach s t → Step t u → Reach s u

-- At most one buffer for a block.
abbrev pub IsUnique : Bcache → Type 0
IsUnique c =
    (i j : ℕ)
    → i < nbuf
    → j < nbuf
    → (c.buf i).dev ≢ 0
    → (c.buf i).dev ≡ (c.buf j).dev
    → (c.buf i).blockno ≡ (c.buf j).blockno
    → i ≡ j

pub record Sound (c : Bcache) (refs : List ℕ) : Type 0 where
  pub ring : (xs : List ℕ) × IsRing c xs
  pub unique : IsUnique c
  pub counted : (b : ℕ) → b < nbuf → (c.buf b).refcnt ≡ count b refs
  pub range : All (λ b. b < nbuf) refs
  pub few : length refs < 2 ^ 32
