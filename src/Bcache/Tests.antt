-- ===== src/Bcache/Tests.antt =====
-- The buffer cache on concrete calls.
use csse332lab.Base.{arith, ℕ, ◌≡◌, refl, inl, false, Option, none, some, [], ◌∷◌}
use csse332lab.Bcache.{Bcache, binit, bget, bpin, to_front, find_cached, find_unused, binit_loop}
use csse332lab.Bcache.Order.{binit-IsRing}
use csse332lab.Bcache.Search.{Gets, bget-Gets}
use csse332lab.Bcache.Steps.{Users, gets, pins, Reach, here, next, Sound}
use csse332lab.Bcache.Holding.{IsBlank, start, Reach-Sound, Reach_keeps, IsSameBlock}

abbrev blank : Bcache
blank = record {
  buf = λ b. record {
    valid = false;
    dev = 0;
    blockno = 0;
    locked = false;
    refcnt = 0;
    bytes = λ i. 0;
  };
  next = λ b. 0;
  prev = λ b. 0;
  disk = λ n i. n;
}

is_blank : IsBlank blank
is_blank = λ b. (refl, refl)

-- The first buffer that is taken is the least recently used one.
number : Option (ℕ × Bcache) → ℕ
number none = 99
number (some (b, _)) = b

after : Option (ℕ × Bcache) → Bcache
after none = blank
after (some (_, c)) = c

first_get : number (bget 1 7 (binit blank)) ≡ 0
unfolding bget binit binit_loop to_front find_cached find_unused number
first_get = refl

same_get : number (bget 1 7 (after (bget 1 7 (binit blank)))) ≡ 0
unfolding bget binit binit_loop to_front find_cached find_unused number after
same_get = refl

other_get : number (bget 1 8 (after (bget 1 7 (binit blank)))) ≡ 1
unfolding bget binit binit_loop to_front find_cached find_unused number after
other_get = refl

bget-Gets_example : Gets (binit blank) 1 7 (binit-IsRing blank).0 (bget 1 7 (binit blank))
bget-Gets_example = bget-Gets (binit blank) 1 7 (binit-IsRing blank).0 (binit-IsRing blank).1

abbrev one_get : Users
one_get = record { cache = after (bget 1 7 (binit blank)); refs = 0 ∷ [] }

got : bget 1 7 (binit blank) ≡ some (0, one_get.cache)
unfolding bget binit binit_loop to_front find_cached find_unused after
got = refl

reached : Reach (start blank) one_get
reached = next here (gets 1 7 0 one_get.cache (λ e. omega (arith, e)) (omega arith) got refl)

abbrev pinned : Users
pinned = record { cache = bpin 0 one_get.cache; refs = 0 ∷ 0 ∷ [] }

Reach-Sound_example : Sound one_get.cache one_get.refs
Reach-Sound_example = Reach-Sound blank one_get is_blank reached

Reach_keeps_example : IsSameBlock 0 one_get.cache pinned.cache
Reach_keeps_example =
    Reach_keeps blank one_get pinned 0 is_blank reached (inl refl)
      (pins 0 [] [] refl (omega arith) refl)
