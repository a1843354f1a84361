-- ===== src/Bcache/Holding.antt =====
-- What the users of the buffer cache rely on: one buffer for a block, which stays with its block
-- while somebody has a reference to it.
use native.Mathlib.Decide.{ℕ_discrete}
use csse332lab.Base.{
  In, All-In, In-count, ℕ, zero, suc, ◌+◌, ◌<◌, ◌≡◌, ◌≢◌, refl, sym, subst, ◌∙◌, ap, inl, inr, true,
  false, Option, none, some, List, [], arith, ◌==◌, ==_refl, ==_ne, Bool-cases, update,
}
use csse332lab.Bcache.{
  head, nbuf, Bcache, incr, decr, to_front, unlink, binit, binit_loop, bget, unlock_buf, fill,
  put_ref, bpin, bunpin,
}
use csse332lab.Bcache.Order.{binit-IsRing}
use csse332lab.Bcache.Search.{Gets, bget-Gets, cached, recycled, all_used}
use csse332lab.Bcache.Steps.{
  Users, Step, gets, locks, fills, edits, writes, unlocks, puts, pins, unpins, Reach, here, next,
  Sound,
}
use csse332lab.Bcache.Invariant.{same}
use csse332lab.Bcache.Calls.{bwrite-some, Step-Sound}

-- Before `binit`: static memory, all 0.
abbrev pub IsBlank : Bcache → Type 0
IsBlank c = (b : ℕ) → ((c.buf b).dev ≡ 0) × ((c.buf b).refcnt ≡ 0)

binit_loop-IsBlank : (k b : ℕ) (s : Bcache) → IsBlank s → IsBlank (binit_loop k b s)
unfolding binit_loop to_front
binit_loop-IsBlank zero b s h = h
binit_loop-IsBlank (suc k) b s h = binit_loop-IsBlank k (b + 1) (to_front b (unlock_buf b s)) (λ c.
    elim (ℕ_discrete c b) [ yes e ↦ rw (e, ==_refl b) (h b) | no ne ↦ rw (==_ne c b ne) (h c) ])

binit-IsBlank : (s : Bcache) → IsBlank s → IsBlank (binit s)
unfolding binit
binit-IsBlank s h =
    binit_loop-IsBlank nbuf 0
      (record s { next = update s.next head head; prev = update s.prev head head }) h

abbrev pub start : Bcache → Users
start c = record { cache = binit c; refs = [] }

binit-Sound : (c : Bcache) → IsBlank c → Sound (binit c) []
binit-Sound c h =
    let blank = binit-IsBlank c h in
    record {
      ring = binit-IsRing c;
      unique = λ i j hi hj ne _ _. absurd (ne (blank i).0);
      counted = λ b lt. (blank b).1;
      range = tt;
      few = omega arith;
    }

-- From `binit` on, after every sequence of calls: the list has every buffer once, forwards and
-- backwards; no two buffers are for the same block; and the count of references of a buffer is
-- that of the references that are held.
pub Reach-Sound : (c : Bcache) (t : Users) → IsBlank c → Reach (start c) t → Sound t.cache t.refs
Reach-Sound c t h here = binit-Sound c h
Reach-Sound c t h (next r step) = Step-Sound _ t step (Reach-Sound c _ h r)

-- The block of buffer `b`.
abbrev pub IsSameBlock : ℕ → Bcache → Bcache → Type 0
IsSameBlock b c d = ((d.buf b).dev ≡ (c.buf b).dev) × ((d.buf b).blockno ≡ (c.buf b).blockno)

bget_keeps :
    (s : Bcache) (refs : List ℕ) (dev blockno b a : ℕ) (c : Bcache)
    → Sound s refs
    → In b refs
    → bget dev blockno s ≡ some (a, c)
    → IsSameBlock b s c
bget_keeps s refs dev blockno b a c h i e =
    subst Keeps e (outcome (bget dev blockno s) (bget-Gets s dev blockno h.ring.0 h.ring.1))
  where
    Keeps : Option (ℕ × Bcache) → Type 0
    Keeps none = Unit
    Keeps (some (_, c)) = IsSameBlock b s c

    outcome : (o : Option (ℕ × Bcache)) → Gets s dev blockno h.ring.0 o → Keeps o
    outcome o (cached a _ _) =
        same s a (record (s.buf a) { refcnt = incr (s.buf a).refcnt }) refl refl b
    outcome o (recycled a _ _ _ _ unused _) =
        let lt = All-In (λ c. c < nbuf) refs b h.range i in
        let ne : b ≢ a =
          λ e. In-count b refs i (sym (h.counted b lt) ∙ ap (λ c. (s.buf c).refcnt) e ∙ unused) in
        rw (==_ne b a ne) (refl, refl)
    outcome o (all_used _ _) = tt

fill_keeps : (s : Bcache) (a b : ℕ) → IsSameBlock b s (fill a s)
unfolding fill
fill_keeps s a b = elim (Bool-cases (s.buf a).valid) [
  | inl e ↦ rw e (refl, refl)
  | inr e ↦
      rw e
        (same s a (record (s.buf a) { bytes = s.disk (s.buf a).blockno; valid = true }) refl refl b)
]

put_ref_keeps : (s : Bcache) (a b : ℕ) → IsSameBlock b s (put_ref a s)
unfolding put_ref to_front unlink
put_ref_keeps s a b =
    let kept = same s a (record (s.buf a) { refcnt = decr (s.buf a).refcnt }) refl refl b in
    elim (Bool-cases
      ((update s.buf a (record (s.buf a) { refcnt = decr (s.buf a).refcnt }) a).refcnt == 0)) [
        | inl e ↦ rw e kept
        | inr e ↦ rw e kept
      ]

-- After every sequence of calls from `binit` on, a further call by anyone leaves a buffer to which
-- a reference is held with the device and the number of its block.
pub Reach_keeps :
    (c : Bcache) (s t : Users) (b : ℕ)
    → IsBlank c
    → Reach (start c) s
    → In b s.refs
    → Step s t
    → IsSameBlock b s.cache t.cache
unfolding bpin bunpin
Reach_keeps c s t b h r i (gets dev blockno a d _ _ e et) =
    rw et (bget_keeps s.cache s.refs dev blockno b a d (Reach-Sound c s h r) i e)
Reach_keeps c s t b h r i (locks a _ _ _ _ et) =
    rw et (same s.cache a (record (s.cache.buf a) { locked = true }) refl refl b)
Reach_keeps c s t b h r i (fills a _ _ _ _ et) = rw et (fill_keeps s.cache a b)
Reach_keeps c s t b h r i (edits a _ _ bytes _ _ et) =
    rw et (same s.cache a (record (s.cache.buf a) { bytes = bytes }) refl refl b)
Reach_keeps c s t b h r i (writes a _ _ d _ e et) = rw (et, bwrite-some s.cache a d e) (refl, refl)
Reach_keeps c s t b h r i (unlocks a _ _ _ _ et) =
    rw et (same s.cache a (record (s.cache.buf a) { locked = false }) refl refl b)
Reach_keeps c s t b h r i (puts a _ _ _ et) = rw et (put_ref_keeps s.cache a b)
Reach_keeps c s t b h r i (pins a _ _ _ _ et) =
    rw et
      (same s.cache a (record (s.cache.buf a) { refcnt = incr (s.cache.buf a).refcnt }) refl refl b)
Reach_keeps c s t b h r i (unpins a _ _ _ et) =
    rw et
      (same s.cache a (record (s.cache.buf a) { refcnt = decr (s.cache.buf a).refcnt }) refl refl b)
