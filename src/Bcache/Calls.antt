-- ===== src/Bcache/Calls.antt =====
-- Every call of a user of the buffer cache keeps the invariant.
use native.Mathlib.Decide.{ℕ_discrete}
use csse332lab.Base.{
  All-In, count, ℕ, ◌+◌, ◌^◌, ◌<◌, ◌≡◌, ◌≢◌, refl, sym, subst, ◌∙◌, ap, inl, inr, true, false,
  Option, none, some, List, ◌∷◌, ◌++◌, arith, Bool-cases, update, update_self, update_ne, length,
  All, All-front,
}
use csse332lab.Bcache.{nbuf, Buf, Bcache, set_buf, bget, fill, bwrite, bpin, bunpin}
use csse332lab.Bcache.Order.{IsRing, set_buf-IsRing, set_disk-IsRing}
use csse332lab.Bcache.Search.{
  reverse, All-reverse, Caches, Unused, Gets, bget-Gets, cached, recycled, all_used,
}
use csse332lab.Bcache.Steps.{
  Users, Step, gets, locks, fills, edits, writes, unlocks, puts, pins, unpins, IsUnique, Sound,
}
use csse332lab.Bcache.Invariant.{work-Sound, more-Sound, less-Sound, put_ref-Sound}

-- A buffer that is in use for no block yet is taken for one that has no buffer.
module _ (s : Bcache) (dev blockno b : ℕ) where
  abbrev taken : Buf
  taken = record (s.buf b) { dev = dev; blockno = blockno; valid = false; refcnt = 1 }

  taken-IsUnique :
      ((c : ℕ) → c < nbuf → ¬ Caches s dev blockno c) → IsUnique s → IsUnique (set_buf b taken s)
  taken-IsUnique miss u i j hi hj ne ed en = elim (ℕ_discrete i b) [
    | yes e ↦ elim (ℕ_discrete j b) [
      | yes e' ↦ e ∙ sym e'
      | no n' ↦ absurd (miss j hj (of_dev i j e n' ed, of_block i j e n' en))
    ]
    | no n ↦ elim (ℕ_discrete j b) [
      | yes e' ↦ absurd (miss i hi (of_dev j i e' n (sym ed), of_block j i e' n (sym en)))
      | no n' ↦
          u i j hi hj (λ e. ne (ap (λ x. x.dev) (old i n) ∙ e))
            (sym (ap (λ x. x.dev) (old i n)) ∙ ed ∙ ap (λ x. x.dev) (old j n'))
            (sym (ap (λ x. x.blockno) (old i n)) ∙ en ∙ ap (λ x. x.blockno) (old j n'))
    ]
  ]
    where
      old : (k : ℕ) → k ≢ b → update s.buf b taken k ≡ s.buf k
      old k n = update_ne s.buf b k taken n

      new : (k : ℕ) → k ≡ b → update s.buf b taken k ≡ taken
      new k e = ap (update s.buf b taken) e ∙ update_self s.buf b taken

      of_dev :
          (i j : ℕ)
          → i ≡ b
          → j ≢ b
          → (update s.buf b taken i).dev ≡ (update s.buf b taken j).dev
          → (s.buf j).dev ≡ dev
      of_dev i j e n ed = ap (λ x. x.dev) (sym (old j n)) ∙ sym ed ∙ ap (λ x. x.dev) (new i e)

      of_block :
          (i j : ℕ)
          → i ≡ b
          → j ≢ b
          → (update s.buf b taken i).blockno ≡ (update s.buf b taken j).blockno
          → (s.buf j).blockno ≡ blockno
      of_block i j e n ed =
          ap (λ x. x.blockno) (sym (old j n)) ∙ sym ed ∙ ap (λ x. x.blockno) (new i e)

  taken-Sound :
      (refs xs ys zs : List ℕ)
      → IsRing s xs
      → reverse xs ≡ ys ++ b ∷ zs
      → Unused s b
      → All (λ c. ¬ Caches s dev blockno c) xs
      → length refs + 1 < 2 ^ 32
      → Sound s refs
      → Sound (set_buf b taken s) (b ∷ refs)
  taken-Sound refs xs ys zs ring e unused miss few h =
      let below =
        subst (All (λ c. c < nbuf)) e (All-reverse (λ c. c < nbuf) xs ring.listed.buffers) in
      let lt = (All-front (λ c. c < nbuf) b ys zs below).0 in
      let none_held = sym unused ∙ h.counted b lt in
      record {
        ring = (xs, set_buf-IsRing s b taken xs ring);
        unique =
            taken-IsUnique
              (λ c hc. All-In (λ c. ¬ Caches s dev blockno c) xs c miss (ring.all c hc)) h.unique;
        counted = λ c hc. elim (ℕ_discrete c b) [
          | yes e ↦
              subst (λ c. (update s.buf b taken c).refcnt ≡ count c (b ∷ refs)) (sym e)
                (ap (λ x. x.refcnt) (update_self s.buf b taken) ∙ ground arith)
          | no ne ↦
              ap (λ x. x.refcnt) (update_ne s.buf b c taken ne) ∙ h.counted c hc ∙ ground arith
        ];
        range = (lt, h.range);
        few = omega arith;
      }

-- What `bget` gives, if it does not panic.
bget-Sound :
    (s : Bcache) (refs : List ℕ) (dev blockno b : ℕ) (c : Bcache)
    → length refs + 1 < 2 ^ 32
    → Sound s refs
    → bget dev blockno s ≡ some (b, c)
    → Sound c (b ∷ refs)
bget-Sound s refs dev blockno b c few h e =
    subst OrSound e (outcome (bget dev blockno s) (bget-Gets s dev blockno h.ring.0 h.ring.1))
  where
    OrSound : Option (ℕ × Bcache) → Type 0
    OrSound none = Unit
    OrSound (some (b, c)) = Sound c (b ∷ refs)

    outcome : (o : Option (ℕ × Bcache)) → Gets s dev blockno h.ring.0 o → OrSound o
    outcome o (cached b i _) =
        more-Sound s b refs (All-In (λ c. c < nbuf) h.ring.0 b h.ring.1.listed.buffers i) few h
    outcome o (recycled b ys zs e _ unused miss) =
        taken-Sound s dev blockno b refs h.ring.0 ys zs h.ring.1 e unused miss few h
    outcome o (all_used _ _) = tt

fill-Sound : (s : Bcache) (refs : List ℕ) (b : ℕ) → b < nbuf → Sound s refs → Sound (fill b s) refs
unfolding fill
fill-Sound s refs b lt h = elim (Bool-cases (s.buf b).valid) [
  | inl e ↦ rw e h
  | inr e ↦ rw e (
      work-Sound s b (record (s.buf b) { bytes = s.disk (s.buf b).blockno; valid = true }) refs lt
        refl refl refl h)
]

pub bwrite-some :
    (s : Bcache) (b : ℕ) (c : Bcache)
    → bwrite b s ≡ some c
    → c ≡ record s { disk = update s.disk (s.buf b).blockno (s.buf b).bytes }
unfolding bwrite
bwrite-some s b c e = ground arith

bwrite-Sound :
    (s : Bcache) (refs : List ℕ) (b : ℕ) (c : Bcache)
    → bwrite b s ≡ some c
    → Sound s refs
    → Sound c refs
bwrite-Sound s refs b c e h = rw (bwrite-some s b c e) (record {
  ring = (
    h.ring.0,
    set_disk-IsRing s (update s.disk (s.buf b).blockno (s.buf b).bytes) h.ring.0 h.ring.1,
  );
  unique = h.unique;
  counted = h.counted;
  range = h.range;
  few = h.few;
})

held : (b : ℕ) (xs ys refs : List ℕ) → refs ≡ xs ++ b ∷ ys → All (λ c. c < nbuf) refs → b < nbuf
held b xs ys refs e h = (All-front (λ c. c < nbuf) b xs ys (subst (All (λ c. c < nbuf)) e h)).0

bpin-Sound :
    (s : Bcache) (b : ℕ) (refs : List ℕ)
    → b < nbuf
    → length refs + 1 < 2 ^ 32
    → Sound s refs
    → Sound (bpin b s) (b ∷ refs)
unfolding bpin
bpin-Sound s b refs lt few h = more-Sound s b refs lt few h

bunpin-Sound :
    (s : Bcache) (b : ℕ) (xs ys : List ℕ) → Sound s (xs ++ b ∷ ys) → Sound (bunpin b s) (xs ++ ys)
unfolding bunpin
bunpin-Sound s b xs ys h = less-Sound s b xs ys h

pub Step-Sound : (s t : Users) → Step s t → Sound s.cache s.refs → Sound t.cache t.refs
Step-Sound s t (gets dev blockno b c _ few e et) h =
    rw et (bget-Sound s.cache s.refs dev blockno b c few h e)
Step-Sound s t (locks b xs ys e _ et) h = rw et (
    work-Sound s.cache b (record (s.cache.buf b) { locked = true }) s.refs
      (held b xs ys s.refs e h.range) refl refl refl h)
Step-Sound s t (fills b xs ys e _ et) h =
    rw et (fill-Sound s.cache s.refs b (held b xs ys s.refs e h.range) h)
Step-Sound s t (edits b xs ys bytes e _ et) h = rw et (
    work-Sound s.cache b (record (s.cache.buf b) { bytes = bytes }) s.refs
      (held b xs ys s.refs e h.range) refl refl refl h)
Step-Sound s t (writes b xs ys c _ e et) h = rw et (bwrite-Sound s.cache s.refs b c e h)
Step-Sound s t (unlocks b xs ys e _ et) h = rw et (
    work-Sound s.cache b (record (s.cache.buf b) { locked = false }) s.refs
      (held b xs ys s.refs e h.range) refl refl refl h)
Step-Sound s t (puts b xs ys e et) h =
    rw et (put_ref-Sound s.cache b xs ys (subst (Sound s.cache) e h))
Step-Sound s t (pins b xs ys e few et) h =
    rw et (bpin-Sound s.cache b s.refs (held b xs ys s.refs e h.range) few h)
Step-Sound s t (unpins b xs ys e et) h =
    rw et (bunpin-Sound s.cache b xs ys (subst (Sound s.cache) e h))
