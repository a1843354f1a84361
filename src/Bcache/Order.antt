-- ===== src/Bcache/Order.antt =====
-- The list of the buffers: it has each of them once, and `brelse` moves one to its front.
use native.Mathlib.Decide.{ℕ_discrete}
use csse332lab.Base.{
  In, In-split, false, ℕ, zero, suc, ◌+◌, ◌<◌, ◌≡◌, ◌≢◌, refl, sym, subst, ◌∙◌, ap, inl, inr, List,
  [], ◌∷◌, ◌++◌, arith, update, update_self, update_ne, All, All-mono, Avoids, Distinct,
  Distinct-front, All-front, length,
}
use csse332lab.Bcache.{
  Block, head, nbuf, Buf, Bcache, to_front, unlink, set_buf, unlock_buf, binit, binit_loop,
}
use csse332lab.Bcache.Links.{
  Links, Links-same, update-Avoids, Links-unlink, next_ne, prev', Avoids-right,
}

In-front : (c b : ℕ) (ys zs : List ℕ) → In c (ys ++ b ∷ zs) → In c (b ∷ (ys ++ zs))
In-front c b [] zs h = h
In-front c b (y ∷ ys) zs (inl e) = inr (inl e)
In-front c b (y ∷ ys) zs (inr h) = elim (In-front c b ys zs h) [
  | inl e ↦ inl e
  | inr h ↦ inr (inr h)
]

length-front : (b : ℕ) (ys zs : List ℕ) → length (b ∷ (ys ++ zs)) ≡ length (ys ++ b ∷ zs)
length-front b [] zs = refl
length-front b (y ∷ ys) zs = ap suc (length-front b ys zs)

-- The list from the head through `xs` and back.
pub record Listed (s : Bcache) (xs : List ℕ) : Type 0 where
  pub links : Links s.next s.prev head xs head
  pub distinct : Distinct xs
  pub buffers : All (λ b. b < nbuf) xs

-- The fields of a buffer are not part of the list.
pub set_buf-Listed :
    (s : Bcache) (b : ℕ) (x : Buf) (xs : List ℕ) → Listed s xs → Listed (set_buf b x s) xs
set_buf-Listed s b x xs l = record { links = l.links; distinct = l.distinct; buffers = l.buffers }

pub head-Avoids : (xs : List ℕ) → All (λ b. b < nbuf) xs → Avoids head xs
head-Avoids xs h = All-mono (λ b. b < nbuf) (λ b. head ≢ b) (λ b lt e. absurd (omega arith)) xs h

-- `to_front` puts a buffer that is not in the list before the others.
to_front-Links :
    (s : Bcache) (b : ℕ) (xs : List ℕ)
    → b ≢ head
    → Avoids b xs
    → Avoids head xs
    → Distinct xs
    → Links s.next s.prev head xs head
    → Links (to_front b s).next (to_front b s).prev head (b ∷ xs) head
unfolding to_front
to_front-Links s b [] ne hb hh d l =
    let n1 = update s.next b (s.next head) in
    let first : n1 head ≡ head = update_ne s.next b head (s.next head) (λ e. ne (sym e)) ∙ l.0 in
    (
      update_self n1 head b,
      update_ne (update s.prev b head) (n1 head) b b (λ e. ne (e ∙ first))
          ∙ update_self s.prev b head,
      (
        update_ne n1 head b b ne ∙ update_self s.next b (s.next head) ∙ l.0,
        ap (update (update s.prev b head) (n1 head) b) (sym first)
            ∙ update_self (update s.prev b head) (n1 head) b,
      ),
    )
to_front-Links s b (x ∷ xs) ne hb hh d l =
    let n1 = update s.next b (s.next head) in
    let p1 = update s.prev b head in
    let first : n1 head ≡ x = update_ne s.next b head (s.next head) (λ e. ne (sym e)) ∙ l.0 in
    (
      update_self n1 head b,
      update_ne p1 (n1 head) b b (λ e. hb.0 (e ∙ first)) ∙ update_self s.prev b head,
      (
        update_ne n1 head b b ne ∙ update_self s.next b (s.next head) ∙ l.0,
        ap (update p1 (n1 head) b) (sym first) ∙ update_self p1 (n1 head) b,
        Links-same s.next s.prev (update n1 head b) (update p1 (n1 head) b) x xs head l.2
            (both (update n1 head b) n1 s.next (x ∷ xs) (update-Avoids n1 head b (x ∷ xs) hh)
              (update-Avoids s.next b (s.next head) (x ∷ xs) hb))
            (both (update p1 (n1 head) b) p1 s.prev xs
              (update-Avoids p1 (n1 head) b xs (subst (λ c. Avoids c xs) (sym first) d.0))
              (update-Avoids s.prev b head xs hb.1))
            (update_ne p1 (n1 head) head b (λ e. hh.0 (e ∙ first))
              ∙ update_ne s.prev b head head (λ e. ne (sym e))),
      ),
    )
  where
    both :
        (f g h : ℕ → ℕ) (ys : List ℕ)
        → All (λ c. f c ≡ g c) ys
        → All (λ c. g c ≡ h c) ys
        → All (λ c. f c ≡ h c) ys
    both f g h [] p q = tt
    both f g h (y ∷ ys) p q = (p.0 ∙ q.0, both f g h ys p.1 q.1)

module _ (s : Bcache) (b : ℕ) where
  pub to_front-Listed :
      (xs : List ℕ) → b < nbuf → Avoids b xs → Listed s xs → Listed (to_front b s) (b ∷ xs)
  to_front-Listed xs lt avoids l = record {
    links =
        to_front-Links s b xs (λ e. absurd (omega arith)) avoids (head-Avoids xs l.buffers)
          l.distinct l.links;
    distinct = (avoids, l.distinct);
    buffers = (lt, l.buffers);
  }

  pub unlink-Listed :
      (ys zs : List ℕ)
      → Listed s (ys ++ b ∷ zs)
      → Listed (unlink b s) (ys ++ zs) × Avoids b (ys ++ zs) × (b < nbuf)
  unfolding unlink
  unlink-Listed ys zs l =
      let (avoids, distinct) = Distinct-front b ys zs l.distinct in
      let in_range = All-front (λ c. c < nbuf) b ys zs l.buffers in
      let away = head-Avoids (ys ++ b ∷ zs) l.buffers in
      (
        record {
          links =
              subst
                (λ p.
                  Links (update s.next p (s.next b)) (prev' s.next s.prev b) head (ys ++ zs) head)
                (sym (
                  update_ne s.prev (s.next b) b (s.prev b) (
                    next_ne s.next s.prev b b head ys zs head l.links
                      (λ e. absurd (omega (arith, in_range.0))) (Avoids-right b ys zs avoids))))
                (Links-unlink s.next s.prev b head ys zs head l.links l.distinct away away);
          distinct = distinct;
          buffers = in_range.1;
        },
        avoids,
        in_range.0,
      )

-- The list has every buffer.
pub record IsRing (s : Bcache) (xs : List ℕ) : Type 0 where
  pub listed : Listed s xs
  pub all : (b : ℕ) → b < nbuf → In b xs
  pub number : length xs ≡ nbuf

pub set_buf-IsRing :
    (s : Bcache) (b : ℕ) (x : Buf) (xs : List ℕ) → IsRing s xs → IsRing (set_buf b x s) xs
set_buf-IsRing s b x xs r = record {
  listed = set_buf-Listed s b x xs r.listed;
  all = r.all;
  number = r.number;
}

-- Neither is the disk.
pub set_disk-IsRing :
    (s : Bcache) (disk : ℕ → Block) (xs : List ℕ)
    → IsRing s xs
    → IsRing (record s { disk = disk }) xs
set_disk-IsRing s disk xs r = record {
  listed = record {
    links = r.listed.links;
    distinct = r.listed.distinct;
    buffers = r.listed.buffers;
  };
  all = r.all;
  number = r.number;
}

-- Moving a buffer to the front keeps the list whole.
pub move-IsRing :
    (s : Bcache) (b : ℕ) (xs : List ℕ)
    → b < nbuf
    → IsRing s xs
    → (ys : List ℕ) × (zs : List ℕ) × (xs ≡ ys ++ b ∷ zs)
      × IsRing (to_front b (unlink b s)) (b ∷ (ys ++ zs))
move-IsRing s b xs lt r =
    let (ys, zs, e) = In-split b xs (r.all b lt) in
    let (listed, avoids, _) = unlink-Listed s b ys zs (subst (Listed s) e r.listed) in
    (
      ys,
      zs,
      e,
      record {
        listed = to_front-Listed (unlink b s) b (ys ++ zs) lt avoids listed;
        all = λ c hc. In-front c b ys zs (subst (In c) e (r.all c hc));
        number = length-front b ys zs ∙ sym (ap length e) ∙ r.number;
      },
    )

binit_loop-IsRing :
    (k b : ℕ) (s : Bcache) (xs : List ℕ)
    → b + k ≡ nbuf
    → Listed s xs
    → ((c : ℕ) → c < b → In c xs)
    → All (λ c. c < b) xs
    → length xs ≡ b
    → (ys : List ℕ) × IsRing (binit_loop k b s) ys
unfolding binit_loop
binit_loop-IsRing zero b s xs e l all below n =
    (xs, record { listed = l; all = λ c hc. all c (omega arith); number = omega arith })
binit_loop-IsRing (suc k) b s xs e l all below n =
    binit_loop-IsRing k (b + 1) (to_front b (unlock_buf b s)) (b ∷ xs) (omega arith)
      (to_front-Listed (unlock_buf b s) b xs (omega arith)
        (All-mono (λ c. c < b) (λ c. b ≢ c) (λ c lt e. absurd (omega arith)) xs below)
        (set_buf-Listed s b (record (s.buf b) { locked = false }) xs l))
      (λ c hc. elim (ℕ_discrete c b) [ yes e ↦ inl e | no ne ↦ inr (all c (omega arith)) ])
      (omega arith, All-mono (λ c. c < b) (λ c. c < b + 1) (λ c lt. omega arith) xs below)
      (omega arith)

pub binit-IsRing : (s : Bcache) → (xs : List ℕ) × IsRing (binit s) xs
unfolding binit
binit-IsRing s =
    binit_loop-IsRing nbuf 0
      (record s { next = update s.next head head; prev = update s.prev head head }) [] refl
      (record {
        links = (update_self s.next head head, update_self s.prev head head);
        distinct = tt;
        buffers = tt;
      })
      (λ c h. absurd (omega arith)) tt refl
