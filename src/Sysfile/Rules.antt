-- ===== src/Sysfile/Rules.antt =====
-- What holds before and behind code, as a triple, and the rules for composing them.
use csse332lab.Base.{◌≡◌, refl, Bool, true, false, Option, none, some, if◌then◌else◌}
use csse332lab.Sysfile.{Sys, Outcome, gives, panics, misuse, S, ret, continue, ◌>>=◌}

-- A panic is allowed, a misuse is not.
abbrev pub Yields : {A : Type 0} → (A → Sys → Type 0) → Outcome A → Type 0
Yields Q (gives a s) = Q a s
Yields Q panics = Unit
Yields Q misuse = ⊥

pub record Triple {A : Type 0} (P : Sys → Type 0) (m : S A) (Q : A → Sys → Type 0) : Type 0 where
  pub runs : (s : Sys) → P s → Yields Q (m s)

pub bind_lem :
    {A B : Type 0} {P : Sys → Type 0} {Q : A → Sys → Type 0} {R : B → Sys → Type 0} (m : S A)
    (k : A → S B)
    → Triple P m Q
    → ((a : A) → Triple (Q a) (k a) R)
    → Triple P (m >>= k) R
unfolding ◌>>=◌ continue
bind_lem {A = A} {Q = Q} {R = R} m k hm hk = record { runs = λ s h. go (m s) (hm.runs s h) }
  where
    go : (o : Outcome A) → Yields Q o → Yields R (continue o k)
    go (gives a s) h = (hk a).runs s h
    go panics h = tt
    go misuse h = absurd h

pub ret_lem :
    {A : Type 0} {P : Sys → Type 0} {Q : A → Sys → Type 0} (a : A)
    → ((s : Sys) → P s → Q a s)
    → Triple P (ret a) Q
unfolding ret
ret_lem a h = record { runs = λ s p. h s p }

pub pre_lem :
    {A : Type 0} {P P' : Sys → Type 0} {Q : A → Sys → Type 0} {m : S A}
    → ((s : Sys) → P s → P' s)
    → Triple P' m Q
    → Triple P m Q
pre_lem f h = record { runs = λ s p. h.runs s (f s p) }

pub post_lem :
    {A : Type 0} {P : Sys → Type 0} {Q R : A → Sys → Type 0} {m : S A}
    → ((a : A) (s : Sys) → Q a s → R a s)
    → Triple P m Q
    → Triple P m R
post_lem {A = A} {Q = Q} {R = R} {m = m} f h = record { runs = λ s p. go (m s) (h.runs s p) }
  where
    go : (o : Outcome A) → Yields Q o → Yields R o
    go (gives a s) q = f a s q
    go panics q = tt
    go misuse q = q

-- What does not depend on the state is a hypothesis.
pub fact_lem :
    {A : Type 0} {F : Type 0} {P : Sys → Type 0} {Q : A → Sys → Type 0} {m : S A}
    → (F → Triple P m Q)
    → Triple (λ s. F × P s) m Q
fact_lem h = record { runs = λ s p. (h p.0).runs s p.1 }

pub both_lem :
    {A : Type 0} {P P' : Sys → Type 0} {Q Q' : A → Sys → Type 0} {m : S A}
    → Triple P m Q
    → Triple P' m Q'
    → Triple (λ s. P s × P' s) m (λ a s. Q a s × Q' a s)
both_lem {A = A} {Q = Q} {Q' = Q'} {m = m} h h' = record {
  runs = λ s p. go (m s) (h.runs s p.0) (h'.runs s p.1);
}
  where
    go : (o : Outcome A) → Yields Q o → Yields Q' o → Yields (λ a s. Q a s × Q' a s) o
    go (gives a s) q q' = (q, q')
    go panics q q' = tt
    go misuse q q' = absurd q

pub if_lem :
    {A : Type 0} {P : Sys → Type 0} {Q : A → Sys → Type 0} (t : Bool) (m n : S A)
    → Triple P m Q
    → Triple P n Q
    → Triple P (if t then m else n) Q
if_lem true m n hm hn = hm
if_lem false m n hm hn = hn

-- The same, where the branches need to know which way the test went.
pub test_lem :
    {A : Type 0} {P : Sys → Type 0} {Q : A → Sys → Type 0} (t : Bool) (m n : S A)
    → (t ≡ true → Triple P m Q)
    → (t ≡ false → Triple P n Q)
    → Triple P (if t then m else n) Q
test_lem true m n hm hn = hm refl
test_lem false m n hm hn = hn refl

pub option_lem :
    {A B : Type 0} {P : Sys → Type 0} {Q : B → Sys → Type 0} {n : S B} {k : A → S B} (r : Option A)
    → Triple P n Q
    → ((a : A) → Triple P (k a) Q)
    → Triple P (elim r [ none ↦ n | some a ↦ k a ]) Q
option_lem none hn hk = hn
option_lem (some a) hn hk = hk a
