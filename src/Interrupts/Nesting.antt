-- ===== src/Interrupts/Nesting.antt =====
-- Matched calls of `push_off` and `pop_off`.
use mathlib.Core.Option.{some-injective}
use native.Mathlib.Decide.{ℕ_discrete}
use csse332lab.Base.{
  ◌+◌, ◌-◌, ◌<◌, ◌≡◌, refl, ◌∙◌, sym, inl, inr, true, false, ◌&&◌, some, arith, ◌==◌, if◌then◌else◌,
  Bool-cases, subst, ==_ne,
}
use csse332lab.Interrupts.{Cpu, push_off, pop_off}

-- The interrupts are off while a call of `push_off` is to be undone.
abbrev pub IsValid : Cpu → Type 0
IsValid c = 0 < c.noff → c.intr ≡ false

-- Any number of matched calls, one behind the other and inside one another.
pub data Matched : Cpu → Cpu → Type 0 where
  nothing : {a : Cpu} → Matched a a
  more : {a b c d : Cpu} → Matched a b → Matched (push_off b) c → pop_off c ≡ some d → Matched a d

-- The state is as before, up to `intena` where no call is to be undone.
pub record Restored (a b : Cpu) : Type 0 where
  pub noff : b.noff ≡ a.noff
  pub intr : b.intr ≡ a.intr
  pub intena : 0 < a.noff → b.intena ≡ a.intena

push_off-IsValid : (c : Cpu) → IsValid (push_off c)
unfolding push_off
push_off-IsValid c h = ground arith

push_off_noff : (c : Cpu) → (push_off c).noff ≡ c.noff + 1
unfolding push_off
push_off_noff c = ground arith

push_off_intr : (c : Cpu) → (push_off c).intr ≡ false
unfolding push_off
push_off_intr c = ground arith

push_off_intena : (c : Cpu) → (push_off c).intena ≡ (if c.noff == 0 then c.intr else c.intena)
unfolding push_off
push_off_intena c = ground arith

-- A call that turns the interrupts on again, and one that leaves them off.
pop_off_on :
    (c : Cpu)
    → c.intr ≡ false
    → c.noff ≡ 1
    → c.intena ≡ true
    → pop_off c ≡ some (record c { noff = c.noff - 1; intr = true })
unfolding pop_off
pop_off_on c off one ena = ground arith

pop_off_still :
    (c : Cpu)
    → c.intr ≡ false
    → 0 < c.noff
    → ((c.noff - 1 == 0) && c.intena) ≡ false
    → pop_off c ≡ some (record c { noff = c.noff - 1 })
unfolding pop_off
pop_off_still c off pos stay = ground arith

-- What `pop_off` makes of a state that is that behind `push_off b`.
pop_off-Restored :
    (b c : Cpu)
    → IsValid b
    → Restored (push_off b) c
    → (d : Cpu) × (pop_off c ≡ some d) × Restored b d
pop_off-Restored b c v r = elim (ℕ_discrete b.noff 0) [
  | yes z ↦
      let ena : c.intena ≡ b.intr = intena ∙ rw z refl in
      elim (Bool-cases b.intr) [
        | inl on ↦ (
          record c { noff = c.noff - 1; intr = true },
          pop_off_on c off (omega (arith, count)) (ena ∙ on),
          record {
            noff = omega (arith, count);
            intr = sym on;
            intena = λ h. absurd (omega (arith, count));
          },
        )
        | inr dis ↦ (
          record c { noff = c.noff - 1 },
          pop_off_still c off (omega (arith, count)) (let e = ena ∙ dis in ground (arith, count)),
          record {
            noff = omega (arith, count);
            intr = off ∙ sym dis;
            intena = λ h. absurd (omega (arith, count));
          },
        )
      ]
  | no nz ↦ (
    record c { noff = c.noff - 1 },
    pop_off_still c off (omega (arith, count))
        (rw (==_ne (c.noff - 1) 0 (omega (arith, count))) refl),
    record {
      noff = omega (arith, count);
      intr = off ∙ sym (v (omega (arith, count)));
      intena = λ h. intena ∙ rw (==_ne b.noff 0 nz) refl;
    },
  )
]
  where
    count : c.noff ≡ b.noff + 1
    count = r.noff ∙ push_off_noff b

    off : c.intr ≡ false
    off = r.intr ∙ push_off_intr b

    intena : c.intena ≡ (if b.noff == 0 then b.intr else b.intena)
    intena = r.intena (let e = push_off_noff b in omega arith) ∙ push_off_intena b

Restored-IsValid : (a b : Cpu) → IsValid a → Restored a b → IsValid b
Restored-IsValid a b v r h = r.intr ∙ v (let e = r.noff in omega arith)

-- Matched calls, in whatever way they are nested, leave the CPU as it was: its count, whether the
-- interrupts are on, and, inside other calls, what these restore.
pub Matched-Restored : (a b : Cpu) → IsValid a → Matched a b → Restored a b
Matched-Restored a _ v nothing = record { noff = refl; intr = refl; intena = λ h. refl }
Matched-Restored a d v (more {b = b} {c = c} m n e) =
    let r = Matched-Restored a b v m in
    let w = Restored-IsValid a b v r in
    let inside = Matched-Restored (push_off b) c (push_off-IsValid b) n in
    let (d', e', back) = pop_off-Restored b c w inside in
    let q = subst (Restored b) (some-injective d' d (sym e' ∙ e)) back in
    record {
      noff = q.noff ∙ r.noff;
      intr = q.intr ∙ r.intr;
      intena = λ h. q.intena (let k = r.noff in omega arith) ∙ r.intena h;
    }

-- In a CPU whose interrupts are off while a call of `push_off` is to be undone: behind `push_off`
-- and any matched calls, in whatever way they are nested, `pop_off` does not panic, and brings back
-- the count, whether the interrupts are on, and, inside other calls, what these restore.
pub push_off-pop_off :
    (a b : Cpu)
    → IsValid a
    → Matched (push_off a) b
    → (c : Cpu) × (pop_off b ≡ some c) × Restored a c
push_off-pop_off a b v m =
    pop_off-Restored a b v (Matched-Restored (push_off a) b (push_off-IsValid a) m)
