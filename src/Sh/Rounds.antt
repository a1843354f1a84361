-- ===== src/Sh/Rounds.antt =====
-- The parser of the shell ends: what is left gets shorter, and the nesting is no deeper than the
-- text is long.
use csse332lab.Base.{
  ℕ, zero, suc, ◌+◌, ◌*◌, ◌≤◌, ◌<◌, ◌≡◌, ◌≢◌, refl, inl, inr, true, false, [], ◌∷◌, arith, ltb,
  ◌==◌, Bool-cases, length,
}
use csse332lab.Sh.{
  Bytes, skip_white, token, gettoken, peek, Cmd, backcmd, Result, ok, panics, out_of_fuel,
  parseredirs, maxargs, parseargs, parsebacks, parseline, parsepipe, parseexec, parseblock,
  parsecmd, is_empty,
}
use csse332lab.Sh.Parse.{
  length-gettoken, length-gettoken_le, length-peek, length-peek-gettoken, Ends, Ends-bind,
  parseredirs-Ends,
}

gettoken-word : (s : Bytes) → ((gettoken s).0 == b'a') ≡ true → is_empty (skip_white s) ≡ false
unfolding gettoken token
gettoken-word s e = go (skip_white s) e
  where
    go : (t : Bytes) → ((token t).0 == b'a') ≡ true → is_empty t ≡ false
    go [] e = absurd (ground (arith, e))
    go (c ∷ t) e = refl

parseargs-Ends :
    (k argc : ℕ) (s : Bytes) → length s < k → Ends (λ r. length r.2 ≤ length s) (parseargs k argc s)
unfolding parseargs
parseargs-Ends zero argc s lt = absurd (omega (arith, lt))
parseargs-Ends (suc k) argc s lt =
    let toks : Bytes = b'|' ∷ b')' ∷ b'&' ∷ b';' ∷ [] in
    let t = (peek toks s).1 in
    let le = length-peek toks s in
    let s1 = (gettoken t).2 in
    let le' = length-gettoken_le t in
    elim (Bool-cases (peek toks s).0) [
      | inl stop ↦ rw stop le
      | inr on ↦ elim (Bool-cases ((gettoken t).0 == 0)) [
        | inl z ↦ rw (on, z) (omega arith)
        | inr nz ↦ elim (Bool-cases ((gettoken t).0 == b'a')) [
          | inr a ↦ rw (on, nz, a) tt
          | inl a ↦ elim (Bool-cases (ltb (argc + 1) maxargs)) [
            | inr many ↦ rw (on, nz, a, many) tt
            | inl few ↦
                let less = length-gettoken t (gettoken-word t a) in
                rw (on, nz, a, few)
                  (Ends-bind (λ r. length r.1 ≤ length s1) (λ r. length r.2 ≤ length s)
                    (parseredirs (suc k) s1) _ (parseredirs-Ends (suc k) s1 (omega arith))
                    (λ r h.
                      Ends-bind (λ q. length q.2 ≤ length r.1) (λ q. length q.2 ≤ length s)
                        (parseargs k (argc + 1) r.1) _
                        (parseargs-Ends k (argc + 1) r.1 (omega arith)) (λ q h'. omega arith)))
          ]
        ]
      ]
    ]

-- What a parser reads is no longer than the text.
abbrev pub Shorter : Bytes → Result (Cmd × Bytes) → Type 0
Shorter s m = Ends (λ r. length r.1 ≤ length s) m

Shorter-mono :
    (s t : Bytes) → length s ≤ length t → (m : Result (Cmd × Bytes)) → Shorter s m → Shorter t m
Shorter-mono s t le (ok r) h = omega arith
Shorter-mono s t le panics h = tt
Shorter-mono s t le out_of_fuel h = h

parsebacks-Ends :
    (k : ℕ) (cmd : Cmd) (s : Bytes)
    → length s < k
    → Ends (λ r. length r.1 ≤ length s) (parsebacks k cmd s)
unfolding parsebacks
parsebacks-Ends zero cmd s lt = absurd (omega (arith, lt))
parsebacks-Ends (suc k) cmd s lt =
    let toks : Bytes = b'&' ∷ [] in
    let le = length-peek toks s in
    elim (Bool-cases (peek toks s).0) [
      | inr e ↦ rw e le
      | inl e ↦
          let less = length-peek-gettoken toks s e in
          rw e (
            Shorter-mono (gettoken (peek toks s).1).2 s (omega arith)
              (parsebacks k (backcmd cmd) (gettoken (peek toks s).1).2)
              (parsebacks-Ends k (backcmd cmd) (gettoken (peek toks s).1).2 (omega arith)))
    ]

mutual
  unfolding parseline parsepipe parseexec parseblock

  line-Ends : (f : ℕ) (s : Bytes) → 4 * length s + 4 ≤ f → Shorter s (parseline f s)
  line-Ends zero s le = absurd (omega (arith, le))
  line-Ends (suc f) s le =
      Ends-bind (λ r. length r.1 ≤ length s) (λ r. length r.1 ≤ length s) (parsepipe f s) _
        (pipe-Ends f s (omega arith))
        (λ r h.
          Ends-bind (λ r. length r.1 ≤ length s) (λ r. length r.1 ≤ length s) (parsebacks f r.0 r.1)
            _
            (Shorter-mono r.1 s h (parsebacks f r.0 r.1) (parsebacks-Ends f r.0 r.1 (omega arith)))
            (λ q h'.
              let toks : Bytes = b';' ∷ [] in
              let le' = length-peek toks q.1 in
              elim (Bool-cases (peek toks q.1).0) [
                | inr e ↦ rw e (omega arith)
                | inl e ↦
                    let less = length-peek-gettoken toks q.1 e in
                    rw e (
                      Ends-bind (λ p. length p.1 ≤ length (gettoken (peek toks q.1).1).2)
                        (λ r. length r.1 ≤ length s) (parseline f (gettoken (peek toks q.1).1).2) _
                        (line-Ends f (gettoken (peek toks q.1).1).2 (omega arith))
                        (λ p h''. omega arith))
              ]))

  pipe-Ends : (f : ℕ) (s : Bytes) → 4 * length s + 3 ≤ f → Shorter s (parsepipe f s)
  pipe-Ends zero s le = absurd (omega (arith, le))
  pipe-Ends (suc f) s le =
      Ends-bind (λ r. length r.1 ≤ length s) (λ r. length r.1 ≤ length s) (parseexec f s) _
        (exec-Ends f s (omega arith))
        (λ q h.
          let toks : Bytes = b'|' ∷ [] in
          let le' = length-peek toks q.1 in
          elim (Bool-cases (peek toks q.1).0) [
            | inr e ↦ rw e (omega arith)
            | inl e ↦
                let less = length-peek-gettoken toks q.1 e in
                rw e (
                  Ends-bind (λ p. length p.1 ≤ length (gettoken (peek toks q.1).1).2)
                    (λ r. length r.1 ≤ length s) (parsepipe f (gettoken (peek toks q.1).1).2) _
                    (pipe-Ends f (gettoken (peek toks q.1).1).2 (omega arith))
                    (λ p h''. omega arith))
          ])

  exec-Ends : (f : ℕ) (s : Bytes) → 4 * length s + 2 ≤ f → Shorter s (parseexec f s)
  exec-Ends zero s le = absurd (omega (arith, le))
  exec-Ends (suc f) s le =
      let toks : Bytes = b'(' ∷ [] in
      let t = (peek toks s).1 in
      let le' = length-peek toks s in
      elim (Bool-cases (peek toks s).0) [
        | inl e ↦ rw e (Shorter-mono t s le' (parseblock f t) (block-Ends f t (omega arith)))
        | inr e ↦ rw e (
            Ends-bind (λ r. length r.1 ≤ length t) (λ r. length r.1 ≤ length s) (parseredirs f t) _
              (parseredirs-Ends f t (omega arith))
              (λ r h.
                Ends-bind (λ q. length q.2 ≤ length r.1) (λ q. length q.1 ≤ length s)
                  (parseargs f 0 r.1) _ (parseargs-Ends f 0 r.1 (omega arith))
                  (λ q h'. omega arith)))
      ]

  block-Ends : (f : ℕ) (s : Bytes) → 4 * length s + 1 ≤ f → Shorter s (parseblock f s)
  block-Ends zero s le = absurd (omega (arith, le))
  block-Ends (suc f) s le =
      let toks : Bytes = b'(' ∷ [] in
      let t = (gettoken (peek toks s).1).2 in
      elim (Bool-cases (peek toks s).0) [
        | inr e ↦ rw e tt
        | inl e ↦
            let less = length-peek-gettoken toks s e in
            rw e (
              Ends-bind (λ r. length r.1 ≤ length t) (λ r. length r.1 ≤ length s) (parseline f t) _
                (line-Ends f t (omega arith))
                (λ r h.
                  let close : Bytes = b')' ∷ [] in
                  let u = (gettoken (peek close r.1).1).2 in
                  elim (Bool-cases (peek close r.1).0) [
                    | inr e' ↦ rw e' tt
                    | inl e' ↦
                        let less' = length-peek-gettoken close r.1 e' in
                        rw e' (
                          Ends-bind (λ q. length q.1 ≤ length u) (λ q. length q.1 ≤ length s)
                            (parseredirs f u) _ (parseredirs-Ends f u (omega arith))
                            (λ q h'. omega arith))
                  ]))
      ]

Ends-ne : {A : Type 0} (P : A → Type 0) (m : Result A) → Ends P m → m ≢ out_of_fuel
Ends-ne P (ok a) h e = ground (arith, e)
Ends-ne P panics h e = ground (arith, e)
Ends-ne P out_of_fuel h e = h

-- Four rounds for each byte, and four, are enough for `parsecmd` to give a command or to panic.
pub parsecmd_enough : (f : ℕ) (s : Bytes) → 4 * length s + 4 ≤ f → parsecmd f s ≢ out_of_fuel
unfolding parsecmd
parsecmd_enough f s le =
    Ends-ne (λ _. Unit {0}) (parsecmd f s)
      (Ends-bind (λ r. length r.1 ≤ length s) (λ _. Unit {0}) (parseline f s) _ (line-Ends f s le)
        (λ r h. elim (Bool-cases (is_empty (peek [] r.1).1)) [ inl e ↦ rw e tt | inr e ↦ rw e tt ]))
