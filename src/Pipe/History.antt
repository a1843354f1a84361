-- ===== src/Pipe/History.antt =====
-- All interleavings of the threads that use a pipe.
use mathlib.Core.List.{append-nil, append_assoc}
use mathlib.Core.Path.{◌≡⟨◌⟩◌, ◌∎}
use csse332lab.Base.{ℕ, ◌≡◌, sym, ◌∙◌, ap, Bool, true, false, Option, List, [], ◌++◌, if◌then◌else◌}
use csse332lab.Pipe.{Pipe, write_section, read_section, pipeclose}
use csse332lab.Pipe.Ring.{IsValid, queue}
use csse332lab.Pipe.Sections.{write_section-queue, read_section-queue}

-- A section that some thread runs while its end of the pipe is open: the bytes that it puts into
-- the pipe, those that it takes out, and the pipe after it.
pub data Step (p : Pipe) (ins outs : List ℕ) (q : Pipe) : Type 0 where
  writes :
      (killed : ℕ → Bool) (copyin : ℕ → Option ℕ) (k i : ℕ)
      → p.writeopen ≡ true
      → ins ≡ (write_section killed copyin k i p).0
      → outs ≡ []
      → q ≡ (write_section killed copyin k i p).2
      → Step p ins outs q
  reads :
      (killed : Bool) (copyout : ℕ → Bool) (n : ℕ)
      → p.readopen ≡ true
      → ins ≡ []
      → outs ≡ (read_section killed copyout n p).0
      → q ≡ (read_section killed copyout n p).2
      → Step p ins outs q
  closes :
      (writable : Bool)
      → (if writable then p.writeopen else p.readopen) ≡ true
      → ins ≡ []
      → outs ≡ []
      → q ≡ (pipeclose writable p).0
      → Step p ins outs q

-- A sequence of sections, with all the bytes that went in and all that came out.
pub data History (p : Pipe) : List ℕ → List ℕ → Pipe → Type 0 where
  start : History p [] [] p
  next :
      {ins outs more taken : List ℕ} {q r : Pipe}
      → History p ins outs q
      → Step q more taken r
      → History p (ins ++ more) (outs ++ taken) r

pipeclose-queue :
    (writable : Bool) (p : Pipe)
    → IsValid p
    → let q = (pipeclose writable p).0 in IsValid q × (queue p ++ [] ≡ [] ++ queue q)
unfolding pipeclose
pipeclose-queue true p v = (
  record { read_word = v.read_word; write_word = v.write_word; bounded = v.bounded },
  append-nil (queue p),
)
pipeclose-queue false p v = (
  record { read_word = v.read_word; write_word = v.write_word; bounded = v.bounded },
  append-nil (queue p),
)

Step-queue :
    {p q : Pipe} {ins outs : List ℕ}
    → IsValid p
    → Step p ins outs q
    → IsValid q × (queue p ++ ins ≡ outs ++ queue q)
Step-queue {p} v (writes killed copyin k i up ei eo eq) =
    let ran = write_section-queue killed copyin k i p v in rw (ei, eo, eq) (ran.0, sym ran.1)
Step-queue {p} v (reads killed copyout n up ei eo eq) =
    let ran = read_section-queue killed copyout n p v in
    rw (ei, eo, eq) (ran.0, append-nil (queue p) ∙ ran.1)
Step-queue {p} v (closes writable up ei eo eq) = rw (ei, eo, eq) (pipeclose-queue writable p v)

reassociate :
    (a b c d e x y : List ℕ) → a ++ b ≡ d ++ x → x ++ c ≡ e ++ y → a ++ (b ++ c) ≡ (d ++ e) ++ y
reassociate a b c d e x y h k =
    a ++ (b ++ c)
    ≡⟨ sym (append_assoc a b c) ⟩ (a ++ b) ++ c
    ≡⟨ ap (λ l. l ++ c) h ⟩ (d ++ x) ++ c
    ≡⟨ append_assoc d x c ⟩ d ++ (x ++ c)
    ≡⟨ ap (λ l. d ++ l) k ⟩ d ++ (e ++ y)
    ≡⟨ sym (append_assoc d e y) ⟩ (d ++ e) ++ y ∎

-- Over every interleaving of writers, readers and closes the bytes come out in the order in which
-- they went in, none lost and none made up in the pipe: what was in it and all that went in is
-- all that came out and what is left in it.
pub History-fifo :
    {p q : Pipe} {ins outs : List ℕ}
    → IsValid p
    → History p ins outs q
    → IsValid q × (queue p ++ ins ≡ outs ++ queue q)
History-fifo {p} v start = (v, append-nil (queue p))
History-fifo {p} v (next {ins} {outs} {more} {taken} {q} {r} h st) =
    let before = History-fifo v h in
    let after = Step-queue before.0 st in
    (after.0, reassociate (queue p) ins more outs taken (queue q) (queue r) before.1 after.1)
