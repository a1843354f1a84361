-- ===== src/Vm/Mapping.antt =====
-- `mappages` of a page, and `walkaddr`, which looks it up.
use csse332lab.Base.{ℕ, ◌/◌, ◌≡◌, Bool, true, false, Option, none, some}
use csse332lab.Vm.{is_valid, Vm, walk_level, walkaddr}
use csse332lab.Vm.Tables.{Allocates, Off}

module _ {K : Type 0} (kalloc : K → ℕ × K) (kfree : ℕ → K → Option K)
    (laws : Allocates kalloc) where
  -- What `mappages` of the page at `va` gives.
  pub data Mapped (pt va pa : ℕ) (s : Vm K) : Option (Bool × Vm K) → Type 0 where
    mapped :
        (t : Vm K)
        → walkaddr kalloc kfree pt va t ≡ pa
        → ((x : ℕ)
            → laws.Used s.free (x / 4096)
            → Off va 2 (x / 4096) pt s.word
            → t.word x ≡ s.word x)
        → Mapped pt va pa s (some (true, t))
    no_table :
        (t : Vm K)
        → (walk_level kalloc kfree 2 pt va true s).0 ≡ none
        → Mapped pt va pa s (some (false, t))
    remap :
        (e : ℕ)
        → (walk_level kalloc kfree 2 pt va true s).0 ≡ some e
        → is_valid ((walk_level kalloc kfree 2 pt va true s).1.word e) ≡ true
        → Mapped pt va pa s none
