-- ===== src/Log/Tests.antt =====
-- kernel/log.c: small runs, and the theorems at concrete inputs.
use csse332lab.Base.{ℕ, ◌≡◌, ◌≢◌, refl, ◌⊎◌, inr, false, none, some, [], ◌∷◌, arith, update}
use csse332lab.Log.Blocks.{Store, reboot}
use csse332lab.Log.{
  Log, install_loop, install_trans, read_entries, read_head, write_entries, write_head,
  recover_from_log, initlog, write_log_loop, write_log, commit, find_slot, log_write,
}
use csse332lab.Log.Replay.{StandsFor, StandsFor-none}
use csse332lab.Log.Recovery.{Settled, initlog_recovers}
use csse332lab.Log.Commit.{IsReady, staged, commit_atomic}
use csse332lab.Log.Absorb.{log_write-staged}
use csse332lab.Log.Space.{Use}

-- A log in the blocks 2 to 32, with the block 50 in it.
abbrev log : Log
log = record { start = 2; size = 31; outstanding = 1; committing = false; n = 1; block = λ i. 50 }

-- The disk holds zeros; the buffer of the block 50 holds nines.
abbrev store : ℕ → Store
store power = record {
  disk = λ b i. 0;
  cache = update (λ b. none) 50 (some (λ i. 9));
  pins = update (λ b. 0) 50 1;
  power = power;
}

-- With power for two writes the block is in the log and the header on the disk, but the home
-- block is still old; recovery makes it new.
commit_cut : (commit log (store 2)).1.disk 50 7 ≡ 0
unfolding commit write_log write_log_loop write_head write_entries install_trans install_loop
commit_cut = refl

commit_cut_recovered : (initlog 2 31 log (reboot 9 (commit log (store 2)).1)).1.disk 50 7 ≡ 9
unfolding commit write_log write_log_loop write_head write_entries install_trans install_loop
    initlog recover_from_log read_head read_entries
commit_cut_recovered = refl

log-IsReady : (power : ℕ) → IsReady log (store power)
log-IsReady power = record {
  fits = omega arith;
  small = omega arith;
  homes = λ i hi. inr (omega arith);
  empty = refl;
}

commit_atomic_example :
    let s' = (commit log (store 2)).1 in
    (((s'.power ≡ 0) × StandsFor 2 31 s'.disk (λ b i. 0))
      ⊎ Settled 2 31 (staged log (store 2) 1) s')
    × ((commit log (store 2)).0.n ≡ 0)
commit_atomic_example = commit_atomic log (store 2) (log-IsReady 2)

zeros_stand : StandsFor 2 31 (λ b i. 0) (λ b i. 0)
zeros_stand = StandsFor-none 2 31 _ _ (omega arith) refl (λ b h. refl)

initlog_recovers_example : Settled 2 31 (λ b i. 0) (initlog 2 31 log (reboot 3 (store 0))).1
initlog_recovers_example = initlog_recovers 2 31 3 log (λ b i. 0) (store 0) zeros_stand

log_write-staged_example :
    (log' : Log) × (s' : Store) × (log_write 60 log (store 5) ≡ some (log', s'))
    × IsReady log' s'
    × (staged log' s' log'.n 60 ≡ (λ i. 0))
    × ((c : ℕ) → c ≢ 60 → staged log' s' log'.n c ≡ staged log (store 5) 1 c)
log_write-staged_example =
    log_write-staged 60 log (store 5) (log-IsReady 5) (inr (omega arith)) (omega arith)
      (omega arith) (omega arith)

log_write_absorbs :
    log_write 50 log (store 5) ≡ some (record log { block = update (λ i. 50) 0 50 }, store 5)
unfolding log_write find_slot
log_write_absorbs = refl

abbrev idle : Use
idle = record { log = record log { outstanding = 0; n = 0 }; ops = [] }

one_inside : Use
one_inside = record { log = record log { n = 0 }; ops = 0 ∷ [] }
