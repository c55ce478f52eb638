-- ===== src/Examples/MainThreadBlock.antt =====
-- A worker that comes while the main thread runs, and the checkpoint that lets it in.
use backstitch.Prelude.{◌≡◌, refl, Bool, true, false, none, some, arith}
use backstitch.MainThreadBlock.{
  register, open_gate, Threads, at_rest, arrive, begin, Reach, here, next,
}
use backstitch.MainThreadBlock.Exclusion.{main_excludes_workers}
use backstitch.MainThreadBlock.Release.{checkpoint_released}

abbrev arrived : Threads
arrived = record at_rest { block = register at_rest.block; waiting = 1 }

abbrev let_in : Threads
let_in = record arrived {
  block = (open_gate arrived.block).0;
  main = some (open_gate arrived.block).1;
}

reached_arrived : (cancels : Bool) → Reach cancels at_rest arrived
unfolding at_rest
reached_arrived cancels = next here (arrive at_rest (omega arith))

arrived_idle : arrived.main ≡ none
unfolding at_rest
arrived_idle = refl

main_excludes_workers_example :
    (arrived.working ≡ 0) × (arrived.block.start ≡ 0) × (arrived.block.done ≡ 0)
main_excludes_workers_example =
    main_excludes_workers true arrived (reached_arrived true) arrived_idle

let_in_main : let_in.main ≡ some 1
unfolding at_rest open_gate register
let_in_main = refl

checkpoint_released_example : (u : Threads) × Reach false let_in u × (u.main ≡ none)
checkpoint_released_example =
    checkpoint_released let_in 1 (next (reached_arrived false) (begin arrived arrived_idle))
      let_in_main
