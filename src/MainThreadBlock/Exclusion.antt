-- ===== src/MainThreadBlock/Exclusion.antt =====
-- Who runs at the states that the steps lead to: workers, or the main thread.
use backstitch.Prelude.{ℕ, ◌+◌, ◌≡◌, refl, Bool, Option, none, some, arith}
use backstitch.MainThreadBlock.{
  register, pass_gate, open_gate, leave_checkpoint, drop_guard, Threads, at_rest, Step, arrive,
  enter, cancel, finish, begin, leave, Reach, here, next,
}

-- for how many workers a checkpoint waits
abbrev pub awaited : Option ℕ → ℕ
awaited none = 0
awaited (some n) = n

-- The permits and the guards are those of the workers that the checkpoint waits for.
pub record IsBalanced (t : Threads) : Type 0 where
  pub balance : t.block.start + (t.working + t.block.done) ≡ awaited t.main

Step-IsBalanced : {cancels : Bool} {t u : Threads} → Step cancels t u → IsBalanced t → IsBalanced u
unfolding register pass_gate open_gate leave_checkpoint drop_guard
Step-IsBalanced (arrive t few) s = record { balance = s.balance }
Step-IsBalanced (enter t b others w passed) s = record { balance = ground (arith, s.balance) }
Step-IsBalanced (cancel t others c w) s = record { balance = s.balance }
Step-IsBalanced (finish t others w) s = record { balance = ground (arith, s.balance) }
Step-IsBalanced (begin t idle) s = record { balance = ground (arith, s.balance) }
Step-IsBalanced (leave t n b m left) s = record { balance = ground (arith, s.balance) }

pub Reach-IsBalanced :
    {cancels : Bool} {t u : Threads} → Reach cancels t u → IsBalanced t → IsBalanced u
Reach-IsBalanced here s = s
Reach-IsBalanced (next r step) s = Step-IsBalanced step (Reach-IsBalanced r s)

pub at_rest-IsBalanced : IsBalanced at_rest
unfolding at_rest
at_rest-IsBalanced = record { balance = refl }

-- Whatever the threads do, waits that are dropped included: while the main thread is not at a
-- checkpoint, no worker holds a guard, and no permit is left over from an earlier checkpoint.
pub main_excludes_workers :
    (cancels : Bool) (t : Threads)
    → Reach cancels at_rest t
    → t.main ≡ none
    → (t.working ≡ 0) × (t.block.start ≡ 0) × (t.block.done ≡ 0)
main_excludes_workers cancels t r idle =
    let s = Reach-IsBalanced r at_rest-IsBalanced in ground (arith, s.balance)
