-- ===== src/MainThreadBlock/Release.antt =====
-- How a checkpoint ends.
use backstitch.Prelude.{ℕ, zero, suc, ◌+◌, ◌-◌, ◌≡◌, refl, ◌≤◌, false, none, some, arith}
use backstitch.MainThreadBlock.{
  register, pass_gate, open_gate, leave_checkpoint, drop_guard, Threads, at_rest, Step, arrive,
  enter, cancel, finish, begin, leave, Reach, here, next,
}
use backstitch.MainThreadBlock.Exclusion.{Reach-IsBalanced, at_rest-IsBalanced}

-- Each waiting worker is registered or has a permit.
record IsServed (t : Threads) : Type 0 where
  served : t.waiting ≡ t.block.registered + t.block.start

Step-IsServed : {t u : Threads} → Step false t u → IsServed t → IsServed u
unfolding register pass_gate open_gate leave_checkpoint drop_guard
Step-IsServed (arrive t few) s = record { served = ground (arith, s.served) }
Step-IsServed (enter t b others w passed) s = record { served = ground (arith, s.served) }
Step-IsServed (cancel t others c w) s = absurd (cc)
Step-IsServed (finish t others w) s = record { served = s.served }
Step-IsServed (begin t idle) s = record { served = ground (arith, s.served) }
Step-IsServed (leave t n b m left) s = record { served = ground (arith, s.served) }

Reach-IsServed : {t u : Threads} → Reach false t u → IsServed t → IsServed u
Reach-IsServed here s = s
Reach-IsServed (next r step) s = Step-IsServed step (Reach-IsServed r s)

at_rest-IsServed : IsServed at_rest
unfolding at_rest
at_rest-IsServed = record { served = refl }

abbrev Released : Threads → Type 0
Released t = (u : Threads) × Reach false t u × (u.main ≡ none)

before : {t u v : Threads} → Step false t u → Reach false u v → Reach false t v
before first here = next here first
before first (next r step) = next (before first r) step

-- all workers have finished
release_done : (t : Threads) (n : ℕ) → t.main ≡ some n → n ≤ t.block.done → Released t
unfolding leave_checkpoint
release_done t n m enough =
    (_, next here (leave t n (record t.block { done = t.block.done - n }) m (ground arith)), refl)

-- no worker stands at the gate with a permit
release_working :
    (working : ℕ) (t : Threads) (n : ℕ)
    → t.main ≡ some n
    → t.working ≡ working
    → n ≤ working + t.block.done
    → Released t
unfolding drop_guard
release_working zero t n m w enough = release_done t n m (omega arith)
release_working (suc others) t n m w enough =
    let (u, r, idle) =
      release_working others (record t { block = drop_guard t.block; working = others }) n m refl
        (ground arith) in
    (u, before (finish t others w) r, idle)

release_start :
    (start : ℕ) (t : Threads) (n : ℕ)
    → t.main ≡ some n
    → t.block.start ≡ start
    → start ≤ t.waiting
    → n ≤ start + (t.working + t.block.done)
    → Released t
unfolding pass_gate
release_start zero t n m s w enough = release_working t.working t n m refl (omega arith)
release_start (suc start) t n m s w enough =
    let (others, o) = predecessor t.waiting w in
    let (u, r, idle) =
      release_start start
        (record t {
          block = record t.block { start = start };
          waiting = others;
          working = suc t.working;
        })
        n m refl (ground arith) (ground arith) in
    (u, before (enter t (record t.block { start = start }) others o (ground arith)) r, idle)
  where
    predecessor : (k : ℕ) → suc start ≤ k → (j : ℕ) × (k ≡ suc j)
    predecessor zero h = absurd (omega arith)
    predecessor (suc j) h = (j, refl)

-- Wherever the threads have got to without a wait being dropped: if the main thread is at a
-- checkpoint, then the workers that it let in can go on to the point where it leaves the checkpoint.
pub checkpoint_released :
    (t : Threads) (n : ℕ)
    → Reach false at_rest t
    → t.main ≡ some n
    → (u : Threads) × Reach false t u × (u.main ≡ none)
checkpoint_released t n r m =
    let s = Reach-IsServed r at_rest-IsServed in
    let b = Reach-IsBalanced r at_rest-IsBalanced in
    release_start t.block.start t n m refl (ground (arith, s.served)) (ground (arith, b.balance))
