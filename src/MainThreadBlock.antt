-- ===== src/MainThreadBlock.antt =====
-- backstitch/src/project/main_thread_block.rs: the lock with which worker threads hold the main
-- thread at a checkpoint. Each operation on an atomic or a semaphore is one step.
pub mod Exclusion
pub mod Release
use Prim.Native.Nat.{◌%◌}
use backstitch.Prelude.{
  ℕ, suc, ◌+◌, ◌-◌, ◌<◌, ◌≡◌, Bool, true, Option, none, some, leb, if◌then◌else◌,
}

-- MainThreadBlock: the free permits of the two semaphores, and the counter, a u32
pub record MainThreadBlock : Type 0 where
  pub start : ℕ
  pub done : ℕ
  pub registered : ℕ

unfoldable pub new_block : MainThreadBlock
new_block = record { start = 0; done = 0; registered = 0 }

-- the first line of `wait`; fetch_add wraps
unfoldable pub register : MainThreadBlock → MainThreadBlock
register b = record b { registered = (b.registered + 1) % 4294967296 }

-- `start.acquire_owned()` in `wait`: none while there is no permit
unfoldable pub pass_gate : MainThreadBlock → Option MainThreadBlock
pass_gate b = if leb 1 b.start then some (record b { start = b.start - 1 }) else none

-- the first two lines of `checkpoint`, and the number of workers that it lets in
unfoldable pub open_gate : MainThreadBlock → MainThreadBlock × ℕ
open_gate b = (record b { registered = 0; start = b.start + b.registered }, b.registered)

-- `done.acquire_many(n)` and `forget` at the end of `checkpoint`
unfoldable pub leave_checkpoint : ℕ → MainThreadBlock → Option MainThreadBlock
leave_checkpoint n b = if leb n b.done then some (record b { done = b.done - n }) else none

-- `Drop` of a MainThreadGuard: its permit of `start` is forgotten
unfoldable pub drop_guard : MainThreadBlock → MainThreadBlock
drop_guard b = record b { done = b.done + 1 }

-- The threads around the lock: how many workers wait at the gate, how many hold a guard, and for how
-- many the main thread waits if it is at a checkpoint.
pub record Threads : Type 0 where
  pub block : MainThreadBlock
  pub waiting : ℕ
  pub working : ℕ
  pub main : Option ℕ

unfoldable pub at_rest : Threads
unfolding new_block
at_rest = record { block = new_block; waiting = 0; working = 0; main = none }

-- One step of one thread. Fewer than 2 ^ 32 workers register between two checkpoints. A worker may
-- drop its wait only if `cancels`.
pub data Step (cancels : Bool) : Threads → Threads → Type 0 where
  arrive :
      (t : Threads)
      → suc t.block.registered < 4294967296
      → Step cancels t (record t { block = register t.block; waiting = suc t.waiting })
  enter :
      (t : Threads) (b : MainThreadBlock) (others : ℕ)
      → t.waiting ≡ suc others
      → pass_gate t.block ≡ some b
      → Step cancels t (record t { block = b; waiting = others; working = suc t.working })
  cancel :
      (t : Threads) (others : ℕ)
      → cancels ≡ true
      → t.waiting ≡ suc others
      → Step cancels t (record t { waiting = others })
  finish :
      (t : Threads) (others : ℕ)
      → t.working ≡ suc others
      → Step cancels t (record t { block = drop_guard t.block; working = others })
  begin :
      (t : Threads)
      → t.main ≡ none
      → Step cancels t
          (record t { block = (open_gate t.block).0; main = some (open_gate t.block).1 })
  leave :
      (t : Threads) (n : ℕ) (b : MainThreadBlock)
      → t.main ≡ some n
      → leave_checkpoint n t.block ≡ some b
      → Step cancels t (record t { block = b; main = none })

pub data Reach (cancels : Bool) (from : Threads) : Threads → Type 0 where
  here : Reach cancels from from
  next :
      {mid end : Threads} → Reach cancels from mid → Step cancels mid end → Reach cancels from end
