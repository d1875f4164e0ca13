-- ===== src/Queue.antt =====
-- The queue between the threads of a client (client/include/async_queue.h). A call runs under the
-- lock of the queue and is one step; `awaiting` counts what was pushed and not yet taken.
pub mod Order
pub mod Wait
use trabalho_sistemas_operac.Prelude.{
  ℕ, zero, suc, ◌+◌, ◌==◌, Option, none, some, List, [], ◌∷◌, ◌++◌, if◌then◌else◌, length,
}

-- `async_queue`; `mutex` is the value of its semaphore.
pub record Queue (T : Type 0) : Type 0 where
  pub queue : List (ℕ × T)
  pub mutex : ℕ
  pub awaiting : ℕ

-- A call returns, waits for a semaphore, or reads the front of an empty vector.
pub data Call (T A : Type 0) : Type 0 where
  done : A → Queue T → Call T A
  waits broken : Call T A

module _ {T : Type 0} where
  unfoldable pub async_queue : Queue T
  async_queue = record { queue = []; mutex = 1; awaiting = 0 }

  -- `sem_wait` on the two semaphores, and then the rest of the call.
  unfoldable pub wait_mutex : {A : Type 0} → (Queue T → Call T A) → Queue T → Call T A
  wait_mutex k q = elim q.mutex [ zero ↦ waits | suc m ↦ k (record q { mutex = m }) ]

  unfoldable pub wait_awaiting : {A : Type 0} → (Queue T → Call T A) → Queue T → Call T A
  wait_awaiting k q = elim q.awaiting [ zero ↦ waits | suc m ↦ k (record q { awaiting = m }) ]

  abbrev pub post_mutex : Queue T → Queue T
  post_mutex q = record q { mutex = q.mutex + 1 }

  abbrev pub post_awaiting : Queue T → Queue T
  post_awaiting q = record q { awaiting = q.awaiting + 1 }

  unfoldable pub push : ℕ → T → Queue T → Call T (Unit {0})
  push id task =
      wait_mutex (λ q.
        done tt (post_awaiting (post_mutex (record q { queue = q.queue ++ (id, task) ∷ [] }))))

  -- `front` and `erase`.
  unfoldable pub take_front : (Queue T → Queue T) → Queue T → Call T T
  take_front post q = elim q.queue [
    | [] ↦ broken
    | (id, task) ∷ rest ↦ done task (post (record q { queue = rest }))
  ]

  -- The mutex is posted twice.
  unfoldable pub pop : Queue T → Call T T
  pop = wait_awaiting (wait_mutex (take_front (λ q. post_mutex (post_mutex q))))

  abbrev some_task : Call T T → Call T (Option T)
  some_task (done task q) = done (some task) q
  some_task waits = waits
  some_task broken = broken

  unfoldable pub try_pop : Queue T → Call T (Option T)
  try_pop q = elim q.awaiting [
    | zero ↦ done none q
    | suc m ↦ some_task (wait_mutex (take_front post_mutex) (record q { awaiting = m }))
  ]

  -- The search of `pop_by_id` and `try_pop_by_id`: the first task with the id, and the others.
  unfoldable pub take_by_id : ℕ → List (ℕ × T) → Option T × List (ℕ × T)
  take_by_id id [] = (none, [])
  take_by_id id ((i, task) ∷ rest) =
      let (found, others) = take_by_id id rest in
      if i == id then (some task, rest) else (found, (i, task) ∷ others)

  -- `awaiting` is posted again where nothing was found.
  unfoldable pub leave_found : Queue T → Option T × List (ℕ × T) → Call T (Option T)
  leave_found q (none, rest) = done none (post_awaiting (post_mutex q))
  leave_found q (some task, rest) = done (some task) (post_mutex (record q { queue = rest }))

  unfoldable pub try_pop_by_id : ℕ → Queue T → Call T (Option T)
  try_pop_by_id id = wait_awaiting (wait_mutex (λ q. leave_found q (take_by_id id q.queue)))

  -- Another round, from the queue as it was where the call has to wait for `awaiting`.
  unfoldable pub or_again :
      (Queue T → Call T (Option T)) → Queue T → Call T (Option T) → Call T (Option T)
  or_again next q (done (some task) q') = done (some task) q'
  or_again next q (done none q') = next q'
  or_again next q waits = next q
  or_again next q broken = broken

  -- The rounds of `pop_by_id`, each behind what the other threads do: `none` where these end before
  -- the task is found.
  unfoldable pub pop_by_id : ℕ → List (Queue T → Queue T) → Queue T → Call T (Option T)
  pop_by_id id [] q = done none q
  pop_by_id id (others ∷ rounds) q =
      or_again (pop_by_id id rounds) (others q) (try_pop_by_id id (others q))

  unfoldable pub size : Queue T → Call T ℕ
  size = wait_mutex (λ q. done (length q.queue) (post_mutex q))
