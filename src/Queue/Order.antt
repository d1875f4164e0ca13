-- ===== src/Queue/Order.antt =====
-- The queue of a client is a list of tasks (client/include/async_queue.h).
use trabalho_sistemas_operac.Prelude.{
  ℕ, suc, ◌≡◌, ◌==◌, ◌∙◌, refl, ap, false, Bool-cases, inl, inr, Option, none, some, List, [], ◌∷◌,
  ◌++◌, length, length-append, if◌then◌else◌, arith,
}
use trabalho_sistemas_operac.Queue.{
  Queue, Call, done, waits, broken, push, try_pop, try_pop_by_id, take_by_id, leave_found,
  take_front, wait_mutex, wait_awaiting,
}

-- The calls, but for `pop`, `pop_by_id` and `size`.
pub data Op (T : Type 0) : Type 0 where
  op_push : ℕ → T → Op T
  op_try_pop : Op T
  op_by_id : ℕ → Op T

module _ {T : Type 0} where
  -- The queue with these tasks, while no thread is in a call.
  abbrev pub free : List (ℕ × T) → Queue T
  free tasks = record { queue = tasks; mutex = 1; awaiting = length tasks }

  -- The answer of a call, in front of those of the calls that follow.
  abbrev pub and_then : Call T (List (Option T)) → Option T → Call T (List (Option T))
  and_then (done answers q) answer = done (answer ∷ answers) q
  and_then waits answer = waits
  and_then broken answer = broken

  abbrev pub answered :
      Call T (Option T) → (Queue T → Call T (List (Option T))) → Call T (List (Option T))
  answered (done answer q) k = and_then (k q) answer
  answered waits k = waits
  answered broken k = broken

  abbrev pub pushed :
      Call T (Unit {0}) → (Queue T → Call T (List (Option T))) → Call T (List (Option T))
  pushed (done answer q) k = k q
  pushed waits k = waits
  pushed broken k = broken

  -- The calls one after the other, with the answers of those that take a task.
  unfoldable pub run : List (Op T) → Queue T → Call T (List (Option T))
  run [] q = done [] q
  run (op_push id task ∷ ops) q = pushed (push id task q) (run ops)
  run (op_try_pop ∷ ops) q = answered (try_pop q) (run ops)
  run (op_by_id id ∷ ops) q = answered (try_pop_by_id id q) (run ops)

  -- The first task with an id, and the tasks without it.
  unfoldable pub lookup : ℕ → List (ℕ × T) → Option T
  lookup id [] = none
  lookup id (t ∷ tasks) = if t.0 == id then some t.1 else lookup id tasks

  unfoldable pub remove : ℕ → List (ℕ × T) → List (ℕ × T)
  remove id [] = []
  remove id (t ∷ tasks) = if t.0 == id then tasks else t ∷ remove id tasks

  -- The same calls on a list of tasks; a search by id in an empty list waits for ever.
  unfoldable pub serve : List (Op T) → List (ℕ × T) → Call T (List (Option T))
  serve [] tasks = done [] (free tasks)
  serve (op_push id task ∷ ops) tasks = serve ops (tasks ++ (id, task) ∷ [])
  serve (op_try_pop ∷ ops) [] = and_then (serve ops []) none
  serve (op_try_pop ∷ ops) (t ∷ tasks) = and_then (serve ops tasks) (some t.1)
  serve (op_by_id id ∷ ops) [] = waits
  serve (op_by_id id ∷ ops) (t ∷ tasks) =
      and_then (serve ops (remove id (t ∷ tasks))) (lookup id (t ∷ tasks))

  pub push_lem :
      (id : ℕ) (task : T) (tasks : List (ℕ × T))
      → push id task (free tasks) ≡ done tt (free (tasks ++ (id, task) ∷ []))
  unfolding push wait_mutex
  push_lem id task tasks =
      ap (λ n. done tt (record { queue = tasks ++ (id, task) ∷ []; mutex = 1; awaiting = n }))
        (omega (arith, length-append tasks ((id, task) ∷ [])))

  -- What the search leaves: the tasks as they were, or one less.
  Left : ℕ → List (ℕ × T) → Option T × List (ℕ × T) → Type 0
  Left id tasks (none, rest) = (lookup id tasks ≡ none) × (remove id tasks ≡ tasks)
  Left id tasks (some task, rest) =
      (lookup id tasks ≡ some task) × (remove id tasks ≡ rest) × (length tasks ≡ suc (length rest))

  take_by_id-Left : (id : ℕ) (tasks : List (ℕ × T)) → Left id tasks (take_by_id id tasks)
  unfolding take_by_id lookup remove Left
  take_by_id-Left id [] = (refl, refl)
  take_by_id-Left id (t ∷ tasks) = elim (Bool-cases (t.0 == id)) [
    | inl e ↦ rw e (rw (e, lookup) refl, rw (e, remove) refl, refl)
    | inr e ↦ rw e (later (take_by_id id tasks) e (take_by_id-Left id tasks))
  ]
    where
      later :
          (x : Option T × List (ℕ × T))
          → (t.0 == id) ≡ false
          → Left id tasks x
          → Left id (t ∷ tasks) (x.0, t ∷ x.1)
      later (none, rest) e l = (rw (e, lookup) (l.0), rw (e, remove) (ap (λ ts. t ∷ ts) l.1))
      later (some task, rest) e l =
          (rw (e, lookup) (l.0), rw (e, remove) (ap (λ ts. t ∷ ts) l.1), ap suc l.2)

  -- What is left after a search that found, or did not find, is again a list of tasks.
  pub by_id_lem :
      (id : ℕ) (t : ℕ × T) (tasks : List (ℕ × T))
      → try_pop_by_id id (free (t ∷ tasks))
        ≡ done (lookup id (t ∷ tasks)) (free (remove id (t ∷ tasks)))
  unfolding try_pop_by_id wait_awaiting wait_mutex leave_found Left
  by_id_lem id t tasks = go (take_by_id id (t ∷ tasks)) (take_by_id-Left id (t ∷ tasks))
    where
      go :
          (x : Option T × List (ℕ × T))
          → Left id (t ∷ tasks) x
          → leave_found (record { queue = t ∷ tasks; mutex = 0; awaiting = length tasks }) x
            ≡ done (lookup id (t ∷ tasks)) (free (remove id (t ∷ tasks)))
      go (none, rest) l =
          rw (l.0, l.1)
            (ap (λ n. done none (record { queue = t ∷ tasks; mutex = 1; awaiting = n }))
              (omega arith))
      go (some task, rest) l =
          rw (l.0, l.1)
            (ap (λ n. done (some task) (record { queue = rest; mutex = 1; awaiting = n }))
              (omega (arith, l.2)))

  -- From a queue that no thread is in, any sequence of `push`, `try_pop` and `try_pop_by_id` gives
  -- the answers of a list of tasks that is added to at its end, taken from at its front, and
  -- searched for the first task with an id, and leaves the list's tasks, the lock free and the
  -- count right; a search by id in an empty queue waits for ever.
  pub run-serve :
      (ops : List (Op T)) (tasks : List (ℕ × T)) → run ops (free tasks) ≡ serve ops tasks
  unfolding run serve try_pop wait_mutex wait_awaiting take_front try_pop_by_id
  run-serve [] tasks = refl
  run-serve (op_push id task ∷ ops) tasks =
      rw (push_lem id task tasks) (run-serve ops (tasks ++ (id, task) ∷ []))
  run-serve (op_try_pop ∷ ops) [] = ap (λ c. and_then c none) (run-serve ops [])
  run-serve (op_try_pop ∷ ops) (t ∷ tasks) = ap (λ c. and_then c (some t.1)) (run-serve ops tasks)
  run-serve (op_by_id id ∷ ops) [] = refl
  run-serve (op_by_id id ∷ ops) (t ∷ tasks) =
      ap (λ c. answered c (run ops)) (by_id_lem id t tasks)
      ∙ ap (λ c. and_then c (lookup id (t ∷ tasks))) (run-serve ops (remove id (t ∷ tasks)))
