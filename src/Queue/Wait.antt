-- ===== src/Queue/Wait.antt =====
-- A thread that waits for its task in the queue (client/include/async_queue.h, `pop_by_id`).
use trabalho_sistemas_operac.Prelude.{
  ℕ, ◌≡◌, ◌==◌, ◌∙◌, refl, ap, sym, Bool-cases, Option-cases, inl, inr, Option, none, some, List,
  [], ◌∷◌, ◌++◌, append-nil, append_assoc, arith,
}
use trabalho_sistemas_operac.Queue.{
  Queue, Call, done, waits, broken, push, or_again, pop_by_id, try_pop_by_id, wait_awaiting,
}
use trabalho_sistemas_operac.Queue.Order.{free, lookup, remove, push_lem, by_id_lem}

module _ {T : Type 0} where
  -- What another thread pushes between two rounds.
  unfoldable pub or_as_before : (Queue T → Queue T) → Queue T → Call T (Unit {0}) → Queue T
  or_as_before next q (done u q') = next q'
  or_as_before next q waits = q
  or_as_before next q broken = q

  unfoldable pub pushes : List (ℕ × T) → Queue T → Queue T
  pushes [] q = q
  pushes ((id, task) ∷ new) q = or_as_before (pushes new) q (push id task q)

  pushes_lem : (new tasks : List (ℕ × T)) → pushes new (free tasks) ≡ free (tasks ++ new)
  unfolding pushes or_as_before
  pushes_lem [] tasks = ap free (sym (append-nil tasks))
  pushes_lem ((id, task) ∷ new) tasks =
      ap (or_as_before (pushes new) (free tasks)) (push_lem id task tasks)
      ∙ pushes_lem new (tasks ++ (id, task) ∷ [])
      ∙ ap free (append_assoc tasks ((id, task) ∷ []) new)

  unfoldable pub turns : List (List (ℕ × T)) → List (Queue T → Queue T)
  turns [] = []
  turns (new ∷ rounds) = pushes new ∷ turns rounds

  unfoldable pub all_pushed : List (List (ℕ × T)) → List (ℕ × T)
  all_pushed [] = []
  all_pushed (new ∷ rounds) = new ++ all_pushed rounds

  lookup-none :
      (id : ℕ) (xs ys : List (ℕ × T)) → lookup id xs ≡ none → lookup id (xs ++ ys) ≡ lookup id ys
  unfolding lookup
  lookup-none id [] ys h = refl
  lookup-none id (x ∷ xs) ys h = elim (Bool-cases (x.0 == id)) [
    | inl e ↦ let absurd : some x.1 ≡ none = rw e at h in ground arith
    | inr e ↦ rw e (lookup-none id xs ys (rw e at h))
  ]

  lookup-some :
      (id : ℕ) (xs ys : List (ℕ × T)) (u : T)
      → lookup id xs ≡ some u
      → lookup id (xs ++ ys) ≡ some u
  unfolding lookup
  lookup-some id [] ys u h = ground arith
  lookup-some id (x ∷ xs) ys u h = elim (Bool-cases (x.0 == id)) [
    | inl e ↦ rw e (rw e at h)
    | inr e ↦ rw e (lookup-some id xs ys u (rw e at h))
  ]

  remove-none : (id : ℕ) (xs : List (ℕ × T)) → lookup id xs ≡ none → remove id xs ≡ xs
  unfolding lookup remove
  remove-none id [] h = refl
  remove-none id (x ∷ xs) h = elim (Bool-cases (x.0 == id)) [
    | inl e ↦ let absurd : some x.1 ≡ none = rw e at h in ground arith
    | inr e ↦ rw e (ap (λ l. x ∷ l) (remove-none id xs (rw e at h)))
  ]

  module _ (id : ℕ) (task : T) where
    -- The first task with the id is taken, and the other tasks of `all` that were pushed by then stay.
    abbrev Gets : List (ℕ × T) → Call T (Option T) → Type 0
    Gets all c =
        (earlier later : List (ℕ × T)) × (earlier ++ later ≡ all)
        × (c ≡ done (some task) (free (remove id earlier)))

    abbrev Found : List (ℕ × T) → Type 0
    Found tasks = lookup id tasks ≡ some task

    -- One round: it finds the task, or goes on with the same tasks.
    round-Gets :
        (next : Queue T → Call T (Option T)) (tasks later : List (ℕ × T))
        → Found (tasks ++ later)
        → (lookup id tasks ≡ none → Gets (tasks ++ later) (next (free tasks)))
        → Gets (tasks ++ later) (or_again next (free tasks) (try_pop_by_id id (free tasks)))
    unfolding or_again try_pop_by_id wait_awaiting lookup
    round-Gets next [] later h k = k refl
    round-Gets next (x ∷ xs) later h k = elim (Option-cases (lookup id (x ∷ xs))) [
      | inl e ↦
          let q = k e in
          (
            q.0,
            q.1,
            q.2,
            ap (or_again next (free (x ∷ xs))) (by_id_lem id x xs)
                ∙ ap (λ o. or_again next (free (x ∷ xs)) (done o (free (remove id (x ∷ xs))))) e
                ∙ ap (λ l. next (free l)) (remove-none id (x ∷ xs) e)
                ∙ q.3,
          )
      | inr (u, e) ↦
          let same : lookup id (x ∷ xs) ≡ some task =
            e ∙ sym (lookup-some id (x ∷ xs) later u e) ∙ h in
          (
            x ∷ xs,
            later,
            refl,
            ap (or_again next (free (x ∷ xs))) (by_id_lem id x xs)
                ∙ ap (λ o. or_again next (free (x ∷ xs)) (done o (free (remove id (x ∷ xs))))) same,
          )
    ]

    -- A round behind what is pushed before it.
    pushed-Gets :
        (next : Queue T → Call T (Option T)) (tasks new later : List (ℕ × T))
        → Found (tasks ++ (new ++ later))
        → (lookup id (tasks ++ new) ≡ none
            → Found ((tasks ++ new) ++ later)
            → Gets ((tasks ++ new) ++ later) (next (free (tasks ++ new))))
        → Gets
            (tasks ++ (new ++ later))
            (or_again next (pushes new (free tasks)) (try_pop_by_id id (pushes new (free tasks))))
    pushed-Gets next tasks new later h k =
        let found = ap (lookup id) (append_assoc tasks new later) ∙ h in
        rw (pushes_lem new tasks) (
          rw (sym (append_assoc tasks new later))
            (round-Gets next (tasks ++ new) later found (λ e. k e found)))

    rounds-Gets :
        (rounds : List (List (ℕ × T))) (tasks : List (ℕ × T))
        → lookup id tasks ≡ none
        → Found (tasks ++ all_pushed rounds)
        → Gets (tasks ++ all_pushed rounds) (pop_by_id id (turns rounds) (free tasks))
    unfolding pop_by_id turns all_pushed lookup
    rounds-Gets [] tasks none_yet h =
        let absurd : none ≡ some task = sym (lookup-none id tasks [] none_yet) ∙ h in ground arith
    rounds-Gets (new ∷ rounds) tasks none_yet h =
        pushed-Gets (pop_by_id id (turns rounds)) tasks new (all_pushed rounds) h
          (rounds-Gets rounds (tasks ++ new))

    -- Where the other threads only push between the rounds of `pop_by_id`, and among the tasks that
    -- are there and those that are pushed before its last round there is one with its id, it
    -- returns the first such task, in whichever round it is pushed, and leaves the other tasks of
    -- some first part of these, in their order, with the lock free and the count right.
    pub pop_by_id-pushes :
        (tasks new : List (ℕ × T)) (rounds : List (List (ℕ × T)))
        → lookup id (tasks ++ all_pushed (new ∷ rounds)) ≡ some task
        → (earlier later : List (ℕ × T)) × (earlier ++ later ≡ tasks ++ all_pushed (new ∷ rounds))
          × (pop_by_id id (turns (new ∷ rounds)) (free tasks)
              ≡ done (some task) (free (remove id earlier)))
    unfolding pop_by_id turns all_pushed
    pop_by_id-pushes tasks new rounds h =
        pushed-Gets (pop_by_id id (turns rounds)) tasks new (all_pushed rounds) h
          (rounds-Gets rounds (tasks ++ new))
