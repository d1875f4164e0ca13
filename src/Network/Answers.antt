-- ===== src/Network/Answers.antt =====
-- Every task is answered (client/src/network.cpp).
use trabalho_sistemas_operac.Prelude.{
  ℕ, ◌≡◌, ◌==◌, refl, Bool, true, false, Option, none, some, List, [], ◌∷◌, ◌++◌,
}
use trabalho_sistemas_operac.Net.Reader.{
  Reader, ByteArray, owned, read_byte_array, read_u64, fill_array, read_bytes, freed,
}
use trabalho_sistemas_operac.Net.Connection.{Connection}
use trabalho_sistemas_operac.Protocol.{status_success}
use trabalho_sistemas_operac.Session.{pointed}
use trabalho_sistemas_operac.Queue.Order.{free}
use trabalho_sistemas_operac.App.{Task}
use trabalho_sistemas_operac.Network.{Thread, Turn, turn}

-- `read_byte_array` returns true only with memory that holds what it read.
pub read_byte_array-owned :
    (old : ByteArray) (r : Reader)
    → (read_byte_array old r).0.0 ≡ true
    → (bytes : List ℕ) × (pointed (read_byte_array old r).0.1 ≡ some bytes)
unfolding read_byte_array fill_array pointed
read_byte_array-owned old r =
    let len : ℕ = elim (read_u64 r).0 [ none ↦ old.length | some len ↦ len ] in
    go len (read_bytes len [] (read_u64 r).1)
  where
    go :
        (len : ℕ) (x : Option (List ℕ) × Reader)
        → (elim x.0 as (λ o. (Bool × ByteArray) × Reader) [
          | none ↦ ((false, record { length = len; bytes = freed }), x.1)
          | some bs ↦ ((true, record { length = len; bytes = owned bs }), x.1)
        ]).0.0
          ≡ true
        → (bytes : List ℕ) × (pointed
              (elim x.0 as (λ o. (Bool × ByteArray) × Reader) [
                | none ↦ ((false, record { length = len; bytes = freed }), x.1)
                | some bs ↦ ((true, record { length = len; bytes = owned bs }), x.1)
              ]).0.1
            ≡ some bytes)
    go len (none, r') e = cc
    go len (some bs, r') e = (bs, refl)

-- A download that ends with a success leaves the file.
abbrev HasFile : (Option ℕ × ByteArray) × Connection → Type 0
HasFile ((none, array), conn) = Unit
HasFile ((some status, array), conn) =
    (status == status_success) ≡ true → (bytes : List ℕ) × (pointed array ≡ some bytes)

module _ {D : Type 0} where
  -- The thread goes on with one more finished task, which is the one it was given, and marked as
  -- failed where the connection is given up.
  abbrev pub Answered : List (ℕ × Task) → Task → Thread D → Turn D → Type 0
  Answered tasks task t o =
      (running : Bool) × (task' : Task) × (t' : Thread D) × (o ≡ turn running t')
      × (t'.process.done_queue ≡ free (tasks ++ (task.task_id, task') ∷ []))
      × (task'.task_id ≡ task.task_id)
      × (running ≡ false → task'.success ≡ false)
      × (t'.process.task_queue ≡ t.process.task_queue)
