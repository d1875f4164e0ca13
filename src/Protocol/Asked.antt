-- ===== src/Protocol/Asked.antt =====
-- The requests of a client take at least a byte where they succeed, but for the exit
-- (client/src/protocol.cpp).
use trabalho_sistemas_operac.Prelude.{
  ℕ, zero, suc, ◌+◌, ◌≡◌, ◌≤◌, ◌==◌, refl, Bool, Bool-cases, inl, inr, Option, none, some, List, [],
  subst, arith,
}
use trabalho_sistemas_operac.Prelude.Exec.{Exec, fail, ◌>>=◌}
use trabalho_sistemas_operac.Net.Reader.{Reader, read_u16, read_u32, read_u64}
use trabalho_sistemas_operac.Net.Writer.{Writer}
use trabalho_sistemas_operac.Net.Reader.Left.{
  left, Fell, read_u8-Drains, read_word-Drains, read_string-Drains,
}
use trabalho_sistemas_operac.Net.Connection.{Connection, writing}
use trabalho_sistemas_operac.Net.Connection.Left.{
  Uses, Uses-bind, Uses-pure, Uses-reading, Uses-require,
}
use trabalho_sistemas_operac.Protocol.{FileDescription, status_success}
use trabalho_sistemas_operac.Protocol.Request.{
  read_status, request_handshake, request_upload, request_delete, request_list_files, request_exit,
  request_update, read_descriptions, list_files_answer, update_answer, event_of_code,
}

pub Uses-writing : {A : Type 0} (m : Exec Writer A) → Uses (writing m) 0
unfolding writing
Uses-writing m = record { at = λ c. go (left c.reader) c.reader (m c.writer) refl }
  where
    go : {A : Type 0} (n : ℕ) (r : Reader) (x : Option A × Writer) → left r ≡ n → Fell 0 n (x.0, r)
    go n r (none, w) e = omega arith
    go n r (some a, w) e = omega arith

pub Uses-weak : {A : Type 0} {m : Exec Connection A} {k : ℕ} → Uses m k → Uses m 0
Uses-weak {A} {m} {k} h = record { at = λ c. go (left c.reader) (m c) (h.at c) }
  where
    go :
        (n : ℕ) (x : Option A × Connection)
        → Fell k n (x.0, x.1.reader)
        → Fell 0 n (x.0, x.1.reader)
    go n (none, c) f = f
    go n (some a, c) f = omega arith

-- What is left after an exchange, whether it succeeds or not.
pub left-Uses :
    {A : Type 0} {m : Exec Connection A} {k : ℕ}
    → Uses m k
    → (c : Connection) → left (m c).1.reader ≤ left c.reader
left-Uses {A} {m} {k} h c = go (m c) (h.at c)
  where
    go :
        (x : Option A × Connection)
        → Fell k (left c.reader) (x.0, x.1.reader)
        → left x.1.reader ≤ left c.reader
    go (none, c') f = f
    go (some a, c') f = omega arith

-- A write in front of an exchange.
pub Uses-after :
    {A B : Type 0} (m : Exec Writer A) (f : A → Exec Connection B) {k : ℕ}
    → ((a : A) → Uses (f a) k)
    → Uses (writing m >>= f) k
Uses-after m f {k} h =
    let zero_add : 0 + k ≡ k = omega arith in
    subst (λ n. Uses (writing m >>= f) n) zero_add (Uses-bind (writing m) f 0 k (Uses-writing m) h)

pub read_status-Uses : Uses read_status 1
unfolding read_status read_u16
read_status-Uses =
    Uses-bind _ _ 0 1 (Uses-reading (read_word-Drains 2 0 0))
      (λ version. Uses-bind _ _ 0 1 (Uses-require _) (λ x. Uses-reading read_u8-Drains))

pub request_exit-Uses : Uses request_exit 0
unfolding request_exit
request_exit-Uses = Uses-after _ _ (λ a. Uses-after _ _ (λ b. Uses-writing _))

pub request_delete-Uses : (filename : List ℕ) → Uses (request_delete filename) 1
unfolding request_delete
request_delete-Uses filename =
    Uses-after _ _
      (λ a. Uses-after _ _ (λ b. Uses-after _ _ (λ c. Uses-after _ _ (λ d. read_status-Uses))))

pub request_upload-Uses : (filename buffer : List ℕ) → Uses (request_upload filename buffer) 1
unfolding request_upload
request_upload-Uses filename buffer = Uses-after _ _ (λ a.
    Uses-after _ _
      (λ b. Uses-after _ _ (λ c. Uses-after _ _ (λ d. Uses-after _ _ (λ e. read_status-Uses)))))

pub request_handshake-Uses :
    (username : List ℕ) (from_primary : Bool) → Uses (request_handshake username from_primary) 1
unfolding request_handshake
request_handshake-Uses username from_primary = Uses-after _ _ (λ a.
    Uses-after _ _
      (λ b. Uses-after _ _ (λ c. Uses-after _ _ (λ d. Uses-after _ _ (λ e. read_status-Uses)))))

read_descriptions-Uses : (n : ℕ) (files : List FileDescription) → Uses (read_descriptions n files) 0
unfolding read_descriptions read_u64
read_descriptions-Uses zero files = Uses-pure files
read_descriptions-Uses (suc n) files =
    Uses-bind _ _ 0 0 (Uses-reading (read_word-Drains 8 0 0)) (λ mtime.
      Uses-bind _ _ 0 0 (Uses-reading (read_word-Drains 8 0 0)) (λ atime.
        Uses-bind _ _ 0 0 (Uses-reading (read_word-Drains 8 0 0)) (λ ctime.
          Uses-bind _ _ 0 0 (Uses-reading (read_string-Drains []))
            (λ filename. read_descriptions-Uses n _))))

list_files_answer-Uses : (status : ℕ) → Uses (list_files_answer status) 0
unfolding list_files_answer read_u64
list_files_answer-Uses status = elim (Bool-cases (status == status_success)) [
  | inl e ↦ rw e (
      Uses-bind _ _ 0 0 (Uses-reading (read_word-Drains 8 0 0))
        (λ length. Uses-bind _ _ 0 0 (read_descriptions-Uses length []) (λ files. Uses-pure _)))
  | inr e ↦ rw e (Uses-pure _)
]

pub request_list_files-Uses : Uses request_list_files 1
unfolding request_list_files
request_list_files-Uses = Uses-after _ _ (λ a.
    Uses-after _ _
      (λ b. Uses-after _ _ (λ c. Uses-bind _ _ 1 0 read_status-Uses list_files_answer-Uses)))

Uses-fail : {A : Type 0} → Uses (fail {S = Connection} {A = A}) 0
unfolding fail
Uses-fail = record { at = λ c. omega arith }

event_of_code-Uses : (code : ℕ) → Uses (event_of_code code) 0
unfolding event_of_code
event_of_code-Uses code = elim (Bool-cases (code == 1)) [
  | inl e ↦ rw e (Uses-pure _)
  | inr e ↦
      rw e (elim (Bool-cases (code == 2)) [ inl f ↦ rw f (Uses-pure _) | inr f ↦ rw f Uses-fail ])
]

update_answer-Uses : (status : ℕ) → Uses (update_answer status) 0
unfolding update_answer read_u32
update_answer-Uses status = elim (Bool-cases (status == status_success)) [
  | inl e ↦ rw e (
      Uses-bind _ _ 0 0 (Uses-reading (read_word-Drains 4 0 0)) (λ code.
        Uses-bind _ _ 0 0 (Uses-reading (read_string-Drains []))
          (λ filename. Uses-bind _ _ 0 0 (event_of_code-Uses code) (λ type. Uses-pure _))))
  | inr e ↦ rw e (Uses-pure _)
]

pub request_update-Uses : Uses request_update 1
unfolding request_update
request_update-Uses = Uses-after _ _ (λ a.
    Uses-after _ _
      (λ b. Uses-after _ _ (λ c. Uses-bind _ _ 1 0 read_status-Uses update_answer-Uses)))
