-- ===== src/Protocol/Quiet.antt =====
-- Exchanges that only write: they leave the reader as it was, whatever the socket does.
use trabalho_sistemas_operac.Prelude.{ℕ, ◌≡◌, ◌∙◌, refl, Option, none, some, List, [], ◌∷◌, length}
use trabalho_sistemas_operac.Prelude.Exec.{Exec, continue, pure, ◌>>=◌}
use trabalho_sistemas_operac.Net.Writer.{
  Writer, write_u16, write_u8, write_u32, write_u64, write_string, write_byte_array, flush,
}
use trabalho_sistemas_operac.Net.Connection.{Connection, writing}
use trabalho_sistemas_operac.Protocol.{
  protocol_version, status_success, event_code, FileEvent, FileDescription, respond_status,
  respond_download_success, write_descriptions, respond_list_files_success, respond_update_some,
}

pub record Quiet {A : Type 0} (m : Exec Connection A) : Type 0 where
  pub at : (c : Connection) → (m c).1.reader ≡ c.reader

Quiet-pure : {A : Type 0} (a : A) → Quiet (pure a)
unfolding pure
Quiet-pure a = record { at = λ c. refl }

Quiet-writing : {A : Type 0} (m : Exec Writer A) → Quiet (writing m)
unfolding writing
Quiet-writing m = record { at = λ c. refl }

Quiet-bind :
    {A B : Type 0} (m : Exec Connection A) (f : A → Exec Connection B)
    → Quiet m
    → ((a : A) → Quiet (f a))
    → Quiet (m >>= f)
unfolding ◌>>=◌
Quiet-bind {A} m f hm hf = record { at = λ c. go c (m c) (hm.at c) }
  where
    go :
        (c : Connection) (x : Option A × Connection)
        → x.1.reader ≡ c.reader
        → (continue x.0 f x.1).1.reader ≡ c.reader
    go c (none, c') e = e
    go c (some a, c') e = (hf a).at c' ∙ e

-- A call on the writer, and then the rest.
Quiet-then :
    {B : Type 0} (m : Exec Writer (Unit {0})) (k : Exec Connection B)
    → Quiet k
    → Quiet (writing m >>= λ _. k)
Quiet-then m k h = Quiet-bind (writing m) (λ _. k) (Quiet-writing m) (λ _. h)

pub respond_status-Quiet : (status : ℕ) → Quiet (respond_status status)
unfolding respond_status
respond_status-Quiet status =
    Quiet-then (write_u16 protocol_version) _ (Quiet-then (write_u8 status) _ (Quiet-writing flush))

pub respond_download_success-Quiet : (file : List ℕ) → Quiet (respond_download_success file)
unfolding respond_download_success
respond_download_success-Quiet file = Quiet-then (write_u16 protocol_version) _ (
    Quiet-then (write_u8 status_success) _
      (Quiet-then (write_byte_array file) _ (Quiet-writing flush)))

write_descriptions-Quiet : (files : List FileDescription) → Quiet (write_descriptions files)
unfolding write_descriptions
write_descriptions-Quiet [] = Quiet-pure tt
write_descriptions-Quiet (f ∷ files) = Quiet-then (write_u64 f.mtime) _ (
    Quiet-then (write_u64 f.atime) _ (
      Quiet-then (write_u64 f.ctime) _
        (Quiet-then (write_string f.filename) _ (write_descriptions-Quiet files))))

pub respond_list_files_success-Quiet :
    (files : List FileDescription) → Quiet (respond_list_files_success files)
unfolding respond_list_files_success
respond_list_files_success-Quiet files = Quiet-then (write_u16 protocol_version) _ (
    Quiet-then (write_u8 status_success) _ (
      Quiet-then (write_u64 (length files)) _ (
        Quiet-bind (write_descriptions files) _ (write_descriptions-Quiet files)
          (λ _. Quiet-writing flush))))

pub respond_update_some-Quiet : (event : FileEvent) → Quiet (respond_update_some event)
unfolding respond_update_some
respond_update_some-Quiet event = Quiet-then (write_u16 protocol_version) _ (
    Quiet-then (write_u8 status_success) _ (
      Quiet-then (write_u32 (event_code event.type)) _
        (Quiet-then (write_string event.filename) _ (Quiet-writing flush))))
