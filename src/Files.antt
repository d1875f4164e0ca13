-- ===== src/Files.antt =====
-- The files of a server on its disk (server/src/file_manager.cpp). The C library and the file
-- system are parameters: what the next calls of `fread` and `fwrite` on an open file give, and what
-- they do to the disk. Where their answers have ended, a call moves no byte, and so do all later
-- ones; a loop that waits for more never returns, which is `none`.
pub mod Store
pub mod Progress
pub mod Listing
use trabalho_sistemas_operac.Prelude.{
  ℕ, zero, suc, ◌+◌, ◌-◌, Bool, true, false, Option, none, some, List, [], ◌∷◌, ◌++◌, ◌==◌, ◌&&◌,
  if◌then◌else◌, length, take, drop,
}
use trabalho_sistemas_operac.Protocol.{FileDescription}

-- `struct stat`, as far as it is used.
pub record Stat : Type 0 where
  pub mtime : ℕ
  pub atime : ℕ
  pub ctime : ℕ

-- A file that is open for reading: its length by `ftell`, whether `malloc` finds that much memory,
-- and the bytes that calls of `fread` return.
pub record Opened : Type 0 where
  pub size : ℕ
  pub allocated : Bool
  pub reads : List (List ℕ)

-- What `directory_iterator` gives.
pub record Entry : Type 0 where
  pub path : List ℕ
  pub regular : Bool
  pub stat : Option Stat

pub record Os (D : Type 0) : Type 0 where
  pub open_read : List ℕ → D → Option Opened
  -- The disk with the file empty, and how many bytes the calls of `fwrite` take when a buffer of
  -- the given length is offered to them.
  pub open_write : List ℕ → ℕ → D → Option (List ℕ × D)
  pub append : List ℕ → List ℕ → D → D
  pub stat : List ℕ → D → Option Stat
  pub remove : List ℕ → D → Bool × D
  -- `none` where the path is not a directory.
  pub directory : List ℕ → D → Option (List Entry)

-- `file_metadata_t`
pub record FileMetadata : Type 0 where
  pub length : ℕ
  pub mtime : ℕ
  pub atime : ℕ
  pub ctime : ℕ
  pub contents : List ℕ

-- The loop of `read_file`, with `amount` bytes still to read. Its test `read_size < 0` never holds,
-- as the size is unsigned.
unfoldable pub read_loop : List (List ℕ) → ℕ → List ℕ → Option (List ℕ)
read_loop reads zero bytes = some bytes
read_loop [] (suc amount) bytes = none
read_loop (read ∷ reads) (suc amount) bytes =
    read_loop reads (suc amount - length read) (bytes ++ take (suc amount) read)

-- `std::string::find`, from `i` on, and whether a string starts with another.
unfoldable pub starts_with : List ℕ → List ℕ → Bool
starts_with [] text = true
starts_with (x ∷ xs) [] = false
starts_with (x ∷ xs) (y ∷ ys) = (x == y) && starts_with xs ys

unfoldable pub find : List ℕ → List ℕ → ℕ → Option ℕ
find path [] i = if starts_with path [] then some i else none
find path (y ∷ ys) i =
    let later = find path ys (i + 1) in if starts_with path (y ∷ ys) then some i else later

-- `filename.erase(i, path.length()+1)`, where `path` is found.
unfoldable pub strip : List ℕ → List ℕ → List ℕ
strip path filename = elim (find path filename 0) [
  | none ↦ filename
  | some i ↦ take i filename ++ drop (i + (length path + 1)) filename
]

unfoldable pub describe : List ℕ → Entry → Stat → FileDescription
describe path e st = record {
  filename = strip path e.path;
  mtime = st.mtime;
  atime = st.atime;
  ctime = st.ctime;
}

-- The loop of `list_files`.
unfoldable pub list_entries :
    List ℕ → List Entry → List FileDescription → Option (List FileDescription)
list_entries path [] files_list = some files_list
list_entries path (e ∷ entries) files_list =
    let skipped = list_entries path entries files_list in
    let listed : Option (List FileDescription) = elim e.stat [
      | none ↦ none
      | some st ↦ list_entries path entries (files_list ++ describe path e st ∷ [])
    ] in
    if e.regular then listed else skipped

-- The end of `write_file`, after its loop.
abbrev pub flushed : {D : Type 0} → Option D → Option (Bool × D)
flushed none = none
flushed (some disk) = some (true, disk)

module _ {D : Type 0} (os : Os D) where
  -- The loop of `write_file` on what is left of the buffer; its test `write_size < 0` never holds.
  unfoldable pub write_loop : List ℕ → List ℕ → List ℕ → D → Option D
  write_loop path sizes [] disk = some disk
  write_loop path [] (b ∷ buf) disk = none
  write_loop path (n ∷ sizes) (b ∷ buf) disk =
      write_loop path sizes (drop n (b ∷ buf)) (os.append path (take n (b ∷ buf)) disk)

  abbrev pub write_opened : List ℕ → List ℕ → D → Option (List ℕ × D) → Option (Bool × D)
  write_opened path buf disk none = some (false, disk)
  write_opened path buf disk (some (sizes, opened)) = flushed (write_loop path sizes buf opened)

  unfoldable pub write_file : List ℕ → List ℕ → D → Option (Bool × D)
  write_file path buf disk = write_opened path buf disk (os.open_write path (length buf) disk)

  unfoldable pub with_stat : List ℕ → Opened → List ℕ → D → Option FileMetadata
  with_stat path file bytes disk = elim (os.stat path disk) [
    | none ↦ none
    | some st ↦ some (record {
      length = file.size;
      mtime = st.mtime;
      atime = st.atime;
      ctime = st.ctime;
      contents = bytes;
    })
  ]

  -- The inner `none` is a call that returns `false`.
  unfoldable pub read_file : List ℕ → D → Option (Option FileMetadata)
  read_file path disk = elim (os.open_read path disk) [
    | none ↦ some none
    | some file ↦
        let result : Option (Option FileMetadata) = elim (read_loop file.reads file.size []) [
          | none ↦ none
          | some bytes ↦ some (with_stat path file bytes disk)
        ] in
        if file.allocated then result else some none
  ]

  unfoldable pub delete_file : List ℕ → D → Bool × D
  delete_file path disk = os.remove path disk

  unfoldable pub list_files : List ℕ → D → Option (List FileDescription)
  list_files path disk = elim (os.directory path disk) [
    | none ↦ none
    | some entries ↦ list_entries path entries []
  ]
