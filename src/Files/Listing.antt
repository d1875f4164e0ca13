-- ===== src/Files/Listing.antt =====
-- What `list_files` lists (server/src/file_manager.cpp).
use mathlib.Core.Option.{some-injective}
use trabalho_sistemas_operac.Prelude.{
  ℕ, suc, ◌+◌, ◌≡◌, ◌∙◌, refl, sym, ap, Bool-cases, Option-cases, inl, inr, arith, Bool, true, none,
  some, List, [], ◌∷◌, ◌++◌, length, drop, append-nil, append_assoc, map, ==_self, if◌then◌else◌,
}
use trabalho_sistemas_operac.Protocol.{FileDescription}
use trabalho_sistemas_operac.Files.{
  Os, Entry, Stat, starts_with, find, strip, describe, list_entries, list_files,
}

starts_with-append : (path rest : List ℕ) → starts_with path (path ++ rest) ≡ true
unfolding starts_with
starts_with-append [] rest = refl
starts_with-append (x ∷ path) rest = rw (==_self x) (starts_with-append path rest)

find-first : (path text : List ℕ) (i : ℕ) → starts_with path text ≡ true → find path text i ≡ some i
unfolding find
find-first path [] i e = rw e refl
find-first path (y ∷ text) i e = rw e refl

drop_past :
    (path : List ℕ) (c : ℕ) (name : List ℕ) → drop (suc (length path)) (path ++ c ∷ name) ≡ name
drop_past [] c name = refl
drop_past (x ∷ path) c name = drop_past path c name

strip-path : (path name : List ℕ) → strip path (path ++ 47 ∷ name) ≡ name
unfolding strip
strip-path path name =
    let e : 0 + (length path + 1) ≡ suc (length path) = omega arith in
    rw (find-first path (path ++ 47 ∷ name) 0 (starts_with-append path (47 ∷ name)), strip, e)
      (drop_past path 47 name)

-- A file of a directory, and whether it is a regular one.
pub record Member : Type 0 where
  pub file : FileDescription
  pub regular : Bool

abbrev pub entry_of : List ℕ → Member → Entry
entry_of path m = record {
  path = path ++ 47 ∷ m.file.filename;
  regular = m.regular;
  stat = some (record { mtime = m.file.mtime; atime = m.file.atime; ctime = m.file.ctime });
}

describe-entry :
    (path : List ℕ) (m : Member) (st : Stat)
    → (entry_of path m).stat ≡ some st
    → describe path (entry_of path m) st ≡ m.file
unfolding describe
describe-entry path m st e = rw (strip-path path m.file.filename, ← some-injective _ _ e) refl

unfoldable pub regular_files : List Member → List FileDescription
regular_files [] = []
regular_files (m ∷ members) =
    if m.regular then m.file ∷ regular_files members else regular_files members

list_entries-regular :
    (path : List ℕ) (members : List Member) (before : List FileDescription)
    → list_entries path (map (entry_of path) members) before
      ≡ some (before ++ regular_files members)
unfolding list_entries regular_files describe
list_entries-regular path [] before = ap some (sym (append-nil before))
list_entries-regular path (m ∷ members) before = elim (Bool-cases m.regular) [
  | inl e ↦ rw e (
      rw (describe-entry path m _ refl) (
        list_entries-regular path members (before ++ m.file ∷ [])
        ∙ ap some (append_assoc before (m.file ∷ []) (regular_files members))))
  | inr e ↦ rw e (list_entries-regular path members before)
]

list_entries-refuses :
    (path : List ℕ) (before after : List Entry) (files : List FileDescription) (e : Entry)
    → e.regular ≡ true
    → e.stat ≡ none
    → list_entries path (before ++ e ∷ after) files ≡ none
unfolding list_entries
list_entries-refuses path [] after files e r n = rw (r, n) refl
list_entries-refuses path (b ∷ before) after files e r n = elim (Bool-cases b.regular) [
  | inr q ↦ rw q (list_entries-refuses path before after files e r n)
  | inl q ↦ elim (Option-cases b.stat) [
    | inl o ↦ rw (q, o) refl
    | inr (st, o) ↦ rw (q, o) (list_entries-refuses path before after _ e r n)
  ]
]

module _ {D : Type 0} (os : Os D) where
  -- For a directory whose entries are the path, a slash and a name, and whose regular files can be
  -- looked at, `list_files` returns exactly the regular files, in order, with their names and
  -- times.
  pub list_files-regular :
      (path : List ℕ) (members : List Member) (disk : D)
      → os.directory path disk ≡ some (map (entry_of path) members)
      → list_files os path disk ≡ some (regular_files members)
  unfolding list_files
  list_files-regular path members disk e = rw (e, list_files) (list_entries-regular path members [])

  -- For a directory with a regular file that `stat` cannot look at, wherever it stands,
  -- `list_files` returns false.
  pub list_files-refuses :
      (path : List ℕ) (before after : List Entry) (e : Entry) (disk : D)
      → e.regular ≡ true
      → e.stat ≡ none
      → os.directory path disk ≡ some (before ++ e ∷ after)
      → list_files os path disk ≡ none
  unfolding list_files
  list_files-refuses path before after e disk r n d =
      rw (d, list_files) (list_entries-refuses path before after [] e r n)
