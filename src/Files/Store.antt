-- ===== src/Files/Store.antt =====
-- What is written to a file is what is read from it (server/src/file_manager.cpp).
use mathlib.Core.Option.{some-injective}
use mathlib.Core.Bool.{false≢true}
use trabalho_sistemas_operac.Prelude.{
  ℕ, zero, suc, ◌+◌, ◌-◌, ◌≤◌, ◌≡◌, refl, sym, ap, ◌∙◌, true, Option, none, some, List, [], ◌∷◌,
  ◌++◌, length, take, drop, append-nil, append_assoc, arith, length-append,
}
use trabalho_sistemas_operac.Files.{
  flushed, write_opened, Os, Opened, Stat, FileMetadata, read_loop, write_loop, write_file,
  read_file, with_stat,
}

-- All that the calls return, or take.
unfoldable pub joined : List (List ℕ) → List ℕ
joined [] = []
joined (bs ∷ rest) = bs ++ joined rest

unfoldable pub total : List ℕ → ℕ
total [] = 0
total (n ∷ sizes) = n + total sizes

-- A file system that keeps files, by the contents of each: a file is empty once it is opened for
-- writing, grows by what is appended, and is read from its start to its end.
pub record Stores {D : Type 0} (os : Os D) (contents : List ℕ → D → Option (List ℕ)) : Type 0 where
  pub opens :
      (path : List ℕ) (amount : ℕ) (disk disk' : D) (sizes : List ℕ)
      → os.open_write path amount disk ≡ some (sizes, disk')
      → contents path disk' ≡ some []
  pub appends :
      (path bytes more : List ℕ) (disk : D)
      → contents path disk ≡ some bytes
      → contents path (os.append path more disk) ≡ some (bytes ++ more)
  pub reads :
      (path bytes : List ℕ) (disk : D)
      → contents path disk ≡ some bytes
      → (file : Opened) × (os.open_read path disk ≡ some file)
        × (file.size ≡ length bytes)
        × (file.allocated ≡ true)
        × (joined file.reads ≡ bytes)
  pub stats :
      (path bytes : List ℕ) (disk : D)
      → contents path disk ≡ some bytes
      → (st : Stat) × (os.stat path disk ≡ some st)

take-drop : (n : ℕ) (xs : List ℕ) → take n xs ++ drop n xs ≡ xs
take-drop zero xs = refl
take-drop (suc n) [] = refl
take-drop (suc n) (x ∷ xs) = ap (λ ys. x ∷ ys) (take-drop n xs)

take_all : (n : ℕ) (xs : List ℕ) → length xs ≤ n → take n xs ≡ xs
take_all zero [] h = refl
take_all zero (x ∷ xs) h = elim h [ ]
take_all (suc n) [] h = refl
take_all (suc n) (x ∷ xs) h = ap (λ ys. x ∷ ys) (take_all n xs (omega arith))

empty_eq : (xs : List ℕ) → 0 ≡ length xs → xs ≡ []
empty_eq [] e = refl
empty_eq (x ∷ xs) e = ground arith

pub read_loop-joined :
    (reads : List (List ℕ)) (amount : ℕ) (acc : List ℕ)
    → amount ≡ length (joined reads)
    → read_loop reads amount acc ≡ some (acc ++ joined reads)
unfolding read_loop joined
read_loop-joined [] zero acc e = rw append-nil refl
read_loop-joined [] (suc amount) acc e = ground arith
read_loop-joined (read ∷ reads) zero acc e =
    ap some (sym (append-nil acc) ∙ ap (λ bs. acc ++ bs) (sym (empty_eq (read ++ joined reads) e)))
read_loop-joined (read ∷ reads) (suc amount) acc e =
    let l = length-append read (joined reads) in
    rw (take_all (suc amount) read (omega arith), read_loop)
      (read_loop-joined reads (suc amount - length read) (acc ++ read) (omega arith)
        ∙ ap some (append_assoc acc read (joined reads)))

flushed-eq : {D : Type 0} (d : Option D) (disk : D) → flushed d ≡ some (true, disk) → d ≡ some disk
flushed-eq none disk e = cc e
flushed-eq (some d) disk e = ap some (ap (λ x. x.1) (some-injective _ _ e))

module _ {D : Type 0} (os : Os D) where
  write_loop-contents :
      (contents : List ℕ → D → Option (List ℕ))
      → Stores os contents
      → (path sizes buf bytes : List ℕ) (disk disk' : D) → contents path disk ≡ some bytes
      → write_loop os path sizes buf disk ≡ some disk'
      → contents path disk' ≡ some (bytes ++ buf)
  unfolding write_loop
  write_loop-contents contents h path sizes [] bytes disk disk' e w = cc (e, w, append-nil bytes)
  write_loop-contents contents h path [] (b ∷ buf) bytes disk disk' e w = cc w
  write_loop-contents contents h path (n ∷ sizes) (b ∷ buf) bytes disk disk' e w =
      write_loop-contents contents h path sizes (drop n (b ∷ buf)) (bytes ++ take n (b ∷ buf)) _
        disk' (h.appends path bytes _ disk e) w
      ∙ ap some (append_assoc bytes _ _ ∙ ap (λ bs. bytes ++ bs) (take-drop n (b ∷ buf)))

  write_file-contents :
      (contents : List ℕ → D → Option (List ℕ))
      → Stores os contents
      → (path buf : List ℕ) (disk disk' : D) → write_file os path buf disk ≡ some (true, disk')
      → contents path disk' ≡ some buf
  unfolding write_file
  write_file-contents contents h path buf disk disk' w =
      go (os.open_write path (length buf) disk)
        (λ sizes opened e d l.
          write_loop-contents contents h path sizes buf [] opened d
            (h.opens path (length buf) disk opened sizes e) l)
        w
    where
      go :
          (o : Option (List ℕ × D))
          → ((sizes : List ℕ) (opened : D)
              → o ≡ some (sizes, opened)
              → (d : D) → write_loop os path sizes buf opened ≡ some d
              → contents path d ≡ some buf)
          → write_opened os path buf disk o ≡ some (true, disk')
          → contents path disk' ≡ some buf
      go none next w = elim (false≢true (ap (λ x. x.0) (some-injective _ _ w))) [ ]
      go (some (sizes, opened)) next w = next sizes opened refl disk' (flushed-eq _ disk' w)

  -- On a file system that keeps the contents of files, whatever the sizes that `fwrite` and `fread`
  -- move: where `write_file` returns true, `read_file` of the same path returns true, with the
  -- bytes and the length that were written.
  pub write_file-read_file :
      (contents : List ℕ → D → Option (List ℕ))
      → Stores os contents
      → (path buf : List ℕ) (disk disk' : D) → write_file os path buf disk ≡ some (true, disk')
      → (m : FileMetadata) × (read_file os path disk' ≡ some (some m))
        × (m.contents ≡ buf)
        × (m.length ≡ length buf)
  unfolding read_file with_stat
  write_file-read_file contents h path buf disk disk' w =
      let c = write_file-contents contents h path buf disk disk' w in
      let (file, opened, size, allocated, all) = h.reads path buf disk' c in
      let (st, stat) = h.stats path buf disk' c in
      let loop = read_loop-joined file.reads file.size [] (size ∙ ap length (sym all)) in
      (
        record {
          length = file.size;
          mtime = st.mtime;
          atime = st.atime;
          ctime = st.ctime;
          contents = joined file.reads;
        },
        rw (opened, read_file, loop, allocated, stat, with_stat) refl,
        all,
        size,
      )
