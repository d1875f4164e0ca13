-- ===== src/Files/Progress.antt =====
-- When the loops of server/src/file_manager.cpp return.
use trabalho_sistemas_operac.Prelude.{
  ℕ, ◌≤◌, ◌<◌, ◌≡◌, ◌↔◌, ◌⊎◌, inl, inr, leb, Bool-cases, refl, none, some, List, [], ◌∷◌, length,
  drop, arith, length-drop,
}
use trabalho_sistemas_operac.Files.{Os, write_loop, write_file, true}
use trabalho_sistemas_operac.Files.Store.{total}

at_most_or_above : (a b : ℕ) → (a ≤ b) ⊎ (b < a)
at_most_or_above a b = elim (Bool-cases (leb a b)) [
  | inl e ↦ inl (ground arith)
  | inr e ↦ inr (ground arith)
]

module _ {D : Type 0} (os : Os D) where
  write_loop-stuck :
      (path sizes buf : List ℕ) (disk : D)
      → total sizes < length buf
      → write_loop os path sizes buf disk ≡ none
  unfolding write_loop total
  write_loop-stuck path sizes [] disk h = ground arith
  write_loop-stuck path [] (b ∷ buf) disk h = refl
  write_loop-stuck path (n ∷ sizes) (b ∷ buf) disk h =
      write_loop-stuck path sizes (drop n (b ∷ buf)) _ (omega (arith, length-drop n (b ∷ buf)))

  pub write_loop-returns :
      (path sizes buf : List ℕ) (disk : D)
      → length buf ≤ total sizes
      → (d : D) × (write_loop os path sizes buf disk ≡ some d)
  unfolding write_loop total
  write_loop-returns path sizes [] disk h = (disk, refl)
  write_loop-returns path [] (b ∷ buf) disk h = elim h [ ]
  write_loop-returns path (n ∷ sizes) (b ∷ buf) disk h =
      write_loop-returns path sizes (drop n (b ∷ buf)) _ (omega (arith, length-drop n (b ∷ buf)))

  -- Once the file is open, `write_file` never returns if and only if the calls of `fwrite` take
  -- fewer bytes in all than the buffer has.
  pub write_file-stuck :
      (path buf sizes : List ℕ) (disk opened : D)
      → os.open_write path (length buf) disk ≡ some (sizes, opened)
      → (write_file os path buf disk ≡ none) ↔ (total sizes < length buf)
  unfolding write_file
  write_file-stuck path buf sizes disk opened e = (
    λ w. elim (at_most_or_above (length buf) (total sizes)) [
      | inl h ↦
          let l = write_loop-returns path sizes buf opened h in
          let done : write_file os path buf disk ≡ some (true, l.0) =
            rw (e, write_file, l.1) refl in
          cc (w, done)
      | inr h ↦ h
    ],
    λ h. rw (e, write_file, write_loop-stuck path sizes buf opened h) refl,
  )
