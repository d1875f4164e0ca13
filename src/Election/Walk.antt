-- ===== src/Election/Walk.antt =====
-- Following `next_server` from any server goes round the ring of the metadata.
use native.Mathlib.Nat.{mod-eq_of_lt, mod_self, zero-add, suc-add}
use trabalho_sistemas_operac.Prelude.{
  refl, sym, ap, ◌∙◌, subst, ℕ, zero, suc, ◌+◌, ◌%◌, ◌<◌, ◌≡◌, false, List, [], ◌∷◌, ◌++◌, arith,
  length, length-append, get_or, append_assoc,
}
use trabalho_sistemas_operac.Node.{Server, server_eq}
use trabalho_sistemas_operac.Election.{next_server, index_of}
use trabalho_sistemas_operac.Election.Ring.{Apart, Distinct}
use trabalho_sistemas_operac.Election.Order.{server_eq_symm, server_eq_refl}

-- The next `n` servers after `s`.
unfoldable pub walk : List Server → ℕ → Server → List Server
walk servers zero s = []
walk servers (suc n) s = next_server servers s ∷ walk servers n (next_server servers s)

Apart-middle : (xs ys : List Server) (x s : Server) → Apart x (xs ++ s ∷ ys) → server_eq x s ≡ false
Apart-middle [] ys x s a = server_eq_symm s x a.0
Apart-middle (y ∷ xs) ys x s a = Apart-middle xs ys x s a.1

index_of-middle :
    (xs ys : List Server) (s : Server)
    → Distinct (xs ++ s ∷ ys)
    → index_of s (xs ++ s ∷ ys) ≡ length xs
unfolding index_of
index_of-middle [] ys s d = rw server_eq_refl refl
index_of-middle (x ∷ xs) ys s d =
    rw (Apart-middle xs ys x s d.0) (ap suc (index_of-middle xs ys s d.1))

get_or-middle : (xs ys : List Server) (s d : Server) → get_or (xs ++ s ∷ ys) (length xs) d ≡ s
get_or-middle [] ys s d = refl
get_or-middle (x ∷ xs) ys s d = get_or-middle xs ys s d

-- Inside the list the next server is the next entry.
next_server_inside :
    (xs ys : List Server) (s t : Server)
    → Distinct (xs ++ s ∷ t ∷ ys)
    → next_server (xs ++ s ∷ t ∷ ys) s ≡ t
unfolding next_server
next_server_inside xs ys s t d =
    let l : List Server = xs ++ s ∷ t ∷ ys in
    let e : index_of s l + 1 ≡ length (xs ++ s ∷ []) =
      omega (arith, index_of-middle xs (t ∷ ys) s d, length-append xs (s ∷ [])) in
    let lt : length (xs ++ s ∷ []) < length l =
      omega (arith, length-append xs (s ∷ t ∷ ys), length-append xs (s ∷ [])) in
    let split : l ≡ (xs ++ s ∷ []) ++ t ∷ ys = sym (append_assoc xs (s ∷ []) (t ∷ ys)) in
    ap (λ i. get_or l (i % length l) s) e
    ∙ ap (λ i. get_or l i s) (mod-eq_of_lt lt)
    ∙ ap (λ k. get_or k (length (xs ++ s ∷ [])) s) split
    ∙ get_or-middle (xs ++ s ∷ []) ys t s

-- At the end of the list it is the first entry.
next_server_last :
    (x : Server) (xs ys : List Server) (s : Server)
    → Distinct (xs ++ s ∷ [])
    → xs ++ s ∷ [] ≡ x ∷ ys
    → next_server (xs ++ s ∷ []) s ≡ x
unfolding next_server
next_server_last x xs ys s d e =
    let l : List Server = xs ++ s ∷ [] in
    let full : index_of s l + 1 ≡ length l =
      omega (arith, index_of-middle xs [] s d, length-append xs (s ∷ [])) in
    ap (λ i. get_or l (i % length l) s) full
    ∙ ap (λ i. get_or l i s) (mod_self (length l))
    ∙ ap (λ k. get_or k 0 s) e

walk_step :
    (l : List Server) (n : ℕ) (s t : Server)
    → next_server l s ≡ t
    → walk l (suc n) s ≡ t ∷ walk l n t
unfolding walk
walk_step l n s t e = rw e refl

-- From an entry the walk visits the entries behind it, and goes on from the last of them.
abbrev last_of : Server → List Server → Server
last_of s [] = s
last_of s (t ∷ ys) = last_of t ys

walk_tail :
    (xs ys : List Server) (s : Server) (n : ℕ)
    → Distinct (xs ++ s ∷ ys)
    → walk (xs ++ s ∷ ys) (length ys + n) s ≡ ys ++ walk (xs ++ s ∷ ys) n (last_of s ys)
walk_tail xs [] s n d = ap (λ k. walk (xs ++ s ∷ []) k s) (zero-add n)
walk_tail xs (t ∷ ys) s n d =
    let l : List Server = xs ++ s ∷ t ∷ ys in
    let split : (xs ++ s ∷ []) ++ t ∷ ys ≡ l = append_assoc xs (s ∷ []) (t ∷ ys) in
    ap (λ k. walk l k s) (suc-add (length ys) n)
    ∙ walk_step l (length ys + n) s t (next_server_inside xs ys s t d)
    ∙ ap (◌∷◌ t) (
        subst (λ k. walk k (length ys + n) t ≡ ys ++ walk k n (last_of t ys)) split
          (walk_tail (xs ++ s ∷ []) ys t n (subst Distinct (sym split) d)))

last_split :
    (xs ys : List Server) (s : Server)
    → (zs : List Server) × (xs ++ s ∷ ys ≡ zs ++ last_of s ys ∷ [])
last_split xs [] s = (xs, refl)
last_split xs (t ∷ ys) s =
    let rest = last_split (xs ++ s ∷ []) ys t in
    (rest.0, sym (append_assoc xs (s ∷ []) (t ∷ ys)) ∙ rest.1)

-- From the last entry the walk goes once round.
walk_round :
    (l : List Server) (h : Server) (t zs : List Server) (s : Server) (n : ℕ)
    → l ≡ h ∷ t
    → l ≡ zs ++ s ∷ []
    → Distinct l
    → walk l (length l + n) s ≡ l ++ walk l n (last_of h t)
walk_round l h t zs s n front back d =
    let head : next_server l s ≡ h =
      subst (λ k. next_server k s ≡ h) (sym back)
        (next_server_last h zs t s (subst Distinct back d) (sym back ∙ front)) in
    let size : length l + n ≡ suc (length t + n) = omega (arith, ap length front) in
    let tail : walk l (length t + n) h ≡ t ++ walk l n (last_of h t) =
      subst (λ k. walk k (length t + n) h ≡ t ++ walk k n (last_of h t)) (sym front)
        (walk_tail [] t h n (subst Distinct front d)) in
    ap (λ k. walk l k s) size
    ∙ walk_step l (length t + n) s h head
    ∙ ap (◌∷◌ h) tail
    ∙ ap (λ k. k ++ walk l n (last_of h t)) (sym front)

cons_split :
    (xs ys : List Server) (s : Server) → (h : Server) × (t : List Server) × (xs ++ s ∷ ys ≡ h ∷ t)
cons_split [] ys s = (s, ys, refl)
cons_split (x ∷ xs) ys s = (x, xs ++ s ∷ ys, refl)

-- From any entry the walk visits the entries behind it, and then the whole ring twice.
pub walk_twice :
    (xs ys : List Server) (s : Server) (n : ℕ)
    → Distinct (xs ++ s ∷ ys)
    → let l = xs ++ s ∷ ys in
      (more : List Server) × (walk l (length ys + (length l + (length l + n))) s
        ≡ ys ++ (l ++ (l ++ more)))
walk_twice xs ys s n d =
    let l : List Server = xs ++ s ∷ ys in
    let (h, t, front) = cons_split xs ys s in
    let back = last_split xs ys s in
    let back' = last_split [] t h in
    (
      walk l n (last_of h t),
      walk_tail xs ys s (length l + (length l + n)) d
          ∙ ap (◌++◌ ys) (
              walk_round l h t back.0 (last_of s ys) (length l + n) front back.1 d
              ∙ ap (◌++◌ l) (walk_round l h t back'.0 (last_of h t) n front (front ∙ back'.1) d)),
    )
