-- ===== src/Election/Winner.antt =====
-- An election on a ring ends, and elects the best server.
use trabalho_sistemas_operac.Prelude.{
  ap, ◌∙◌, ◌≡◌, ◌⊎◌, true, List, [], ◌∷◌, ◌++◌, All-left, All, All-append, append-nil, inl, ℕ,
  subst, sym, ◌*◌, false, append_assoc, inr, length, All-right, ◌≤◌, ◌-◌, ◌+◌, arith, length-append,
}
use trabalho_sistemas_operac.Node.{Server, comp, server_eq}
use trabalho_sistemas_operac.Election.Ring.{
  Beats, Distinct, Apart, lap, elected, lap_below, lap-append, continue_lap, lap_takes,
  best_carries, lap_self,
}
use trabalho_sistemas_operac.Election.Order.{server_eq_symm}
use trabalho_sistemas_operac.Election.Walk.{walk, walk_twice}

-- `m` is the best of `i` and the others.
abbrev pub IsBest : Server → Server → List Server → Type 0
IsBest m i others =
    ((m ≡ i) × Beats i others)
    ⊎ ((a b : List Server) × (others ≡ a ++ m ∷ b) × Beats m a × Beats m (i ∷ b))

Distinct-append_left : (xs ys : List Server) → Distinct (xs ++ ys) → Distinct xs
Distinct-append_left [] ys d = tt
Distinct-append_left (x ∷ xs) ys d = (All-left _ xs ys d.0, Distinct-append_left xs ys d.1)

-- The message meets the best server, which takes it, and comes back to it.
lap_two :
    (m w : Server) (a b c : List Server)
    → Apart w a
    → Distinct a
    → Beats m a
    → comp m w ≡ true
    → Beats m b
    → lap w (a ++ m ∷ (b ++ m ∷ c)) ≡ elected m
lap_two m w a b c apart d ba h bb =
    let first = lap_below m w a apart d ba h in
    lap-append w a (m ∷ (b ++ m ∷ c))
    ∙ ap (λ r. continue_lap r (m ∷ (b ++ m ∷ c))) (first.1)
    ∙ lap_takes m (first.0) (b ++ m ∷ c) (first.2)
    ∙ lap-append m b (m ∷ c)
    ∙ ap (λ r. continue_lap r (m ∷ c)) (best_carries m b bb)
    ∙ lap_self m c

Apart-symm : (s : Server) (xs : List Server) → All (λ x. server_eq s x ≡ false) xs → Apart s xs
Apart-symm s [] h = tt
Apart-symm s (x ∷ xs) h = (server_eq_symm s x h.0, Apart-symm s xs h.1)

-- The servers other than `i`, in the order in which the ring visits them after `i`.
apart_from :
    (xs ys : List Server) (i : Server)
    → Distinct (xs ++ i ∷ ys)
    → All (λ x. server_eq i x ≡ false) xs
apart_from [] ys i d = tt
apart_from (x ∷ xs) ys i d =
    ((All-right (λ y. server_eq y x ≡ false) xs (i ∷ ys) d.0).0, apart_from xs ys i d.1)

Apart-others : (xs ys : List Server) (i : Server) → Distinct (xs ++ i ∷ ys) → Apart i (ys ++ xs)
Apart-others xs ys i d =
    All-append (λ x. server_eq x i ≡ false) ys xs (Distinct-right xs (i ∷ ys) d).0
      (Apart-symm i xs (apart_from xs ys i d))
  where
    Distinct-right : (xs ys : List Server) → Distinct (xs ++ ys) → Distinct ys
    Distinct-right [] ys d = d
    Distinct-right (x ∷ xs) ys d = Distinct-right xs ys d.1

Distinct-snoc : (xs : List Server) (x : Server) → Distinct xs → Apart x xs → Distinct (xs ++ x ∷ [])
Distinct-snoc [] x d a = (tt, tt)
Distinct-snoc (y ∷ xs) x d a = (
  All-append (λ z. server_eq z y ≡ false) xs (x ∷ []) d.0 (server_eq_symm y x a.0, tt),
  Distinct-snoc xs x d.1 a.1,
)

Distinct-rotate : (xs ys : List Server) → Distinct (xs ++ ys) → Distinct (ys ++ xs)
Distinct-rotate [] ys d = rw (append-nil ys) d
Distinct-rotate (x ∷ xs) ys d = subst Distinct (append_assoc ys (x ∷ []) xs) (
    Distinct-rotate xs (ys ++ x ∷ [])
      (subst Distinct (append_assoc xs ys (x ∷ [])) (Distinct-snoc (xs ++ ys) x d.1 d.0)))

Distinct-others : (xs ys : List Server) (i : Server) → Distinct (xs ++ i ∷ ys) → Distinct (ys ++ xs)
Distinct-others xs ys i d = (Distinct-rotate xs (i ∷ ys) d).1

rounds_best :
    (m i : Server) (others rest : List Server)
    → Apart i others
    → Distinct others
    → IsBest m i others
    → lap i (others ++ i ∷ (others ++ i ∷ rest)) ≡ elected m
rounds_best m i others rest apart d (inl (e, beats)) =
    lap-append i others (i ∷ (others ++ i ∷ rest))
    ∙ ap (λ r. continue_lap r (i ∷ (others ++ i ∷ rest))) (best_carries i others beats)
    ∙ lap_self i (others ++ i ∷ rest)
    ∙ ap elected (sym e)
rounds_best m i others rest apart d (inr (a, b, e, ba, bb)) =
    ap (λ o. lap i (o ++ i ∷ (o ++ i ∷ rest))) e
    ∙ ap (lap i) regroup
    ∙ lap_two m i a (b ++ i ∷ a) (b ++ i ∷ rest)
        (All-left (λ x. server_eq x i ≡ false) a (m ∷ b) (subst (Apart i) e apart))
        (Distinct-append_left a (m ∷ b) (subst Distinct e d)) ba bb.0
        (All-append (λ x. comp m x ≡ true) b (i ∷ a) bb.1 (bb.0, ba))
  where
    regroup :
        (a ++ m ∷ b) ++ i ∷ ((a ++ m ∷ b) ++ i ∷ rest)
        ≡ a ++ m ∷ ((b ++ i ∷ a) ++ m ∷ (b ++ i ∷ rest))
    regroup = simp append_assoc

-- On a ring of servers with different addresses, from any server that starts with itself, the
-- election message, passed on along `next_server` by the rule of the handler, elects the best
-- server of the ring, within any number of hops that is at least three times the number of servers.
pub election-elects_best :
    (xs ys : List Server) (i m : Server) (hops : ℕ)
    → Distinct (xs ++ i ∷ ys)
    → IsBest m i (ys ++ xs)
    → 3 * length (xs ++ i ∷ ys) ≤ hops
    → lap i (walk (xs ++ i ∷ ys) hops i) ≡ elected m
election-elects_best xs ys i m hops d best enough =
    let l : List Server = xs ++ i ∷ ys in
    let n : ℕ = hops - (length ys + (length l + length l)) in
    let visits = walk_twice xs ys i n d in
    let count : hops ≡ length ys + (length l + (length l + n)) =
      omega (arith, length-append xs (i ∷ ys), enough) in
    ap (λ k. lap i (walk l k i)) count
    ∙ ap (lap i) (visits.1 ∙ regroup (visits.0))
    ∙ rounds_best m i (ys ++ xs) (ys ++ visits.0) (Apart-others xs ys i d)
        (Distinct-others xs ys i d) best
  where
    regroup :
        (more : List Server)
        → ys ++ ((xs ++ i ∷ ys) ++ ((xs ++ i ∷ ys) ++ more))
          ≡ (ys ++ xs) ++ i ∷ ((ys ++ xs) ++ i ∷ (ys ++ more))
    regroup more = simp append_assoc
