-- ===== src/Election/Ring.antt =====
-- A turn of the election message round the ring, as a computation on servers alone.
use trabalho_sistemas_operac.Prelude.{
  refl, ◌≡◌, inl, inr, true, false, Option, none, some, List, [], ◌∷◌, ◌++◌, if◌then◌else◌, All,
  arith, Bool-cases, Option-cases,
}
use trabalho_sistemas_operac.Node.{Server, comp, server_eq}
use trabalho_sistemas_operac.Election.Order.{server_eq_refl, comp-asymm, server_eq_symm}

-- What a server does with an election message: it is elected (`none`), or passes a server on.
unfoldable pub decide : Server → Server → Option Server
decide current winner =
    if server_eq current winner
    then none
    else if comp current winner
    then some current
    else some winner

decide_better :
    (s winner : Server)
    → server_eq s winner ≡ false
    → comp s winner ≡ true
    → decide s winner ≡ some s
unfolding decide
decide_better s winner e h = rw (e, h) refl

decide_worse :
    (s winner : Server)
    → server_eq s winner ≡ false
    → comp s winner ≡ false
    → decide s winner ≡ some winner
unfolding decide
decide_worse s winner e h = rw (e, h) refl

decide_self : (s : Server) → decide s s ≡ none
unfolding decide
decide_self s = rw server_eq_refl refl

-- The message visits the servers of a list: the winner that it leaves with, or the server that was
-- elected on the way.
pub data Lap : Type 0 where
  elected carried : Server → Lap

unfoldable pub lap : Server → List Server → Lap
lap winner [] = carried winner
lap winner (s ∷ servers) = elim (decide s winner) [
  | none ↦ elected s
  | some winner' ↦ lap winner' servers
]

abbrev pub continue_lap : Lap → List Server → Lap
continue_lap (elected s) servers = elected s
continue_lap (carried winner) servers = lap winner servers

pub lap-append :
    (winner : Server) (xs ys : List Server)
    → lap winner (xs ++ ys) ≡ continue_lap (lap winner xs) ys
unfolding lap
lap-append winner [] ys = refl
lap-append winner (s ∷ xs) ys = elim (Option-cases (decide s winner)) [
  | inl e ↦ rw (e, lap) refl
  | inr (w, e) ↦ rw (e, lap) (lap-append w xs ys)
]

-- No server of the list has the address of `s`; no two servers of the list have the same.
abbrev pub Apart : Server → List Server → Type 0
Apart s = All (λ x. server_eq x s ≡ false)

abbrev pub Distinct : List Server → Type 0
Distinct [] = Unit
Distinct (s ∷ servers) = Apart s servers × Distinct servers

-- `m` is better than every server of the list.
abbrev pub Beats : Server → List Server → Type 0
Beats m = All (λ x. comp m x ≡ true)

beaten_apart : (m s : Server) → comp m s ≡ true → server_eq s m ≡ false
unfolding comp server_eq
beaten_apart m s h = ground arith

-- Below `m` nobody is elected, and the winner stays below `m`.
pub lap_below :
    (m winner : Server) (servers : List Server)
    → Apart winner servers
    → Distinct servers
    → Beats m servers
    → comp m winner ≡ true
    → (w : Server) × (lap winner servers ≡ carried w) × (comp m w ≡ true)
unfolding lap
lap_below m winner [] a d b h = (winner, refl, h)
lap_below m winner (s ∷ servers) a d b h = elim (Bool-cases (comp s winner)) [
  | inl better ↦
      let rest = lap_below m s servers d.0 d.1 b.1 b.0 in
      (rest.0, rw (decide_better s winner a.0 better, lap) (rest.1), rest.2)
  | inr worse ↦
      let rest = lap_below m winner servers a.1 d.1 b.1 h in
      (rest.0, rw (decide_worse s winner a.0 worse, lap) (rest.1), rest.2)
]

-- The best server passes itself on whatever it hears from others.
pub best_carries :
    (m : Server) (servers : List Server) → Beats m servers → lap m servers ≡ carried m
unfolding lap
best_carries m [] b = refl
best_carries m (s ∷ servers) b =
    rw (decide_worse s m (beaten_apart m s b.0) (comp-asymm m s b.0), lap)
      (best_carries m servers b.1)

-- The best server puts itself in the place of what it hears, and is elected when it hears of itself.
pub lap_takes :
    (m w : Server) (servers : List Server) → comp m w ≡ true → lap w (m ∷ servers) ≡ lap m servers
unfolding lap
lap_takes m w servers h =
    rw (decide_better m w (server_eq_symm w m (beaten_apart m w h)) h, lap) refl

pub lap_self : (m : Server) (servers : List Server) → lap m (m ∷ servers) ≡ elected m
unfolding lap
lap_self m servers = rw (decide_self m, lap) refl
