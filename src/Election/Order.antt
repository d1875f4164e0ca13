-- ===== src/Election/Order.antt =====
-- `comp` orders the servers, by address and then by port.
use trabalho_sistemas_operac.Prelude.{◌≡◌, true, false, arith}
use trabalho_sistemas_operac.Node.{Server, comp, server_eq}

-- Of two servers with different addresses exactly one is better, and "better" is transitive.
pub comp_trans : (a b c : Server) → comp a b ≡ true → comp b c ≡ true → comp a c ≡ true
unfolding comp
comp_trans a b c h k = ground arith

pub comp-total : (a b : Server) → server_eq a b ≡ false → comp a b ≡ false → comp b a ≡ true
unfolding comp server_eq
comp-total a b h k = ground arith

pub comp-asymm : (a b : Server) → comp a b ≡ true → comp b a ≡ false
unfolding comp
comp-asymm a b h = ground arith

pub comp_irrefl : (a b : Server) → server_eq a b ≡ true → comp a b ≡ false
unfolding comp server_eq
comp_irrefl a b h = ground arith

pub server_eq_refl : (a : Server) → server_eq a a ≡ true
unfolding server_eq
server_eq_refl a = ground arith

pub server_eq_symm : (a b : Server) → server_eq a b ≡ false → server_eq b a ≡ false
unfolding server_eq
server_eq_symm a b h = ground arith

-- Equal addresses compare alike.
pub comp-eq : (a b c : Server) → server_eq a b ≡ true → comp a c ≡ comp b c
unfolding comp server_eq
comp-eq a b c h = ground arith
