-- ===== src/Format/Role.antt =====
-- The roles of format.rs that Kythe's edge kinds collapse onto.
use scry.Prelude.{ℕ}

abbrev pub decl : ℕ
decl = 0

abbrev pub def : ℕ
def = 1

abbrev pub ref : ℕ
ref = 2

abbrev pub call : ℕ
call = 3
