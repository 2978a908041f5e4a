-- ===== src/Format/Kind.antt =====
-- The symbol kinds of format.rs.
use scry.Prelude.{ℕ}

abbrev pub unk : ℕ
unk = 0

abbrev pub function : ℕ
function = 1

abbrev pub type : ℕ
type = 2

abbrev pub variable : ℕ
variable = 3

abbrev pub field : ℕ
field = 4

abbrev pub package' : ℕ
package' = 5
