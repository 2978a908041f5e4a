-- ===== src/Format/Lang.antt =====
-- The language bytes of format.rs.
use scry.Prelude.{ℕ}

abbrev pub unk : ℕ
unk = 0

abbrev pub cxx : ℕ
cxx = 1

abbrev pub java : ℕ
java = 2

abbrev pub jvm : ℕ
jvm = 3

abbrev pub go : ℕ
go = 4

abbrev pub proto : ℕ
proto = 5

abbrev pub rust : ℕ
rust = 6

abbrev pub kotlin : ℕ
kotlin = 7
