-- ===== src/Run.antt =====
-- What a piece of Rust code does: it returns a value, or it panics (an index out of range, a
-- failed `unwrap`, an arithmetic overflow). `stuck` is no outcome of the code: a loop of the
-- model ran out of fuel. Every loop has a theorem that its fuel is enough.

pub data Run {ℓ} (A : Type ℓ) : Type ℓ where
  done : A → Run A
  panic : Run A
  stuck : Run A

infixl 5 ◌>>=◌ ◌>>◌
abbrev pub ◌>>=◌ {ℓ κ} : {A : Type ℓ} {B : Type κ} → Run A → (A → Run B) → Run B
done a >>= f = f a
panic >>= f = panic
stuck >>= f = stuck

abbrev pub ◌>>◌ {ℓ} : {B : Type ℓ} → Run (Unit {0}) → Run B → Run B
m >> k = m >>= λ _. k
