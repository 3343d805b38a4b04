-- ===== src/Outcome.antt =====
-- What running a piece of the emulator can end in: a state, the end of the emulator's process
-- (`exit`, a failed `assert`, `Panic`), or behaviour that C++ leaves undefined.

pub data Outcome {ℓ} (A : Type ℓ) : Type ℓ where
  runs : A → Outcome A
  exits undefined : Outcome A

infixl 5 ◌>>=◌
abbrev pub ◌>>=◌ {ℓ κ} : {A : Type ℓ} {B : Type κ} → Outcome A → (A → Outcome B) → Outcome B
runs a >>= f = f a
exits >>= f = exits
undefined >>= f = undefined
