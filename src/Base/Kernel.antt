-- ===== src/Base/Kernel.antt =====
-- What a piece of kernel code does: it returns, it panics with a message, it spins for ever on a
-- lock that is held, or it reads outside an array, where C defines nothing.
use Prim.Native.String.{String}

pub data Outcome {ℓ} (A : Type ℓ) : Type ℓ where
  ok : A → Outcome A
  panic : String → Outcome A
  spin : Outcome A
  fault : Outcome A

infixl 5 ◌>>=◌
abbrev pub ◌>>=◌ {ℓ κ} : {A : Type ℓ} {B : Type κ} → Outcome A → (A → Outcome B) → Outcome B
ok a >>= f = f a
panic s >>= f = panic s
spin >>= f = spin
fault >>= f = fault
