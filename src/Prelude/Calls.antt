-- ===== src/Prelude/Calls.antt =====
-- A Python call that returns a value or raises. A database transaction that raises is rolled back
-- by its caller, so no state comes back beside a fault.
use mathlib.Core.Path.{◌≡◌, refl}

pub data Fault : Type 0 where
  integrity_error ledger_error value_error : Fault

pub data Attempt {ℓ} (A : Type ℓ) : Type ℓ where
  raise : Fault → Attempt A
  ok : A → Attempt A

module _ {ℓ κ} {A : Type ℓ} {B : Type κ} where
  infixl 5 ◌>>=◌
  -- The next statement runs when the last one did not raise.
  abbrev pub ◌>>=◌ : Attempt A → (A → Attempt B) → Attempt B
  raise fault >>= next = raise fault
  ok value >>= next = next value

  -- A body that returned went through its first statement and then the rest.
  pub bind_ok :
      (first : Attempt A) (next : A → Attempt B) {out : B}
      → (first >>= next) ≡ ok out
      → (value : A) × (next value ≡ ok out) × (first ≡ ok value)
  bind_ok (raise fault) next h = cc
  bind_ok (ok value) next h = (value, h, refl)
