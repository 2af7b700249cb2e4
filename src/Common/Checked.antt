-- ===== src/Common/Checked.antt =====
-- A constructor or function that may raise Python's `ValueError`, with the message it raises.
use Prim.Native.String.{String}
use mathlib.Core.Path.{◌≡◌, refl}
use mathlib.Core.Bool.{Bool, true, false}

pub data Checked {ℓ} (A : Type ℓ) : Type ℓ where
  ok : A → Checked A
  value_error : String → Checked A

infixl 5 ◌>>=◌ ◌>>◌
abbrev pub ◌>>=◌ {ℓ κ} : {A : Type ℓ} {B : Type κ} → Checked A → (A → Checked B) → Checked B
ok a >>= f = f a
value_error e >>= f = value_error e

abbrev pub ◌>>◌ {ℓ} : {B : Type ℓ} → Checked (Unit {0}) → Checked B → Checked B
m >> k = m >>= λ _. k

-- `if bad: raise ValueError(message)`.
abbrev pub raise_if : Bool → String → Checked (Unit {0})
raise_if true message = value_error message
raise_if false message = ok tt

-- What a sequence returned, its first part returned too.
pub ok-bind :
    {A B : Type 0} (m : Checked A) (f : A → Checked B) (b : B)
    → (m >>= f) ≡ ok b
    → (a : A) × (m ≡ ok a) × (f a ≡ ok b)
ok-bind (ok a) f b h = (a, refl, h)
ok-bind (value_error e) f b h = cc

pub ok-raise_if : (bad : Bool) (message : String) → raise_if bad message ≡ ok tt → bad ≡ false
ok-raise_if true message h = cc
ok-raise_if false message h = refl
