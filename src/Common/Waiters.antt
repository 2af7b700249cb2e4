-- ===== src/Common/Waiters.antt =====
-- asyncio.Condition as its users see it: who waits, first come first, and who was notified and has
-- not resumed. A waiter is taken out of a queue by a test on it.
use Prim.Native.Nat.{suc}
use mathlib.Core.Path.{◌≡◌, refl}
use mathlib.Core.Bool.{Bool, true, false}
use mathlib.Core.Option.{Option, none, some}
use mathlib.Core.List.{List, [], ◌∷◌, ◌++◌, map}
use native.Mathlib.Omega.{arith}
use resilience_lab.Common.Tests.{if◌then◌else◌}
use resilience_lab.Common.Lists.{length}

pub record Condition {ℓ} (A : Type ℓ) : Type ℓ where
  pub parked : List A
  pub woken : List A

abbrev pub nobody {ℓ} : {A : Type ℓ} → Condition A
nobody = record { parked = []; woken = [] }

module _ {ℓ} {A : Type ℓ} where
  abbrev pub park : A → Condition A → Condition A
  park a c = record c { parked = c.parked ++ a ∷ [] }

  -- `notify(1)`
  abbrev pub notify : Condition A → Condition A
  notify c = elim c.parked [
    | [] ↦ c
    | a ∷ rest ↦ record { parked = rest; woken = c.woken ++ a ∷ [] }
  ]

  abbrev keep_front : A → Option (A × List A) → Option (A × List A)
  keep_front x none = none
  keep_front x (some (a, rest)) = some (a, x ∷ rest)

  -- The first entry that passes the test, and the others.
  unfoldable pub pick : (A → Bool) → List A → Option (A × List A)
  pick p [] = none
  pick p (x ∷ xs) = let later = keep_front x (pick p xs) in if p x then some (x, xs) else later

  pub length-pick :
      (p : A → Bool) (xs : List A) (a : A) (rest : List A)
      → pick p xs ≡ some (a, rest)
      → length xs ≡ suc (length rest)
  unfolding pick
  length-pick p [] a rest e = cc
  length-pick p (x ∷ xs) a rest e = go (p x) (pick p xs) (length-pick p xs) e
    where
      go :
          (b : Bool) (later : Option (A × List A))
          → ((a' : A) (r : List A) → later ≡ some (a', r) → length xs ≡ suc (length r))
          → (if b then some (x, xs) else keep_front x later) ≡ some (a, rest)
          → suc (length xs) ≡ suc (length rest)
      go true later ih h = ground arith
      go false none ih h = cc
      go false (some (a', r)) ih h = ground (arith, ih a' r refl)

module _ {ℓ κ} {A : Type ℓ} {B : Type κ} (f : A → B) (p : B → Bool) where
  abbrev pub map_pick : Option (A × List A) → Option (B × List B)
  map_pick none = none
  map_pick (some (a, rest)) = some (f a, map f rest)

  -- A test that reads only the image picks the same entry before and after mapping.
  pub pick-map : (xs : List A) → pick p (map f xs) ≡ map_pick (pick (λ a. p (f a)) xs)
  unfolding pick
  pick-map [] = refl
  pick-map (x ∷ xs) = ground (arith, pick-map xs)
