-- ===== src/Common/Table.antt =====
-- Rows under a textual key, as a database table with a primary key holds them.
use Prim.Native.String.{String}
use mathlib.Core.Path.{◌≡◌}
use mathlib.Core.Option.{Option, none, some}
use mathlib.Core.List.{List, [], ◌∷◌, ◌++◌}
use native.Mathlib.Omega.{arith}
use text.Mathlib.Text.{◌==◌}
use text.Mathlib.TextEquality.{eq_iff}
use resilience_lab.Common.Tests.{if◌then◌else◌}

module _ {ℓ} {A : Type ℓ} (key : A → String) where
  -- `session.get(Record, k)`
  unfoldable pub find : String → List A → Option A
  find k [] = none
  find k (x ∷ xs) = if key x == k then some x else find k xs

  -- `UPDATE … WHERE key = k`
  unfoldable pub modify : String → (A → A) → List A → List A
  modify k f [] = []
  modify k f (x ∷ xs) = (if key x == k then f x else x) ∷ modify k f xs

  abbrev pub change : (A → A) → Option A → Option A
  change f none = none
  change f (some x) = some (f x)

  -- An update of one key is seen under that key only.
  pub find-modify :
      (k j : String) (f : A → A) (xs : List A)
      → ((x : A) → key (f x) ≡ key x)
      → find j (modify k f xs) ≡ (if k == j then change f (find j xs) else find j xs)
  unfolding find modify
  find-modify k j f [] same = ground arith
  find-modify k j f (x ∷ xs) same =
      ground
        (arith, same x, find-modify k j f xs same, eq_iff k j, eq_iff (key x) k, eq_iff (key x) j)

  -- What is found has the key that was looked for.
  key-find : (k : String) (xs : List A) (x : A) → find k xs ≡ some x → key x ≡ k
  unfolding find
  key-find k [] x e = cc
  key-find k (y ∷ ys) x e = ground (arith, eq_iff (key y) k, key-find k ys x)

  pub find-snoc :
      (k : String) (xs : List A) (x : A)
      → find k xs ≡ none
      → find k (xs ++ x ∷ []) ≡ (if key x == k then some x else none)
  unfolding find
  find-snoc k [] x e = ground arith
  find-snoc k (y ∷ ys) x e = ground (arith, find-snoc k ys x)

  pub find-snoc_old :
      (k : String) (xs : List A) (x y : A) → find k xs ≡ some y → find k (xs ++ x ∷ []) ≡ some y
  unfolding find
  find-snoc_old k [] x y e = cc
  find-snoc_old k (z ∷ zs) x y e = ground (arith, find-snoc_old k zs x y)
