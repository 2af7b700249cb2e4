-- ===== src/Common/Dict.antt =====
-- A Python dictionary with textual keys: its items in order of insertion.
use Prim.Native.String.{String}
use mathlib.Core.Path.{◌≡◌, refl, sym, subst}
use mathlib.Core.Bool.{false}
use mathlib.Core.Logic.{inl, inr}
use mathlib.Core.Option.{Option, none, some}
use mathlib.Core.List.{List, [], ◌∷◌}
use native.Mathlib.Omega.{arith}
use text.Mathlib.Text.{◌==◌}
use text.Mathlib.TextEquality.{eq_iff}
use resilience_lab.Common.Tests.{if◌then◌else◌, Bool-cases}
use resilience_lab.Common.Lists.{All}

module _ {ℓ} {A : Type ℓ} where
  -- `d.get(k)`
  unfoldable pub lookup : String → List (String × A) → Option A
  lookup k [] = none
  lookup k ((j, a) ∷ rest) = if j == k then some a else lookup k rest

  -- `d[k] = a`
  unfoldable pub store : String → A → List (String × A) → List (String × A)
  store k a [] = (k, a) ∷ []
  store k a ((j, b) ∷ rest) =
      let later = store k a rest in if j == k then (j, a) ∷ rest else (j, b) ∷ later

  pub lookup-store :
      (k j : String) (a : A) (d : List (String × A))
      → lookup k (store j a d) ≡ (if j == k then some a else lookup k d)
  unfolding lookup store
  lookup-store k j a [] = ground arith
  lookup-store k j a ((i, b) ∷ rest) =
      ground (arith, lookup-store k j a rest, eq_iff i j, eq_iff j k, eq_iff i k)

  pub lookup-store_self :
      (k : String) (a : A) (d : List (String × A)) → lookup k (store k a d) ≡ some a
  lookup-store_self k a d = ground (arith, lookup-store k k a d, eq_iff k k)

  -- No key stands twice.
  abbrev pub NodupKeys : List (String × A) → Type ℓ
  NodupKeys [] = Unit
  NodupKeys ((k, a) ∷ rest) = (lookup k rest ≡ none) × NodupKeys rest

  pub store-NodupKeys :
      (k : String) (a : A) (d : List (String × A)) → NodupKeys d → NodupKeys (store k a d)
  unfolding store lookup
  store-NodupKeys k a [] h = (refl, tt)
  store-NodupKeys k a ((j, b) ∷ rest) (once, h) =
      ground (arith, store-NodupKeys k a rest h, lookup-store j k a rest, eq_iff j k, eq_iff k j)

  -- What holds of every entry but that of a key goes over to another property.
  pub All-other {κ μ} :
      (P : String × A → Type κ) (Q : String × A → Type μ) (k : String) (d : List (String × A))
      → ((j : String) (b : A) → k == j ≡ false → P (j, b) → Q (j, b))
      → lookup k d ≡ none
      → All P d
      → All Q d
  unfolding lookup
  All-other P Q k [] f absent h = tt
  All-other P Q k ((j, b) ∷ rest) f absent (here, h) = elim (Bool-cases (j == k)) [
    | inl same ↦ absurd (ground arith)
    | inr other ↦ (
      f j b (ground (arith, eq_iff k j, eq_iff j k)) here,
      All-other P Q k rest f (ground arith) h,
    )
  ]

  -- The same where the key gets a value.
  pub All-store {κ μ} :
      (P : String × A → Type κ) (Q : String × A → Type μ) (k : String) (a : A)
      (d : List (String × A))
      → ((j : String) (b : A) → k == j ≡ false → P (j, b) → Q (j, b))
      → Q (k, a)
      → NodupKeys d
      → All P d
      → All Q (store k a d)
  unfolding store
  All-store P Q k a [] f q once h = (q, tt)
  All-store P Q k a ((j, b) ∷ rest) f q (once, distinct) (here, h) = elim (Bool-cases (j == k)) [
    | inl same ↦
        let here' : j ≡ k = (eq_iff j k).0 same in
        rw same (subst (λ i. Q (i, a)) (sym here') q, All-other P Q k rest f (rw (← here') once) h)
    | inr other ↦
        rw other (
          f j b (ground (arith, eq_iff k j, eq_iff j k)) here,
          All-store P Q k a rest f q distinct h,
        )
  ]
