-- ===== src/Common/Deque.antt =====
-- A deque whose old entries are dropped from the left: `while d and old(d[0]): d.popleft()`.
use Prim.Native.Nat.{ℕ, ◌≤◌}
use mathlib.Core.Path.{◌≡◌, refl}
use mathlib.Core.Bool.{Bool, true, false}
use mathlib.Core.List.{List, [], ◌∷◌, ◌++◌}
use native.Mathlib.Omega.{arith}
use resilience_lab.Common.Tests.{if◌then◌else◌, if_both, Bool-cases}
use mathlib.Core.Logic.{inl, inr}
use resilience_lab.Common.Lists.{All, length}

not_old : (b c : Bool) → b ≡ false → (c ≡ true → b ≡ true) → c ≡ false
not_old b true e h = cc (h refl)
not_old b false e h = refl

module _ {ℓ} {A : Type ℓ} where
  unfoldable pub popleft_while : (A → Bool) → List A → List A
  popleft_while old [] = []
  popleft_while old (x ∷ xs) = let rest = popleft_while old xs in if old x then rest else x ∷ xs

  -- The entries that fail the test, wherever they stand.
  unfoldable pub reject : (A → Bool) → List A → List A
  reject old [] = []
  reject old (x ∷ xs) = let rest = reject old xs in if old x then rest else x ∷ rest

  -- In the order in which they were appended, by the time that `at` reads.
  abbrev pub IsOrdered : (A → ℕ) → List A → Type 0
  IsOrdered at [] = Unit {0}
  IsOrdered at (x ∷ xs) = All (λ y. at x ≤ at y) xs × IsOrdered at xs

  pub IsOrdered-snoc :
      (at : A → ℕ) (xs : List A) (y : A)
      → IsOrdered at xs
      → All (λ x. at x ≤ at y) xs
      → IsOrdered at (xs ++ y ∷ [])
  IsOrdered-snoc at [] y o h = (tt, tt)
  IsOrdered-snoc at (x ∷ xs) y o h = (go xs o.0, IsOrdered-snoc at xs y o.1 h.1)
    where
      go : (zs : List A) → All (λ z. at x ≤ at z) zs → All (λ z. at x ≤ at z) (zs ++ y ∷ [])
      go [] hz = (h.0, tt)
      go (z ∷ zs) hz = (hz.0, go zs hz.1)

  pub All-mono {κ μ} :
      (P : A → Type κ) (Q : A → Type μ) (xs : List A) → ((x : A) → P x → Q x) → All P xs → All Q xs
  All-mono P Q [] f h = tt
  All-mono P Q (x ∷ xs) f h = (f x h.0, All-mono P Q xs f h.1)

  All-popleft {κ} :
      (P : A → Type κ) (old : A → Bool) (xs : List A) → All P xs → All P (popleft_while old xs)
  unfolding popleft_while
  All-popleft P old [] h = tt
  All-popleft P old (x ∷ xs) h = if_both (All P) (old x) (All-popleft P old xs h.1) h

  IsOrdered-popleft :
      (at : A → ℕ) (old : A → Bool) (xs : List A)
      → IsOrdered at xs
      → IsOrdered at (popleft_while old xs)
  unfolding popleft_while
  IsOrdered-popleft at old [] h = tt
  IsOrdered-popleft at old (x ∷ xs) h =
      if_both (IsOrdered at) (old x) (IsOrdered-popleft at old xs h.1) h

  length-popleft-le : (old : A → Bool) (xs : List A) → length (popleft_while old xs) ≤ length xs
  unfolding popleft_while
  length-popleft-le old [] = omega arith
  length-popleft-le old (x ∷ xs) = ground (arith, length-popleft-le old xs)

  reject-All_new : (old : A → Bool) (xs : List A) → All (λ x. old x ≡ false) xs → reject old xs ≡ xs
  unfolding reject
  reject-All_new old [] h = refl
  reject-All_new old (x ∷ xs) h = rw (h.0, reject-All_new old xs h.1)

  -- Where age follows the order of the deque, dropping from the left drops exactly the old entries.
  pub popleft-eq-reject :
      (at : A → ℕ) (old : A → Bool) (xs : List A)
      → ((x y : A) → at x ≤ at y → old y ≡ true → old x ≡ true)
      → IsOrdered at xs
      → popleft_while old xs ≡ reject old xs
  unfolding popleft_while reject
  popleft-eq-reject at old [] ages o = refl
  popleft-eq-reject at old (x ∷ xs) ages o = elim (Bool-cases (old x)) [
    | inl e ↦ rw e (popleft-eq-reject at old xs ages o.1)
    | inr e ↦ rw (
      e,
      reject-All_new old xs (
          All-mono (λ y. at x ≤ at y) (λ y. old y ≡ false) xs
            (λ y le. not_old (old x) (old y) e (ages x y le)) o.0),
    )
  ]

  -- So nothing that is left is old.
  reject-new : (old : A → Bool) (xs : List A) → All (λ x. old x ≡ false) (reject old xs)
  unfolding reject
  reject-new old [] = tt
  reject-new old (x ∷ xs) = elim (Bool-cases (old x)) [
    | inl e ↦ rw e (reject-new old xs)
    | inr e ↦ rw e (e, reject-new old xs)
  ]

  All-reject {κ} :
      (P : A → Type κ) (old : A → Bool) (xs : List A) → All P xs → All P (reject old xs)
  unfolding reject
  All-reject P old [] h = tt
  All-reject P old (x ∷ xs) h =
      if_both (All P) (old x) (All-reject P old xs h.1) (h.0, All-reject P old xs h.1)

  pub IsOrdered-reject :
      (at : A → ℕ) (old : A → Bool) (xs : List A) → IsOrdered at xs → IsOrdered at (reject old xs)
  unfolding reject
  IsOrdered-reject at old [] h = tt
  IsOrdered-reject at old (x ∷ xs) h =
      if_both (IsOrdered at) (old x) (IsOrdered-reject at old xs h.1)
        (All-reject (λ y. at x ≤ at y) old xs h.0, IsOrdered-reject at old xs h.1)

  -- What was once old stays old, so rejecting twice is rejecting by the later test.
  pub reject-reject :
      (old older : A → Bool) (xs : List A)
      → ((x : A) → old x ≡ true → older x ≡ true)
      → reject older (reject old xs) ≡ reject older xs
  unfolding reject
  reject-reject old older [] h = refl
  reject-reject old older (x ∷ xs) h = ground (arith, h x, reject-reject old older xs h)

  pub reject-snoc :
      (old : A → Bool) (xs : List A) (y : A)
      → old y ≡ false
      → reject old (xs ++ y ∷ []) ≡ reject old xs ++ y ∷ []
  unfolding reject
  reject-snoc old [] y h = ground arith
  reject-snoc old (x ∷ xs) y h = ground (arith, reject-snoc old xs y h)

  length-reject-le : (old : A → Bool) (xs : List A) → length (reject old xs) ≤ length xs
  unfolding reject
  length-reject-le old [] = omega arith
  length-reject-le old (x ∷ xs) = ground (arith, length-reject-le old xs)

  -- The deque after one more entry: the entries so far that are not old at its time, and itself.
  pub popleft-reject-snoc :
      (at : A → ℕ) (old older : A → Bool) (seen : List A) (y : A)
      → ((x z : A) → at x ≤ at z → older z ≡ true → older x ≡ true)
      → ((x : A) → old x ≡ true → older x ≡ true)
      → older y ≡ false
      → IsOrdered at seen
      → popleft_while older (reject old seen) ++ y ∷ [] ≡ reject older (seen ++ y ∷ [])
  popleft-reject-snoc at old older seen y ages grows new o = rw (
    popleft-eq-reject at older (reject old seen) ages (IsOrdered-reject at old seen o),
    reject-reject old older seen grows,
    reject-snoc older seen y new,
  )
