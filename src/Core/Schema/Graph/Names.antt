-- ===== src/Core/Schema/Graph/Names.antt =====
-- Lists of names without repetition, and the results of a walk.
use text.Mathlib.TextEquality.{eq_iff}
use resilience_lab.Common.{String, ◌≡◌, refl, false, List, [], ◌∷◌, ◌++◌, arith, ◌||◌}
use resilience_lab.Core.Schema.Graph.{Walk, done, failed, out_of_fuel, ◌>>=◌, contains}

pub bind-done :
    {A B : Type 0} (w : Walk A) (f : A → Walk B) (b : B)
    → (w >>= f) ≡ done b
    → (a : A) × (w ≡ done a) × (f a ≡ done b)
bind-done (done a) f b e = (a, refl, e)
bind-done (failed x) f b e = cc
bind-done out_of_fuel f b e = cc

pub done_injective : {A : Type 0} (a b : A) → done a ≡ done b → a ≡ b
done_injective a b e = cc

pub contains-append :
    (x : String) (ys zs : List String) → contains x (ys ++ zs) ≡ (contains x ys || contains x zs)
contains-append x [] zs = refl
contains-append x (y ∷ ys) zs = ground (arith, contains-append x ys zs)

-- No name twice.
abbrev pub Nodup : List String → Type 0
Nodup [] = Unit
Nodup (x ∷ xs) = (contains x xs ≡ false) × Nodup xs

pub Nodup-snoc :
    (xs : List String) (x : String) → Nodup xs → contains x xs ≡ false → Nodup (xs ++ x ∷ [])
Nodup-snoc [] x h e = (refl, tt)
Nodup-snoc (y ∷ ys) x h e = (
  ground (arith, contains-append y ys (x ∷ []), eq_iff x y, eq_iff y x),
  Nodup-snoc ys x h.1 (ground arith),
)
