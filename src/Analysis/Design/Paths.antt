-- ===== src/Analysis/Design/Paths.antt =====
-- resiliencelab/analysis/design.py: what `_set_path` changes, and what it leaves.
use text.Mathlib.Text.{◌==◌}
use text.Mathlib.TextEquality.{eq_iff}
use resilience_lab.Common.{
  String, ◌≡◌, refl, ap, ◌∙◌, Bool, true, false, Option, none, some, if◌then◌else◌, List, [], ◌∷◌,
  arith, Bool-cases, inl, inr,
}
use resilience_lab.Core.Schema.Merge.{
  Value, null, boolean, number, string, list_of, dict_of, Items, get, put, at_path,
}
use resilience_lab.Core.Schema.Merge.Laws.{get-put}
use resilience_lab.Core.Config.{get-remove}
use resilience_lab.Analysis.Design.{child_of, set_last, set_path}

-- What a level leaves at its path: nothing for `None`.
abbrev level_of : Value → Option Value
level_of null = none
level_of value = some value

-- Two paths part before either of them ends.
abbrev part_ways : List String → List String → Bool
part_ways (p ∷ ps) (q ∷ qs) = if p == q then part_ways ps qs else true
part_ways _ _ = false

get-set_last :
    (part q : String) (value : Value) (d : Items)
    → get q (set_last part value d) ≡ (if part == q then level_of value else get q d)
get-set_last part q null d = get-remove q part d
get-set_last part q (boolean b) d = get-put q part (boolean b) d
get-set_last part q (number n) d = get-put q part (number n) d
get-set_last part q (string s) d = get-put q part (string s) d
get-set_last part q (list_of vs) d = get-put q part (list_of vs) d
get-set_last part q (dict_of items) d = get-put q part (dict_of items) d

at_path-none : (path : List String) → at_path path none ≡ none
at_path-none [] = refl
at_path-none (p ∷ ps) = refl

at_path-child_of :
    (q : String) (qs : List String) (o : Option Value)
    → at_path (q ∷ qs) (some (dict_of (child_of o))) ≡ at_path (q ∷ qs) o
at_path-child_of q qs none = at_path-none qs
at_path-child_of q qs (some null) = at_path-none qs
at_path-child_of q qs (some (boolean b)) = at_path-none qs
at_path-child_of q qs (some (number n)) = at_path-none qs
at_path-child_of q qs (some (string s)) = at_path-none qs
at_path-child_of q qs (some (list_of vs)) = at_path-none qs
at_path-child_of q qs (some (dict_of d)) = refl

at_path-put :
    (k j : String) (path : List String) (child : Value) (d : Items)
    → j == k ≡ true
    → at_path (k ∷ path) (some (dict_of (put j child d))) ≡ at_path path (some child)
at_path-put k j path child d same = ap (λ o. at_path path o) (get-put k j child d ∙ rw same refl)

at_path-put_elsewhere :
    (k j : String) (path : List String) (child : Value) (d : Items)
    → j == k ≡ false
    → at_path (k ∷ path) (some (dict_of (put j child d))) ≡ at_path (k ∷ path) (some (dict_of d))
at_path-put_elsewhere k j path child d other =
    ap (λ o. at_path path o) (get-put k j child d ∙ rw other refl)

-- At the path that is set stands the level, or nothing for `None`.
at_path-set_path :
    (part : String) (rest : List String) (value : Value) (d : Items)
    → at_path (part ∷ rest) (some (dict_of (set_path part rest value d))) ≡ level_of value
unfolding set_path
at_path-set_path part [] value d = get-set_last part part value d ∙ ground (arith, eq_iff part part)
at_path-set_path part (next ∷ rest) value d =
    let child = set_path next rest value (child_of (get part d)) in
    at_path-put part part (next ∷ rest) (dict_of child) d ((eq_iff part part).1 refl)
    ∙ at_path-set_path next rest value (child_of (get part d))

-- At every path that parts from the one that is set stands what stood there.
set_path-elsewhere :
    (part : String) (rest path : List String) (value : Value) (d : Items)
    → part_ways (part ∷ rest) path ≡ true
    → at_path path (some (dict_of (set_path part rest value d))) ≡ at_path path (some (dict_of d))
unfolding set_path
set_path-elsewhere part [] [] value d h = ground arith
set_path-elsewhere part [] (q ∷ qs) value d h = elim (Bool-cases (part == q)) [
  | inl same ↦ ground arith
  | inr other ↦ rw (get-set_last part q value d) (rw other refl)
]
set_path-elsewhere part (next ∷ rest) [] value d h = ground arith
set_path-elsewhere part (next ∷ rest) (q ∷ []) value d h = elim (Bool-cases (part == q)) [
  | inl same ↦ ground arith
  | inr other ↦
      let child = set_path next rest value (child_of (get part d)) in
      at_path-put_elsewhere q part [] (dict_of child) d other
]
set_path-elsewhere part (next ∷ rest) (q ∷ r ∷ rs) value d h = elim (Bool-cases (part == q)) [
  | inl same ↦
      let child = set_path next rest value (child_of (get part d)) in
      let parts : part_ways (next ∷ rest) (r ∷ rs) ≡ true = ground arith in
      at_path-put q part (r ∷ rs) (dict_of child) d same
      ∙ set_path-elsewhere next rest (r ∷ rs) value (child_of (get part d)) parts
      ∙ at_path-child_of r rs (get part d)
      ∙ ap (λ k. at_path (r ∷ rs) (get k d)) ((eq_iff part q).0 same)
  | inr other ↦
      let child = set_path next rest value (child_of (get part d)) in
      at_path-put_elsewhere q part (r ∷ rs) (dict_of child) d other
]
