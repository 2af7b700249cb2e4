-- ===== src/ControlPlane/Repositories/Queries.antt =====
-- resiliencelab/controlplane/repositories.py: the queries that list, count and look up experiments.
-- Rows created at the same time keep the order of the table.
use resilience_lab.Common.{
  ℕ, zero, suc, ◌+◌, ◌-◌, min, String, ◌≡◌, refl, Bool, true, false, Option, none, some, List, [],
  ◌∷◌, leb, if◌then◌else◌, arith, length,
}
use text.Mathlib.Text.{◌==◌}
use resilience_lab.ControlPlane.Records.{Status, ExperimentRecord, Database}

-- The filters, of which an absent or empty one lets every row pass. A filter by status is a test.
abbrev owned_by : Option String → ExperimentRecord → Bool
owned_by none e = true
owned_by (some owner) e =
    if owner == "" then true else elim e.owner_id [ none ↦ false | some o ↦ o == owner ]

abbrev has_status : Option (Status → Bool) → ExperimentRecord → Bool
has_status none e = true
has_status (some test) e = test e.status

abbrev pub selected : Option (Status → Bool) → Option String → ExperimentRecord → Bool
selected status owner e = if has_status status e then owned_by owner e else false

-- `order_by(created_at.desc())`, as an insertion.
abbrev pub insert_newest : ExperimentRecord → List ExperimentRecord → List ExperimentRecord
insert_newest e [] = e ∷ []
insert_newest e (x ∷ xs) =
    let later = insert_newest e xs in
    if leb x.created_at e.created_at then e ∷ x ∷ xs else x ∷ later

unfoldable pub newest_first :
    Option (Status → Bool) → Option String → List ExperimentRecord → List ExperimentRecord
newest_first status owner [] = []
newest_first status owner (e ∷ es) =
    let others = newest_first status owner es in
    if selected status owner e then insert_newest e others else others

abbrev pub drop : ℕ → List ExperimentRecord → List ExperimentRecord
drop zero xs = xs
drop (suc n) [] = []
drop (suc n) (x ∷ xs) = drop n xs

abbrev pub take : ℕ → List ExperimentRecord → List ExperimentRecord
take zero xs = []
take (suc n) [] = []
take (suc n) (x ∷ xs) = x ∷ take n xs

unfoldable pub list_experiments :
    Option (Status → Bool) → Option String → ℕ → ℕ → Database → List ExperimentRecord
list_experiments status owner offset limit db =
    take limit (drop offset (newest_first status owner db.experiments))

unfoldable pub count_selected : Option (Status → Bool) → Option String → List ExperimentRecord → ℕ
count_selected status owner [] = 0
count_selected status owner (e ∷ es) =
    (if selected status owner e then 1 else 0) + count_selected status owner es

unfoldable pub count_experiments : Option (Status → Bool) → Option String → Database → ℕ
count_experiments status owner db = count_selected status owner db.experiments

length-insert_newest :
    (e : ExperimentRecord) (xs : List ExperimentRecord)
    → length (insert_newest e xs) ≡ suc (length xs)
length-insert_newest e [] = refl
length-insert_newest e (x ∷ xs) = ground (arith, length-insert_newest e xs)

length-newest_first :
    (status : Option (Status → Bool)) (owner : Option String) (es : List ExperimentRecord)
    → length (newest_first status owner es) ≡ count_selected status owner es
unfolding newest_first count_selected
length-newest_first status owner [] = refl
length-newest_first status owner (e ∷ es) = ground (
  arith,
  length-newest_first status owner es,
  length-insert_newest e (newest_first status owner es),
)

length-drop : (n : ℕ) (xs : List ExperimentRecord) → length (drop n xs) ≡ length xs - n
length-drop zero xs = omega arith
length-drop (suc n) [] = omega arith
length-drop (suc n) (x ∷ xs) = omega (arith, length-drop n xs)

length-take : (n : ℕ) (xs : List ExperimentRecord) → length (take n xs) ≡ min n (length xs)
length-take zero xs = omega arith
length-take (suc n) [] = omega arith
length-take (suc n) (x ∷ xs) = omega (arith, length-take n xs)

-- A page of `list_experiments` holds as many rows as `count_experiments` with the same filters
-- counts from the offset on, up to the limit.
pub length-list_experiments :
    (status : Option (Status → Bool)) (owner : Option String) (offset limit : ℕ) (db : Database)
    → length (list_experiments status owner offset limit db)
      ≡ min limit (count_experiments status owner db - offset)
unfolding list_experiments count_experiments
length-list_experiments status owner offset limit db =
    let all = newest_first status owner db.experiments in
    omega (
      arith,
      length-take limit (drop offset all),
      length-drop offset all,
      length-newest_first status owner db.experiments,
    )
