-- ===== src/Api/Server/Pages.antt =====
-- resiliencelab/api/app.py, `GET /experiments`: what a page holds.
use text.Mathlib.Text.{◌==◌}
use text.Mathlib.TextEquality.{eq_iff}
use resilience_lab.Common.{
  ℕ, zero, suc, ◌+◌, ◌<◌, ◌≤◌, String, ◌≡◌, refl, Bool, true, false, Option, List, [], ◌∷◌, length,
  arith, All, ltb, leb, if_both, Bool-cases, inl, inr,
}
use resilience_lab.ControlPlane.Records.{Status, ExperimentRecord}
use resilience_lab.ControlPlane.Repositories.Queries.{
  selected, insert_newest, newest_first, drop, take, list_experiments, count_experiments,
  length-list_experiments,
}
use resilience_lab.Api.Auth.{Identity}
use resilience_lab.Api.Server.{Server, owner_of, may_access, answers, page, list_route}

module _ (Good : ExperimentRecord → Type 0) where
  All-insert_newest :
      (e : ExperimentRecord) (es : List ExperimentRecord)
      → Good e
      → All Good es
      → All Good (insert_newest e es)
  All-insert_newest e [] g h = (g, tt)
  All-insert_newest e (x ∷ xs) g (k, h) =
      if_both (All Good) (leb x.created_at e.created_at) (g, (k, h)) (k, All-insert_newest e xs g h)

  All-newest_first :
      (status : Option (Status → Bool)) (owner : Option String) (es : List ExperimentRecord)
      → ((e : ExperimentRecord) → selected status owner e ≡ true → Good e)
      → All Good (newest_first status owner es)
  unfolding newest_first
  All-newest_first status owner [] good = tt
  All-newest_first status owner (e ∷ es) good = elim (Bool-cases (selected status owner e)) [
    | inl chosen ↦
        rw (chosen, newest_first)
          (All-insert_newest e (newest_first status owner es) (good e chosen)
            (All-newest_first status owner es good))
    | inr left_out ↦ rw (left_out, newest_first) (All-newest_first status owner es good)
  ]

  All-drop : (n : ℕ) (es : List ExperimentRecord) → All Good es → All Good (drop n es)
  All-drop zero es h = h
  All-drop (suc n) [] h = tt
  All-drop (suc n) (e ∷ es) (g, h) = All-drop n es h

  All-take : (n : ℕ) (es : List ExperimentRecord) → All Good es → All Good (take n es)
  All-take zero es h = tt
  All-take (suc n) [] h = tt
  All-take (suc n) (e ∷ es) (g, h) = (g, All-take n es h)

-- What the filter by owner lets through is the caller's to read.
selected-access :
    (i : Identity) (status : Option (Status → Bool)) (e : ExperimentRecord)
    → (i.user_id == "") ≡ false
    → selected status (owner_of i) e ≡ true
    → may_access e i ≡ true
unfolding may_access
selected-access i status e named h = ground (arith, eq_iff i.user_id "")

module _ {S : Type 0} where
  -- For a caller with a name, the answer to a listing has only experiments that the caller may
  -- access, and says that there are more exactly when the page ends before the total.
  pub list_route_lem :
      (i : Identity) (status : Option (Status → Bool)) (offset limit : ℕ) (server : Server S)
      → (i.user_id == "") ≡ false
      → (es : List ExperimentRecord) × (total : ℕ) × (more : Bool) × (list_route i status offset
            limit server
          ≡ answers (page es total more))
        × All (λ e. may_access e i ≡ true) es
        × (more ≡ true → offset + length es < total)
        × (more ≡ false → total ≤ offset + length es)
  unfolding list_route list_experiments
  list_route_lem i status offset limit server named =
      let es = list_experiments status (owner_of i) offset limit server.db in
      let total = count_experiments status (owner_of i) server.db in
      let size = length-list_experiments status (owner_of i) offset limit server.db in
      (
        es,
        total,
        ltb (offset + limit) total,
        refl,
        All-take (λ e. may_access e i ≡ true) limit _
            (All-drop (λ e. may_access e i ≡ true) offset _
              (All-newest_first (λ e. may_access e i ≡ true) status (owner_of i)
                server.db.experiments (λ e. selected-access i status e named))),
        λ h. ground (arith, size),
        λ h. ground (arith, size),
      )
