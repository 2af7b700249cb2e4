-- ===== src/Examples/Serving.antt =====
-- resiliencelab/api/app.py on concrete inputs.
use resilience_lab.Common.{◌+◌, ◌≡◌, ◌⊎◌, refl, true, false, some, List, [], ◌∷◌}
use resilience_lab.Common.Table.{find}
use resilience_lab.ControlPlane.Records.{ExperimentRecord, created, completed}
use resilience_lab.ControlPlane.Repositories.{get_experiment, new_experiment}
use resilience_lab.ControlPlane.Repositories.Transitions.{status_of}
use resilience_lab.Api.Auth.{Identity}
use resilience_lab.Api.Server.{
  Server, Moment, Request, runs_again, cancels, gets, http_exception, is_valid_id, require, handle,
  serve, run_route, may_access,
}
use resilience_lab.Api.Server.Ownership.{IsForeign, OwnsOne, serve-keeps, handle-denied}
use resilience_lab.Api.Server.Lifecycle.{HasMoved, handle-Moves}
use resilience_lab.Api.Server.Refusals.{
  is_answer, handle-refused, jobs_of, LeavesNothing, Interrupted,
}
use resilience_lab.Api.Local.{Spec}
use resilience_lab.Examples.Jobs
use resilience_lab.Examples.Jobs.{in_memory, waiting}

abbrev alice : Identity
alice = record { user_id = "alice"; auth_method = "bearer" }

abbrev bob : Identity
bob = record { user_id = "bob"; auth_method = "bearer" }

abbrev done_row : ExperimentRecord
done_row = record (new_experiment 3 "e" "yaml" "hash" (some "alice")) { status = completed }

abbrev bobs_row : ExperimentRecord
bobs_row = new_experiment 4 "b" "yaml" "hash" (some "bob")

abbrev server : Server Jobs.Server
server = record {
  db = record { experiments = done_row ∷ bobs_row ∷ []; runs = [] };
  redis = waiting;
}

abbrev moment : Moment
moment = record {
  now = 9;
  clock = λ i. 9 + i;
  name = λ i. "job";
  accepted = 100;
  half_written = false;
  commits = true;
}

there : get_experiment server.db "e" ≡ some done_row
unfolding get_experiment find
there = refl

bob-IsForeign : IsForeign done_row bob
bob-IsForeign = record { owner = "alice"; owned = refl; known = refl; other = refl }

bob-OwnsOne : OwnsOne server.db bob
unfolding get_experiment find
bob-OwnsOne = ("b", bobs_row, refl, refl)

abbrev attempts : List (Moment × Identity × Request)
attempts =
    (moment, bob, runs_again (λ yaml. some 2) "e")
    ∷ (moment, bob, cancels "e" "mine")
    ∷ (moment, bob, gets "e")
    ∷ []

serve-keeps_example : get_experiment (serve in_memory attempts server).db "e" ≡ some done_row
serve-keeps_example =
    serve-keeps in_memory attempts server "e" done_row
      (
        (bob-IsForeign, bob-OwnsOne),
        ((bob-IsForeign, bob-OwnsOne), ((bob-IsForeign, bob-OwnsOne), tt)),
      )
      there

e_valid : is_valid_id "e" ≡ true
unfolding is_valid_id
e_valid = refl

handle-denied_example :
    handle in_memory moment bob (cancels "e" "mine") server ≡ (http_exception 403, server)
handle-denied_example =
    handle-denied in_memory moment bob (cancels "e" "mine") server "e" done_row refl e_valid there
      bob-IsForeign bob-OwnsOne

bobs_there : get_experiment server.db "b" ≡ some bobs_row
unfolding get_experiment find
bobs_there = refl

handle-Moves_example :
    HasMoved created (
      status_of (get_experiment (handle in_memory moment bob (cancels "b" "mine") server).1.db "b"))
handle-Moves_example =
    handle-Moves in_memory moment bob (cancels "b" "mine") server "b" bobs_row bobs_there refl

-- The commit fails after both jobs were put.
abbrev failing : Moment
failing = record moment { commits = false }

abbrev rerun_request : Request
rerun_request = runs_again (λ yaml. some 2) "e"

failing_fails : is_answer (handle in_memory failing alice rerun_request server).0 ≡ false
unfolding handle run_route require may_access is_valid_id get_experiment find
failing_fails = refl

handle-refused_example :
    ((handle in_memory failing alice rerun_request server).1.db ≡ server.db)
    × (LeavesNothing in_memory server (handle in_memory failing alice rerun_request server)
        ⊎ Interrupted in_memory failing
            (jobs_of rerun_request server.db)
            (handle in_memory failing alice rerun_request server))
handle-refused_example = handle-refused in_memory failing alice rerun_request server failing_fails

abbrev known : Spec
known = record { id = "e"; name = "experiment" }
