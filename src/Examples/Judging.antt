-- ===== src/Examples/Judging.antt =====
-- resiliencelab/api/auth.py, metrics/collector.py and analysis/recovery.py on concrete inputs.
use resilience_lab.Common.{ℕ, ◌+◌, ◌≤◌, String, ◌≡◌, refl, none, some, List, [], ◌∷◌, arith}
use resilience_lab.Api.Auth.{
  Identity, Settings, Headers, get_identity, get_identity_authenticated,
  validate_server_auth_configuration, Vouched,
}
use resilience_lab.Analysis.Recovery.{
  Gates, first_sustained_recovery, Within, first_sustained_recovery_lem, throughput_sustaining,
  latency_recovery_sustained,
}

abbrev same : String → String
same x = x

abbrev server : Settings
server = record { auth_mode = "api_key"; api_keys = "k1" ∷ "k2" ∷ [] }

abbrev with_key : Headers
with_key = record { authorization = none; configured_key = some "k2" }

abbrev caller : Identity
caller = record { user_id = "k2"; auth_method = "api_key" }

get_identity_authenticated_example : Vouched same same same same ("k1" ∷ "k2" ∷ []) with_key caller
unfolding validate_server_auth_configuration get_identity
get_identity_authenticated_example =
    get_identity_authenticated same same same same server with_key caller refl refl

abbrev gates : Gates
gates = record {
  throughput = 9;
  max_latency = 50;
  latencies = (1, 20) ∷ (4, 90) ∷ (6, 30) ∷ [];
  stability_window = 2;
  after = 3;
}

abbrev throughputs : List (ℕ × ℕ)
throughputs = (1, 10) ∷ (3, 2) ∷ (5, 10) ∷ (6, 11) ∷ []

-- The latency at time 4 is too high for the whole search, so that no sample counts …
not_recovered : first_sustained_recovery gates throughputs ≡ none
unfolding first_sustained_recovery throughput_sustaining latency_recovery_sustained
not_recovered = refl

-- … and when latencies are high before the degradation and within the gate later, the one at time 5
-- does.
abbrev calm : Gates
calm = record gates { latencies = (2, 80) ∷ (6, 40) ∷ [] }

first_sustained_recovery_lem_example :
    (3 ≤ 5)
    × Within (5 + 1) (5 + 2) (λ r. 9 ≤ r) throughputs
    × Within 5 (5 + 2) (λ p95. p95 ≤ 50) calm.latencies
unfolding first_sustained_recovery throughput_sustaining latency_recovery_sustained
first_sustained_recovery_lem_example =
    first_sustained_recovery_lem calm throughputs 5
      (
        (omega arith, (omega arith, (omega arith, tt))),
        ((omega arith, (omega arith, tt)), ((omega arith, tt), (tt, tt))),
      )
      ((omega arith, tt), (tt, tt)) refl
