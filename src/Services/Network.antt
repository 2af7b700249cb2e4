-- ===== src/Services/Network.antt =====
-- resiliencelab/services/network.py: the link between two services.
use text.Mathlib.Text.{◌==◌}
use resilience_lab.Common.{ℕ, String, Bool, ◌&&◌, if◌then◌else◌, Option, none, some, List, [], ◌∷◌}

pub record NetworkLinkSpec : Type 0 where
  pub latency : ℕ
  pub jitter : ℕ

pub record NetworkEdgeSpec : Type 0 where
  pub source : String
  pub target : String
  pub latency : ℕ
  pub jitter : ℕ

pub record NetworkSpec : Type 0 where
  pub default : Option NetworkLinkSpec
  pub edges : List NetworkEdgeSpec

-- One of the two loops: the link of the first edge that passes a test.
abbrev first_link : (NetworkEdgeSpec → Bool) → List NetworkEdgeSpec → Option NetworkLinkSpec
first_link test [] = none
first_link test (edge ∷ rest) =
    let later = first_link test rest in
    if test edge then some (record { latency = edge.latency; jitter = edge.jitter }) else later

abbrev or_else : Option NetworkLinkSpec → Option NetworkLinkSpec → Option NetworkLinkSpec
or_else none other = other
or_else (some link) other = some link

pub resolve_network_link : Option NetworkSpec → String → String → Option NetworkLinkSpec
resolve_network_link none source target = none
resolve_network_link (some network) source target =
    or_else (first_link (λ edge. edge.source == source && edge.target == target) network.edges)
      (or_else (first_link (λ edge. edge.target == target) network.edges) network.default)
