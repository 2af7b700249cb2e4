-- ===== src/Core/Cancellation.antt =====
-- resiliencelab/core/cancellation.py: the token that a run polls.
use resilience_lab.Common.{
  String, ◌≡◌, refl, ◌∙◌, Bool, true, false, Option, none, some, List, [], ◌∷◌, if◌then◌else◌,
  arith,
}
use text.Mathlib.Text.{◌==◌}

pub record CancellationToken : Type 0 where
  pub is_cancelled : Bool
  pub reason : String

abbrev pub new : CancellationToken
new = record { is_cancelled = false; reason = "" }

unfoldable pub request : String → CancellationToken → CancellationToken
request why t = record { is_cancelled = true; reason = if t.is_cancelled then t.reason else why }

-- The exception that a checkpoint raises: whether its text names a reason, and which.
pub data CancelledError : Type 0 where
  for_reason : String → CancelledError
  without_reason : CancelledError

unfoldable pub raise_if_cancelled : CancellationToken → Option CancelledError
raise_if_cancelled t =
    if t.is_cancelled
    then some (if t.reason == "" then without_reason else for_reason t.reason)
    else none

unfoldable pub request_all : List String → CancellationToken → CancellationToken
request_all [] t = t
request_all (why ∷ more) t = request_all more (request why t)

requests_again :
    (more : List String) (t : CancellationToken) → t.is_cancelled ≡ true → request_all more t ≡ t
unfolding request_all request
requests_again [] t e = refl
requests_again (why ∷ more) t e = requests_again more (request why t) refl ∙ same t.is_cancelled e
  where
    same : (b : Bool) → b ≡ true → request why t ≡ t
    same b k = ground (arith, e)

-- After one or more requests a new token is cancelled with the reason of the first, empty or not,
-- and a checkpoint raises, with that reason unless it is empty; before any request a checkpoint
-- does not raise.
pub request_all-first :
    (why : String) (more : List String)
    → (request_all (why ∷ more) new ≡ record { is_cancelled = true; reason = why })
      × (raise_if_cancelled new ≡ none)
      × (raise_if_cancelled (request_all (why ∷ more) new)
          ≡ some (if why == "" then without_reason else for_reason why))
unfolding request_all request raise_if_cancelled
request_all-first why more =
    let t : CancellationToken = record { is_cancelled = true; reason = why } in
    let first = requests_again more t refl in (first, refl, rw first refl)
