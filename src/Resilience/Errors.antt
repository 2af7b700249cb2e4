-- ===== src/Resilience/Errors.antt =====
-- resiliencelab/resilience/errors.py and `ServiceSaturated` of resiliencelab/services/capacity.py:
-- the failures of a call, and the part of Python's exception classes that causes belong to.
use resilience_lab.Common.{ℕ, Bool, true, false, Option, none, some}

-- Python's own classes that the code names, and one for all others.
pub data ExceptionClass : Type 0 where
  os_error connection_error connection_reset_error connection_refused_error : ExceptionClass
  timeout_error other_exception : ExceptionClass

-- `isinstance` of an exception of the first class.
abbrev pub is_instance : ExceptionClass → ExceptionClass → Bool
is_instance os_error os_error = true
is_instance connection_error os_error = true
is_instance connection_error connection_error = true
is_instance connection_reset_error os_error = true
is_instance connection_reset_error connection_error = true
is_instance connection_reset_error connection_reset_error = true
is_instance connection_refused_error os_error = true
is_instance connection_refused_error connection_error = true
is_instance connection_refused_error connection_refused_error = true
is_instance timeout_error os_error = true
is_instance timeout_error timeout_error = true
is_instance other_exception other_exception = true
is_instance _ _ = false

pub data FailureClass : Type 0 where
  plain_failure circuit_open_error concurrency_limit_exceeded : FailureClass
  retry_budget_exhausted deadline_exceeded service_saturated : FailureClass

pub record CallFailure : Type 0 where
  pub class : FailureClass
  pub status : Option ℕ
  pub retryable : Bool
  pub cause : Option ExceptionClass

-- `CallFailure(message, status=…, cause=…)`, with `retryable` by default.
abbrev pub call_failure : Option ℕ → Option ExceptionClass → CallFailure
call_failure status cause = record {
  class = plain_failure;
  status = status;
  retryable = true;
  cause = cause;
}

-- The subclasses that pass `retryable=False` and nothing else.
abbrev final_failure : FailureClass → CallFailure
final_failure class = record { class = class; status = none; retryable = false; cause = none }

abbrev pub circuit_open : CallFailure
circuit_open = final_failure circuit_open_error

abbrev pub concurrency_exceeded : CallFailure
concurrency_exceeded = final_failure concurrency_limit_exceeded

abbrev pub budget_exhausted : CallFailure
budget_exhausted = final_failure retry_budget_exhausted

abbrev pub deadline : CallFailure
deadline = final_failure deadline_exceeded

abbrev saturated : CallFailure
saturated = record { class = service_saturated; status = some 503; retryable = true; cause = none }
