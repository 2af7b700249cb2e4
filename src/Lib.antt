-- ===== src/Lib.antt =====
-- Resilience-Lab: resilience mechanisms around calls between services, and the control plane that runs
-- experiments with them.
--
-- A call goes through the policy executor (resiliencelab/resilience/policy.py), which first takes a slot
-- of the concurrency limiter, asks the circuit breaker, and then tries the operation, waiting between
-- tries as the retry policy, its backoff, its jitter and its budget say, until a value, a final failure
-- or the deadline. A service has slots of its own (resiliencelab/services/capacity.py). Experiments and
-- their runs are rows of a database, whose status is a state machine
-- (resiliencelab/controlplane/repositories.py). Jobs wait in Redis (resiliencelab/controlplane/queue.py),
-- and a worker (resiliencelab/controlplane/worker.py) claims them, runs them, and writes back how they
-- ended, while the API may cancel them.
--
-- Files and the code they model:
--   Common            helpers: tests, lists, `Checked` for constructors that raise ValueError, deques,
--                     the queue of an asyncio.Condition, tables under a textual key, dictionaries in the
--                     order of insertion
--   Core.Schema (Graph, Merge, Policies)
--                     resiliencelab/core/schema.py: the check of the call graph, the merge of two
--                     dictionaries of policies, and the specs of policies
--   Core.Config       resiliencelab/core/config.py; pydantic's validation and dump are parameters with
--                     laws
--   Core.Policies     resiliencelab/core/policies.py; the data of a policy, its dump and its validation are
--                     parameters
--   Core.Builders     resiliencelab/core/builders.py: policies out of their specs
--   Resilience.Errors, Timeout, Backoff, Jitter, Retry, CircuitBreaker, Concurrency, Policy
--                     resiliencelab/resilience/*.py, one module per file; the functions keep their
--                     names (`_open` is `trip`, `_record_recent` is `record_recent`)
--   Services.Capacity resiliencelab/services/capacity.py
--   ControlPlane.Records, ControlPlane.Repositories (and its child Queries)
--                     resiliencelab/controlplane/models.py and repositories.py
--   ControlPlane.Redis, ControlPlane.Queue
--                     resiliencelab/controlplane/queue.py; the Redis server is a parameter with laws
--   ControlPlane.Worker
--                     resiliencelab/controlplane/worker.py: one pass of `run_worker`
--   Core.Cancellation resiliencelab/core/cancellation.py, the token that a run polls
--   Events            resiliencelab/events.py, the emitter of a run's events
--   Metrics.Collector resiliencelab/metrics/collector.py, the rows and the gate before the emitter
--   Services.Dependency (and its child Invoke)
--                     resiliencelab/services/dependency.py: what `invoke` decides by, and `invoke` itself
--   Services.Network  resiliencelab/services/network.py, the choice of a link
--   Services.Client   resiliencelab/services/client.py: what a call leaves in the collector; the signals
--                     of the executor come as a list
--   Services.Sut      resiliencelab/services/sut.py, the answers of `handle`
--   Analysis.Recovery resiliencelab/analysis/recovery.py, the search for a sustained recovery
--   Api.Auth          resiliencelab/api/auth.py, who may call the server
--   Api.Server        resiliencelab/api/app.py, the routes of experiments and runs over the database and
--                     the queue
--   Api.Local         resiliencelab/api/app.py, the same routes without a database
--   Api.Server.Bundles
--                     resiliencelab/api/app.py, the server's routes over the bundles of results
--   Workloads.Arrivals, Workloads.Generator
--                     resiliencelab/workloads/arrivals.py and generator.py: the gaps
--                     between arrivals, and the drives of a run
--   Metrics.Timeline  resiliencelab/metrics/timeline.py, buckets of request rows
--   Experiments.Runner
--                     resiliencelab/experiments/runner.py: repetitions and the injectors of a service
--   Experiments.Requests
--                     resiliencelab/experiments/runner.py: what each service of a repetition is given, and
--                     the way of a request through the services
--   Experiments.Matrix
--                     resiliencelab/cli/app.py: the command `matrix`, from the design on
--   Experiments.Artifacts
--                     resiliencelab/experiments/artifacts.py: a bundle of files, its manifest, and the
--                     check of the one by the other; texts, hash and JSON are parameters
--   Experiments.Reproduce
--                     resiliencelab/experiments/reproduce.py and benchmarks.py
--   Analysis.Pareto   resiliencelab/analysis/statistics.py, the frontier of the best points
--   Analysis.Design   resiliencelab/analysis/design.py, the factorial expansion of an experiment, and
--                     resiliencelab/experiments/factorial.py; json and hashlib are parameters
--   Analysis.Comparison
--                     resiliencelab/analysis/comparison.py; floats and the statistics of them are
--                     parameters
--   Analysis.Events   resiliencelab/analysis/events.py: filters, counts and traces of events
--   Faults            resiliencelab/faults/model.py, the fault injector
--   Examples          concrete runs
--
-- State is passed explicitly: an operation takes the object's record and returns the new one. Every
-- reading of a clock is an argument. A coroutine is split where it awaits: `attempt` is `acquire` up to
-- its wait, `resume` goes on after a notification, `cancel` ends a wait, and a history is a list of such
-- events. In the executor the environment of each pass of the loop (clock readings, what the operation
-- does, what other calls do to the shared objects meanwhile, the random source) is a record `Round`, and
-- the environment as a whole a function from the number of the pass.
--
-- Bounds and fuel: times are natural numbers of ticks and a factor is a fraction, so rounding differs
-- from floating point and negative durations do not occur; Python's integers have no bound. The retry
-- loop runs on fuel; `max_passes`, one more than `max_attempts`, is enough whatever the environment does.
-- The walk of the call graph runs on one level of nesting for each service and one more, which is enough
-- because a walk never goes into a service that it is already in.
--
-- A cancellation of a task that a condition has notified already loses the notification, as with Python
-- 3.11 and 3.12.
--
-- Not modelled: threads within one method of a breaker or budget (each holds its lock), the
-- cancellation of a call that waits for its slot in the executor, the durations that events carry,
-- columns that no operation reads, two sessions that write the same row at once, and a process that
-- stops between a write to Redis and the commit (an exception there is modelled). The random source
-- and the clock are parameters, and so are Redis, pydantic and what a repetition of an experiment
-- computes, the hash of a text, and what is on the disk. The routes of events, health and
-- catalogues, FastAPI and its responses, the YAML reader, the other commands, the dashboard,
-- migrations, and the statistics and reports in floating point are left out.
pub mod Common
pub mod Resilience
pub mod Services
pub mod ControlPlane
pub mod Core
pub mod Events
pub mod Metrics
pub mod Faults
pub mod Workloads
pub mod Experiments
pub mod Analysis
pub mod Api
pub mod Examples
