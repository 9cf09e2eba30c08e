-- ===== src/Lib.antt =====
-- A review console for AI agents' actions: a maker submits an action for review, human checkers
-- dispose of it under four-eyes rules, and a case engine watches deadlines and escalates to them.
--
-- The parts, and the files that model them:
--   Kernel, Models          src/review_console/domain/kernel.py and models.py: a review's request,
--                           decisions, approvals, its state and the sign-off event. (The paths
--                           below are in src/review_console/ too.)
--   MakerChecker            domain/maker_checker_service.py: `check_eligibility`, `dispose` and the
--                           routing policy; MakerChecker.Policy has `RoutingPolicy.from_mapping`.
--   Stores.ReviewPort       ports/review_store.py: the operations of a store, `IsLawful`, what the
--                           console relies on, and `IsReviewStore`, which adds the order of the
--                           listings.
--   Stores.Reviews          adapters/local/review_store.py: the SQLite table, one function for each
--                           method, and one for the effect of each statement on the rows.
--   Console                 domain/console_service.py: `submit`, `submit_idempotent`, the reads and
--                           `dispose` (`dispose_review`), over any store of the port.
--   Cases.Kernel, Models    domain/cases/kernel.py and models.py.
--   Cases.Clock             domain/cases/clock.py: business and calendar days, `deadline_for`.
--   Cases.StateMachine      domain/cases/state_machine.py: `transition`, `legal_next_states`.
--   Cases.Assessment        domain/cases/assessment.py: `assess`.
--   Cases.SampleWorkflows   domain/cases/sample_workflows.py.
--   Cases.LocalPorts        adapters/local/case_store.py, timers.py and events.py.
--   Cases.CloudPorts        adapters/gcp/case_store.py, timers.py and events.py, over the calls of
--                           the cloud's clients.
--   Cases.Workflow          domain/cases/workflow_service.py: `open_case`, `transition_case`,
--                           `evaluate_case`, over the adapters of the local profile.
--   Cases.Trail             its `_record`: the audit event of a case.
--   Cases.Escalation        adapters/review_router.py, which submits an escalated case to the
--                           console.
--   Stores.Firestore        adapters/gcp/review_store.py over the calls of a Firestore client.
--   Config                  config.py: `resolve_profile`, `Settings` and its `load`
--                           (`load_settings`), the binding tables; Config.Callers has
--                           `iap_service_callers`, Config.Container the policy file.
--   Identity                ports/identity.py; Identity.Personas and Identity.Gcp are the adapters
--                           in adapters/local/identity.py and adapters/gcp/identity.py.
--   Api.Schemas             api/schemas.py: the bodies of requests and responses.
--   Api.Reviews, Api.Cases  api/app.py: the routes, over the console and the case service.
--   Api.Callers             its `get_principal` and `require_service_caller`.
--   Api.Origins, Posture    its origin policies, and its exposure guard, over that of the kit.
--   Api.Reach               the states of the whole service under requests to the routes.
--   Cli                     cli/main.py: each command over the same services.
--   Strings                 the methods of Python's str that these use.
--   Prelude, Errors, Action, Json, Time hold what these share. Tests runs the model.
--
-- How the code is modelled. A method that changes a state is an `Action`: it takes the state and
-- returns a result with the state after it, also when it raises, so that what was written before
-- an exception stays written. The audit log is a list of events, and the console's operations take
-- what its `record` does, which may raise (`submit_recording`, `submit_idempotent_recording`,
-- `dispose_recording`); without that argument they run over the log that takes every event at its
-- end, and so does the case service. The hash chain of the service kit is not modelled. An instant
-- is a date's ordinal and the microseconds of the day, in UTC. Readings of the clock and new uuids
-- are arguments. Redaction (the PII kit), the JSON codec, with its round trip, the lookup of an
-- enum by its value, and floating-point arithmetic are parameters. So are `json.loads`,
-- `str.lower`, `isoformat` and `repr`, the service kit's part of the identity checks (the choice
-- of the header, the algorithm pin, the verification of a token, the check of the claim set, the
-- shared-secret check), its exposure guard, with what it is documented to do (`IsGuard`), and the
-- calls of the clients of Firestore and Cloud Tasks, whose laws `IsFirestore` and `IsCloudTasks`
-- state.
--
-- A route is a function of the principal that its dependency gave and of its parsed body, with the
-- uuids and clock readings it takes; it answers a model or an error with the HTTP status. A body
-- that the field bounds refuse is answered with 422. The console's routes and the case service
-- share one console. A command of the command line is its parsed arguments.
--
-- Bounds. Python's integers are unbounded, and so are these. The loop of `add_business_days` ends
-- with OverflowError after the last date of the calendar: it is a recursion on the dates that are
-- left. The loop of `business_days_between` is a recursion on the dates between the two instants.
--
-- Constraints of SQLite: an upsert on (tenant, review_id) raises IntegrityError if another row has
-- the tenant's source key; an insert that skips on (tenant, source_key) checks that key first, and
-- raises if only the primary key is taken. Each statement is one step.
--
-- Not modelled: the framework's routing and middleware, the start of the server, the lazy imports
-- of the container of config.py, the hash chain of the audit log, the audit sink of the managed
-- profiles, the placeholders of the on-premises profile other than the identity, the argument
-- parser, the evaluation and packaging scripts, the infrastructure and the user interface, which
-- connect the parts above to frameworks and services.
pub mod Prelude
pub mod Strings
pub mod Time
pub mod Kernel
pub mod Models
pub mod Errors
pub mod Action
pub mod Json
pub mod MakerChecker
pub mod Stores
pub mod Console
pub mod Cases
pub mod Config
pub mod Identity
pub mod Api
pub mod Cli
mod Tests
