-- ===== src/Lib.antt =====
-- Clankwork: a daemon that hands tasks to coding agents, moves each task through the steps of a
-- workflow template, and merges the finished branches. This library models the parts that decide,
-- and proves what they promise.
--
-- The parts, and the files that model them:
-- - Controller: internal/model/controller.go. Slots has ComputeState, ComputeError and
--   DecisionFromError; Health has ComputeAgentError and EvaluateAgentHealth; Pressure has
--   ComputeQueuePressure, and shouldRecordQueuePressure of internal/mergequeue/processor.go.
-- - Gate: the pause and pressure state of the dispatcher, internal/scheduler/scheduler.go, and what
--   Tick asks for under it. The merge processor sets the pressure that Pressure computes.
-- - Workflow: internal/workflow/workflow.go and internal/template/template.go. Reach has canReach,
--   Compile has Compile and its policy, Validate the loader's check, Trace has
--   internal/workflow/trace_validation.go.
-- - Tasks: internal/store/tasks.go. The file itself has the statements on a row, Ready the query
--   TasksReady that the dispatcher's Tick runs, Cycle TaskAddDepWithCycleCheck.
-- - Routing: RouteStep and the two functions under it, internal/scheduler/scheduler.go. Routing/Laws
--   relates the row to the graph that Workflow compiles, Routing/Landing tells where each outcome
--   leaves the row, Routing/Retry bounds the retries, and Routing/Conformance holds the traces
--   against Trace.
-- - Reconciler: internal/scheduler/reconciler.go, which watches the running agents, and CancelAgent.
--   Events reads an agent's events, Actions ends agents and tasks by Routing, Acp and Tick decide,
--   by Controller's health evaluation among others; Steps is the abstract machine that they refine.
-- - Merge: the merge queue. Table and Counts have internal/store/mergequeue.go; Process has
--   processItem of internal/mergequeue/processor.go, with Machine the state machine of one row that
--   it implements; Conflicts has ClassifyConflict of internal/mergequeue/classify.go, with Blocks what
--   reads the conflict markers, and Conflicts/Resolution fills Process with it; Requeue has what
--   brings items back, the recovery at startup, and the queue's endpoints of internal/api/queue.go.
-- - Acceptance: internal/model/acceptance.go. Plan has ValidateExecutionPlan, Report has
--   ValidateVerificationReport and what it calls, Done has ValidateDoneBundle, References
--   ValidateArtifactReferences, Adversarial the probes that a review appends.
-- - Base: numbers, texts, lists and maps that the modules share.
--
-- State is passed: an operation takes the state and returns the new one. A database table is a list
-- of rows, a Go map a list of entries with their keys; what is appended to a log is a list of events.
-- Numbers of type int and durations are unbounded integers. What git, the shell, the file system,
-- the agents' runtimes, the JSON decoder, the template loader, the generator of ids and the clock
-- answer is an argument. A tick of the reconciler reads the clock once.
-- Statements on the database succeed, except where a key is taken. Message texts are left out or
-- stand as constructors where the code makes them from a format.
--
-- Two searches and a loop recurse on fuel. In Tasks/Cycle each row is on the agenda once at most, so
-- one step for each and one more are enough. In Workflow/Reach each source is taken once and each
-- edge queues its target at most once, so the nodes and edges together are enough. In
-- Acceptance/Adversarial each round makes the id longer, so one round more than there are ids is
-- enough.
--
-- Not modelled: the command line, the client, the terminal UI, the worker runtimes and the daemon's
-- wiring, which are input and output; the learning texts; the validation of acceptance
-- specifications by their texts, and the verdict over it, whose confidence is in floating point; the
-- signals and the triage of tasks; and the locks and goroutines of the reconciler's and the
-- processor's Tick.
pub mod Base
pub mod Controller
pub mod Gate
pub mod Workflow
pub mod Tasks
pub mod Routing
pub mod Reconciler
pub mod Merge
pub mod Acceptance
