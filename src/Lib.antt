-- ===== src/Lib.antt =====
-- skene: a library for durable workflows. A workflow's run is a list of events; to go on with a
-- run, the program replays its history, executes the steps that are ready, and appends the new
-- events.
--
-- The parts and the files that model them:
--   * event/event.go, event/data.go (the event record and the payloads): Event.antt and
--     Event/Data, over the JSON trees of Event/Json.
--   * event/store.go, event/memory/store.go (`Append`, `AppendBatch`, `Load`, `LoadSince`,
--     `GetLastSequence`): Event/Store and Event/Memory, with the invariant in Memory/Numbering,
--     the batches in Memory/Batch and the reads in Memory/Reads.
--   * event/pgstore/store.go (the same operations, and those in a transaction): Event/Pgstore,
--     with the database in Pgstore/Postgres, the checks in Pgstore/Checks, the duplicate keys in
--     Pgstore/Errors and Pgstore/Duplicates, the texts of the types in Pgstore/Constants, and the
--     agreement with the memory store in Pgstore/Agreement, Pgstore/Refinement, Pgstore/Batch and
--     Pgstore/Loads.
--   * retry/policy.go (`NextDelay`, `ShouldRetry`): Retry.antt.
--   * workflow/history.go (`NewHistory`, its index and its queries): Workflow/History and its
--     children.
--   * workflow/step.go, workflow/branch.go, workflow/signal.go: Workflow/Step, Workflow/Branch,
--     Workflow/Signal. The code of a step is a parameter: a tree of the calls that it makes of
--     its context, `Run` and `Map` included, and of what it returns. Code that panics or that
--     does not return has no tree.
--   * workflow/replay.go: the state of a replayer in Workflow/Replayer, `executeStepWithEvents`
--     in Workflow/Execute, `Replay`, `findReadySteps` and `executeParallel` in Workflow/Replay.
--   * workflow/context.go, the adapter of workflow/define.go, and what user code reads of a
--     context: Workflow/Context and Context/Reads.
--   * workflow/map.go: the events of children and maps in Workflow/Records; `Run` in
--     Workflow/Child, and a step's call of it in Child/InStep; `Map` and `MapWithOptions` in
--     Workflow/Map (the goroutines and the loop that starts them) and Map/Call, with what they
--     return in Map/Results and Map/Returns.
--   * workflow/saga.go (`runCompensation`): Workflow/Saga.
--   * workflow/define.go (`Define`, `topologicalSort`, `Graph`, `GetStepDefs`): Workflow/Define,
--     with the loops of the sort in Define/Sort and the graph in Define/Graph and Define/Blocks.
--   * river/registry.go (the versions of workflow definitions): River/Registry.
--   * river/types.go, river/jobs.go (runs, statuses, arguments of jobs): River/Types,
--     River/World.
--   * river/config.go (`Validate`, `withDefaults`): River/Config.
--   * river/runner.go, river/workers.go: the store, the queue and the transactions that they
--     stand on in River/World (the memory store in World/Memory), the operations of the runner in
--     River/Runner, the workers in River/Runner/Worker.
--   * project/project.go (`RunStatus`, `ChildWorkflows`, `StepInvocations`, `StepCounts`,
--     `Timeline`): Project.antt, Project/Children, Project/Invocations, Project/Counts,
--     Project/Timeline; what `ChildWorkflows` tells of, in Project/Fates.
--   * the goroutines of a wave: Workflow/Thread. A thread is a sequence of atomic actions on the
--     replayer; a schedule, which the environment gives for each wave, picks the thread that acts
--     next, so a statement for every environment is one for every interleaving.
--
-- How they interact: a store's `load` gives the events that `new_history` indexes, `new_replayer`
-- takes the next sequence from that history, `replay` returns new events, and `append_batch`
-- stores them. A worker of the runner does just that in one transaction; the runner's calls
-- append an event and queue a job in one. The results below follow the events around that loop.
--
-- The runner: an operation is an action on a world of an event store, a queue of jobs and a flag.
-- Each call of the database and of the queue, each uuid and each look at the clock takes its
-- answer from `Host`, by the number of calls so far, so a statement for every host is one for
-- every pattern of failures; a commit that returns an error may have been made or not. An
-- operation is one step: two of them do not interleave. A store that is a `TxEventStore` is taken
-- to do in a transaction what its `AppendBatch` does, and to undo it in a rollback; any other
-- store keeps what was appended.
--
-- Bounds and fuel: `run_waves` has one wave more than the workflow has steps, which is enough
-- since each wave that goes on completes a step; `attempts` has one attempt more than the
-- policy's limit, which is enough since a retry needs an attempt below the limit; `process` has a
-- turn for each step. The goroutines of a map end by themselves, and the loop that starts them
-- has no more turns than there are items once the schedule is used up. Sequences are naturals:
-- the int64 of the code has no overflow here. A time is a number of nanoseconds.
--
-- What is a parameter: uuid.New (`new_id`), the clock (`now`), the parent context (`context_err`,
-- one answer for each look), float64 (`Floats`), the code of the steps, the order in which Go
-- ranges over a map (`range`, `visit`), the failures of the database and the queue (`fails`), and
-- PostgreSQL behind pgx, as the interface `Database` with its laws `IsLawful`
-- (Event/Pgstore/Postgres).
--
-- What is not modelled: the logger and the callback OnStepEmit, the package query and the
-- examples. A projection that drops the error of json.Unmarshal reads a payload that does not
-- decode as the zero struct; what the package leaves of a partly decoded one is not modelled.
pub mod Prelude
pub mod Event
pub mod Retry
pub mod Workflow
pub mod River
pub mod Project
pub mod Tests
