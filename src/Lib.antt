-- ===== src/Lib.antt =====
-- AGScheduler: a task scheduler in Go, standalone or as a cluster of nodes. A `Scheduler` keeps
-- jobs in a `Store`, and its goroutine `run` sleeps until the next run time, starts the jobs that
-- are due, and writes their new times back. In a cluster each scheduler belongs to a
-- `ClusterNode`; the workers register at the main node and ping it, and a job goes to a healthy
-- node of one of its queues.
--
-- The files and the code that they model:
-- - Errors: the errors of error.go and those made by `fmt.Errorf`, and the places where the code
--   can panic. Result and Exec: a call that returns, fails or panics, and one that also changes a
--   state.
-- - Time: `time.Time` and `time.Duration`. Env: what comes from outside, namely the clock, `rand`,
--   `uuid`, time zones, the parsers of dates, durations and cron expressions, and `sort.Sort`.
-- - Job: job.go, with the arguments of a job in Job/Value and `String` and the times in a time
--   zone in Job/Print. Job/Init: `setId`, `check`, `init` and `RegisterFuncs`. Job/Calc:
--   `CalcNextRunTime` of scheduler.go. Job/Ready: theorems on `init`. Job/Progress: how far ahead
--   the next run time lies. Job/Equality: jobs can be compared.
-- - Store: interface.go, as a record of operations on the state of a store. Store/Contract: what
--   the scheduler relies on in a store. Store/Memory: stores/memory.go; its children hold
--   theorems. Store/Memory/Sorted is about sorting the array of the store in place. Store/Codec:
--   what the stores over a database share, with `StateDump` and `StateLoad` over `encoding/gob`,
--   which the stores take as the argument `Codec`. Store/Keyed: what is asked of a store that
--   keeps one encoded job for each identifier, and why it then keeps the contract. Store/Listing:
--   what the listing of a store gives; Store/Keyed/Listing and the modules Listing of the stores
--   are about it. Store/Redis: stores/redis.go. Store/Gorm: stores/grom.go. Store/Mongo:
--   stores/mongodb.go. Store/Etcd: stores/etcd.go. Each takes its client as an argument, and what
--   it relies on in the documentation of the database is a hypothesis of the theorems in its
--   children: `IsRedis` of Store/Redis/Server, `IsGorm`, `IsMongo` and `IsEtcd`, and `IsScanned`
--   for their listings.
-- - Cluster: cluster.go, with the calls between nodes in Cluster/Remote. The children Registry,
--   Choice, Heartbeats and Reports hold theorems; the last is about any sequence of calls and
--   checks at a main node.
-- - Scheduler: the state and the operations of scheduler.go. Scheduler/Run: `_runJob`,
--   `_scheduleJob`, `RunJob`, `ScheduleJob` and `_flushJob`. Scheduler/Loop: `run`.
--   Scheduler/Calling: the goroutines that `_runJob` starts, as a step relation. Scheduler/Notify:
--   `sendEmail` and `httpCallback`. Scheduler/Calls: every call that reaches a scheduler, in any
--   order. The other children hold theorems: Jobs, Pause and Unstarted on the operations, Quiet,
--   Rounds, Ticks, Complete, Promptness, InPlace and Aliasing on the rounds of `run`, Modes on
--   where a job goes, Lifecycle on `Start` and `Stop`, Keeps on what no call breaks, and Effects
--   on what each call may do to the stored jobs, as a specification.
-- - Job/Proto: the conversions of job.go between jobs and the messages of scheduler.proto, over
--   `structpb` as an argument.
-- - Services: the handlers of services/http.go (Services/Http) and of services/rpc.go with the
--   request that `_runJobRemote` sends (Services/Rpc). Services/Calls holds theorems on sequences
--   of calls. Services/Delivery: a job on its way from the node that places it to the node that
--   runs it. Services/Server: the set-up of both services. Services/Joining: services/cluster.go,
--   cluster_http.go and cluster_rpc.go, with a theorem on a worker that joins.
-- - Examples: the programs of examples/, which call the scheduler (Examples/Stores), its HTTP
--   service (Examples/Http), its gRPC service (Examples/Rpc) or start a node of a cluster
--   (Examples/Cluster).
-- - Tests: the theorems at concrete inputs.
--
-- How the parts interact: the scheduler calls the store through the record `Store`, and a theorem
-- about the scheduler takes any lawful store, that is one that keeps `Store.Contract.IsLawful` for
-- some invariant, some view of its state as a map from identifiers to jobs, and what it keeps of a
-- job, if it can store it at all: the memory store keeps a job as it is, a database what decodes
-- from its encoding. A job that is added has an identifier, which `init` gives to every job;
-- `AddsAny` says that it needs none. The modules Refines of the stores are about that contract,
-- for MongoDB about its part `IsMap`, since that store reports an error for the next run time of
-- an empty collection; for etcd it is not stated, since `path.Join` can give two identifiers one
-- path and etcd compares run times as texts. `GetAllJobs` returns a slice that is an array of its
-- own or shares the array of the store: the memory store shares, and the loop of `run` reads each
-- element when it comes to it.
--
-- Bounds and conventions. A time is the number of nanoseconds since the year 1; a duration is an
-- integer, and `Sub` stops at the ends of int64 as in Go. A sum of times does not wrap around,
-- which Go's does only beyond the year 292277026596. The readings of the clock, the uuids and the
-- random numbers are numbered by counters in the state. A Go map is an association list, whose
-- order stands for the order of `range`. Texts have one byte to a character. Loops run over lists,
-- so that no fuel is needed; the loop of `run` over a shared slice is bounded by the length that
-- the slice has when the loop begins, as in Go. That `_runJob` starts the function is seen as the
-- event `ran`; what follows in its goroutines touches nothing of the scheduler. A call of the
-- scheduler, a round of `run` and a round of `checkNode` are single steps: no other goroutine acts
-- within them. The turns that the goroutine of `run` makes between two statements of an example
-- are an argument.
--
-- Not modelled: how a mail and a request are sent; how each service listens and what gin does with
-- its routes and pages; the bytes of the gob encoding, for which `Gob` and `Codec` are arguments,
-- and how a time prints; locks, since each call is one step; the log, except for errors that `run`
-- logs; what the examples print.
pub mod Base
pub mod Errors
pub mod Result
pub mod Time
pub mod Job
pub mod Env
pub mod Exec
pub mod Store
pub mod Cluster
pub mod Scheduler
pub mod Services
pub mod Examples
mod Tests
