-- ===== src/Lib.antt =====
-- The engine of OQTOPUS (coreapp): it fetches quantum jobs from the cloud, runs them one at a time on a
-- device behind a gateway, and reports their results.
--
-- How the parts interact. The poller (coreapp/poller) asks the cloud for jobs when the queue and the
-- device allow it; the converter (coreapp/oas/converter.go) and the job factory (coreapp/core/job.go)
-- make jobs of what comes back; the scheduler (coreapp/scheduler) takes each job through pre-processing,
-- the queue, processing and post-processing, and sends its state to the database (coreapp/core/db.go,
-- or coreapp/db/service.go, which reports to the cloud);
-- processing sends the job through the gateway (coreapp/qpu), and the result of a combined job is divided
-- among its circuits (coreapp/multiprog/manual/resultdivider). A program of an SSE job runs in a container
-- (coreapp/sse), whose requests the router sends to the transpiler and the device.
--
-- Which file models which part:
--   Prelude            tests, lists, Go's integers and maps, and results with an error or a panic
--   Core/Status, Data, Mapping   coreapp/core/data.go: Status, JobData and its copies, ToMap
--   Core/Device        coreapp/core/syscomponent.go: DeviceStatus, DeviceInfo and the records of its specification
--   Core/Setting       coreapp/core/setting.go: the settings of the components
--   Core/Address       coreapp/common/util.go: ValidAddress
--   Core/Job, Manager  coreapp/core/job.go: the interface Job, JobManager, validateJobParam
--   Core/MemoryDb      coreapp/core/db.go: MemoryDB
--   Jobs/Normal        coreapp/core/job.go: NormalJob, UnknownJob
--   Jobs/Manual        coreapp/multiprog/manual/job.go: the stages of ManualJob; Combine: sendJobdata
--   Jobs/Sampling      coreapp/sampling/job.go: SamplingJob
--   Jobs/Estimation    coreapp/estimation/job.go: EstimationJob (State, Operators, PreProcess)
--   Mitigation         coreapp/mitig/mitig.go: PseudoInverseMitigation and what it reads of a job
--   Transpiler         coreapp/transpiler/tranqu.go: Setup, Transpile and the mappings
--   Sse                coreapp/sse/sserun.go: RunSSE (Steps: its requests); Sse/Job: coreapp/sse/job.go;
--                      Sse/Router: coreapp/sse/router/sse_gateway_router.go, TranspileAndExec
--   RunGroup           coreapp/core/run.go: AddPeriodicTask; Parse: the runners by name
--   Scheduler/Queue    coreapp/scheduler/queue.go: NormalQueue over the interface fifo
--   Scheduler/Handle   coreapp/scheduler/scheduler.go: HandleJob, handleImpl, the worker of Start
--   ResultDivider      coreapp/multiprog/manual/resultdivider/result_divider.go
--   Poller             coreapp/poller/poller.go: Setup, Task, getJobs, passPollingCondition
--   Poller/Params      coreapp/poller/poller.go: SetParams
--   Poller/Client      coreapp/poller/awspollclient.go: toJobSlice
--   Converter          coreapp/oas/converter.go: ConvertFromCloudJob and the statuses
--   Converter/Outgoing coreapp/oas/converter.go: ConvertToCloudJob
--   ServiceDb          coreapp/db/service.go: ServiceDB.Update and the calls it makes
--   Qpu/Circuit        coreapp/qpu/ir.go: the listener that reads a circuit; checkResource
--   Qpu/Filter         coreapp/qpu/circuit.go, coreapp/common/util.go: allow list and deny list
--   Qpu/Validate       coreapp/qpu/circuit.go: circuitValidate, ParseQASM
--   Qpu/Gateway        coreapp/qpu/gateway.go, coreapp/qpu/qpu.go: CallDeviceInfo, CallJob, Send
--   Qpu/Gateway/Polling  coreapp/qpu/qpu.go, device.go, gateway.go: the settings and the polling of the device
--   Examples           concrete inputs
--
-- A method that changes an object in place gives back the object, also with an error or a panic (`Call`,
-- `Run` in Core/Job). Logging is left out. A formatted error message is the data type `Fault`. A Go map is
-- an association list, and what is proved of every list holds of every order of `range`. Integers of Go's
-- type int are unbounded; int32 and uint32 wrap where the source has them, and so does
-- the router's conversion of a uint to an int.
--
-- Goroutines. A job in the scheduler is handled by one goroutine, which waits for the worker: its history
-- is a sequence of rounds, and whether the queue has a place for the job in each is an argument. The queue's
-- own goroutines are a sequence of arrivals and removals. The loop of `handleImpl` has fuel for two rounds,
-- and Scheduler/Handle/Rounds shows that this is enough.
--
-- `RunSSE` keeps a log of its requests, and an answer may depend on the place of the request in it. The loop of a
-- periodic task is a sequence of ticks.
--
-- Parameters: the queue package goconcurrentqueue (`Fifo`), encoding/json as far as it is asked (`Codec`,
-- `Encoder`), the gateway's and the provider's services (`Services`, a function for CallJob), the transpiler of the
-- container (`Container`), the services of the transpiler, of the mitigation, of the estimation and of the
-- combination of circuits as functions from their request to their reply, Docker with the files of an SSE job and
-- the API for its program and its log (`Sse.Steps.Environment`, `Sse.Job.Container`), the services of the router
-- (`Sse.Router.Services`), the values that the TOML decoder gives for a setting (`Core.Setting.Value`), the parser of durations, and the generated QASM parser
-- (`Qpu.Validate.Parser`).
--
-- Not modelled: the gRPC server of the SSE router, its API client and its settings; the servers of the run group and
-- the decoding of TOML; the command line and the wiring of the container (coreapp/cmd); the logs; the
-- generated clients and the generated QASM parser; and the services in Python.
pub mod Prelude
pub mod Core
pub mod Scheduler
pub mod ResultDivider
pub mod Poller
pub mod Converter
pub mod Qpu
pub mod Jobs
pub mod Mitigation
pub mod Transpiler
pub mod RunGroup
pub mod Sse
pub mod Examples
pub mod ServiceDb
