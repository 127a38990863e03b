-- ===== src/Lib.antt =====
-- Verification of GPU-Scheduler-Lab, a deterministic simulator of GPU cluster scheduling.
--
-- The program. A scenario has a cluster of nodes with GPUs, jobs, a hierarchy of queues and fleet
-- events. An admission controller decides which jobs enter; schedulers choose the GPUs of a job; a
-- fair-share allocator wraps one of them with the queues' limits and guarantees; the cluster
-- records which job owns which GPU; the simulator takes events in their order and starts, preempts,
-- restarts and completes jobs.
--
-- The files, by the code that they model (paths from the repository's root):
--   Prelude: Python's lists, dicts, sorting and exceptions, and lemmas on them.
--   Models/Accelerator, Models/Topology, Models/Elastic, Models/Job, Models/Events:
--     gpu_scheduler_lab/models and gpu_scheduler_lab/elastic/work.py. A job is its request
--     (`spec`) beside the fields that the simulator writes.
--   Models/Cluster: gpu_scheduler_lab/models/cluster.py. `allocate`, `release`, `resize`, `clone`
--     (`clone_cluster`) and `assert_invariants` are functions on the cluster's record; Ownership,
--     Refusals, Roundtrip, Freed, Resized, Eligible and Drawn hold what is proved of them, and
--     Refines compares them with a table that has only the owners.
--   Queues: gpu_scheduler_lab/queues. `QueueHierarchy.__init__` is `new_hierarchy`; Walks, Totals
--     and Limits hold the proofs.
--   Schedulers: gpu_scheduler_lab/schedulers. Topology and its child Place are topology.py, whose
--     other children (Sound, Counted, Sought, Placed) hold what is proved of a placement;
--     Packing is base.py, fifo.py, binpack.py, spread.py, preemptive.py, vendor.py and gang.py,
--     Backfill is backfill.py.
--   Fairshare: gpu_scheduler_lab/fairshare.
--   Allocator: gpu_scheduler_lab/allocation/allocator.py, one function per method, on a record of
--     the scheduler's fields. The placement scheduler is a parameter.
--   Fleet: gpu_scheduler_lab/fleet/events.py. Admission: gpu_scheduler_lab/admission/controller.py.
--   Simulator: gpu_scheduler_lab/simulator/engine.py. The state and the event queue are in
--     Simulator, `_complete`, `_complete_checkpoint` and `_complete_restart` in Lifecycle,
--     `_begin_preemption` in Preemption, the GPUs that preemptions reserve in Reservations, `_start`
--     in Start, `_arrive` and the runnable demand in Arrivals, `_handle_fleet_event`,
--     `_capacity_loss` and `_interrupt_for_capacity_loss` in Capacity, `_preempt_for` in Preempting,
--     `_reclaim_for` and its plans in Reclaiming, `_schedule`, `_dispatch_pending` and
--     `_attempt_placement` in Dispatch, `_resize_elastic_jobs` in Resizing, `_integrate_state` and
--     the timelines in Areas, `__init__` and a round of `run`'s loop in Run. Scheduler is the
--     interface of gpu_scheduler_lab/schedulers/base.py, a record of the methods on a state of the
--     scheduler's own, which is a parameter of the passes. The other modules hold the proofs.
--   Metrics: gpu_scheduler_lab/metrics: Jain's index (fairness.py), Fragmentation, Latency and
--     Summary; Fairness, Fragmented and the children of Summary hold proofs.
--   Examples: runs on small inputs.
--
-- Correspondence. Strings are compared by code points, as in Python. A float is a natural number:
-- times in billionths of a second, memory in billionths of a gigabyte, weights and GPU units in
-- billionths, so that the source's tolerance of 1e-9 is one; arithmetic on them is exact, and the
-- tests for finite and non-negative values hold of every number. Quotients (shares, averages,
-- debts) are exact fractions compared by cross-multiplication. A dict is the list of its items in
-- insertion order, a set a list of members. An exception is the `raise` case of a result; a method
-- that may raise between its writes returns what it leaves behind beside the error. An object is
-- found by its id, which the constructors keep distinct.
--
-- Fuel. A walk to the root of the queues has as many rounds as there are queues, and two more; the
-- spreading scheduler's loop as many as GPUs are requested, since a round without progress ends it.
-- The dispatch loop has as many rounds as candidates, each of which takes one away. A reclaim plan
-- first has as many rounds as GPUs are held in the projection, and one more, since each takes one,
-- and then as many as jobs are running, and one more, since each preempts one. Elastic growth has as
-- many as replicas are missing of the preferred ones, and one more; the discarding of events as many
-- as events are queued, and one more. A round of `run` is one step, and its loop is the states that
-- rounds reach. For the first loop of a reclaim plan and for growth a scheduler is taken that does
-- not give GPUs to the copies or the jobs that it prepares, as those of the repository.
--
-- Not modelled: `from_scenario`, the metrics dictionary of a run (`_phase3_metrics` and what it
-- calls) and the conversion of a result; the exponentials of the usage history, which are
-- parameters; the conversions to and from dictionaries; the command line, studies, experiments,
-- traces, plots and other reports, which read and write files.
pub mod Prelude
pub mod Models
pub mod Queues
pub mod Fleet
pub mod Schedulers
pub mod Fairshare
pub mod Allocator
pub mod Admission
pub mod Simulator
pub mod Metrics
pub mod Examples
