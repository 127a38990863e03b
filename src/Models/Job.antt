-- ===== src/Models/Job.antt =====
-- gpu_scheduler_lab/models/job.py: jobs. Times are counted in billionths of a second and memory in
-- billionths of a gigabyte; what the constructor is given is the job's `spec`, and the fields that
-- the simulator writes stand beside it.
pub mod Validation
use gpu_scheduler_lab.Prelude.{
  ℕ, ◌+◌, ◌-◌, ◌*◌, ◌/◌, min, String, ◌≡◌, ◌↔◌, refl, Bool, true, false, ◌&&◌, ◌||◌, not, Option,
  none, some, List, [], ◌∷◌, arith, ◌==◌, ltb, leb, nat_eq, if◌then◌else◌, Eq, any, distinct,
  is_empty, Result, ok, raise, value_error, ◌>>=◌, ◌>>◌, raise_if,
}
use gpu_scheduler_lab.Models.Accelerator.{
  Vendor, Kind, SelectionPolicy, vendor_supports_kind, vendor_eq, kind_eq,
}
use gpu_scheduler_lab.Models.Topology.{TopologyMode}
use gpu_scheduler_lab.Models.Elastic.{ElasticSpec, unit, work_rate}

pub data Priority : Type 0 where
  low normal high critical : Priority

abbrev pub priority_value : Priority → ℕ
priority_value low = 0
priority_value normal = 1
priority_value high = 2
priority_value critical = 3

pub data JobType : Type 0 where
  inference training : JobType

pub data JobStatus : Type 0 where
  rejected pending running checkpointing restarting completed : JobStatus

abbrev status_rank : JobStatus → ℕ
status_rank rejected = 0
status_rank pending = 1
status_rank running = 2
status_rank checkpointing = 3
status_rank restarting = 4
status_rank completed = 5

abbrev pub status_beq : JobStatus → JobStatus → Bool
status_beq a b = nat_eq (status_rank a) (status_rank b)

pub status_beq_iff : (a b : JobStatus) → (status_beq a b ≡ true) ↔ (a ≡ b)
status_beq_iff a b = ground arith

instance abbrev pub status_eq : Eq JobStatus
status_eq = record { beq = status_beq; beq_iff = status_beq_iff }

pub record JobSpec : Type 0 where
  pub id : String
  pub arrival_time : ℕ
  pub duration : ℕ
  pub gpu_count : ℕ
  pub gpu_memory_gb : ℕ
  pub priority : Priority
  pub job_type : JobType
  pub gang : Bool
  pub sla_deadline : Option ℕ
  pub group : Option String
  pub gpu_model : Option String
  pub allowed_gpu_models : List String
  pub allowed_vendors : List Vendor
  pub allowed_kinds : List Kind
  pub allowed_models : List String
  pub required_capabilities : List String
  pub runtime_profile : Option String
  pub selection_policy : SelectionPolicy
  pub accelerator_request_explicit : Bool
  pub topology_mode : TopologyMode
  pub checkpoint_cost : ℕ
  pub restart_cost : ℕ
  pub queue_id : String
  pub elastic : Option ElasticSpec

pub record Job : Type 0 where
  pub spec : JobSpec
  pub open spec use *
  pub status : JobStatus
  pub allocated_gpu_ids : List String
  pub accumulated_runtime : ℕ
  pub last_start_time : Option ℕ
  pub first_start_time : Option ℕ
  pub completion_time : Option ℕ
  pub preemption_count : ℕ
  pub run_generation : ℕ
  pub running_priority : Option ℕ
  pub checkpoint_overhead : ℕ
  pub restart_overhead : ℕ
  pub admission_time : Option ℕ
  pub rejection_reason : Option String
  pub productive_work_completed : ℕ
  pub current_replicas : ℕ
  pub requested_replicas : ℕ
  pub borrowed_gpu_units : ℕ
  pub reclaim_victim_count : ℕ
  pub recovery_count : ℕ
  pub recovery_overhead : ℕ
  pub elastic_scale_up_count : ℕ
  pub elastic_scale_down_count : ℕ
  pub resize_churn_count : ℕ

-- The elastic bounds of a job, or its fixed count.
abbrev pub replicas_by : (ElasticSpec → ℕ) → JobSpec → ℕ
replicas_by f s = elim s.elastic [ none ↦ s.gpu_count | some e ↦ f e ]

unfoldable pub minimum_gpu_count : JobSpec → ℕ
minimum_gpu_count = replicas_by (λ e. e.min_replicas)

unfoldable pub preferred_gpu_count : JobSpec → ℕ
preferred_gpu_count = replicas_by (λ e. e.preferred_replicas)

unfoldable pub maximum_gpu_count : JobSpec → ℕ
maximum_gpu_count = replicas_by (λ e. e.max_replicas)

-- `self.requested_replicas or self.gpu_count`
unfoldable pub requested_gpu_count : Job → ℕ
requested_gpu_count j = if nat_eq j.requested_replicas 0 then j.gpu_count else j.requested_replicas

unfoldable pub total_productive_work : JobSpec → ℕ
unfolding preferred_gpu_count
total_productive_work s = s.duration * preferred_gpu_count s

-- Replicas at work, in billionths.
unfoldable pub productive_rate : Job → ℕ → Result ℕ
unfolding work_rate
productive_rate j replicas = elim j.elastic [
  | none ↦ ok (j.gpu_count * unit)
  | some e ↦ work_rate e replicas
]

unfoldable pub remaining_duration : Job → ℕ
remaining_duration j = j.duration - j.accumulated_runtime

unfoldable pub waiting_time : Job → Option ℕ
waiting_time j = elim j.completion_time [
  | none ↦ none
  | some _ ↦ elim j.first_start_time [ none ↦ none | some start ↦ some (start - j.arrival_time) ]
]

-- A job completes no earlier than it arrives, so the truncated difference is the source's.
unfoldable pub turnaround_time : Job → Option ℕ
turnaround_time j = elim j.completion_time [
  | none ↦ none
  | some completion ↦ some (completion - j.arrival_time)
]

abbrev aged_priority : Job → ℕ → ℕ → ℕ
aged_priority j now aging_interval =
    min 3
      (priority_value j.priority + (now - j.arrival_time - j.accumulated_runtime) / aging_interval)

unfoldable pub effective_priority : Job → ℕ → ℕ → ℕ
effective_priority j now aging_interval =
    if j.status == running
    then elim j.running_priority [ none ↦ priority_value j.priority | some p ↦ p ]
    else if leb aging_interval 0
    then priority_value j.priority
    else aged_priority j now aging_interval

-- The fields that are not given to the constructor, as it sets them.
abbrev pub fresh_job : JobSpec → Job
fresh_job s = record {
  spec = s;
  status = pending;
  allocated_gpu_ids = [];
  accumulated_runtime = 0;
  last_start_time = none;
  first_start_time = none;
  completion_time = none;
  preemption_count = 0;
  run_generation = 0;
  running_priority = none;
  checkpoint_overhead = 0;
  restart_overhead = 0;
  admission_time = none;
  rejection_reason = none;
  productive_work_completed = 0;
  current_replicas = 0;
  requested_replicas = replicas_by (λ e. e.preferred_replicas) s;
  borrowed_gpu_units = 0;
  reclaim_victim_count = 0;
  recovery_count = 0;
  recovery_overhead = 0;
  elastic_scale_up_count = 0;
  elastic_scale_down_count = 0;
  resize_churn_count = 0;
}

-- `Job.clone`: a new job of the same request.
unfoldable pub clone_job : Job → Job
clone_job j = fresh_job j.spec
