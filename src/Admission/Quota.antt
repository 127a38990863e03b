-- ===== src/Admission/Quota.antt =====
-- What an admitted job's least demand fits, where quotas count
-- (gpu_scheduler_lab/admission/controller.py).
use gpu_scheduler_lab.Queues.Hierarchy.Limits.{all-elem}
use gpu_scheduler_lab.Queues.Hierarchy.{spec_test, ancestors}
use gpu_scheduler_lab.Admission.Decisions.{feasible-IsRunnable, IsRunnable, admitted-feasible}
use gpu_scheduler_lab.Queues.Spec.{QueueSpec}
use gpu_scheduler_lab.Fairshare.Accounting.{minimum_demand}
use gpu_scheduler_lab.Queues.Resource.{fits_within, ResourceVector}
use gpu_scheduler_lab.Models.Job.{minimum_gpu_count, Job}
use gpu_scheduler_lab.Models.Cluster.{Gpu}
use gpu_scheduler_lab.Admission.{
  rejected_for, within_limits, check_mode, compare_demand, decide, quota_aware, check_limits,
  AdmissionDecision, AdmissionController,
}
use gpu_scheduler_lab.Prelude.{
  arith, text_eq_instance, Bool-cases, ◌>>=◌, minimum_ind, lookup, >>=-eq-ok, ok-injective, minimum,
  ◌∷◌, subst, elem, All, ◌≡◌, traverse, String, Result, List, inr, inl, ok, true, some, [],
}

traverse-made :
    (P : List Gpu → Type 0) (f : List Gpu → Result ResourceVector) (xs : List (List Gpu))
    {ys : List ResourceVector}
    → All P xs
    → traverse f xs ≡ ok ys
    → All (λ y. (x : List Gpu) × P x × (f x ≡ ok y)) ys
traverse-made P f [] h e =
    subst (All (λ y. (x : List Gpu) × P x × (f x ≡ ok y))) (ok-injective e) tt
traverse-made P f (x ∷ xs) h e =
    let (y, made, more) = >>=-eq-ok (f x) (λ y. traverse f xs >>= λ ys. ok (y ∷ ys)) e in
    let (ys, rest, last) = >>=-eq-ok (traverse f xs) (λ ys. ok (y ∷ ys)) more in
    subst (All (λ y. (x : List Gpu) × P x × (f x ≡ ok y))) (ok-injective last)
      ((x, h.0, made), traverse-made P f xs h.1 rest)

-- The least demand on a set of GPUs.
abbrev pub demand_on : AdmissionController → Job → List Gpu → Result ResourceVector
demand_on a j gs = minimum_demand a.accounting j gs (minimum_gpu_count j.spec)

-- GPUs that could run a job, and on which its least demand fits the hard limit of every queue
-- above it.
pub record FitsQuota (a : AdmissionController) (j : Job) (snapshots : List (List String))
    : Type 0 where
  pub gpu_set : List Gpu
  pub runnable : IsRunnable a j snapshots gpu_set
  pub demand : ResourceVector
  pub counted : demand_on a j gpu_set ≡ ok demand
  pub fits :
      (b : String) (q : QueueSpec)
      → elem b (ancestors a.hierarchy j.queue_id) ≡ true
      → lookup b a.hierarchy.specs ≡ some q
      → fits_within demand q.limit ≡ true

abbrev Origin : AdmissionController → Job → List (List String) → ResourceVector → Type 0
Origin a j snapshots y = (gs : List Gpu) × IsRunnable a j snapshots gs × (demand_on a j gs ≡ ok y)

least-FitsQuota :
    (a : AdmissionController) (j : Job) (snapshots : List (List String))
    (demands : List ResourceVector) {d : AdmissionDecision}
    → check_limits a j demands ≡ ok d
    → d.admitted ≡ true
    → All (Origin a j snapshots) demands
    → FitsQuota a j snapshots
least-FitsQuota a j snapshots [] e admitted h = cc
least-FitsQuota a j snapshots (x ∷ xs) {d} e admitted h =
    let least : ResourceVector = minimum compare_demand x xs in
    let origin = minimum_ind compare_demand (Origin a j snapshots) x xs h.0 h.1 in
    elim (Bool-cases (within_limits a.hierarchy j.queue_id least)) [
      | inr over ↦
          let same : rejected_for "queue_hard_limit" ≡ d = ground arith in absurd (ground arith)
      | inl fits ↦ record {
        gpu_set = origin.0;
        runnable = origin.1;
        demand = least;
        counted = origin.2;
        fits = λ b q above found.
            let here =
              all-elem (spec_test a.hierarchy (λ r. fits_within least r.limit))
                (ancestors a.hierarchy j.queue_id) b fits above in
            ground arith;
      }
    ]

-- Where quotas count, there are for an admitted job, on the nodes of one of the snapshots, as many
-- GPUs compatible with it as its least replicas need, none of them counted more often than it
-- stands there, on which its least demand fits the hard limit of its queue and of every queue
-- above it.
pub decide-FitsQuota :
    (a : AdmissionController) (j : Job) (snapshots : List (List String)) {d : AdmissionDecision}
    → a.mode ≡ quota_aware
    → decide a j snapshots ≡ ok d
    → d.admitted ≡ true
    → FitsQuota a j snapshots
decide-FitsQuota a j snapshots {d} aware e admitted =
    let (feasible, made, some_set, checked) = admitted-feasible a j snapshots e admitted in
    let (demands, counted, last) =
      >>=-eq-ok (traverse (demand_on a j) feasible) (check_limits a j)
        (subst (λ m. check_mode a j m feasible ≡ ok d) aware checked) in
    least-FitsQuota a j snapshots demands last admitted (
      traverse-made (IsRunnable a j snapshots) (demand_on a j) feasible
        (feasible-IsRunnable a j snapshots made) counted)
