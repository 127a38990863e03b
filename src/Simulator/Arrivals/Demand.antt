-- ===== src/Simulator/Arrivals/Demand.antt =====
-- The demand that a job adds and takes back (gpu_scheduler_lab/simulator/engine.py).
use gpu_scheduler_lab.Simulator.{Simulator}
use gpu_scheduler_lab.Models.Job.{Job}
use gpu_scheduler_lab.Fairshare.Accounting.{AccountingPolicy}
use gpu_scheduler_lab.Simulator.Arrivals.{
  with_demand, demand_candidates, chosen_demand, add_runnable_demand,
}
use gpu_scheduler_lab.Simulator.Lifecycle.{remove_runnable_demand, put_remaining, is_nothing}
use gpu_scheduler_lab.Queues.Hierarchy.{usage_of, Usage}
use gpu_scheduler_lab.Queues.Resource.{◌⊟◌, ◌⊞◌, no_resources, ResourceVector}
use gpu_scheduler_lab.Prelude.{
  remove, insert-HasUniqueKeys, beq_refl, Option-cases, lookup, List, text_eq_instance, ◌∙◌,
  lookup-insert, lookup-remove, ap, Bool-cases, ◌==◌, ◌-◌, nat_eq_iff, if◌then◌else◌, ◌+◌, insert,
  arith, ◌≡◌, HasUniqueKeys, String, inr, inl, true, some, none, refl, ℕ,
}

-- What adds up and is taken away again is gone.
add_take_back : (v d : ResourceVector) → v ⊞ d ⊟ d ≡ v
add_take_back v d = λ i. record {
  gpu_units = amounts v.gpu_units d.gpu_units i;
  gpu_memory_gb = amounts v.gpu_memory_gb d.gpu_memory_gb i;
}
  where
    amounts : (a b : ℕ) → a + b - b ≡ a
    amounts a b = omega arith

nothing_eq : (v : ResourceVector) → is_nothing v ≡ true → no_resources ≡ v
nothing_eq v h = λ i. record { gpu_units = units_eq i; gpu_memory_gb = memory_eq i }
  where
    units_eq : 0 ≡ v.gpu_units
    units_eq = ground (arith, nat_eq_iff v.gpu_units 0)

    memory_eq : 0 ≡ v.gpu_memory_gb
    memory_eq = ground (arith, nat_eq_iff v.gpu_memory_gb 0)

usage_of-put_remaining :
    (queue_id k : String) (v : ResourceVector) (usage : Usage)
    → HasUniqueKeys usage
    → usage_of (put_remaining queue_id v usage) k ≡ (if queue_id == k then v else usage_of usage k)
usage_of-put_remaining queue_id k v usage unique = elim (Bool-cases (is_nothing v)) [
  | inl nothing ↦
      let emptied = nothing_eq v nothing in
      ground (arith, lookup-remove queue_id k usage unique, emptied)
  | inr something ↦ ground (arith, lookup-insert queue_id k v usage)
]

usage_of-insert :
    (queue_id k : String) (v : ResourceVector) (usage : Usage)
    → usage_of (insert queue_id v usage) k ≡ (if queue_id == k then v else usage_of usage k)
usage_of-insert queue_id k v usage = ground (arith, lookup-insert queue_id k v usage)

same_usage :
    (queue_id k : String) (usage : Usage) (v : ResourceVector)
    → v ≡ usage_of usage queue_id
    → (if queue_id == k then v else usage_of usage k) ≡ usage_of usage k
same_usage queue_id k usage v h = elim (Bool-cases (queue_id == k)) [
  | inr other ↦ rw other refl
  | inl same ↦ rw same (h ∙ ap (usage_of usage) ((text_eq_instance.beq_iff queue_id k).0 same))
]

add_nothing :
    (accounting : AccountingPolicy) (j : Job) (snapshots : List (List String)) (s : Simulator)
    → chosen_demand (demand_candidates accounting s.cluster j snapshots) ≡ none
    → add_runnable_demand accounting j snapshots s ≡ s
unfolding add_runnable_demand
add_nothing accounting j snapshots s h =
    ap (λ o. elim o [ none ↦ s | some demand ↦ with_demand j demand s ]) h

add_chosen :
    (accounting : AccountingPolicy) (j : Job) (snapshots : List (List String)) (s : Simulator)
    (demand : ResourceVector)
    → chosen_demand (demand_candidates accounting s.cluster j snapshots) ≡ some demand
    → add_runnable_demand accounting j snapshots s ≡ with_demand j demand s
unfolding add_runnable_demand
add_chosen accounting j snapshots s demand h =
    ap (λ o. elim o [ none ↦ s | some d ↦ with_demand j d s ]) h

-- The state without a job's demand.
abbrev taken_back : Job → ResourceVector → Simulator → Simulator
taken_back j demand s = record s {
  runnable_demand_by_job = remove j.id s.runnable_demand_by_job;
  direct_runnable_demand =
      put_remaining j.queue_id (usage_of s.direct_runnable_demand j.queue_id ⊟ demand)
        s.direct_runnable_demand;
}

remove_none :
    (j : Job) (s : Simulator)
    → lookup j.id s.runnable_demand_by_job ≡ none
    → remove_runnable_demand j s ≡ s
unfolding remove_runnable_demand
remove_none j s h = ap (λ o. elim o [ none ↦ s | some d ↦ taken_back j d s ]) h

remove_some :
    (j : Job) (s : Simulator) (demand : ResourceVector)
    → lookup j.id s.runnable_demand_by_job ≡ some demand
    → remove_runnable_demand j s ≡ taken_back j demand s
unfolding remove_runnable_demand
remove_some j s demand h = ap (λ o. elim o [ none ↦ s | some d ↦ taken_back j d s ]) h

-- A job's demand that was added and is then removed leaves every queue's demand as it was, and the
-- job without any, where the job had none before and each queue and each job has one entry.
pub remove-add_runnable_demand :
    (accounting : AccountingPolicy) (j : Job) (snapshots : List (List String)) (s : Simulator)
    → lookup j.id s.runnable_demand_by_job ≡ none
    → HasUniqueKeys s.direct_runnable_demand
    → HasUniqueKeys s.runnable_demand_by_job
    → let s' = remove_runnable_demand j (add_runnable_demand accounting j snapshots s) in
      ((k : String) → usage_of s'.direct_runnable_demand k ≡ usage_of s.direct_runnable_demand k)
      × (lookup j.id s'.runnable_demand_by_job ≡ none)
remove-add_runnable_demand accounting j snapshots s fresh unique once =
    elim (Option-cases (chosen_demand (demand_candidates accounting s.cluster j snapshots))) [
      | inl nothing ↦
          let same =
            ap (remove_runnable_demand j) (add_nothing accounting j snapshots s nothing)
            ∙ remove_none j s fresh in
          (
            λ k. ap (λ x. usage_of x.direct_runnable_demand k) same,
            ap (λ x. lookup j.id x.runnable_demand_by_job) same ∙ fresh,
          )
      | inr (demand, chosen) ↦
          let direct : Usage = s.direct_runnable_demand in
          let mine : ResourceVector = usage_of direct j.queue_id in
          let added : Usage = insert j.queue_id (mine ⊞ demand) direct in
          let recorded : lookup j.id (insert j.id demand s.runnable_demand_by_job) ≡ some demand =
            lookup-insert j.id j.id demand s.runnable_demand_by_job
            ∙ ap (λ b. if b then some demand else lookup j.id s.runnable_demand_by_job)
                (beq_refl j.id) in
          let back : usage_of added j.queue_id ⊟ demand ≡ mine =
            ap (λ v. v ⊟ demand)
              (usage_of-insert j.queue_id j.queue_id (mine ⊞ demand) direct
                ∙ ap (λ b. if b then mine ⊞ demand else mine) (beq_refl j.queue_id))
            ∙ add_take_back mine demand in
          let same =
            ap (remove_runnable_demand j) (add_chosen accounting j snapshots s demand chosen)
            ∙ remove_some j (with_demand j demand s) demand recorded in
          (
            λ k.
                ap (λ x. usage_of x.direct_runnable_demand k) same
                ∙ usage_of-put_remaining j.queue_id k (usage_of added j.queue_id ⊟ demand) added
                    (insert-HasUniqueKeys j.queue_id (mine ⊞ demand) direct unique)
                ∙ hidden j.queue_id k direct (mine ⊞ demand) (usage_of added j.queue_id ⊟ demand)
                    back,
            ap (λ x. lookup j.id x.runnable_demand_by_job) same
                ∙ lookup-remove j.id j.id (insert j.id demand s.runnable_demand_by_job)
                    (insert-HasUniqueKeys j.id demand s.runnable_demand_by_job once)
                ∙ ap
                    (λ b.
                      if b then none else lookup j.id (insert j.id demand s.runnable_demand_by_job))
                    (beq_refl j.id),
          )
    ]
  where
    hidden :
        (queue_id k : String) (usage : Usage) (v w : ResourceVector)
        → w ≡ usage_of usage queue_id
        → (if queue_id == k then w else usage_of (insert queue_id v usage) k) ≡ usage_of usage k
    hidden queue_id k usage v w h =
        ap (λ x. if queue_id == k then w else x) (usage_of-insert queue_id k v usage)
        ∙ ground (arith, same_usage queue_id k usage w h)
