-- ===== src/Simulator/Resizing/Target.antt =====
-- Which GPUs an elastic job grows by (gpu_scheduler_lab/simulator/engine.py).
use gpu_scheduler_lab.Simulator.Reservations.{reserved_elsewhere}
use gpu_scheduler_lab.Models.Job.{Job}
use gpu_scheduler_lab.Simulator.Resizing.{
  compare_free, satisfies_topology, growth_candidates, select_growth, elastic_resize_target,
}
use gpu_scheduler_lab.Simulator.{Simulator}
use gpu_scheduler_lab.Models.Cluster.{eligible_gpus, Gpu, Cluster}
use gpu_scheduler_lab.Fairshare.Accounting.{AccountingPolicy}
use gpu_scheduler_lab.Prelude.{
  ◌∙◌, ap, nat_eq_iff, All-self_elem, sym, nat_eq, All-sort, >>=-eq-ok, not, leb, All-append,
  text_eq_instance, filter, Result-cases, Bool-cases, ◌∷◌, ◌-◌, ◌<◌, map, length, arith, ◌++◌, elem,
  All, ◌≡◌, String, List, inr, inl, ok, false, true, some, [], ℕ,
}

-- The target of a growth: the job's own GPUs, and as many others as it lacks, each of them
-- eligible and kept for no other job, where all of them satisfy the job's topology.
pub record IsGrowth (c : Cluster) (j : Job) (needed : ℕ) (offered : String → Type 0)
    (target : List String) : Type 0 where
  pub selected : List String
  pub kept : target ≡ j.allocated_gpu_ids ++ selected
  pub enough : length selected ≡ needed
  pub from_offer : All offered selected
  pub local : satisfies_topology c j target ≡ ok true

select_growth-IsGrowth :
    (c : Cluster) (j : Job) (needed : ℕ) (offered : String → Type 0) (gs : List Gpu)
    (selected : List String) {target : List String}
    → All (λ g. offered g.id) gs
    → All offered selected
    → select_growth c j needed gs selected ≡ ok (some target)
    → IsGrowth c j needed offered target
unfolding select_growth
select_growth-IsGrowth c j needed offered [] selected h k found = absurd (ground arith)
select_growth-IsGrowth c j needed offered (g ∷ gs) selected {target} h k found =
    let all_ids : List String = j.allocated_gpu_ids ++ (selected ++ g.id ∷ []) in
    elim (Result-cases (satisfies_topology c j all_ids)) [
      | inr (e, failed) ↦ absurd (ground arith)
      | inl (satisfied, tested) ↦ elim (Bool-cases satisfied) [
        | inr passes_over ↦
            select_growth-IsGrowth c j needed offered gs selected {target = target} h.1 k
              (ground arith)
        | inl takes ↦
            let next : List String = selected ++ g.id ∷ [] in
            let offers : All offered next = All-append offered selected (g.id ∷ []) k (h.0, tt) in
            elim (Bool-cases (nat_eq (length next) needed)) [
              | inr more ↦
                  select_growth-IsGrowth c j needed offered gs next {target = target} h.1 offers
                    (ground arith)
              | inl done ↦
                  let made : j.allocated_gpu_ids ++ next ≡ target = ground arith in
                  record {
                    selected = next;
                    kept = sym made;
                    enough = (nat_eq_iff (length next) needed).0 done;
                    from_offer = offers;
                    local = ap (satisfies_topology c j) (sym made) ∙ tested ∙ ap ok takes;
                  }
            ]
      ]
    ]

-- What a GPU of the target is drawn from.
abbrev pub IsOffered : Simulator → Job → List Gpu → String → Type 0
IsOffered s j eligible gpu_id =
    (elem gpu_id (map (λ g. g.id) eligible) ≡ true)
    × (elem gpu_id (reserved_elsewhere s.preemption_reserved_gpus j.id) ≡ false)

candidates-IsOffered :
    (accounting : AccountingPolicy) (s : Simulator) (j : Job) (eligible : List Gpu)
    → All (λ g. IsOffered s j eligible g.id) (growth_candidates accounting s j eligible)
candidates-IsOffered accounting s j eligible =
    All-sort (compare_free accounting) (λ (g : Gpu). IsOffered s j eligible g.id) _
      (All-filter_both eligible (All-self_elem (λ (g : Gpu). g.id) eligible))
  where
    reserved : List String
    reserved = reserved_elsewhere s.preemption_reserved_gpus j.id

    All-filter_both :
        (gs : List Gpu)
        → All (λ (g : Gpu). elem g.id (map (λ (x : Gpu). x.id) eligible) ≡ true) gs
        → All
            (λ (g : Gpu). IsOffered s j eligible g.id)
            (filter (λ (g : Gpu). not (elem g.id reserved)) gs)
    All-filter_both [] h = tt
    All-filter_both (g ∷ gs) h = elim (Bool-cases (elem g.id reserved)) [
      | inl kept ↦ rw kept (All-filter_both gs h.1)
      | inr open_to ↦ rw open_to ((h.0, open_to), All-filter_both gs h.1)
    ]

-- The target of an elastic growth keeps the GPUs that the job has, and adds exactly as many as it
-- lacks of the requested number, each eligible for the job and reserved for no other one; all of
-- them together satisfy the job's topology requirement.
pub elastic_resize_target-IsGrowth :
    (accounting : AccountingPolicy) (s : Simulator) (j : Job) (replicas : ℕ) {target : List String}
    → elastic_resize_target accounting s j replicas ≡ ok (some target)
    → (eligible : List Gpu) × (eligible_gpus s.cluster j ≡ ok eligible)
      × (j.current_replicas < replicas)
      × IsGrowth s.cluster j (replicas - j.current_replicas) (IsOffered s j eligible) target
unfolding elastic_resize_target
elastic_resize_target-IsGrowth accounting s j replicas {target} h =
    elim (Bool-cases (leb replicas j.current_replicas)) [
      | inl enough ↦ absurd (ground arith)
      | inr lacks ↦
          let (eligible, offered, selects) =
            >>=-eq-ok (eligible_gpus s.cluster j)
              (λ eligible.
                select_growth s.cluster j (replicas - j.current_replicas)
                  (growth_candidates accounting s j eligible) [])
              {b = some target} (ground arith) in
          (
            eligible,
            offered,
            ground arith,
            select_growth-IsGrowth s.cluster j (replicas - j.current_replicas)
                (IsOffered s j eligible) (growth_candidates accounting s j eligible) []
                (candidates-IsOffered accounting s j eligible) tt selects,
          )
    ]
