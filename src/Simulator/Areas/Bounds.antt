-- ===== src/Simulator/Areas/Bounds.antt =====
-- Bounds of the integrals and of the timelines (gpu_scheduler_lab/simulator/engine.py).
use gpu_scheduler_lab.Allocator.Placing.{QueueSnapshot}
use gpu_scheduler_lab.Simulator.{job_of, Simulator}
use gpu_scheduler_lab.Queues.Resource.{ResourceVector}
use gpu_scheduler_lab.Metrics.Fragmented.{IsRatio}
use gpu_scheduler_lab.Queues.Spec.{QueueSpec}
use gpu_scheduler_lab.Queues.Hierarchy.{aggregate_usage, Usage, QueueHierarchy}
use gpu_scheduler_lab.Models.Job.{Job}
use gpu_scheduler_lab.Simulator.Areas.{
  integrate_job, integrate_view, integrate_usage, integrate_jobs, is_revocable, busy_count,
  raise_peak, integrate_entitlement, every_other, integrate_cluster, QueueView, integrate_state,
  integrate_queues, append_timeline, Areas,
}
use gpu_scheduler_lab.Models.Cluster.{active_nodes, Node, occupied, active_gpus, Gpu, Cluster}
use gpu_scheduler_lab.Prelude.{
  text_eq_instance, ◌>>=◌, traverse, key_error, nat_eq, lookup, or_raise, ltb, Option-cases,
  >>=-eq-ok, ◌*◌, ap, compare_fraction, is_gt, any, max_fraction, length-append, ◌<◌, ok-injective,
  leb, is_empty, count_of-le, Bool-cases, ◌∷◌, sym, not, arith, Dict, ◌+◌, ◌++◌, ◌≤◌, ◌≡◌, ◌∙◌,
  subst, length, count_of, Fraction, String, List, Bool, inr, inl, suc, zero, ok, false, [], refl,
  ℕ,
}
use native.Mathlib.Nat

-- No more time is busy than there was capacity for, and all of it is stable or revocable; the
-- peak of the utilization is at most one.
pub record IsBounded (a : Areas) : Type 0 where
  pub busy : a.busy_gpu_time ≤ a.gpu_capacity_area
  pub split : a.revocable_gpu_time + a.stable_gpu_time ≡ a.gpu_capacity_area
  pub nodes : a.node_area ≤ a.active_node_area
  pub peak : IsRatio a.peak_gpu_utilization

count_of-split :
    {A : Type 0} (p : A → Bool) (xs : List A)
    → count_of p xs + count_of (λ x. not (p x)) xs ≡ length xs
count_of-split p [] = refl
count_of-split p (x ∷ xs) = ground (arith, count_of-split p xs)

raise_peak-IsRatio : (c : Cluster) (peak : Fraction) → IsRatio peak → IsRatio (raise_peak c peak)
raise_peak-IsRatio c peak h = elim (Bool-cases (is_empty (active_gpus c))) [
  | inl none_active ↦ rw none_active h
  | inr some_active ↦
      let now : Fraction = record { num = busy_count c; den = length (active_gpus c) } in
      let ratio_now : IsRatio now = record {
        den_pos = filled (active_gpus c) some_active;
        at_most_one = count_of-le occupied (active_gpus c);
      } in
      rw some_active (either peak now h ratio_now)
]
  where
    filled : (gs : List Gpu) → is_empty gs ≡ false → 0 < length gs
    filled [] h = cc
    filled (g ∷ gs) h = omega arith

    either : (f g : Fraction) → IsRatio f → IsRatio g → IsRatio (max_fraction f g)
    either f g hf hg = elim (Bool-cases (is_gt (compare_fraction g f))) [
      | inl greater ↦ rw greater hg
      | inr less ↦ rw less hf
    ]

pub integrate_cluster-IsBounded :
    (c : Cluster) (delta : ℕ) (a : Areas) → IsBounded a → IsBounded (integrate_cluster c delta a)
integrate_cluster-IsBounded c delta a h =
    let active : List Gpu = active_gpus c in
    let busy_now = Nat.mul-le-mul_right delta (count_of-le occupied active) in
    let nodes_now =
      Nat.mul-le-mul_right delta
        (count_of-le (λ (n : Node). any occupied n.gpus) (active_nodes c)) in
    let split_now = ap (λ (n : ℕ). n * delta) (count_of-split (is_revocable c) active) in
    record {
      busy = omega (arith, busy_now, h.busy);
      split = omega (arith, split_now, h.split);
      nodes = omega (arith, nodes_now, h.nodes);
      peak = raise_peak-IsRatio c a.peak_gpu_utilization h.peak;
    }

-- The fields that the bounds are about.
abbrev SameTotals : Areas → Areas → Type 0
SameTotals a b =
    (b.busy_gpu_time ≡ a.busy_gpu_time)
    × (b.gpu_capacity_area ≡ a.gpu_capacity_area)
    × (b.revocable_gpu_time ≡ a.revocable_gpu_time)
    × (b.stable_gpu_time ≡ a.stable_gpu_time)
    × (b.node_area ≡ a.node_area)
    × (b.active_node_area ≡ a.active_node_area)
    × (b.peak_gpu_utilization ≡ a.peak_gpu_utilization)

SameTotals-IsBounded : (a b : Areas) → SameTotals a b → IsBounded a → IsBounded b
SameTotals-IsBounded a b (e0, e1, e2, e3, e4, e5, e6) h = record {
  busy = rw (e0, e1) h.busy;
  split = rw (e1, e2, e3) h.split;
  nodes = rw (e4, e5) h.nodes;
  peak = subst IsRatio (sym e6) h.peak;
}

SameTotals-trans : (a b c : Areas) → SameTotals a b → SameTotals b c → SameTotals a c
SameTotals-trans a b c (e0, e1, e2, e3, e4, e5, e6) (f0, f1, f2, f3, f4, f5, f6) =
    (f0 ∙ e0, f1 ∙ e1, f2 ∙ e2, f3 ∙ e3, f4 ∙ e4, f5 ∙ e5, f6 ∙ e6)

integrate_entitlement-SameTotals :
    (queue_id : String) (spec : QueueSpec) (usage : ℕ) (demand : ResourceVector) (delta : ℕ)
    (a : Areas)
    → SameTotals a (integrate_entitlement queue_id spec usage demand delta a)
integrate_entitlement-SameTotals queue_id spec usage demand delta a =
    elim (Bool-cases spec.guaranteed_dimensions.has_units) [
      | inl has ↦ rw has (refl, refl, refl, refl, refl, refl, refl)
      | inr lacks ↦ rw lacks (refl, refl, refl, refl, refl, refl, refl)
    ]

integrate_queues-SameTotals :
    (h : QueueHierarchy) (demand : Usage) (delta : ℕ) (view : Dict String QueueSnapshot) (a : Areas)
    {b : Areas}
    → integrate_queues h demand delta view a ≡ ok b
    → SameTotals a b
unfolding integrate_queues
integrate_queues-SameTotals h demand delta [] a e =
    subst (SameTotals a) (ok-injective e) (refl, refl, refl, refl, refl, refl, refl)
integrate_queues-SameTotals h demand delta ((queue_id, snapshot) ∷ rest) a {b} e =
    let used : Areas = integrate_usage queue_id snapshot delta a in
    let (spec, known, more) =
      >>=-eq-ok (or_raise (lookup queue_id h.specs) (key_error queue_id))
        (λ spec. or_raise (lookup queue_id demand) (key_error queue_id) >>= λ wanted.
          integrate_queues h demand delta rest
            (integrate_entitlement queue_id spec snapshot.gpu_units wanted delta used))
        e in
    let (wanted, asked, last) =
      >>=-eq-ok (or_raise (lookup queue_id demand) (key_error queue_id))
        (λ wanted.
          integrate_queues h demand delta rest
            (integrate_entitlement queue_id spec snapshot.gpu_units wanted delta used))
        more in
    let next : Areas = integrate_entitlement queue_id spec snapshot.gpu_units wanted delta used in
    SameTotals-trans a next b
      (integrate_entitlement-SameTotals queue_id spec snapshot.gpu_units wanted delta used)
      (integrate_queues-SameTotals h demand delta rest next last)

integrate_jobs-SameTotals :
    (delta : ℕ) (jobs : List Job) (a : Areas) → SameTotals a (integrate_jobs delta jobs a)
integrate_jobs-SameTotals delta [] a = (refl, refl, refl, refl, refl, refl, refl)
integrate_jobs-SameTotals delta (j ∷ rest) a =
    SameTotals-trans a (integrate_job delta j a)
      (integrate_jobs delta rest (integrate_job delta j a)) one
      (integrate_jobs-SameTotals delta rest (integrate_job delta j a))
  where
    one : SameTotals a (integrate_job delta j a)
    one = elim (Option-cases j.elastic) [
      | inl rigid ↦ rw rigid (refl, refl, refl, refl, refl, refl, refl)
      | inr (e, elastic) ↦ elim (Bool-cases (ltb j.current_replicas e.preferred_replicas)) [
        | inl below ↦ rw (elastic, below) (refl, refl, refl, refl, refl, refl, refl)
        | inr at ↦ rw (elastic, at) (refl, refl, refl, refl, refl, refl, refl)
      ]
    ]

-- Integrating the state over any time keeps the bounds: the busy time within the capacity, the
-- revocable and the stable time together the capacity, the time of busy nodes within that of
-- active ones, and the peak of the utilization at most one.
pub integrate_state-IsBounded :
    (view : QueueView) (delta : ℕ) (s : Simulator) (a : Areas) {b : Areas}
    → IsBounded a
    → integrate_state view delta s a ≡ ok b
    → IsBounded b
unfolding integrate_state
integrate_state-IsBounded view delta s a {b} h e = elim (Bool-cases (nat_eq delta 0)) [
  | inl no_time ↦ let same : a ≡ b = ground arith in subst IsBounded same h
  | inr passes ↦
      let c : Areas = integrate_cluster s.cluster delta a in
      let (queues, viewed, more) =
        >>=-eq-ok (integrate_view view s.direct_runnable_demand delta c)
          (λ queues.
            traverse (job_of s) s.running >>= λ jobs. ok (integrate_jobs delta jobs queues))
          {b = b} (ground arith) in
      let (jobs, found, last) =
        >>=-eq-ok (traverse (job_of s) s.running) (λ jobs. ok (integrate_jobs delta jobs queues))
          more in
      subst IsBounded (ok-injective last) (
        SameTotals-IsBounded c (integrate_jobs delta jobs queues)
          (SameTotals-trans c queues (integrate_jobs delta jobs queues) (view_same c queues viewed)
            (integrate_jobs-SameTotals delta jobs queues))
          (integrate_cluster-IsBounded s.cluster delta a h))
]
  where
    view_same :
        (c queues : Areas)
        → integrate_view view s.direct_runnable_demand delta c ≡ ok queues
        → SameTotals c queues
    view_same c queues viewed = elim (Option-cases view) [
      | inl no_queues ↦
          let same : c ≡ queues = ground arith in
          subst (SameTotals c) same (refl, refl, refl, refl, refl, refl, refl)
      | inr (v, has_queues) ↦
          let (demand, counted, more) =
            >>=-eq-ok (aggregate_usage v.0 s.direct_runnable_demand)
              (λ demand. integrate_queues v.0 demand delta v.1 c) {b = queues} (ground arith) in
          integrate_queues-SameTotals v.0 demand delta v.1 c {b = queues} more
    ]

every_other-length :
    {A : Type 0} (n : ℕ) (xs : List A)
    → length xs ≤ n
    → length (every_other xs) + length (every_other xs) ≤ suc (length xs)
every_other-length n [] h = omega arith
every_other-length n (x ∷ []) h = omega arith
every_other-length zero (x ∷ y ∷ rest) h = absurd (omega arith)
every_other-length (suc n) (x ∷ y ∷ rest) h =
    omega (arith, every_other-length n rest (omega (arith, h)))

-- A timeline of at most 1024 points has at most as many after a point is appended, which is the
-- last one.
pub append_timeline-bounded :
    {A : Type 0} (timeline : List A) (point : A)
    → length timeline ≤ 1024
    → (length (append_timeline timeline point) ≤ 1024)
      × ((earlier : List A) × (append_timeline timeline point ≡ earlier ++ point ∷ []))
unfolding append_timeline
append_timeline-bounded timeline point h = elim (Bool-cases (leb 1024 (length timeline))) [
  | inl full ↦
      let half = every_other-length (length timeline) timeline (omega arith) in
      let total = length-append (every_other timeline) (point ∷ []) in
      rw full (omega (arith, half, total, h), (every_other timeline, refl))
  | inr room ↦
      let total = length-append timeline (point ∷ []) in
      let less : length timeline < 1024 = ground arith in
      rw room (omega (arith, total, less), (timeline, refl))
]
