-- ===== src/Simulator/Reclaiming/Taken.antt =====
-- What one round of the loop that preempts jobs in a reclaim plan takes
-- (gpu_scheduler_lab/simulator/engine.py, `_plan_reclaim_for_vendor`).
use gpu_scheduler_lab.Schedulers.Topology.Place.{Placement}
use gpu_scheduler_lab.Simulator.{job_of, Simulator}
use gpu_scheduler_lab.Simulator.Preempting.{remaining_productive_runtime, suitable_gpu_count}
use gpu_scheduler_lab.Simulator.Scheduler.{Scheduler}
use gpu_scheduler_lab.Models.Job.{Job}
use gpu_scheduler_lab.Prelude.{
  ◌∙◌, some_eq, ap, traverse, minimum_ind, minimum, All-self_elem, All-map_pred, map, is_empty,
  ◌||◌, lookup, Option-cases, if◌then◌else◌, Bool, Option, some, none, sym, All-append, ◌>>=◌, ◌==◌,
  elem-append, text_eq_instance, arith, Bool-cases, >>=-eq-ok, ◌≤◌, ◌<◌, ok-injective, not, ◌∷◌,
  subst, count_of, ◌≡◌, ◌++◌, ℕ, elem, String, All, Result, List, inr, inl, ok, false, true, [],
  refl,
}
use gpu_scheduler_lab.Simulator.Reclaiming.Planning.{
  projected_job, refresh_projected, target_placement, preempt_best, preempt_round, after_action,
  is_offered, victim_action_on, victim_actions_of, ReclaimRequest,
}
use gpu_scheduler_lab.Simulator.Reclaiming.{
  take_job, compare_victim_action, projected_allocated, put_projected, Projection, VictimAction,
  put_all_projected,
}
use gpu_scheduler_lab.Admission.{flat_traverse}

-- The running jobs that the plan does not preempt yet.
abbrev pub unpreempted : List String → List String → ℕ
unpreempted ids preempted = count_of (λ i. not (elem i preempted)) ids

unpreempted-append :
    (ids preempted : List String) (k : String)
    → unpreempted ids (preempted ++ k ∷ []) ≤ unpreempted ids preempted
unpreempted-append [] preempted k = omega arith
unpreempted-append (i ∷ ids) preempted k =
    ground (arith, elem-append i preempted (k ∷ []), unpreempted-append ids preempted k)

unpreempted-less :
    (ids preempted : List String) (k : String)
    → elem k ids ≡ true
    → elem k preempted ≡ false
    → unpreempted ids (preempted ++ k ∷ []) < unpreempted ids preempted
unpreempted-less [] preempted k m new = cc
unpreempted-less (i ∷ ids) preempted k m new = elim (Bool-cases (k == i)) [
  | inl here ↦
      let same : k ≡ i = (text_eq_instance.beq_iff k i).0 here in
      let fresh : elem i preempted ≡ false = subst (λ x. elem x preempted ≡ false) same new in
      let self : (i == k) ≡ true = (text_eq_instance.beq_iff i k).1 (sym same) in
      ground
        (arith, elem-append i preempted (k ∷ []), fresh, self, unpreempted-append ids preempted k)
  | inr later ↦
      let deeper : elem k ids ≡ true = ground (arith, m, later) in
      ground (arith, elem-append i preempted (k ∷ []), unpreempted-less ids preempted k deeper new)
]

put_all_projected-preempted :
    (js : List Job) (p : Projection) → (put_all_projected js p).preempted_ids ≡ p.preempted_ids
put_all_projected-preempted [] p = refl
put_all_projected-preempted (j ∷ js) p = put_all_projected-preempted js (put_projected j p)

flat_traverse-All :
    {A B : Type 0} (f : A → Result (List B)) (P : B → Type 0) (xs : List A) {ys : List B}
    → All (λ x. (zs : List B) → f x ≡ ok zs → All P zs) xs
    → flat_traverse f xs ≡ ok ys
    → All P ys
flat_traverse-All f P [] h e = subst (All P) (ok-injective e) tt
flat_traverse-All f P (x ∷ xs) h e =
    let (zs, first, more) =
      >>=-eq-ok (f x) (λ zs. flat_traverse f xs >>= λ rest. ok (zs ++ rest)) e in
    let (rest, others, last) = >>=-eq-ok (flat_traverse f xs) (λ rest. ok (zs ++ rest)) more in
    subst (All P) (ok-injective last)
      (All-append P zs rest (h.0 zs first) (flat_traverse-All f P xs h.1 others))

module _ {S K : Type 0} (scheduler : Scheduler S K) (request : ReclaimRequest) where
  -- An action is on a job that is offered and was not taken before.
  victim_actions_of-fresh :
      (p : Projection) (t : S) (j : Job) (actions : List VictimAction)
      → victim_actions_of scheduler request p t j ≡ ok actions
      → All (λ a. (a.key.job_id ≡ j.id) × (elem j.id p.preempted_ids ≡ false)) actions
  victim_actions_of-fresh p t j actions h = elim (Option-cases (lookup j.id p.projected_jobs)) [
    | inl none_held ↦
        let nothing : [] ≡ actions = ok-injective (ground (arith, none_held, h)) in
        subst (All _) nothing tt
    | inr (copy, held) ↦
        elim (Bool-cases (elem j.id p.preempted_ids || is_empty copy.allocated_gpu_ids)) [
          | inl taken ↦
              let nothing : [] ≡ actions = ok-injective (ground (arith, held, taken, h)) in
              subst (All _) nothing tt
          | inr untaken ↦
              let fresh : elem j.id p.preempted_ids ≡ false = ground (arith, untaken) in
              let (offered, asked, more) =
                >>=-eq-ok (is_offered scheduler request p t copy) (if_offered p t j copy)
                  (ground (arith, held, untaken, h)) in
              on_offer p t j copy actions fresh offered more
        ]
  ]
    where
      if_entitled : Projection → S → Job → Job → Option String → Result (List VictimAction)
      if_entitled p t j copy entitlement = victim_action_on scheduler request p j copy entitlement

      if_offered : Projection → S → Job → Job → Bool → Result (List VictimAction)
      if_offered p t j copy offered =
          if not offered
          then ok []
          else (scheduler.reclaim_entitlement_queue t copy request.incoming
              >>= if_entitled p t j copy)

      on_offer :
          (p : Projection) (t : S) (j copy : Job) (actions : List VictimAction)
          → elem j.id p.preempted_ids ≡ false
          → (offered : Bool) → if_offered p t j copy offered ≡ ok actions
          → All (λ a. (a.key.job_id ≡ j.id) × (elem j.id p.preempted_ids ≡ false)) actions
      on_offer p t j copy actions fresh false h = subst (All _) (ok-injective h) tt
      on_offer p t j copy actions fresh true h =
          let (entitlement, found, last) =
            >>=-eq-ok (scheduler.reclaim_entitlement_queue t copy request.incoming)
              (if_entitled p t j copy) h in
          on_entitlement p j copy actions fresh entitlement last
        where
          on_entitlement :
              (p : Projection) (j copy : Job) (actions : List VictimAction)
              → elem j.id p.preempted_ids ≡ false
              → (entitlement : Option String)
              → victim_action_on scheduler request p j copy entitlement ≡ ok actions
              → All (λ a. (a.key.job_id ≡ j.id) × (elem j.id p.preempted_ids ≡ false)) actions
          on_entitlement p j copy actions fresh none h = subst (All _) (ok-injective h) tt
          on_entitlement p j copy actions fresh (some entitlement) h =
              let (suitable, counted, more) =
                >>=-eq-ok (suitable_gpu_count p.projected copy request.incoming) _ h in
              let (remaining, weighed, last) =
                >>=-eq-ok (remaining_productive_runtime j request.now) _ more in
              subst (All _) (ok-injective last) ((refl, fresh), tt)

  -- An action of a round is on a running job that the plan does not preempt yet.
  abbrev IsOnRunning : List String → Projection → VictimAction → Type 0
  IsOnRunning ids p a = (elem a.key.job_id ids ≡ true) × (elem a.key.job_id p.preempted_ids ≡ false)

  actions-IsOnRunning :
      (p : Projection) (t : S) (running_jobs : List Job) (actions : List VictimAction)
      → flat_traverse (victim_actions_of scheduler request p t) running_jobs ≡ ok actions
      → All (IsOnRunning (map (λ j. j.id) running_jobs) p) actions
  actions-IsOnRunning p t running_jobs actions h =
      let ids : List String = map (λ (j : Job). j.id) running_jobs in
      flat_traverse-All (victim_actions_of scheduler request p t) (IsOnRunning ids p) running_jobs
        (All-map_pred (λ (j : Job). elem j.id ids ≡ true) running_jobs
          (λ j listed zs made.
            All-map_pred
              (λ (a : VictimAction). (a.key.job_id ≡ j.id) × (elem j.id p.preempted_ids ≡ false)) zs
              (λ a at. (
                subst (λ k. elem k ids ≡ true) (sym at.0) listed,
                subst (λ k. elem k p.preempted_ids ≡ false) (sym at.0) at.1,
              ))
              (victim_actions_of-fresh p t j zs made))
          (All-self_elem (λ (j : Job). j.id) running_jobs))
        h

  after_action-preempted :
      (s : Simulator) (p : Projection) (t : S) {next : Placement × Projection × S}
      → after_action scheduler request s p t ≡ ok next
      → next.1.preempted_ids ≡ p.preempted_ids
  after_action-preempted s p t {next} h =
      let (refreshed, prepared, more) =
        >>=-eq-ok (refresh_projected scheduler request s p t) (λ r. place_on r) h in
      let (found, placed, last) =
        >>=-eq-ok (target_placement scheduler request refreshed.0 refreshed.1)
          (λ found. ok (found.0, refreshed.0, found.1)) more in
      let (waiting, looked, later) =
        >>=-eq-ok (traverse (job_of s) s.pending) (λ w. prepare_on w) prepared in
      let (out, asked, done) =
        >>=-eq-ok (scheduler.prepare request.now p.projected waiting (projected_allocated p) t)
          (λ o. ok (put_all_projected o.1 p, o.0)) later in
      ap (λ (x : Placement × Projection × S). x.1.preempted_ids) (sym (ok-injective last))
      ∙ ap (λ (x : Projection × S). x.0.preempted_ids) (sym (ok-injective done))
      ∙ put_all_projected-preempted out.1 p
    where
      place_on : Projection × S → Result (Placement × Projection × S)
      place_on r =
          target_placement scheduler request r.0 r.1 >>= λ found. ok (found.0, r.0, found.1)

      prepare_on : List Job → Result (Projection × S)
      prepare_on waiting =
          scheduler.prepare request.now p.projected waiting (projected_allocated p) t >>= λ o.
          ok (put_all_projected o.1 p, o.0)

  pub preempt_round-less :
      (s : Simulator) (running_jobs : List Job) (p : Projection) (t : S)
      {next : Placement × Projection × S}
      → preempt_round scheduler request s running_jobs p t ≡ ok (some next)
      → unpreempted (map (λ j. j.id) running_jobs) next.1.preempted_ids
        < unpreempted (map (λ j. j.id) running_jobs) p.preempted_ids
  preempt_round-less s running_jobs p t {next} h =
      let (actions, offered, more) =
        >>=-eq-ok (flat_traverse (victim_actions_of scheduler request p t) running_jobs)
          (preempt_best scheduler request s p t) h in
      on_best actions (actions-IsOnRunning p t running_jobs actions offered) more
    where
      on_best :
          (actions : List VictimAction)
          → All (IsOnRunning (map (λ j. j.id) running_jobs) p) actions
          → preempt_best scheduler request s p t actions ≡ ok (some next)
          → unpreempted (map (λ j. j.id) running_jobs) next.1.preempted_ids
            < unpreempted (map (λ j. j.id) running_jobs) p.preempted_ids
      on_best [] fresh h = absurd (ground (arith, h))
      on_best (a ∷ rest) fresh h =
          let best : VictimAction = minimum compare_victim_action a rest in
          let at =
            minimum_ind compare_victim_action (IsOnRunning (map (λ (j : Job). j.id) running_jobs) p)
              a rest fresh.0 fresh.1 in
          let (copy, held, more) =
            >>=-eq-ok (projected_job scheduler request p best.key.job_id)
              (λ copy.
                after_action scheduler request s (take_job best copy p) t >>= λ n. ok (some n))
              h in
          let (n, acted, last) =
            >>=-eq-ok (after_action scheduler request s (take_job best copy p) t) (λ n. ok (some n))
              more in
          let same : n ≡ next = some_eq (ok-injective last) in
          let grown : next.1.preempted_ids ≡ p.preempted_ids ++ best.key.job_id ∷ [] =
            ap (λ (x : Placement × Projection × S). x.1.preempted_ids) (sym same)
            ∙ after_action-preempted s (take_job best copy p) t acted in
          subst
            (λ l.
              unpreempted (map (λ (j : Job). j.id) running_jobs) l
              < unpreempted (map (λ (j : Job). j.id) running_jobs) p.preempted_ids)
            (sym grown)
            (unpreempted-less (map (λ (j : Job). j.id) running_jobs) p.preempted_ids best.key.job_id
              at.0 at.1)
