-- ===== src/Simulator/Arrivals/Arrived.antt =====
-- What an arrival leaves (gpu_scheduler_lab/simulator/engine.py).
use gpu_scheduler_lab.Simulator.Lifecycle.{trace_of}
use gpu_scheduler_lab.Simulator.Completion.{lookup-put_job}
use gpu_scheduler_lab.Fairshare.Accounting.{AccountingPolicy}
use gpu_scheduler_lab.Admission.{decide, AdmissionDecision, AdmissionController}
use gpu_scheduler_lab.Simulator.Arrivals.{
  reason_text, arrive_job, capacity_snapshots, controller_of, settle_arrival, demand_candidates,
  enqueue_job, chosen_demand, rejected_job, reject_job, admitted_job, arrive, add_runnable_demand,
  Setting,
}
use gpu_scheduler_lab.Models.Job.{rejected, effective_priority, Job}
use gpu_scheduler_lab.Models.Events.{
  job_arrival, job_admit, Event, scheduler_tick, event_order, compare_event, EventType,
}
use gpu_scheduler_lab.Simulator.{
  put_job, record_trace, job_of, Simulator, Policy, schedule_aging_tick, push_event,
}
use gpu_scheduler_lab.Prelude.{
  insert, ◌==◌, if◌then◌else◌, get_or, lookup-insert, Dict, subst, >>=-eq-ok, ◌⊎◌, ◌∷◌, ◌++◌,
  text_eq_instance, List, lookup, Option, false, true, none, [], ok-injective, ◌+◌, Option-cases,
  ◌>>=◌, leb, key_error, or_raise, arith, Bool-cases, ap, ◌∙◌, insert_sorted, sym, ◌≡◌, String, inr,
  inl, suc, ok, some, refl, ℕ,
}

-- What is left alone by a push: everything but the events and their count.
pub push_event-only :
    (at : ℕ) (kind : EventType) (job_id : String) (generation : ℕ) (s : Simulator) {s' : Simulator}
    → push_event at kind job_id generation s ≡ ok s'
    → s' ≡ record s { events = s'.events; sequence = s'.sequence }
unfolding push_event
push_event-only at kind job_id generation s {s'} h = elim (Option-cases (event_order kind)) [
  | inl never ↦ absurd (ground arith)
  | inr (order, known) ↦
      let same : pushed order ≡ s' = ok-injective (whole order known) in
      sym same ∙ ap (λ x. record s { events = x.events; sequence = x.sequence }) same
]
  where
    pushed : ℕ → Simulator
    pushed order = record s {
      sequence = suc s.sequence;
      events =
          insert_sorted compare_event
            (record {
              time = at;
              order = order;
              sequence = suc s.sequence;
              event_type = kind;
              job_id = job_id;
              generation = generation;
            })
            s.events;
    }

    whole : (order : ℕ) → event_order kind ≡ some order → ok (pushed order) ≡ ok s'
    whole order known =
        sym (ap (λ o. or_raise o (key_error "event order") >>= λ order. ok (pushed order)) known)
        ∙ h

pub schedule_aging_tick-only :
    (policy : Policy) (j : Job) (now : ℕ) (s : Simulator) {s' : Simulator}
    → schedule_aging_tick policy j now s ≡ ok s'
    → s' ≡ record s { events = s'.events; sequence = s'.sequence }
unfolding schedule_aging_tick
schedule_aging_tick-only policy j now s {s'} h = elim (Bool-cases policy.supports_preemption) [
  | inr never ↦ unchanged (ground arith)
  | inl preempts ↦ elim (Bool-cases (leb 3 (effective_priority j now policy.aging_interval))) [
    | inl top ↦ unchanged (ground arith)
    | inr lower ↦
        push_event-only (now + policy.aging_interval) scheduler_tick j.id 0 s {s' = s'}
          (ground arith)
  ]
]
  where
    unchanged : s ≡ s' → s' ≡ record s { events = s'.events; sequence = s'.sequence }
    unchanged same = sym same ∙ ap (λ x. record s { events = x.events; sequence = x.sequence }) same

-- A job that is turned away: it is recorded as rejected and counted under the reason, and all but
-- the table of jobs, the trace and the counters is as it was.
pub record IsRejected (given : Option String) (j : Job) (s s' : Simulator) : Type 0 where
  pub recorded :
      lookup j.id s'.by_id ≡ some (record j { status = rejected; rejection_reason = given })
  pub other_jobs : (id : String) → (j.id == id) ≡ false → lookup id s'.by_id ≡ lookup id s.by_id
  pub counted :
      get_or (reason_text given) 0 s'.tally.rejection_reasons
      ≡ suc (get_or (reason_text given) 0 s.tally.rejection_reasons)
  pub others : s' ≡ record s { by_id = s'.by_id; trace = s'.trace; tally = s'.tally }

-- A job that waits from now on, behind the others.
pub record IsEnqueued (now : ℕ) (j : Job) (s s' : Simulator) : Type 0 where
  pub recorded : lookup j.id s'.by_id ≡ some (admitted_job now j)
  pub waiting : s'.pending ≡ s.pending ++ j.id ∷ []
  pub cluster : s'.cluster ≡ s.cluster

get_or-insert : (k : String) (n : ℕ) (d : Dict String ℕ) → get_or k 0 (insert k n d) ≡ n
get_or-insert k n d = ground (arith, lookup-insert k k n d, text_eq_instance.beq_iff k k)

reject_job-IsRejected :
    (given : Option String) (j : Job) (now : ℕ) (s : Simulator)
    → IsRejected given j s (reject_job given j now s)
reject_job-IsRejected given j now s = record {
  recorded = lookup-put_job (rejected_job given j) s j.id refl;
  other_jobs = λ id other.
      lookup-insert j.id id (rejected_job given j) s.by_id
      ∙ ap (λ b. if b then some (rejected_job given j) else lookup id s.by_id) other;
  counted =
      get_or-insert (reason_text given)
        (suc (get_or (reason_text given) 0 s.tally.rejection_reasons)) s.tally.rejection_reasons;
  others = refl;
}

add_runnable_demand-keeps :
    (accounting : AccountingPolicy) (j : Job) (snapshots : List (List String)) (s : Simulator)
    → ((add_runnable_demand accounting j snapshots s).by_id ≡ s.by_id)
      × ((add_runnable_demand accounting j snapshots s).pending ≡ s.pending)
      × ((add_runnable_demand accounting j snapshots s).cluster ≡ s.cluster)
unfolding add_runnable_demand
add_runnable_demand-keeps accounting j snapshots s =
    elim (Option-cases (chosen_demand (demand_candidates accounting s.cluster j snapshots))) [
      | inl nothing ↦ (ground arith, ground arith, ground arith)
      | inr (demand, chosen) ↦ (ground arith, ground arith, ground arith)
    ]

enqueue_job-IsEnqueued :
    (setting : Setting) (snapshots : List (List String)) (j : Job) (now : ℕ) (s before : Simulator)
    {s' : Simulator}
    → before.pending ≡ s.pending
    → before.cluster ≡ s.cluster
    → lookup j.id before.by_id ≡ some (admitted_job now j)
    → enqueue_job setting snapshots (admitted_job now j) now before ≡ ok s'
    → IsEnqueued now j s s'
enqueue_job-IsEnqueued setting snapshots j now s before {s'} waits stands recorded h =
    let queued : Simulator = record before { pending = before.pending ++ j.id ∷ [] } in
    let added : Simulator =
      add_runnable_demand setting.accounting (admitted_job now j) snapshots queued in
    let keeps =
      add_runnable_demand-keeps setting.accounting (admitted_job now j) snapshots queued in
    let only =
      schedule_aging_tick-only setting.policy (admitted_job now j) now
        (record_trace (trace_of now job_arrival j.id [] [] "") added) h in
    record {
      recorded = ap (λ x. lookup j.id x.by_id) only ∙ ap (lookup j.id) keeps.0 ∙ recorded;
      waiting = ap (λ x. x.pending) only ∙ keeps.1 ∙ ap (λ l. l ++ j.id ∷ []) waits;
      cluster = ap (λ x. x.cluster) only ∙ keeps.2 ∙ stands;
    }

settle_arrival-cases :
    (setting : Setting) (snapshots : List (List String)) (j : Job) (now : ℕ) (s : Simulator)
    (decision : AdmissionDecision) {s' : Simulator}
    → settle_arrival setting snapshots j now s decision ≡ ok s'
    → ((decision.admitted ≡ true) × IsEnqueued now j s s')
      ⊎ ((decision.admitted ≡ false) × IsRejected decision.reason j s s')
settle_arrival-cases setting snapshots j now s decision {s'} h =
    elim (Bool-cases decision.admitted) [
      | inl admits ↦ inl (
        admits,
        enqueue_job-IsEnqueued setting snapshots j now s
            (record_trace (trace_of now job_admit j.id [] [] "") (put_job (admitted_job now j) s))
            {s' = s'} refl refl (lookup-put_job (admitted_job now j) s j.id refl) (ground arith),
      )
      | inr turns_away ↦
          let same : reject_job decision.reason j now s ≡ s' = ground arith in
          inr (
            turns_away,
            subst (IsRejected decision.reason j s) same
                (reject_job-IsRejected decision.reason j now s),
          )
    ]

-- A job that arrives where admission is controlled, without an error, is enqueued behind the
-- waiting jobs exactly where the controller, asked about the cluster as it stands and the
-- snapshots of its nodes from now on, admits it, and no GPU changes; else it is recorded as
-- rejected and counted for the given reason, and nothing changes but the table of jobs at its id,
-- the trace and the counters.
pub arrive-admission :
    (setting : Setting) (a : AdmissionController) (e : Event) (now : ℕ) (s : Simulator) {j : Job}
    {s' : Simulator}
    → setting.admission ≡ some a
    → job_of s e.job_id ≡ ok j
    → arrive setting e now s ≡ ok s'
    → (d : AdmissionDecision) × (decide (controller_of a s) j (capacity_snapshots setting now s)
        ≡ ok d)
      × (((d.admitted ≡ true) × IsEnqueued now j s s')
          ⊎ ((d.admitted ≡ false) × IsRejected d.reason j s s'))
unfolding arrive
arrive-admission setting a e now s {j} {s'} controlled known h =
    let snapshots = capacity_snapshots setting now s in
    let arrives : arrive_job setting j now s ≡ ok s' =
      ap (λ m. m >>= λ k. arrive_job setting k now s) (sym known) ∙ h in
    let asks : (decide (controller_of a s) j snapshots >>= settle_arrival setting snapshots j now s)
        ≡ ok s' =
      ap
        (λ o. elim o [
          | none ↦
              enqueue_job setting snapshots (admitted_job now j) now
                (put_job (admitted_job now j) s)
          | some b ↦
              decide (controller_of b s) j snapshots >>= settle_arrival setting snapshots j now s
        ])
        (sym controlled)
      ∙ arrives in
    let (d, decided, settled) =
      >>=-eq-ok (decide (controller_of a s) j snapshots) (settle_arrival setting snapshots j now s)
        asks in
    (d, decided, settle_arrival-cases setting snapshots j now s d settled)
