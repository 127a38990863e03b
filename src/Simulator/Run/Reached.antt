-- ===== src/Simulator/Run/Reached.antt =====
-- What holds after every round of the main loop (gpu_scheduler_lab/simulator/engine.py).
use gpu_scheduler_lab.Models.Events.{Event}
use gpu_scheduler_lab.Simulator.Dispatch.{schedule}
use gpu_scheduler_lab.Simulator.Resizing.{resize_elastic_jobs}
use gpu_scheduler_lab.Models.Cluster.Checks.{assert_invariants}
use gpu_scheduler_lab.Simulator.Areas.Bounds.{
  integrate_state-IsBounded, append_timeline-bounded, IsBounded,
}
use gpu_scheduler_lab.Simulator.Run.{
  discard_events, round_on, handle_all, drop_due, take_due, refresh_view, initial_run, round_at,
  settle_round, run_round, RunState,
}
use gpu_scheduler_lab.Models.Cluster.{Cluster}
use gpu_scheduler_lab.Simulator.{job_of, Simulator}
use gpu_scheduler_lab.Simulator.Scheduler.{Scheduler}
use gpu_scheduler_lab.Models.Job.{Job}
use gpu_scheduler_lab.Simulator.Arrivals.{Setting}
use gpu_scheduler_lab.Simulator.Areas.{
  integrate_state, fleet_point, append_timeline, append_queues, append_elastic, Areas,
  record_phase3_timeline, Timelines, QueueView,
}
use gpu_scheduler_lab.Prelude.{
  some_eq, ◌∙◌, sym, ap, ◌-◌, subst, ok-injective, map, ◌∷◌, arith, Option-cases, ◌>>=◌, traverse,
  >>=-eq-ok, ◌≡◌, ◌≤◌, Result, length, String, List, inr, inl, suc, ok, some, [], ℕ,
}

-- The lengths of the timelines.
pub record IsShort (t : Timelines) : Type 0 where
  pub queue_points : length t.queue_timeline ≤ 1024
  pub elastic_points : length t.elastic_timeline ≤ 1024
  pub fleet_points : length t.fleet_timeline ≤ 1024

append_queues-IsShort :
    (now : ℕ) (view : QueueView) (t : Timelines) → IsShort t → IsShort (append_queues now view t)
append_queues-IsShort now view t h = elim (Option-cases view) [
  | inl no_queues ↦ rw no_queues h
  | inr (queues, has_queues) ↦ rw has_queues (record {
    queue_points = (append_timeline-bounded t.queue_timeline (now, queues.1) h.queue_points).0;
    elastic_points = h.elastic_points;
    fleet_points = h.fleet_points;
  })
]

append_elastic-IsShort :
    (now : ℕ) (jobs : List Job) (t : Timelines) → IsShort t → IsShort (append_elastic now jobs t)
append_elastic-IsShort now [] t h = h
append_elastic-IsShort now (j ∷ jobs) t h = record {
  queue_points = h.queue_points;
  elastic_points =
      (append_timeline-bounded t.elastic_timeline
        (now, map (λ (k : Job). (k.id, k.current_replicas)) (j ∷ jobs)) h.elastic_points).0;
  fleet_points = h.fleet_points;
}

record_phase3_timeline-IsShort :
    (view : QueueView) (ids : List String) (now : ℕ) (s : Simulator) (t : Timelines)
    {t' : Timelines}
    → IsShort t
    → record_phase3_timeline view ids now s t ≡ ok t'
    → IsShort t'
unfolding record_phase3_timeline
record_phase3_timeline-IsShort view ids now s t h e =
    let (jobs, found, last) =
      >>=-eq-ok (traverse (job_of s) ids)
        (λ jobs. ok (record (append_elastic now jobs (append_queues now view t)) {
          fleet_timeline =
              append_timeline (append_elastic now jobs (append_queues now view t)).fleet_timeline
                (fleet_point now s.cluster);
        }))
        e in
    let two =
      append_elastic-IsShort now jobs (append_queues now view t)
        (append_queues-IsShort now view t h) in
    subst IsShort (ok-injective last) (record {
      queue_points = two.queue_points;
      elastic_points = two.elastic_points;
      fleet_points =
          (append_timeline-bounded
            (append_elastic now jobs (append_queues now view t)).fleet_timeline
            (fleet_point now s.cluster) two.fleet_points).0;
    })

module _ {S K : Type 0} (setting : Setting) (scheduler : Scheduler S K)
    (queue_view : S → Result QueueView)
    (refresh_usage : Cluster → List Job → S → Result (S × List Job)) where
  -- The states that the loop reaches, round by round.
  pub data Reaches (start : RunState S) : RunState S → Type 0 where
    begins : Reaches start start
    goes_on :
        {r r' : RunState S}
        → Reaches start r
        → run_round setting scheduler queue_view refresh_usage r ≡ ok (some r')
        → Reaches start r'

  settle_round-parts :
      (now : ℕ) (areas : Areas) (timelines : Timelines) (handled : S × Simulator) {r' : RunState S}
      → settle_round setting scheduler queue_view refresh_usage now areas timelines handled ≡ ok r'
      → (r'.areas ≡ areas)
        × (r'.now ≡ now)
        × (assert_invariants r'.simulator.cluster ≡ ok tt)
        × (IsShort timelines → IsShort r'.timelines)
  settle_round-parts now areas timelines handled {r'} h =
      let (scheduled, passed, h1) =
        >>=-eq-ok (schedule setting scheduler now handled) (resize_then now areas timelines) h in
      let (resized, grown, h2) =
        >>=-eq-ok (resize_elastic_jobs setting scheduler now scheduled)
          (refresh_then now areas timelines) h1 in
      let (refreshed, used, h3) =
        >>=-eq-ok (refresh_view setting scheduler queue_view refresh_usage resized.0 resized.1)
          (view_then now areas timelines) h2 in
      let (view, seen, h4) =
        >>=-eq-ok (queue_view refreshed.0) (record_then now areas timelines refreshed) h3 in
      let (recorded, noted, h5) =
        >>=-eq-ok (record_phase3_timeline view setting.elastic_job_ids now refreshed.1 timelines)
          (assert_then now areas refreshed) h4 in
      let (u, asserted, last) =
        >>=-eq-ok (assert_invariants refreshed.1.cluster)
          (λ u. ok (settled now areas refreshed recorded)) h5 in
      let same : settled now areas refreshed recorded ≡ r' = ok-injective last in
      (
        ap (λ x. x.areas) (sym same),
        ap (λ x. x.now) (sym same),
        ap (λ x. assert_invariants x.simulator.cluster) (sym same) ∙ asserted,
        λ t.
            subst (λ (x : RunState S). IsShort x.timelines) same
              (record_phase3_timeline-IsShort view setting.elastic_job_ids now refreshed.1 timelines
                t noted),
      )
    where
      settled : ℕ → Areas → S × Simulator → Timelines → RunState S
      settled now areas refreshed recorded = record {
        now = now;
        scheduler_state = refreshed.0;
        simulator = refreshed.1;
        areas = areas;
        timelines = recorded;
      }

      assert_then : ℕ → Areas → S × Simulator → Timelines → Result (RunState S)
      assert_then now areas refreshed recorded =
          assert_invariants refreshed.1.cluster >>= λ u. ok (settled now areas refreshed recorded)

      record_then : ℕ → Areas → Timelines → S × Simulator → QueueView → Result (RunState S)
      record_then now areas timelines refreshed view =
          record_phase3_timeline view setting.elastic_job_ids now refreshed.1 timelines
          >>= assert_then now areas refreshed

      view_then : ℕ → Areas → Timelines → S × Simulator → Result (RunState S)
      view_then now areas timelines refreshed =
          queue_view refreshed.0 >>= record_then now areas timelines refreshed

      refresh_then : ℕ → Areas → Timelines → S × Simulator → Result (RunState S)
      refresh_then now areas timelines resized =
          refresh_view setting scheduler queue_view refresh_usage resized.0 resized.1
          >>= view_then now areas timelines

      resize_then : ℕ → Areas → Timelines → S × Simulator → Result (RunState S)
      resize_then now areas timelines scheduled =
          resize_elastic_jobs setting scheduler now scheduled >>= refresh_then now areas timelines

  -- What a round does to the integrals, the timelines and the cluster.
  run_round-parts :
      (r : RunState S) {r' : RunState S}
      → run_round setting scheduler queue_view refresh_usage r ≡ ok (some r')
      → (IsBounded r.areas → IsBounded r'.areas)
        × (IsShort r.timelines → IsShort r'.timelines)
        × (assert_invariants r'.simulator.cluster ≡ ok tt)
  unfolding run_round
  run_round-parts r {r'} h =
      let (kept, discarded, more) =
        >>=-eq-ok (discard_events (suc (length r.simulator.events)) r.simulator)
          (λ kept. round_on setting scheduler queue_view refresh_usage r kept kept.events) h in
      on_events kept kept.events more
    where
      at_time :
          (event_time : ℕ) (s : Simulator)
          → round_at setting scheduler queue_view refresh_usage event_time r s ≡ ok r'
          → (IsBounded r.areas → IsBounded r'.areas)
            × (IsShort r.timelines → IsShort r'.timelines)
            × (assert_invariants r'.simulator.cluster ≡ ok tt)
      at_time event_time s e =
          let due = take_due event_time s.events in
          let rest : Simulator = record s { events = drop_due event_time s.events } in
          let (view, seen, e1) =
            >>=-eq-ok (queue_view r.scheduler_state)
              (λ view. integrate_state view (event_time - r.now) s r.areas >>= λ areas.
                handle_all setting due event_time rest >>= λ handled.
                settle_round setting scheduler queue_view refresh_usage event_time areas r.timelines
                  (r.scheduler_state, handled))
              e in
          let (areas, integrated, e2) =
            >>=-eq-ok (integrate_state view (event_time - r.now) s r.areas)
              (λ areas. handle_all setting due event_time rest >>= λ handled.
                settle_round setting scheduler queue_view refresh_usage event_time areas r.timelines
                  (r.scheduler_state, handled))
              e1 in
          let (handled, done, e3) =
            >>=-eq-ok (handle_all setting due event_time rest)
              (λ handled.
                settle_round setting scheduler queue_view refresh_usage event_time areas r.timelines
                  (r.scheduler_state, handled))
              e2 in
          let parts =
            settle_round-parts event_time areas r.timelines (r.scheduler_state, handled) e3 in
          (
            λ b.
                subst IsBounded (sym parts.0)
                  (integrate_state-IsBounded view (event_time - r.now) s r.areas b integrated),
            parts.3,
            parts.2,
          )

      on_events :
          (s : Simulator) (events : List Event)
          → round_on setting scheduler queue_view refresh_usage r s events ≡ ok (some r')
          → (IsBounded r.areas → IsBounded r'.areas)
            × (IsShort r.timelines → IsShort r'.timelines)
            × (assert_invariants r'.simulator.cluster ≡ ok tt)
      on_events s [] e = absurd (ground arith)
      on_events s (first ∷ events) e =
          let (next, ran, last) =
            >>=-eq-ok (round_at setting scheduler queue_view refresh_usage first.time r s)
              (λ next. ok (some next)) e in
          at_time first.time s (ran ∙ ap ok (some_eq (ok-injective last)))

  -- In every state that the loop reaches from its start, without an error, the integrals are
  -- within their bounds and each timeline has at most 1024 points.
  pub Reaches-IsBounded :
      (t : S) (s : Simulator) {r : RunState S}
      → Reaches (initial_run setting scheduler queue_view refresh_usage t s) r
      → IsBounded r.areas × IsShort r.timelines
  Reaches-IsBounded t s begins = (
    record {
      busy = omega arith;
      split = omega arith;
      nodes = omega arith;
      peak = record { den_pos = omega arith; at_most_one = omega arith };
    },
    record { queue_points = omega arith; elastic_points = omega arith; fleet_points = omega arith },
  )
  Reaches-IsBounded t s (goes_on {r} {r'} before round) =
      let held = Reaches-IsBounded t s before in
      let parts = run_round-parts r round in (parts.0 held.0, parts.1 held.1)
