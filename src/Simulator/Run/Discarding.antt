-- ===== src/Simulator/Run/Discarding.antt =====
-- The loop that discards events at the start of a round
-- (gpu_scheduler_lab/simulator/engine.py, `run`).
use gpu_scheduler_lab.Models.Job.{Job}
use gpu_scheduler_lab.Models.Events.{Event}
use gpu_scheduler_lab.Prelude.{
  nat_eq_iff, nat_eq, if◌then◌else◌, elem, ◌&&◌, ℕ, not, is_empty, ap, >>=-eq-ok, zero, false, true,
  text_eq_instance, lookup, Option-cases, ok-injective, arith, sym, Bool-cases, ◌⊎◌, ◌∷◌, ◌<◌,
  subst, ◌≡◌, ◌∙◌, length, String, Bool, List, Dict, inr, inl, suc, ok, [], refl,
}
use gpu_scheduler_lab.Simulator.Run.{discard_events, discard_round}
use gpu_scheduler_lab.Simulator.{
  is_current, expected_status, discard_stale, discard_stale_generation_events,
  discard_obsolete_ticks, discard_idle_ticks, drop_ticks, is_tick, Simulator,
}

-- What is left of the events is all of them, or less.
abbrev Shrinks : List Event → List Event → Type 0
Shrinks events kept = (kept ≡ events) ⊎ (length kept < length events)

Shrinks-cons :
    (e : Event) (events kept : List Event) → Shrinks events kept → length kept < suc (length events)
Shrinks-cons e events kept (inl same) =
    subst (λ l. length l < suc (length events)) (sym same) (omega arith)
Shrinks-cons e events kept (inr less) = omega (arith, less)

drop_ticks-Shrinks :
    (obsolete : Event → Bool) (events : List Event) → Shrinks events (drop_ticks obsolete events)
drop_ticks-Shrinks obsolete [] = inl refl
drop_ticks-Shrinks obsolete (e ∷ rest) = elim (Bool-cases (is_tick e.event_type && obsolete e)) [
  | inl drops ↦
      rw drops
        (inr (Shrinks-cons e rest (drop_ticks obsolete rest) (drop_ticks-Shrinks obsolete rest)))
  | inr keeps ↦ rw keeps (inl refl)
]

discard_stale-Shrinks :
    (by_id : Dict String Job) (events : List Event) {kept : List Event}
    → discard_stale by_id events ≡ ok kept
    → Shrinks events kept
unfolding discard_stale
discard_stale-Shrinks by_id [] h = inl (sym (ok-injective h))
discard_stale-Shrinks by_id (e ∷ rest) {kept} h =
    elim (Option-cases (expected_status e.event_type)) [
      | inl timeless ↦ inl (sym (ok-injective (ground arith)))
      | inr (status, expects) ↦ elim (Option-cases (lookup e.job_id by_id)) [
        | inl unknown_job ↦ absurd (ground arith)
        | inr (j, found) ↦ elim (Bool-cases (is_current j status e)) [
          | inl current ↦ inl (sym (ok-injective (ground arith)))
          | inr left ↦
              inr (Shrinks-cons e rest kept (discard_stale-Shrinks by_id rest (ground arith)))
        ]
      ]
    ]

-- The same of the whole state, in which only the events change.
abbrev Lessens : Simulator → Simulator → Type 0
Lessens s s' = (s' ≡ s) ⊎ (length s'.events < length s.events)

Lessens-trans : (a b c : Simulator) → Lessens a b → Lessens b c → Lessens a c
Lessens-trans a b c (inl same) (inl same') = inl (same' ∙ same)
Lessens-trans a b c (inl same) (inr less) =
    inr (subst (λ (x : Simulator). length c.events < length x.events) same less)
Lessens-trans a b c (inr less) (inl same) =
    inr (subst (λ (x : Simulator). length x.events < length a.events) (sym same) less)
Lessens-trans a b c (inr less) (inr less') = inr (omega (arith, less, less'))

of_events :
    (s : Simulator) (kept : List Event)
    → Shrinks s.events kept
    → Lessens s (record s { events = kept })
of_events s kept (inl same) = inl (ap (λ (es : List Event). record s { events = es }) same)
of_events s kept (inr less) = inr less

discard_idle_ticks-Lessens : (s : Simulator) → Lessens s (discard_idle_ticks s)
unfolding discard_idle_ticks
discard_idle_ticks-Lessens s =
    elim (Bool-cases (is_empty s.running && is_empty s.checkpointing && is_empty s.restarting)) [
      | inl idle ↦
          rw idle (
            of_events s (drop_ticks (λ e. true) s.events) (drop_ticks-Shrinks (λ e. true) s.events))
      | inr busy ↦ rw busy (inl refl)
    ]

discard_obsolete_ticks-Lessens : (s : Simulator) → Lessens s (discard_obsolete_ticks s)
unfolding discard_obsolete_ticks
discard_obsolete_ticks-Lessens s =
    let obsolete : Event → Bool = λ e. not (elem e.job_id s.pending) in
    of_events s (drop_ticks obsolete s.events) (drop_ticks-Shrinks obsolete s.events)

discard_stale_generation_events-Lessens :
    (s : Simulator) {s' : Simulator} → discard_stale_generation_events s ≡ ok s' → Lessens s s'
unfolding discard_stale_generation_events
discard_stale_generation_events-Lessens s {s'} h =
    let (kept, dropped, last) =
      >>=-eq-ok (discard_stale s.by_id s.events) (λ kept. ok (record s { events = kept })) h in
    subst (Lessens s) (ok-injective last)
      (of_events s kept (discard_stale-Shrinks s.by_id s.events dropped))

discard_round-Lessens : (s : Simulator) {s' : Simulator} → discard_round s ≡ ok s' → Lessens s s'
discard_round-Lessens s {s'} h =
    let first : Simulator = discard_obsolete_ticks s in
    let (second, kept, last) =
      >>=-eq-ok (discard_stale_generation_events first) (λ c. ok (discard_idle_ticks c)) h in
    Lessens-trans s first s' (discard_obsolete_ticks-Lessens s) (
      Lessens-trans first second s' (discard_stale_generation_events-Lessens first kept)
        (subst (Lessens second) (ok-injective last) (discard_idle_ticks-Lessens second)))

-- Where as many rounds are given as events are queued, and one more, the discarding of events ends
-- before the rounds do: what it leaves is a state that another round of it leaves as it is.
pub discard_events_settles :
    (n : ℕ) (s : Simulator) {s' : Simulator}
    → length s.events < n
    → discard_events n s ≡ ok s'
    → discard_round s' ≡ ok s'
unfolding discard_events
discard_events_settles zero s some_round h = absurd (omega arith)
discard_events_settles (suc n) s {s'} some_round h =
    let (kept, done, more) =
      >>=-eq-ok (discard_round s)
        (λ kept.
          if nat_eq (length kept.events) (length s.events) then ok kept else discard_events n kept)
        h in
    elim (discard_round-Lessens s done) [
      | inl same ↦
          let stops : nat_eq (length kept.events) (length s.events) ≡ true =
            (nat_eq_iff (length kept.events) (length s.events)).1
              (ap (λ (x : Simulator). length x.events) same) in
          let left : kept ≡ s' = ok-injective (ground (arith, stops, more)) in
          let as_it_was : s ≡ s' = sym same ∙ left in
          subst (λ (x : Simulator). discard_round x ≡ ok x) as_it_was (done ∙ ap ok same)
      | inr less ↦
          let goes_on : nat_eq (length kept.events) (length s.events) ≡ false =
            ground (arith, less) in
          discard_events_settles n kept (omega (arith, less, some_round))
            (ground (arith, goes_on, more))
    ]
