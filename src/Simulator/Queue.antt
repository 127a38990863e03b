-- ===== src/Simulator/Queue.antt =====
-- The order of the simulator's events (gpu_scheduler_lab/simulator/engine.py).
use gpu_scheduler_lab.Simulator.{Simulator, push_event}
use gpu_scheduler_lab.Models.Events.{event_order, compare_event, EventType, Event}
use gpu_scheduler_lab.Prelude.{
  if◌then◌else◌, subst, arith, Option-cases, ◌≡◌, Bool-cases, String, ◌∷◌, not_gt, insert_sorted,
  List, inr, inl, suc, ok, false, true, [], ℕ,
}

-- Each event is due no later than the next.
abbrev pub IsOrdered : List Event → Type 0
IsOrdered [] = Unit
IsOrdered (e ∷ []) = Unit
IsOrdered (e ∷ f ∷ rest) = (not_gt (compare_event e f) ≡ true) × IsOrdered (f ∷ rest)

compare_event_flip :
    (e f : Event) → not_gt (compare_event e f) ≡ false → not_gt (compare_event f e) ≡ true
compare_event_flip e f h = ground arith

insert_sorted-IsOrdered :
    (e : Event) (events : List Event)
    → IsOrdered events
    → IsOrdered (insert_sorted compare_event e events)
insert_sorted-IsOrdered e [] h = tt
insert_sorted-IsOrdered e (f ∷ []) h = elim (Bool-cases (not_gt (compare_event e f))) [
  | inl first ↦ rw first (first, tt)
  | inr later ↦ rw later (compare_event_flip e f later, tt)
]
insert_sorted-IsOrdered e (f ∷ g ∷ rest) h = elim (Bool-cases (not_gt (compare_event e f))) [
  | inl first ↦ rw first (first, h)
  | inr later ↦ elim (Bool-cases (not_gt (compare_event e g))) [
    | inl between ↦ rw (later, between) (compare_event_flip e f later, (between, h.1))
    | inr past ↦
        let rest_ordered = insert_sorted-IsOrdered e (g ∷ rest) h.1 in
        rw (later, past)
          (
            h.0,
            subst
                (λ b.
                  IsOrdered (if b then e ∷ g ∷ rest else g ∷ insert_sorted compare_event e rest))
                past rest_ordered,
          )
  ]
]

-- Pushing an event keeps the events in the order in which they are due, and takes the next
-- sequence number.
pub push_event-IsOrdered :
    (at : ℕ) (kind : EventType) (job_id : String) (generation : ℕ) (s : Simulator) {s' : Simulator}
    → IsOrdered s.events
    → push_event at kind job_id generation s ≡ ok s'
    → IsOrdered s'.events × (s'.sequence ≡ suc s.sequence)
unfolding push_event
push_event-IsOrdered at kind job_id generation s {s'} h e = elim (Option-cases (event_order kind)) [
  | inl never ↦ absurd (ground arith)
  | inr (order, known) ↦
      let pushed : Event = record {
        time = at;
        order = order;
        sequence = suc s.sequence;
        event_type = kind;
        job_id = job_id;
        generation = generation;
      } in
      let events : insert_sorted compare_event pushed s.events ≡ s'.events = ground arith in
      (subst IsOrdered events (insert_sorted-IsOrdered pushed s.events h), ground arith)
]
