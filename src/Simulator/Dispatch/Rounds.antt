-- ===== src/Simulator/Dispatch/Rounds.antt =====
-- How many rounds `_dispatch_pending` takes (gpu_scheduler_lab/simulator/engine.py).
use gpu_scheduler_lab.Simulator.{job_of, without_id}
use gpu_scheduler_lab.Simulator.Dispatch.{
  ordered_ids, try_job, first_id, next_candidate, dispatch, Pass,
}
use gpu_scheduler_lab.Simulator.Scheduler.{
  placement_cannot_change_without_release, sort_by_key, keyed_by, Scheduler,
}
use gpu_scheduler_lab.Simulator.Arrivals.{Setting}
use mathlib.Core.Path.{fun_ext}
use gpu_scheduler_lab.Prelude.{
  sym, if◌then◌else◌, Result-cases, All-of_elem, text_eq_instance, ◌∙◌, beq_comm, ◌==◌, ap,
  All-sort, ◌>>=◌, sort, beq_refl, Bool-cases, ok-injective, arith, >>=-eq-ok, ◌≤◌, ◌∷◌, ◌<◌, subst,
  map, ◌≡◌, Bool, length, elem, Compare, All, Result, List, String, inr, inl, suc, zero, ok, false,
  true, [], refl, ℕ,
}

length-without_id-le : (id : String) (ids : List String) → length (without_id id ids) ≤ length ids
length-without_id-le id [] = omega arith
length-without_id-le id (x ∷ ids) = ground (arith, length-without_id-le id ids)

length-without_id-lt :
    (id : String) (ids : List String) → elem id ids ≡ true → length (without_id id ids) < length ids
length-without_id-lt id [] h = absurd (ground arith)
length-without_id-lt id (x ∷ ids) h = elim (Bool-cases (id == x)) [
  | inl here ↦
      let shown : (x == id) ≡ true = beq_comm x id ∙ here in
      let le = length-without_id-le id ids in ground (arith, shown)
  | inr later ↦
      let hidden : (x == id) ≡ false = beq_comm x id ∙ later in
      let lt = length-without_id-lt id ids (ground arith) in ground (arith, hidden)
]

module _ {K : Type 0} (P : String → Type 0) (key : String → Result K) where
  keyed_by-All :
      (ids : List String) {keyed : List (K × String)}
      → All P ids
      → keyed_by key ids ≡ ok keyed
      → All (λ item. P item.1) keyed
  keyed_by-All [] h e = subst (All (λ item. P item.1)) (ok-injective e) tt
  keyed_by-All (id ∷ ids) h e =
      let (pair, paired, more) =
        >>=-eq-ok (key id >>= λ k. ok (k, id))
          (λ pair. keyed_by key ids >>= λ pairs. ok (pair ∷ pairs)) e in
      let (pairs, rest, last) = >>=-eq-ok (keyed_by key ids) (λ pairs. ok (pair ∷ pairs)) more in
      let (k, found, made) = >>=-eq-ok (key id) (λ k. ok (k, id)) paired in
      subst (All (λ item. P item.1)) (ok-injective last)
        (subst (λ (item : K × String). P item.1) (ok-injective made) h.0, keyed_by-All ids h.1 rest)

  sort_by_key-All :
      (compare : Compare K) (ids : List String) {sorted : List String}
      → All P ids
      → sort_by_key compare key ids ≡ ok sorted
      → All P sorted
  sort_by_key-All compare ids h e =
      let (keyed, paired, last) =
        >>=-eq-ok (keyed_by key ids)
          (λ keyed. ok (map (λ item. item.1) (sort (λ a b. compare a.0 b.0) keyed))) e in
      subst (All P) (ok-injective last) (
        seconds (sort (λ a b. compare a.0 b.0) keyed) (
          All-sort (λ a b. compare a.0 b.0) (λ (item : K × String). P item.1) keyed
            (keyed_by-All ids h paired)))
    where
      seconds :
          (items : List (K × String))
          → All (λ item. P item.1) items
          → All P (map (λ item. item.1) items)
      seconds [] h = tt
      seconds (item ∷ items) h = (h.0, seconds items h.1)

module _ {S K : Type 0} (setting : Setting) (scheduler : Scheduler S K) where
  -- The next candidate is one of them, so that taking it away leaves fewer.
  next_candidate-member :
      (first : String) (rest : List String) (now : ℕ) (pass : Pass S) {job_id : String}
      → next_candidate setting scheduler first rest now pass ≡ ok job_id
      → elem job_id (first ∷ rest) ≡ true
  next_candidate-member first rest now pass {job_id} h =
      elim (Bool-cases scheduler.dynamic_pending_order) [
        | inr static ↦
            let same : first ≡ job_id = ground arith in
            subst (λ id. elem id (first ∷ rest) ≡ true) same (ground (arith, beq_refl first))
        | inl dynamic ↦
            let (ordered, sorted, last) =
              >>=-eq-ok (ordered_ids setting scheduler (first ∷ rest) now pass)
                (λ ordered. ok (first_id setting scheduler first ordered)) {b = job_id}
                (ground arith) in
            let members : All (λ id. elem id (first ∷ rest) ≡ true) ordered =
              sort_by_key-All (λ id. elem id (first ∷ rest) ≡ true)
                (λ id. job_of pass.1 id >>= λ j. scheduler.pending_key pass.0 j now)
                scheduler.compare_key (first ∷ rest) (All-of_elem _ (first ∷ rest) (λ id m. m))
                sorted in
            subst (λ id. elem id (first ∷ rest) ≡ true) (ok-injective last)
              (first_member ordered members)
      ]
    where
      first_member :
          (ordered : List String)
          → All (λ id. elem id (first ∷ rest) ≡ true) ordered
          → elem (first_id setting scheduler first ordered) (first ∷ rest) ≡ true
      first_member [] h = ground (arith, beq_refl first)
      first_member (id ∷ ordered) h = h.0

  -- The rounds that `_dispatch_pending` is given are enough: with any number of rounds that is no
  -- less than that of the candidates, the outcome is the same.
  pub dispatch_enough_rounds :
      (m n : ℕ) (guaranteed_only allow_preemption : Bool) (ids : List String) (now : ℕ)
      (pass : Pass S)
      → length ids ≤ m
      → length ids ≤ n
      → dispatch setting scheduler m guaranteed_only allow_preemption ids now pass
        ≡ dispatch setting scheduler n guaranteed_only allow_preemption ids now pass
  unfolding dispatch
  dispatch_enough_rounds m n guaranteed_only allow_preemption [] now pass hm hn = refl
  dispatch_enough_rounds zero n guaranteed_only allow_preemption (first ∷ rest) now pass hm hn =
      absurd (omega arith)
  dispatch_enough_rounds (suc m) zero guaranteed_only allow_preemption (first ∷ rest) now pass hm
        hn =
      absurd (omega arith)
  dispatch_enough_rounds (suc m) (suc n) guaranteed_only allow_preemption (first ∷ rest) now pass hm
        hn =
      elim (Bool-cases (placement_cannot_change_without_release scheduler setting.policy pass.1)) [
        | inl stuck ↦ rw stuck refl
        | inr goes_on ↦ elim (Result-cases (next_candidate setting scheduler first rest now pass)) [
          | inr (e, failed) ↦
              ap
                (λ o.
                  if placement_cannot_change_without_release scheduler setting.policy pass.1
                  then ok pass
                  else (o >>= go m))
                failed
              ∙ sym (
                  ap
                    (λ o.
                      if placement_cannot_change_without_release scheduler setting.policy pass.1
                      then ok pass
                      else (o >>= go n))
                    failed)
          | inl (job_id, chosen) ↦
              let fewer =
                length-without_id-lt job_id (first ∷ rest)
                  (next_candidate-member first rest now pass chosen) in
              ap
                (λ o.
                  if placement_cannot_change_without_release scheduler setting.policy pass.1
                  then ok pass
                  else (o >>= go m))
                chosen
              ∙ ap
                  (λ o.
                    if placement_cannot_change_without_release scheduler setting.policy pass.1
                    then ok pass
                    else o)
                  (same job_id (λ (tried : Pass S).
                    dispatch_enough_rounds m n guaranteed_only allow_preemption
                      (without_id job_id (first ∷ rest)) now tried (omega (arith, fewer, hm))
                      (omega (arith, fewer, hn))))
              ∙ sym (
                  ap
                    (λ o.
                      if placement_cannot_change_without_release scheduler setting.policy pass.1
                      then ok pass
                      else (o >>= go n))
                    chosen)
        ]
      ]
    where
      go : ℕ → String → Result (Pass S)
      go fuel job_id =
          try_job setting scheduler guaranteed_only allow_preemption job_id now pass
          >>= dispatch setting scheduler fuel guaranteed_only allow_preemption
              (without_id job_id (first ∷ rest)) now

      same :
          (job_id : String)
          → ((tried : Pass S)
              → dispatch setting scheduler m guaranteed_only allow_preemption
                  (without_id job_id (first ∷ rest))
                  now
                  tried
                ≡ dispatch setting scheduler n guaranteed_only allow_preemption
                    (without_id job_id (first ∷ rest))
                    now
                    tried)
          → go m job_id ≡ go n job_id
      same job_id ih =
          ap (λ f. try_job setting scheduler guaranteed_only allow_preemption job_id now pass >>= f)
            (fun_ext ih)
