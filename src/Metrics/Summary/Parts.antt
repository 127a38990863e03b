-- ===== src/Metrics/Summary/Parts.antt =====
-- That the quotients of a run's summary (gpu_scheduler_lab/metrics/summary.py) are taken.
use gpu_scheduler_lab.Metrics.{div_fraction}
use gpu_scheduler_lab.Metrics.Fragmented.{IsRatio}
use gpu_scheduler_lab.Metrics.Summary.{
  wasted_gpu_time, violations_of, preemptions_of, quotient_over, over, ratio_or, quotients_of, mean,
  fragmentation_ratio, fraction_over, Quotients, has_deadline, misses_deadline, is_completed,
  turnaround_times, waiting_times, group_of, add_amount, sum_by_group, ninety_five, RunTotals,
}
use gpu_scheduler_lab.Metrics.Latency.{percentile-IsWithin, percentile}
use gpu_scheduler_lab.Models.Job.{status_eq, Job}
use gpu_scheduler_lab.Prelude.{
  suc, add_fraction, nat_eq_iff, Bool-cases, traverse, length, Result, inr, inl, any, ◌<◌,
  count_of-le, length-filter-le, ◌∙◌, arith, ap, All, ◌≤◌, ◌≡◌, refl, ◌>>=◌, text_eq_instance,
  nat_eq, ◌∷◌, ◌+◌, ◌*◌, whole, sum_of, insert, get_or, filter, String, List, Fraction, Dict, ok,
  false, [], ℕ,
}

All-within_sum :
    (total : ℕ) (xs : List ℕ) → sum_of (λ x. x) xs ≤ total → All (λ x. (0 ≤ x) × (x ≤ total)) xs
All-within_sum total [] h = tt
All-within_sum total (x ∷ xs) h =
    ((omega arith, omega (arith, h)), All-within_sum total xs (omega (arith, h)))

percentile_returns : (samples : List ℕ) → (f : Fraction) × (percentile samples ninety_five ≡ ok f)
unfolding percentile
percentile_returns [] = (whole 0, refl)
percentile_returns (v ∷ samples) =
    let total : ℕ = sum_of (λ x. x) (v ∷ samples) in
    let (f, found, within) =
      percentile-IsWithin 0 total (v ∷ samples) ninety_five
        (All-within_sum total (v ∷ samples) (omega arith)) (omega arith) (omega arith)
        (omega arith) in
    (f, found)

insert_positive :
    (k : String) (v : ℕ) (d : Dict String ℕ)
    → 0 < v
    → any (λ e. nat_eq e.1 0) d ≡ false
    → any (λ e. nat_eq e.1 0) (insert k v d) ≡ false
insert_positive k v [] some_value h = ground (arith, some_value)
insert_positive k v ((i, w) ∷ d) some_value h =
    ground (arith, some_value, h, insert_positive k v d some_value)

pub sum_by_group_positive :
    (amount : Job → ℕ) (jobs : List Job) (d : Dict String ℕ)
    → All (λ j. 0 < amount j) jobs
    → any (λ e. nat_eq e.1 0) d ≡ false
    → any (λ e. nat_eq e.1 0) (sum_by_group amount jobs d) ≡ false
sum_by_group_positive amount [] d all_positive h = h
sum_by_group_positive amount (j ∷ jobs) d all_positive h =
    sum_by_group_positive amount jobs (add_amount (group_of j) (amount j) d) all_positive.1 (
      insert_positive (group_of j) (get_or (group_of j) 0 d + amount j) d
        (omega (arith, all_positive.0)) h)

-- A part that returns, with what is known of its value.
abbrev pub Returns : {A : Type 0} → (A → Type 0) → Result A → Type 0
Returns {A} P m = (a : A) × (m ≡ ok a) × P a

pub then-Returns :
    {A B : Type 0} (Q : A → Type 0) (P : B → Type 0) (m : Result A) (k : A → Result B)
    → Returns Q m
    → ((a : A) → Q a → Returns P (k a))
    → Returns P (m >>= k)
then-Returns Q P m k (a, e, q) rest = let (b, e', p) = rest a q in (b, ap (λ r. r >>= k) e ∙ e', p)

pub traverse-Returns :
    {A B : Type 0} (P : B → Type 0) (f : A → Result B) (xs : List A)
    → All (λ x. Returns P (f x)) xs
    → Returns (All P) (traverse f xs)
traverse-Returns P f [] h = ([], refl, tt)
traverse-Returns P f (x ∷ xs) h =
    then-Returns P (All P) (f x) (λ y. traverse f xs >>= λ ys. ok (y ∷ ys)) h.0
      (λ y p.
        then-Returns (All P) (All P) (traverse f xs) (λ ys. ok (y ∷ ys))
          (traverse-Returns P f xs h.1) (λ ys ps. (y ∷ ys, refl, (p, ps))))

-- A quotient of a part and its whole, where a fallback is one too.
ratio_or-Returns :
    (other : Fraction) (n d : ℕ)
    → Returns (λ f. IsRatio other → n ≤ d → IsRatio f) (ratio_or other n d)
unfolding ratio_or over
ratio_or-Returns other n d = elim (Bool-cases (nat_eq d 0)) [
  | inl nothing ↦ rw nothing (other, refl, λ fallback part. fallback)
  | inr something ↦ rw something (
    record { num = n; den = d },
    refl,
    λ fallback part. record {
      den_pos = ground (arith, something, nat_eq_iff d 0);
      at_most_one = part;
    },
  )
]

abbrev Any : Fraction → Type 0
Any f = Unit

fraction_over-Returns : (f : Fraction) (d : ℕ) → Returns Any (fraction_over f d)
unfolding fraction_over quotient_over
fraction_over-Returns f d = elim (Bool-cases (nat_eq d 0)) [
  | inl nothing ↦ rw nothing (whole 0, refl, tt)
  | inr something ↦ rw something (div_fraction f (whole d), refl, tt)
]

fragmentation_ratio-Returns :
    (count memory : Fraction) (horizon : ℕ) → Returns Any (fragmentation_ratio count memory horizon)
unfolding fragmentation_ratio quotient_over
fragmentation_ratio-Returns count memory horizon = elim (Bool-cases (nat_eq horizon 0)) [
  | inl nothing ↦ rw nothing (whole 0, refl, tt)
  | inr something ↦
      let twice : nat_eq (2 * horizon) 0 ≡ false =
        ground (arith, something, nat_eq_iff horizon 0, nat_eq_iff (2 * horizon) 0) in
      rw (something, twice)
        (div_fraction (add_fraction count memory) (whole (2 * horizon)), refl, tt)
]

mean-Returns : (samples : List ℕ) → Returns Any (mean samples)
unfolding mean over
mean-Returns [] = (whole 0, refl, tt)
mean-Returns (v ∷ samples) =
    let counted : nat_eq (suc (length samples)) 0 ≡ false = ground arith in
    rw counted
      (record { num = sum_of (λ x. x) (v ∷ samples); den = length (v ∷ samples) }, refl, tt)

percentile-Any : (samples : List ℕ) → Returns Any (percentile samples ninety_five)
percentile-Any samples = let (f, found) = percentile_returns samples in (f, found, tt)

-- The rates of a run are quotients of parts and wholes.
abbrev pub AreRates : Quotients → Type 0
AreRates q = IsRatio q.completion × IsRatio q.violations

one_IsRatio : IsRatio (whole 1)
one_IsRatio = record { den_pos = omega arith; at_most_one = omega arith }

none_IsRatio : IsRatio (whole 0)
none_IsRatio = record { den_pos = omega arith; at_most_one = omega arith }

pub quotients_of-Returns :
    (jobs : List Job) (totals : RunTotals) → Returns AreRates (quotients_of jobs totals)
unfolding quotients_of
quotients_of-Returns jobs totals =
    then-Returns _ AreRates _ _
      (ratio_or-Returns (whole 0) totals.busy_gpu_time totals.gpu_capacity_time)
      (λ a1 h1.
        then-Returns _ AreRates _ _
          (ratio_or-Returns (whole 0) totals.memory_area totals.memory_capacity_time)
          (λ a2 h2.
            then-Returns _ AreRates _ _
              (fraction_over-Returns totals.count_fragmentation_area totals.horizon)
              (λ a3 h3.
                then-Returns _ AreRates _ _
                  (fraction_over-Returns totals.memory_fragmentation_area totals.horizon)
                  (λ a4 h4.
                    then-Returns _ AreRates _ _
                      (fragmentation_ratio-Returns totals.count_fragmentation_area
                        totals.memory_fragmentation_area totals.horizon)
                      (λ a5 h5.
                        then-Returns _ AreRates _ _
                          (ratio_or-Returns (whole 0) totals.node_area totals.node_capacity_time)
                          (λ a6 h6.
                            then-Returns _ AreRates _ _ (mean-Returns (waiting_times jobs))
                              (λ a7 h7.
                                then-Returns _ AreRates _ _ (percentile-Any (waiting_times jobs))
                                  (λ a8 h8.
                                    then-Returns _ AreRates _ _
                                      (mean-Returns (turnaround_times jobs))
                                      (λ a9 h9.
                                        then-Returns _ AreRates _ _
                                          (percentile-Any (turnaround_times jobs))
                                          (λ a10 h10.
                                            then-Returns _ AreRates _ _
                                              (ratio_or-Returns (whole 1)
                                                (length (filter is_completed jobs)) (length jobs))
                                              (λ rate rated.
                                                then-Returns _ AreRates _ _
                                                  (ratio_or-Returns (whole 0) (preemptions_of jobs)
                                                    (length jobs))
                                                  (λ a12 h12.
                                                    then-Returns _ AreRates _ _
                                                      (ratio_or-Returns (whole 0)
                                                        (violations_of jobs)
                                                        (length (filter has_deadline jobs)))
                                                      (λ violations violated.
                                                        then-Returns _ AreRates _ _
                                                          (ratio_or-Returns (whole 0)
                                                            totals.topology_counts.distance_sum
                                                            totals.topology_counts.distance_samples)
                                                          (λ a14 h14.
                                                            then-Returns _ AreRates _ _
                                                            (ratio_or-Returns (whole 0)
                                                            (sum_of wasted_gpu_time jobs)
                                                            totals.busy_gpu_time)
                                                            (λ a15 h15. (
                                                            _,
                                                            refl,
                                                            (
                                                            rated one_IsRatio
                                                            (length-filter-le is_completed jobs),
                                                            violated none_IsRatio (
                                                            count_of-le misses_deadline
                                                            (filter has_deadline jobs)),
                                                            ),
                                                            ))))))))))))))))
