-- ===== src/Models/Cluster/Refusals.antt =====
-- When `Cluster.allocate` (gpu_scheduler_lab/models/cluster.py) raises.
use gpu_scheduler_lab.Models.Cluster.Ownership.{allocate-parts, PlacementFacts}
use gpu_scheduler_lab.Models.Job.{requested_gpu_count, Job}
use gpu_scheduler_lab.Models.Cluster.Allocation.{assign, is_available, check_placement, allocate}
use gpu_scheduler_lab.Models.Cluster.{vendors_of, Gpu, Cluster}
use gpu_scheduler_lab.Prelude.{
  ◌>>◌, ltb, ap, nat_eq_iff, arith, ◌∷◌, not, length, Result-cases, ◌↔◌, nat_eq, any, ◌≡◌, is_ok,
  All, String, List, inr, inl, ok, false, true, [], refl,
}

none_missing :
    (c : Cluster) (j : Job) (gs : List Gpu)
    → All (λ g. is_available c j g ≡ true) gs
    → any (λ g. not (is_available c j g)) gs ≡ false
none_missing c j [] h = refl
none_missing c j (g ∷ gs) h = ground (arith, none_missing c j gs h.1, h.0)

facts-check_placement :
    (c : Cluster) (j : Job) (ids : List String)
    → PlacementFacts c j ids
    → check_placement c j ids ≡ ok tt
unfolding check_placement
facts-check_placement c j ids facts =
    let counted : nat_eq (length ids) (requested_gpu_count j) ≡ true =
      (nat_eq_iff (length ids) (requested_gpu_count j)).1 facts.exact in
    let unique = facts.unique in
    let looked_up = facts.looked_up in
    let one_vendor : ltb 1 (length (vendors_of facts.selected)) ≡ false =
      let le = facts.vendors in ground arith in
    let offered = none_missing c j facts.selected facts.available in
    let local = facts.local in ground arith

-- An allocation raises for exactly the placements that break a rule: it succeeds where the
-- placement names the requested number of distinct known GPUs, all available to the job, of one
-- vendor and within its topology requirement, and nowhere else.
pub allocate-ok_iff :
    (c : Cluster) (j : Job) (ids : List String)
    → (is_ok (allocate c j ids) ≡ true) ↔ PlacementFacts c j ids
unfolding allocate
allocate-ok_iff c j ids = (
  λ h. elim (Result-cases (allocate c j ids)) [
    | inl (made, done) ↦ (allocate-parts c j ids {c' = made.0} {j' = made.1} done).0
    | inr (e, failed) ↦ absurd (ground (arith, failed))
  ],
  λ facts.
      ap
        (λ m.
          is_ok {A = Cluster × Job}
            (m >> ok (assign j ids c, record j { allocated_gpu_ids = ids })))
        (facts-check_placement c j ids facts),
)
