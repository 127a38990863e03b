-- ===== src/Models/Topology/Collision.antt =====
-- Racks whose labels contain a slash (gpu_scheduler_lab/models/topology.py).
use gpu_scheduler_lab.Models.Topology.{topology_domain, Labels, topology_distance}
use text.Mathlib.TextLemmas.{append_assoc}
use gpu_scheduler_lab.Prelude.{
  ap, ◌∙◌, sym, arith, text_eq_instance, ◌≡◌, ◌∷◌, ◌==◌, ◌<>◌, String, false, [], refl,
}

abbrev pub labelled : String → String → Labels
labelled zone rack = ("zone", zone) ∷ ("rack", rack) ∷ []

joined_twice : (z r s : String) → z <> "/" <> (r <> "/" <> s) ≡ (z <> "/" <> r) <> "/" <> s
joined_twice z r s =
    sym (append_assoc z ("/" <> r) ("/" <> s) ∙ ap (λ t. z <> t) (append_assoc "/" r ("/" <> s)))

rack_domain :
    (a zone rack : String)
    → (zone == "") ≡ false
    → (rack == "") ≡ false
    → topology_domain a (labelled zone rack) "rack" ≡ zone <> "/" <> rack
unfolding topology_domain
rack_domain a zone rack some_zone some_rack = rw (some_rack, some_zone) refl

distance_in_rack :
    (a : String) (x : Labels) (b : String) (y : Labels)
    → (a == b) ≡ false
    → topology_domain a x "rack" ≡ topology_domain b y "rack"
    → topology_distance a x b y ≡ 1
unfolding topology_distance
distance_in_rack a x b y apart same = ground (
  arith,
  apart,
  (text_eq_instance.beq_iff (topology_domain a x "rack") (topology_domain b y "rack")).1 same,
)

-- Two nodes of different zones are at a rack's distance where the first one's rack label starts
-- with a slash-separated part by which the second one's zone is longer.
pub topology_distance_collides :
    (a b z r s : String)
    → (a == b) ≡ false
    → (z == "") ≡ false
    → (s == "") ≡ false
    → ((r <> "/" <> s) == "") ≡ false
    → ((z <> "/" <> r) == "") ≡ false
    → topology_distance a (labelled z (r <> "/" <> s)) b (labelled (z <> "/" <> r) s) ≡ 1
topology_distance_collides a b z r s apart zone rack whole_rack whole_zone =
    distance_in_rack a (labelled z (r <> "/" <> s)) b (labelled (z <> "/" <> r) s) apart (
      rack_domain a z (r <> "/" <> s) zone whole_rack
      ∙ joined_twice z r s
      ∙ sym (rack_domain b (z <> "/" <> r) s whole_zone rack))
