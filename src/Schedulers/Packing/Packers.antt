-- ===== src/Schedulers/Packing/Packers.antt =====
-- What the schedulers that place whole jobs share (gpu_scheduler_lab/schedulers: topology.py,
-- fifo.py, binpack.py, spread.py and vendor.py).
use gpu_scheduler_lab.Schedulers.Packing.{
  spread_place, binpack_place, fifo_place, validate_atomic_placement,
}
use gpu_scheduler_lab.Schedulers.Topology.Place.{Placement}
use gpu_scheduler_lab.Models.Job.{Job}
use gpu_scheduler_lab.Models.Cluster.{Cluster}
use gpu_scheduler_lab.Prelude.{◌≡◌, Result, ok, true}
use gpu_scheduler_lab.Schedulers.Topology.Place.{place}
use gpu_scheduler_lab.Schedulers.Packing.Atomic.{
  place-atomic, fifo_place-atomic, binpack_place-atomic, spread_place-atomic,
}

pub data Packer : Type 0 where
  by_topology by_arrival by_packing by_spreading : Packer

abbrev pub pack : Packer → Cluster → Job → Result Placement
pack by_topology c j = place c j
pack by_arrival c j = fifo_place c j
pack by_packing c j = binpack_place c j
pack by_spreading c j = spread_place c j

-- Whatever the topology, the first-in, first-out, the bin-packing or the spreading scheduler
-- answers passes the test of atomic placements that the simulator makes: it is no placement, or
-- one of exactly the requested number of GPUs.
pub pack-atomic :
    (packer : Packer) (c : Cluster) (j : Job) {placement : Placement}
    → pack packer c j ≡ ok placement
    → validate_atomic_placement j placement ≡ true
pack-atomic by_topology c j made = place-atomic c j made
pack-atomic by_arrival c j made = fifo_place-atomic c j made
pack-atomic by_packing c j made = binpack_place-atomic c j made
pack-atomic by_spreading c j made = spread_place-atomic c j made
