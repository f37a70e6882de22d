-- ===== src/Storage/Volume/Lifetime.antt =====
-- Volumes from creation to destruction: `volume_create`, `volume_resize`, `volume_snapshot`,
-- `volume_destroy` and `pool_destroy` of src/storage/pool.c.
use purevisor.Base.{
  ℕ, zero, suc, ◌+◌, ◌-◌, ◌*◌, ◌^◌, ◌≡◌, ◌≢◌, ◌<◌, ◌≤◌, inl, inr, refl, ap, ◌∙◌, true, false, ◌&&◌,
  List, [], ◌∷◌, ltb, ◌==◌, length, All, arith, Bool-cases,
}
use purevisor.Storage.Pool.{Pool, is_offline, extent_size, pool_free_extent}
use purevisor.Storage.Volume.{Depot}
use purevisor.Storage.Volume.Manage.{
  extents_for, finish_volume, volume_create, free_replicas, free_volume, volume_destroy,
  volume_snapshot, copy_map, destroy_volumes, Pools, pool_destroy,
}

-- Freeing extents leaves the list of volumes alone.
free_extent_volumes : (p : Pool) (i : ℕ) → (pool_free_extent p i).volumes ≡ p.volumes
unfolding pool_free_extent
free_extent_volumes p i = elim (Bool-cases (ltb 0 i && ltb i p.total_extents)) [
  | inl t ↦ rw t refl
  | inr f ↦ rw f refl
]

free_replicas_volumes : (p : Pool) (e r n : ℕ) → (free_replicas p e r n).volumes ≡ p.volumes
unfolding free_replicas
free_replicas_volumes p e r zero = refl
free_replicas_volumes p e r (suc n) =
    free_replicas_volumes (pool_free_extent p ((p.extents e).replica_extents r)) e (r + 1) n
    ∙ free_extent_volumes p ((p.extents e).replica_extents r)

free_volume_volumes : (p : Pool) (m : ℕ → ℕ) (i n : ℕ) → (free_volume p m i n).volumes ≡ p.volumes
unfolding free_volume
free_volume_volumes p m i zero = refl
free_volume_volumes p m i (suc n) = elim (Bool-cases (m i == 0)) [
  | inl z ↦ rw (z, free_volume) (free_volume_volumes p m (i + 1) n)
  | inr z ↦
      let q = free_replicas p (m i) 0 (p.extents (m i)).replica_count in
      rw (z, free_volume)
        (free_volume_volumes (pool_free_extent q (m i)) m (i + 1) n
          ∙ free_extent_volumes q (m i)
          ∙ free_replicas_volumes p (m i) 0 (p.extents (m i)).replica_count)
]

-- Destroying the first volume of the list leaves the others.
destroy_head :
    {S : Type 0}
    → (d : Depot S) (v : ℕ) (vs : List ℕ) → d.pool.volumes ≡ v ∷ vs
    → v ≢ 0
    → (volume_destroy d v).pool.volumes ≡ vs
unfolding volume_destroy
destroy_head d v vs e ne =
    ground (arith, free_volume_volumes d.pool (d.volume v).extent_map 0 (d.volume v).num_extents, e)

destroy_volumes_at :
    {S : Type 0}
    → (d : Depot S) (vs : List ℕ) → d.pool.volumes ≡ vs
    → All (λ a. a ≢ 0) vs
    → (destroy_volumes d (length vs)).pool.volumes ≡ []
unfolding destroy_volumes
destroy_volumes_at d [] e h = e
destroy_volumes_at d (v ∷ vs) e h =
    rw (e, destroy_volumes)
      (destroy_volumes_at (volume_destroy d v) vs (destroy_head d v vs e h.0) h.1)

-- Where no volume of its list is NULL, destroying a pool ends after as many rounds as it has
-- volumes, and leaves it without volumes.
pub pool_destroy_empties :
    {S : Type 0}
    → (g : Pools) (d : Depot S) (pool : ℕ) → pool ≢ 0
    → All (λ a. a ≢ 0) d.pool.volumes
    → (pool_destroy g d pool).1.pool.volumes ≡ []
unfolding pool_destroy
pool_destroy_empties g d pool ne h = ground (arith, destroy_volumes_at d d.pool.volumes refl h)

-- The depot with a new thin volume.
abbrev thin_volume : {S : Type 0} → Depot S → ℕ → List ℕ → List ℕ → ℕ → ℕ → Depot S
thin_volume d vol name uuid size replication =
    finish_volume d vol name uuid (extents_for size) replication true 0 (λ i. 0)

create_thin :
    {S : Type 0}
    → (vol : ℕ) (uuid : List ℕ) (d : Depot S) (name : List ℕ) (size replication : ℕ)
    → is_offline d.pool.state ≡ false
    → vol ≢ 0
    → volume_create vol true uuid d name size replication true
      ≡ (true, thin_volume d vol name uuid size replication)
unfolding volume_create
create_thin vol uuid d name size replication on ne = ground (arith, on, ne)

-- With memory for it, a thin volume of up to 2^32 - 1 extents is always created in a pool that is
-- not offline: it holds at least the bytes asked for and less than one extent more, and takes
-- nothing from the pool.
pub create_thin_lem :
    {S : Type 0}
    → (vol : ℕ) (uuid : List ℕ) (d : Depot S) (name : List ℕ) (size replication : ℕ)
    → is_offline d.pool.state ≡ false
    → vol ≢ 0
    → size ≤ (2 ^ 32 - 1) * extent_size
    → (d' : Depot S) × (volume_create vol true uuid d name size replication true ≡ (true, d'))
      × (size ≤ (d'.volume vol).size)
      × ((d'.volume vol).size < size + extent_size)
      × (d'.pool.extents ≡ d.pool.extents)
      × (d'.pool.free_extents ≡ d.pool.free_extents)
      × ((d'.volume vol).size ≡ (d'.volume vol).num_extents * extent_size)
unfolding volume_create finish_volume
create_thin_lem vol uuid d name size replication on ne room = (
  thin_volume d vol name uuid size replication,
  create_thin vol uuid d name size replication on ne,
  ground arith,
  ground arith,
  refl,
  refl,
  ground arith,
)

snapshot_thin :
    {S : Type 0}
    → (snap : ℕ) (uuid : List ℕ) (d : Depot S) (vol : ℕ) (name : List ℕ)
    → is_offline d.pool.state ≡ false
    → vol ≢ 0
    → snap ≢ 0
    → let v = d.volume vol in
      volume_snapshot snap true uuid d vol name
      ≡ copy_map snap vol (true, thin_volume d snap name uuid v.size v.replication)
unfolding volume_snapshot
snapshot_thin snap uuid d vol name on nv ns =
    let v = d.volume vol in
    let e = create_thin snap uuid d name v.size v.replication on ns in
    elim (Bool-cases (vol == 0)) [
      | inl z ↦ absurd (ground (arith, z, nv))
      | inr z ↦ rw z (ap (copy_map snap vol) e)
    ]

-- With memory for it, a snapshot of a volume of a pool that is not offline succeeds and maps to
-- the very extents of its volume, and the extents themselves are not changed, so that nothing
-- marks them as shared.
pub snapshot_shares :
    {S : Type 0}
    → (snap : ℕ) (uuid : List ℕ) (d : Depot S) (vol : ℕ) (name : List ℕ)
    → is_offline d.pool.state ≡ false
    → vol ≢ 0
    → snap ≢ 0
    → snap ≢ vol
    → (d' : Depot S) × (volume_snapshot snap true uuid d vol name ≡ (true, d'))
      × ((i : ℕ)
          → i < (d.volume vol).num_extents
          → (d'.volume snap).extent_map i ≡ (d.volume vol).extent_map i)
      × (d'.pool.extents ≡ d.pool.extents)
unfolding volume_snapshot finish_volume
snapshot_shares snap uuid d vol name on nv ns apart =
    let v = d.volume vol in
    (
      (copy_map snap vol (true, thin_volume d snap name uuid v.size v.replication)).1,
      snapshot_thin snap uuid d vol name on nv ns,
      λ i l. ground arith,
      refl,
    )
