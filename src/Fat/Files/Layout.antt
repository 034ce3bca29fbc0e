-- ===== src/Fat/Files/Layout.antt =====
-- Where the clusters of a volume lie.
use ring_os.Prelude.{
  ℕ, suc, ◌+◌, ◌-◌, ◌*◌, ◌%◌, ◌≤◌, ◌<◌, ◌≡◌, ◌≢◌, ◌⊎◌, inl, inr, arith, u32_mod, ltb, Bool-cases,
  ltb→lt, ltb→le,
}
use ring_os.Fat.{Volume, bad_cluster, cluster_to_lba}
use ring_os.Fat.Table.View.{IsSound, entries}
use ring_os.Fat.Files.Reading.{IsByteSized}

-- The clusters begin behind the table, and each that has an entry lies on the device; the numbers
-- of clusters stop below the mark for bad ones.
pub record IsLaidOut (v : Volume) (capacity : ℕ) : Type 0 where
  pub sound : IsSound v capacity
  pub sized : IsByteSized v
  pub behind : v.fat_begin_lba + v.num_fats * v.fat_size_32 ≤ v.cluster_begin_lba
  pub room : v.cluster_begin_lba + (entries v - 2) * v.sectors_per_cluster ≤ capacity
  pub marks : entries v ≤ bad_cluster

module _ (v : Volume) (capacity : ℕ) (ok : IsLaidOut v capacity) where
  product-le :
      (c : ℕ)
      → 2 ≤ c
      → c < entries v
      → (c - 2) * v.sectors_per_cluster + v.sectors_per_cluster
        ≤ (entries v - 2) * v.sectors_per_cluster
  product-le c valid lt = let step : suc (c - 2) ≤ entries v - 2 = omega arith in grind arith

  pub cluster_to_lba_lem :
      (c : ℕ)
      → 2 ≤ c
      → c < entries v
      → cluster_to_lba v c ≡ v.cluster_begin_lba + (c - 2) * v.sectors_per_cluster
  unfolding cluster_to_lba
  cluster_to_lba_lem c valid lt =
      let wrap : (c + u32_mod - 2) % u32_mod ≡ c - 2 = omega (arith, ok.sound.clusters) in
      let p = product-le c valid lt in
      rw wrap (omega (arith, p, ok.room, ok.sound.small, ok.sized.some_sector))

  pub cluster_fits :
      (c : ℕ) → 2 ≤ c → c < entries v → cluster_to_lba v c + v.sectors_per_cluster ≤ capacity
  cluster_fits c valid lt =
      omega (arith, cluster_to_lba_lem c valid lt, product-le c valid lt, ok.room)

  -- A cluster begins behind the table.
  pub cluster_behind :
      (c : ℕ)
      → 2 ≤ c
      → c < entries v
      → v.fat_begin_lba + v.num_fats * v.fat_size_32 ≤ cluster_to_lba v c
  cluster_behind c valid lt = omega (arith, cluster_to_lba_lem c valid lt, ok.behind)

  -- Two clusters have no sector in common.
  pub clusters_apart :
      (c d : ℕ)
      → 2 ≤ c
      → c < entries v
      → 2 ≤ d
      → d < entries v
      → c ≢ d
      → (cluster_to_lba v c + v.sectors_per_cluster ≤ cluster_to_lba v d)
        ⊎ (cluster_to_lba v d + v.sectors_per_cluster ≤ cluster_to_lba v c)
  clusters_apart c d vc lc vd ld ne = elim (Bool-cases (ltb c d)) [
    | inl h ↦
        let lt : suc (c - 2) ≤ d - 2 = omega (arith, ltb→lt c d h) in
        let m : (c - 2) * v.sectors_per_cluster + v.sectors_per_cluster
            ≤ (d - 2) * v.sectors_per_cluster =
          grind arith in
        inl (omega (arith, cluster_to_lba_lem c vc lc, cluster_to_lba_lem d vd ld))
    | inr h ↦
        let lt : suc (d - 2) ≤ c - 2 = omega (arith, ltb→le c d h) in
        let m : (d - 2) * v.sectors_per_cluster + v.sectors_per_cluster
            ≤ (c - 2) * v.sectors_per_cluster =
          grind arith in
        inr (omega (arith, cluster_to_lba_lem c vc lc, cluster_to_lba_lem d vd ld))
  ]
