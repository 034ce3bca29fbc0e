-- ===== src/Fat/Clusters/Alloc.antt =====
-- `fat32_allocate_cluster` takes the first free cluster, and marks it as the end of a chain.
use ring_os.Prelude.{
  ℕ, zero, suc, ◌+◌, ◌*◌, ◌/◌, ◌%◌, ◌≤◌, ◌<◌, ◌≡◌, ◌≢◌, ◌⊎◌, inl, inr, refl, ap, ◌∙◌, ◌&&◌, Option,
  none, some, List, arith, u32_mod, leb, ltb, ltb→lt, ltb→le, sym, ◌==◌, if◌then◌else◌, Bool-cases,
  ==_iff,
}
use ring_os.Block.{BlockDevice, IsReliable}
use ring_os.Fat.{Fs, fat32_eoc}
use ring_os.Fat.Words.{word}
use ring_os.Fat.Table.View.{IsSound, entries, table}
use ring_os.Fat.Table.Write.{Written, write_fat_entry_lem}
use ring_os.Fat.Clusters.{scan_entries, scan_sectors, allocate_cluster}

cluster-lt :
    (sector i size left : ℕ) → i + suc left ≡ 128 → sector < size → sector * 128 + i < 128 * size
cluster-lt sector i size left e lt = omega arith

eoc-lt : fat32_eoc < u32_mod
eoc-lt = omega arith

module _ (dev : BlockDevice) (rel : IsReliable dev) where
  open rel use {capacity, contents, read_value, read_keeps}

  -- The scan of a sector from index `i` on took the cluster `c`, the first free one.
  record Took (sector : ℕ) (buffer : List ℕ) (i : ℕ) (fs : Fs dev.State)
      (r : Fs dev.State × Option ℕ) : Type 0 where
    cluster : ℕ
    wrote : Written dev rel fs cluster fat32_eoc
    run : r ≡ (record fs { disk = wrote.disk }, some cluster)
    from : sector * 128 + i ≤ cluster
    below : cluster < sector * 128 + 128
    valid : 2 ≤ cluster
    free : word buffer (cluster % 128) ≡ 0
    first : (j : ℕ) → i ≤ j → sector * 128 + j < cluster → 2 ≤ sector * 128 + j → word buffer j ≢ 0

  -- The scan found no free cluster.
  record Passed (sector : ℕ) (buffer : List ℕ) (i : ℕ) (fs : Fs dev.State)
      (r : Fs dev.State × Option ℕ) : Type 0 where
    run : r ≡ (fs, none)
    full : (j : ℕ) → i ≤ j → j < 128 → 2 ≤ sector * 128 + j → word buffer j ≢ 0

  scan_entries_lem :
      (sector : ℕ) (buffer : List ℕ) (left i : ℕ) (fs : Fs dev.State)
      → i + left ≡ 128
      → sector < fs.volume.fat_size_32
      → IsSound fs.volume capacity
      → let r = scan_entries dev sector buffer left i fs in
        Took sector buffer i fs r ⊎ Passed sector buffer i fs r
  unfolding scan_entries
  scan_entries_lem sector buffer zero i fs e lt ok =
      inr (record { run = refl; full = λ j a b c. absurd (omega arith) })
  scan_entries_lem sector buffer (suc left) i fs e lt ok =
      let cluster = sector * 128 + i in
      let small : cluster % u32_mod ≡ cluster = omega (arith, ok.clusters) in
      let rest = scan_entries_lem sector buffer left (i + 1) fs (omega arith) lt ok in
      elim (Bool-cases (word buffer i == 0 && leb 2 cluster)) [
        | inl hit ↦
            let w =
              write_fat_entry_lem dev rel fs cluster fat32_eoc ok
                (cluster-lt sector i fs.volume.fat_size_32 left e lt) eoc-lt in
            let here : cluster % 128 ≡ i = omega arith in
            inl (record {
              cluster = cluster;
              wrote = w;
              run = rw (small, hit, w.run);
              from = omega arith;
              below = omega arith;
              valid = ground arith;
              free = rw here (ground arith);
              first = λ j a b c. absurd (omega arith);
            })
        | inr miss ↦ elim rest [
          | inl t ↦ inl (record {
            cluster = t.cluster;
            wrote = t.wrote;
            run = rw (small, miss) t.run;
            from = omega (arith, t.from);
            below = t.below;
            valid = t.valid;
            free = t.free;
            first = λ j a b c. elim (Bool-cases (j == i)) [
              | inl same ↦ rw ((==_iff j i).0 same) (ground arith)
              | inr other ↦ t.first j (ground arith) b c
            ];
          })
          | inr p ↦ inr (record {
            run = rw (small, miss) p.run;
            full = λ j a b c. elim (Bool-cases (j == i)) [
              | inl same ↦ rw ((==_iff j i).0 same) (ground arith)
              | inr other ↦ p.full j (ground arith) b c
            ];
          })
        ]
      ]

  -- The cluster that was allocated, and what the device holds then. `from` is the first cluster
  -- that the search looked at.
  pub record Allocated (from : ℕ) (fs : Fs dev.State) (cluster : ℕ) (disk : dev.State)
      : Type 0 where
    pub valid : 2 ≤ cluster
    pub below : cluster < entries fs.volume
    pub free : table dev rel fs.volume fs.disk cluster ≡ 0
    pub first : (c : ℕ) → from ≤ c → 2 ≤ c → c < cluster → table dev rel fs.volume fs.disk c ≢ 0
    pub entry :
        (c : ℕ)
        → c < entries fs.volume
        → table dev rel fs.volume disk c
          ≡ (if cluster == c then fat32_eoc else table dev rel fs.volume fs.disk c)
    pub outside :
        (l : ℕ)
        → (l < fs.volume.fat_begin_lba)
          ⊎ (fs.volume.fat_begin_lba + fs.volume.num_fats * fs.volume.fat_size_32 ≤ l)
        → contents disk l ≡ contents fs.disk l

  -- There was no free cluster, and no sector changed.
  pub record Full (from : ℕ) (fs : Fs dev.State) (disk : dev.State) : Type 0 where
    pub full :
        (c : ℕ) → from ≤ c → 2 ≤ c → c < entries fs.volume → table dev rel fs.volume fs.disk c ≢ 0
    pub sectors : (l : ℕ) → contents disk l ≡ contents fs.disk l

  module _ (sector : ℕ) (fs : Fs dev.State) (lt : sector < fs.volume.fat_size_32)
      (ok : IsSound fs.volume capacity) where
    abbrev lba : ℕ
    lba = fs.volume.fat_begin_lba + sector

    abbrev read : dev.State
    read = (dev.read_sectors fs.disk lba 1).0

    lba-lt : lba < capacity
    lba-lt =
        let f : fs.volume.fat_size_32 ≤ fs.volume.num_fats * fs.volume.fat_size_32 =
          grind (arith, ok.one_copy) in
        omega (arith, ok.fits)

    lba_small : lba % u32_mod ≡ lba
    lba_small = omega (arith, lba-lt, ok.small)

    table-read : (c : ℕ) → table dev rel fs.volume read c ≡ table dev rel fs.volume fs.disk c
    table-read c = ap (λ s. word s (c % 128)) (read_keeps fs.disk lba _ lba-lt)

    -- An entry of this sector, by its cluster and by its index.
    table-word :
        (c : ℕ)
        → sector * 128 ≤ c
        → c < sector * 128 + 128
        → table dev rel fs.volume fs.disk c ≡ word (contents fs.disk lba) (c % 128)
    table-word c a b = let e : c / 128 ≡ sector = omega arith in rw e

    Took-Allocated :
        {r : Fs dev.State × Option ℕ}
        → (t : Took sector (contents fs.disk lba) 0 (record fs { disk = read }) r)
        → Allocated (sector * 128) fs t.cluster t.wrote.disk
    Took-Allocated t = record {
      valid = t.valid;
      below = omega (arith, t.below);
      free = table-word t.cluster (omega (arith, t.from)) t.below ∙ t.free;
      first = λ c a b below e.
          let word_at = table-word c a (omega (arith, t.below)) in
          t.first (c % 128) (omega arith) (omega (arith, t.below)) (omega arith) (sym word_at ∙ e);
      entry = λ c h.
          t.wrote.entry c h ∙ ap (λ n. if t.cluster == c then fat32_eoc else n) (table-read c);
      outside = λ l o. t.wrote.outside l o ∙ read_keeps fs.disk lba l lba-lt;
    }

    -- A sector without a free cluster: what the search finds behind it is the first.
    module _
        (p : (j : ℕ)
          → 0 ≤ j
          → j < 128
          → 2 ≤ sector * 128 + j
          → word (contents fs.disk lba) j ≢ 0) where
      passed :
          (c : ℕ)
          → sector * 128 ≤ c
          → 2 ≤ c
          → c < sector * 128 + 128
          → table dev rel fs.volume fs.disk c ≢ 0
      passed c a b below e =
          p (c % 128) (omega arith) (omega arith) (omega arith) (sym (table-word c a below) ∙ e)

      Allocated-back :
          (cluster : ℕ) (disk : dev.State)
          → Allocated ((sector + 1) * 128) (record fs { disk = read }) cluster disk
          → Allocated (sector * 128) fs cluster disk
      Allocated-back cluster disk r = record {
        valid = r.valid;
        below = r.below;
        free = sym (table-read cluster) ∙ r.free;
        first = λ c a b below. elim (Bool-cases (ltb c (sector * 128 + 128))) [
          | inl near ↦ passed c a b (ltb→lt _ _ near)
          | inr far ↦
              λ e. r.first c (let f = ltb→le _ _ far in omega arith) b below (table-read c ∙ e)
        ];
        entry = λ c h. r.entry c h ∙ ap (λ n. if cluster == c then fat32_eoc else n) (table-read c);
        outside = λ l o. r.outside l o ∙ read_keeps fs.disk lba l lba-lt;
      }

      Full-back :
          (disk : dev.State)
          → Full ((sector + 1) * 128) (record fs { disk = read }) disk
          → Full (sector * 128) fs disk
      Full-back disk r = record {
        full = λ c a b below. elim (Bool-cases (ltb c (sector * 128 + 128))) [
          | inl near ↦ passed c a b (ltb→lt _ _ near)
          | inr far ↦
              λ e. r.full c (let f = ltb→le _ _ far in omega arith) b below (table-read c ∙ e)
        ];
        sectors = λ l. r.sectors l ∙ read_keeps fs.disk lba l lba-lt;
      }

  -- The two ways in which the search ends.
  abbrev pub Search : ℕ → Fs dev.State → Fs dev.State × ℕ → Type 0
  Search from fs r =
      ((cluster : ℕ) × (disk : dev.State) × (r ≡ (record fs { disk = disk }, cluster))
        × Allocated from fs cluster disk)
      ⊎ ((disk : dev.State) × (r ≡ (record fs { disk = disk }, 0)) × Full from fs disk)

  module _ (sector : ℕ) (fs : Fs dev.State) (lt : sector < fs.volume.fat_size_32)
      (ok : IsSound fs.volume capacity) (left : ℕ) where
    abbrev scanned : Fs dev.State × Option ℕ
    scanned =
        scan_entries dev sector (contents fs.disk (lba sector fs lt ok)) 128 0
          (record fs { disk = read sector fs lt ok })

    step_hit :
        {fs' : Fs dev.State} {c : ℕ}
        → scanned ≡ (fs', some c)
        → scan_sectors dev (suc left) sector fs ≡ (fs', c)
    unfolding scan_sectors
    step_hit e =
        rw
          (
            lba_small sector fs lt ok,
            read_value fs.disk _ (lba-lt sector fs lt ok),
            lba_small sector fs lt ok,
            e,
            scan_sectors,
          )
          (rw (lba_small sector fs lt ok) (rw e))

    step_miss :
        {fs' : Fs dev.State}
        → scanned ≡ (fs', none)
        → scan_sectors dev (suc left) sector fs ≡ scan_sectors dev left (sector + 1) fs'
    unfolding scan_sectors
    step_miss e =
        rw
          (
            lba_small sector fs lt ok,
            read_value fs.disk _ (lba-lt sector fs lt ok),
            lba_small sector fs lt ok,
            e,
            scan_sectors,
          )
          (rw (lba_small sector fs lt ok) (rw e))

  scan_sectors_lem :
      (left sector : ℕ) (fs : Fs dev.State)
      → sector + left ≡ fs.volume.fat_size_32
      → IsSound fs.volume capacity
      → Search (sector * 128) fs (scan_sectors dev left sector fs)
  unfolding scan_sectors
  scan_sectors_lem zero sector fs e ok =
      inr (fs.disk, refl, record { full = λ c a b d. absurd (omega arith); sectors = λ l. refl })
  scan_sectors_lem (suc left) sector fs e ok =
      let lt : sector < fs.volume.fat_size_32 = omega arith in
      let fs1 = record fs { disk = read sector fs lt ok } in
      elim (scan_entries_lem sector (contents fs.disk (lba sector fs lt ok)) 128 0 fs1 refl lt ok) [
        | inl t ↦ inl (
          t.cluster,
          t.wrote.disk,
          step_hit sector fs lt ok left t.run,
          Took-Allocated sector fs lt ok t,
        )
        | inr p ↦
            let step = step_miss sector fs lt ok left p.run in
            elim (scan_sectors_lem left (sector + 1) fs1 (omega arith) ok) [
              | inl (cluster, disk, run, a) ↦
                  inl (
                    cluster,
                    disk,
                    step ∙ run,
                    Allocated-back sector fs lt ok p.full cluster disk a,
                  )
              | inr (disk, run, f) ↦ inr (disk, step ∙ run, Full-back sector fs lt ok p.full disk f)
            ]
      ]

  -- On a sound volume over a reliable device `fat32_allocate_cluster` returns the first cluster from 2 on whose entry is 0,
  -- if there is one: its entry is then the end mark, every other entry is kept, and so is every
  -- sector outside the table. If there is none it returns 0, and changes no sector.
  pub allocate_cluster_lem :
      (fs : Fs dev.State) → IsSound fs.volume capacity → Search 0 fs (allocate_cluster dev fs)
  unfolding allocate_cluster
  allocate_cluster_lem fs ok = scan_sectors_lem fs.volume.fat_size_32 0 fs (omega arith) ok
