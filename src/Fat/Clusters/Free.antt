-- ===== src/Fat/Clusters/Free.antt =====
-- `fat32_free_clusters` ends on every chain, and clears the entries of its clusters and no other.
use ring_os.Prelude.{
  ℕ, zero, suc, ◌+◌, ◌*◌, ◌/◌, ◌%◌, ◌^◌, ◌≤◌, ◌<◌, ◌≡◌, ◌⊎◌, refl, ap, ◌∙◌, true, false, ◌||◌, some,
  List, [], ◌∷◌, arith, length, lt→ltb, le→ltb, lt→leb, ≢→==, ==_iff, ◌==◌, Bool-cases, inl, inr,
  if◌then◌else◌,
}
use ring_os.Block.{BlockDevice, IsReliable}
use ring_os.Fat.{Fs, fat32_eoc, bad_cluster}
use ring_os.Fat.Table.View.{IsSound, entries, table, get_next_cluster_lem}
use ring_os.Fat.Table.Write.{write_fat_entry_lem}
use ring_os.Fat.Words.{word}
use ring_os.Fat.Clusters.{free_loop, free_clusters}
use ring_os.Fat.Clusters.Chain.{IsChain, is_in, head_not_in_tail, IsChain-change}

-- An entry of the rest of a chain is not the one that was cleared.
other_kept :
    (c d : ℕ) (cs : List ℕ) (n : ℕ)
    → is_in d cs ≡ true
    → is_in c cs ≡ false
    → (if c == d then 0 else n) ≡ n
other_kept c d cs n m out = elim (Bool-cases (c == d)) [
  | inl e ↦ let same = (==_iff c d).0 e in let b : is_in c cs ≡ true = rw same m in cc
  | inr e ↦ rw e
]

clear_both :
    (c x d : ℕ) (cs : List ℕ) (n m : ℕ)
    → x ≡ c
    → m ≡ (if c == d then 0 else n)
    → (if is_in d cs then 0 else m) ≡ (if x == d || is_in d cs then 0 else n)
clear_both c x d cs n m e h = ground arith

module _ (dev : BlockDevice) (rel : IsReliable dev) where
  open rel use {capacity, contents}

  -- The device after the clusters of `cs` were freed.
  pub record Freed (fs : Fs dev.State) (cs : List ℕ) (disk : dev.State) : Type 0 where
    pub entry :
        (c : ℕ)
        → c < entries fs.volume
        → table dev rel fs.volume disk c
          ≡ (if is_in c cs then 0 else table dev rel fs.volume fs.disk c)
    pub outside :
        (l : ℕ)
        → (l < fs.volume.fat_begin_lba)
          ⊎ (fs.volume.fat_begin_lba + fs.volume.num_fats * fs.volume.fat_size_32 ≤ l)
        → contents disk l ≡ contents fs.disk l

  free_loop_lem :
      (fuel : ℕ) (cs : List ℕ) (fs : Fs dev.State) (c : ℕ)
      → length cs < fuel
      → IsSound fs.volume capacity
      → IsChain (table dev rel fs.volume fs.disk) (entries fs.volume) c cs
      → (disk : dev.State) × (free_loop dev fuel fs c ≡ some (record fs { disk = disk }, true))
        × Freed fs cs disk
  unfolding free_loop
  free_loop_lem zero cs fs c enough ok chain = absurd (omega arith)
  free_loop_lem (suc fuel) [] fs c enough ok chain = (
    fs.disk,
    rw (le→ltb c fat32_eoc chain),
    record { entry = λ c' h. refl; outside = λ l o. refl },
  )
  free_loop_lem (suc fuel) (x ∷ cs) fs c enough ok (e, valid, lt, below, good, chain) =
      let v = fs.volume in
      let next = get_next_cluster_lem dev rel fs c ok lt in
      let fs1 = record fs { disk = next.disk } in
      let wrote = write_fat_entry_lem dev rel fs1 c 0 ok lt (omega arith) in
      let fs2 = record fs { disk = wrote.disk } in
      let step : (c' : ℕ)
          → c' < entries v
          → table dev rel v wrote.disk c' ≡ (if c == c' then 0 else table dev rel v fs.disk c') =
        λ c' h.
          wrote.entry c' h
          ∙ ap (λ n. if c == c' then 0 else n)
              (ap (λ s. word s (c' % 128)) (next.sectors (v.fat_begin_lba + c' / 128))) in
      let tail : IsChain (table dev rel v wrote.disk) (entries v)
          (table dev rel v fs.disk c % 2 ^ 28) cs =
        IsChain-change _ _ (entries v) _ cs
          (λ d hd m.
            step d hd
            ∙ other_kept c d cs _ m
                (head_not_in_tail _ _ c x cs (e, valid, lt, below, good, chain)))
          chain in
      let (disk, run, freed) = free_loop_lem fuel cs fs2 _ (omega arith) ok tail in
      (
        disk,
        rw (next.run, wrote.run, lt→ltb c fat32_eoc below, ≢→== _ bad_cluster good) run,
        record {
          entry = λ c' h. freed.entry c' h ∙ clear_both c x c' cs _ _ e (step c' h);
          outside = λ l o. freed.outside l o ∙ wrote.outside l o ∙ next.sectors l;
        },
      )

  -- On a sound volume over a reliable device and a chain of clusters, the first of them not
  -- reserved, `fat32_free_clusters` ends within one
  -- round more than the chain has clusters and returns true; the entries of the chain are free,
  -- every other entry is kept, and no sector outside the table changes.
  pub free_clusters_lem :
      (fuel : ℕ) (cs : List ℕ) (fs : Fs dev.State) (c : ℕ)
      → length cs < fuel
      → IsSound fs.volume capacity
      → 2 ≤ c
      → c < fat32_eoc
      → IsChain (table dev rel fs.volume fs.disk) (entries fs.volume) c cs
      → (disk : dev.State) × (free_clusters dev fuel fs c ≡ some (record fs { disk = disk }, true))
        × Freed fs cs disk
  unfolding free_clusters
  free_clusters_lem fuel cs fs c enough ok valid below chain =
      rw (le→ltb c 2 valid, lt→leb c fat32_eoc below) (free_loop_lem fuel cs fs c enough ok chain)
