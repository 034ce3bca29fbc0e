-- ===== src/Fat/Search/Hit.antt =====
-- The search finds the first sector of the directory, in the order of its chain, that it is
-- looking for, and changes nothing.
use mathlib.Core.Path.{subst}
use ring_os.Prelude.{
  ℕ, zero, suc, ◌+◌, ◌/◌, ◌%◌, ◌^◌, ◌<◌, ◌≡◌, ◌≢◌, refl, sym, ap, ◌∙◌, fun_ext, Bool, true, false,
  ◌&&◌, Option, none, some, List, [], ◌∷◌, ◌++◌, arith, length, Option-cases, inl, inr, lt→ltb,
  le→ltb, ≢→==, if◌then◌else◌,
}
use ring_os.Block.{BlockDevice, IsReliable}
use ring_os.Fat.{Volume, Fs, fat32_eoc}
use ring_os.Fat.Words.{word}
use ring_os.Fat.Table.{get_next_cluster}
use ring_os.Fat.Table.View.{IsSound, entries, table, get_next_cluster_lem}
use ring_os.Fat.Clusters.Chain.{IsChain}
use ring_os.Fat.Dir.{dir_lba}
use ring_os.Fat.Dir.Update.{sector_lbas, chain_lbas, AllBelow, AllBelow-append}
use ring_os.Fat.Search.{Outcome, missing, hit, search_sectors, search_clusters}

module _ {R : Type 0} (pick : List ℕ → Option R) where
  abbrev pub first_hit : (ℕ → List ℕ) → List ℕ → Option (ℕ × R)
  first_hit f [] = none
  first_hit f (l ∷ ls) = elim (pick (f l)) [ some r ↦ some (l, r) | none ↦ first_hit f ls ]

  first_hit-append_none :
      (f : ℕ → List ℕ) (xs ys : List ℕ)
      → first_hit f xs ≡ none
      → first_hit f (xs ++ ys) ≡ first_hit f ys
  first_hit-append_none f [] ys h = refl
  first_hit-append_none f (x ∷ xs) ys h = ground (arith, first_hit-append_none f xs ys)

  first_hit-append_some :
      (f : ℕ → List ℕ) (xs ys : List ℕ) (u : ℕ × R)
      → first_hit f xs ≡ some u
      → first_hit f (xs ++ ys) ≡ some u
  first_hit-append_some f [] ys u h = cc
  first_hit-append_some f (x ∷ xs) ys u h = ground (arith, first_hit-append_some f xs ys u)

  abbrev outcome : Option (ℕ × R) → Outcome R
  outcome none = missing
  outcome (some (l, r)) = hit l r

  module _ (dev : BlockDevice) (rel : IsReliable dev) where
    open rel use {capacity, contents, read_value, read_keeps}

    module _ (v : Volume) (cluster left i : ℕ) (d : dev.State)
        (lt : dir_lba v cluster i < capacity) where
      abbrev lba : ℕ
      lba = dir_lba v cluster i

      abbrev read : dev.State
      read = (dev.read_sectors d lba 1).0

      step_miss :
          pick (contents d lba) ≡ none
          → search_sectors pick dev v cluster (suc left) i d
            ≡ search_sectors pick dev v cluster left (i + 1) read
      unfolding search_sectors
      step_miss e = rw (read_value d lba lt, e, search_sectors)

      step_hit :
          (r : R)
          → pick (contents d lba) ≡ some r
          → search_sectors pick dev v cluster (suc left) i d ≡ (read, hit lba r)
      unfolding search_sectors
      step_hit r e = rw (read_value d lba lt, e, search_sectors)

    abbrev Run : Volume → ℕ → ℕ → ℕ → dev.State → (ℕ → List ℕ) → Type 0
    Run v cluster left i d f =
        (d' : dev.State) × (search_sectors pick dev v cluster left i d
          ≡ (d', outcome (first_hit f (sector_lbas v cluster left i))))
        × (contents d' ≡ f)

    search_sectors_lem :
        (v : Volume) (cluster left i : ℕ) (d : dev.State)
        → AllBelow capacity (sector_lbas v cluster left i)
        → Run v cluster left i d (contents d)
    unfolding search_sectors
    search_sectors_lem v cluster zero i d below = (d, refl, refl)
    search_sectors_lem v cluster (suc left) i d (lt, below) =
        let at = dir_lba v cluster i in
        let d1 = read v cluster left i d lt in
        let same : contents d1 ≡ contents d = fun_ext (λ l. read_keeps d at l lt) in
        elim (Option-cases (pick (contents d at))) [
          | inl miss ↦
              let (d', run, after) : Run v cluster left (i + 1) d1 (contents d) =
                subst (λ (f : ℕ → List ℕ). Run v cluster left (i + 1) d1 f) same
                  (search_sectors_lem v cluster left (i + 1) d1 below) in
              rw miss (d', step_miss v cluster left i d lt miss ∙ run, after)
          | inr (r, found) ↦ rw found (d1, step_hit v cluster left i d lt r found, same)
        ]

    -- What the loop over the clusters returns.
    abbrev pub Result : Bool → ℕ → Fs dev.State → ℕ → List ℕ → (ℕ → List ℕ) → Type 0
    Result until_zero fuel fs cluster cs f =
        (d' : dev.State) × (search_clusters pick dev until_zero fuel fs cluster
          ≡ some (record fs { disk = d' }, first_hit f (chain_lbas fs.volume cs)))
        × (contents d' ≡ f)

    module _ (until_zero : Bool) (fs : Fs dev.State) (c fuel : ℕ) (below : c < fat32_eoc) where
      abbrev v : Volume
      v = fs.volume

      cluster_hit :
          (d1 : dev.State) (l : ℕ) (r : R)
          → search_sectors pick dev v c v.sectors_per_cluster 0 fs.disk ≡ (d1, hit l r)
          → search_clusters pick dev until_zero (suc fuel) fs c
            ≡ some (record fs { disk = d1 }, some (l, r))
      unfolding search_clusters
      cluster_hit d1 l r e = rw (e, search_clusters) (rw (lt→ltb c fat32_eoc below, e))

      cluster_miss :
          (d1 : dev.State) (fs' : Fs dev.State) (next : ℕ)
          → search_sectors pick dev v c v.sectors_per_cluster 0 fs.disk ≡ (d1, missing)
          → get_next_cluster dev (record fs { disk = d1 }) c ≡ (fs', next)
          → next ≢ 0
          → search_clusters pick dev until_zero (suc fuel) fs c
            ≡ search_clusters pick dev until_zero fuel fs' next
      unfolding search_clusters
      cluster_miss d1 fs' next e g ne =
          rw (e, search_clusters)
            (rw (lt→ltb c fat32_eoc below, e, g) (rw (≢→== next 0 ne) (go until_zero)))
        where
          go :
              (b : Bool)
              → (if b && false
                  then some (fs', none)
                  else search_clusters pick dev until_zero fuel fs' next)
                ≡ search_clusters pick dev until_zero fuel fs' next
          go true = refl
          go false = refl

    next-ne-zero : (t : ℕ → ℕ) (limit n : ℕ) (cs : List ℕ) → IsChain t limit n cs → n ≢ 0
    next-ne-zero t limit n [] h = omega arith
    next-ne-zero t limit n (x ∷ cs) h = omega arith

    -- On the chain of a directory the search ends with the first hit, and changes no sector.
    pub search_clusters_lem :
        (until_zero : Bool) (fuel : ℕ) (fs : Fs dev.State) (c : ℕ) (cs : List ℕ)
        → length cs < fuel
        → IsSound fs.volume capacity
        → IsChain (table dev rel fs.volume fs.disk) (entries fs.volume) c cs
        → AllBelow capacity (chain_lbas fs.volume cs)
        → Result until_zero fuel fs c cs (contents fs.disk)
    unfolding search_clusters
    search_clusters_lem u zero fs c cs enough ok chain room = absurd (omega arith)
    search_clusters_lem u (suc fuel) fs c [] enough ok chain room =
        (fs.disk, rw (le→ltb c fat32_eoc chain), refl)
    search_clusters_lem u (suc fuel) fs c (x ∷ cs) enough ok (e, valid, lt, below, good, chain)
          room =
        let v = fs.volume in
        let xs = sector_lbas v x v.sectors_per_cluster 0 in
        let ys = chain_lbas v cs in
        let parts = AllBelow-append capacity xs ys room in
        let (d1, run, d1_same) = search_sectors_lem v x v.sectors_per_cluster 0 fs.disk parts.0 in
        elim (Option-cases (first_hit (contents fs.disk) xs)) [
          | inr ((l, r), found) ↦
              rw (first_hit-append_some (contents fs.disk) xs ys (l, r) found)
                (d1, cluster_hit u fs c fuel below d1 l r (rw (← e) (run ∙ rw found)), d1_same)
          | inl miss ↦
              let next = get_next_cluster_lem dev rel (record fs { disk = d1 }) c ok lt in
              let fs2 : Fs dev.State = record fs { disk = next.disk } in
              let same : contents next.disk ≡ contents fs.disk =
                fun_ext (λ l. next.sectors l ∙ ap (λ (f : ℕ → List ℕ). f l) d1_same) in
              let n = table dev rel v fs.disk c % 2 ^ 28 in
              let entry : table dev rel v d1 c ≡ table dev rel v fs.disk c =
                ap (λ (f : ℕ → List ℕ). word (f (v.fat_begin_lba + c / 128)) (c % 128)) d1_same in
              let go : search_clusters pick dev u (suc fuel) fs c
                  ≡ search_clusters pick dev u fuel fs2 n =
                cluster_miss u fs c fuel below d1 fs2 n (rw (← e) (run ∙ rw miss))
                  (next.run ∙ ap (λ k. (fs2, k % 2 ^ 28)) entry)
                  (next-ne-zero (table dev rel v fs.disk) (entries v) n cs chain) in
              let chain' : IsChain (table dev rel v next.disk) (entries v) n cs =
                subst
                  (λ (f : ℕ → List ℕ).
                    IsChain (λ k. word (f (v.fat_begin_lba + k / 128)) (k % 128)) (entries v) n cs)
                  (sym same) chain in
              let (d', run', after') : Result u fuel fs2 n cs (contents fs.disk) =
                subst (λ (f : ℕ → List ℕ). Result u fuel fs2 n cs f) same
                  (search_clusters_lem u fuel fs2 n cs (omega arith) ok chain' parts.1) in
              rw (first_hit-append_none (contents fs.disk) xs ys miss) (d', go ∙ run', after')
        ]
