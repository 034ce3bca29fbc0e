-- ===== src/Fat/Dir/Update.antt =====
-- `fat32_create_file`, `fat32_create_directory` and `fat32_delete_file` on the chain of a directory:
-- the first sector that the change applies to is written back, and nothing else.
use mathlib.Core.Path.{subst}
use ring_os.Prelude.{
  ℕ, zero, suc, ◌+◌, ◌/◌, ◌%◌, ◌^◌, ◌<◌, ◌≡◌, ◌≢◌, refl, sym, ap, ◌∙◌, fun_ext, Bool, true, false,
  Option, none, some, List, [], ◌∷◌, ◌++◌, arith, length, Option-cases, inl, inr, lt→ltb, le→ltb,
}
use ring_os.Block.{BlockDevice, IsReliable}
use ring_os.Fat.{Volume, Fs, fat32_eoc}
use ring_os.Fat.Words.{word}
use ring_os.Fat.Table.{get_next_cluster}
use ring_os.Fat.Table.View.{IsSound, entries, table, get_next_cluster_lem}
use ring_os.Fat.Clusters.Chain.{IsChain}
use ring_os.Fat.Dir.{dir_lba, update_sectors, update_clusters}

-- The sectors of a cluster from `i` on, and those of a chain, in the order of the search.
abbrev pub sector_lbas : Volume → ℕ → ℕ → ℕ → List ℕ
sector_lbas v cluster zero i = []
sector_lbas v cluster (suc left) i = dir_lba v cluster i ∷ sector_lbas v cluster left (i + 1)

abbrev pub chain_lbas : Volume → List ℕ → List ℕ
chain_lbas v [] = []
chain_lbas v (c ∷ cs) = sector_lbas v c v.sectors_per_cluster 0 ++ chain_lbas v cs

abbrev pub AllBelow : ℕ → List ℕ → Type 0
AllBelow n [] = Unit
AllBelow n (l ∷ ls) = (l < n) × AllBelow n ls

pub AllBelow-append :
    (n : ℕ) (xs ys : List ℕ) → AllBelow n (xs ++ ys) → AllBelow n xs × AllBelow n ys
AllBelow-append n [] ys h = (tt, h)
AllBelow-append n (x ∷ xs) ys h = let r = AllBelow-append n xs ys h.1 in ((h.0, r.0), r.1)

module _ (pick : List ℕ → Option (List ℕ)) where
  -- The first sector that `pick` changes, with its new bytes.
  abbrev pub first_update : (ℕ → List ℕ) → List ℕ → Option (ℕ × List ℕ)
  first_update f [] = none
  first_update f (l ∷ ls) = elim (pick (f l)) [ some b ↦ some (l, b) | none ↦ first_update f ls ]

  first_update-append_none :
      (f : ℕ → List ℕ) (xs ys : List ℕ)
      → first_update f xs ≡ none
      → first_update f (xs ++ ys) ≡ first_update f ys
  first_update-append_none f [] ys h = refl
  first_update-append_none f (x ∷ xs) ys h = ground (arith, first_update-append_none f xs ys)

  first_update-append_some :
      (f : ℕ → List ℕ) (xs ys : List ℕ) (u : ℕ × List ℕ)
      → first_update f xs ≡ some u
      → first_update f (xs ++ ys) ≡ some u
  first_update-append_some f [] ys u h = cc
  first_update-append_some f (x ∷ xs) ys u h = ground (arith, first_update-append_some f xs ys u)

-- What the loops over the sectors and over the clusters return.
abbrev stops : Option (ℕ × List ℕ) → Option Bool
stops none = none
stops (some u) = some true

abbrev pub is_some : Option (ℕ × List ℕ) → Bool
is_some none = false
is_some (some u) = true

module _ (dev : BlockDevice) (rel : IsReliable dev) where
  open rel use {capacity, contents, size, read_value, read_keeps, write_done, write_self, write_ne}

  -- The device holds the new bytes in that sector, and in every other sector what it held.
  abbrev pub Updated : Option (ℕ × List ℕ) → dev.State → dev.State → Type 0
  Updated none d d' = (l : ℕ) → contents d' l ≡ contents d l
  Updated (some (l, b)) d d' =
      (contents d' l ≡ b) × ((l' : ℕ) → l ≢ l' → contents d' l' ≡ contents d l')

  Updated-same :
      (u : Option (ℕ × List ℕ)) (d e d' : dev.State)
      → ((l : ℕ) → contents e l ≡ contents d l)
      → Updated u e d'
      → Updated u d d'
  Updated-same none d e d' same h = λ l. h l ∙ same l
  Updated-same (some (l, b)) d e d' same h = (h.0, λ l' ne. h.1 l' ne ∙ same l')

  module _ (pick : List ℕ → Option (List ℕ))
      (fits : (buffer b : List ℕ)
        → length buffer ≡ 512
        → pick buffer ≡ some b
        → length b ≡ 512) where
    module _ (v : Volume) (cluster left i : ℕ) (d : dev.State)
        (lt : dir_lba v cluster i < capacity) where
      abbrev lba : ℕ
      lba = dir_lba v cluster i

      abbrev read : dev.State
      read = (dev.read_sectors d lba 1).0

      step_miss :
          pick (contents d lba) ≡ none
          → update_sectors dev pick v cluster (suc left) i d
            ≡ update_sectors dev pick v cluster left (i + 1) read
      unfolding update_sectors
      step_miss e = rw (read_value d lba lt, e, update_sectors)

      step_hit :
          (b : List ℕ)
          → pick (contents d lba) ≡ some b
          → update_sectors dev pick v cluster (suc left) i d
            ≡ ((dev.write_sectors read lba 1 b).0, some true)
      unfolding update_sectors
      step_hit b e =
          rw (read_value d lba lt, e, update_sectors)
            (rw (write_done read lba b lt (fits (contents d lba) b (size d lba) e)))

    -- What the loop over the sectors returns, and the device behind it.
    abbrev Run : Volume → ℕ → ℕ → ℕ → dev.State → dev.State → (ℕ → List ℕ) → Type 0
    Run v cluster left i start d f =
        let u = first_update pick f (sector_lbas v cluster left i) in
        (d' : dev.State) × (update_sectors dev pick v cluster left i start ≡ (d', stops u))
        × Updated u d d'

    update_sectors_lem :
        (v : Volume) (cluster left i : ℕ) (d : dev.State)
        → AllBelow capacity (sector_lbas v cluster left i)
        → Run v cluster left i d d (contents d)
    unfolding update_sectors
    update_sectors_lem v cluster zero i d below = (d, refl, λ l. refl)
    update_sectors_lem v cluster (suc left) i d (lt, below) =
        let at = dir_lba v cluster i in
        let d1 = read v cluster left i d lt in
        let same : (l : ℕ) → contents d1 l ≡ contents d l = λ l. read_keeps d at l lt in
        elim (Option-cases (pick (contents d at))) [
          | inl miss ↦
              let (d', run, after) = update_sectors_lem v cluster left (i + 1) d1 below in
              let (d'', run', after') : Run v cluster left (i + 1) d1 d (contents d) =
                subst (λ (f : ℕ → List ℕ). Run v cluster left (i + 1) d1 d f) (fun_ext same)
                  (d', run, Updated-same _ d d1 d' same after) in
              rw miss (d'', step_miss v cluster left i d lt miss ∙ run', after')
          | inr (b, hit) ↦
              let len = fits (contents d at) b (size d at) hit in
              rw hit (
                (dev.write_sectors d1 at 1 b).0,
                step_hit v cluster left i d lt b hit,
                (write_self d1 at b lt len, λ l' ne. write_ne d1 at l' b lt len ne ∙ same l'),
              )
        ]

    -- What the loop over the clusters returns.
    abbrev pub Result : ℕ → Fs dev.State → ℕ → List ℕ → dev.State → (ℕ → List ℕ) → Type 0
    Result fuel fs cluster cs d f =
        let u = first_update pick f (chain_lbas fs.volume cs) in
        (d' : dev.State) × (update_clusters dev pick fuel fs cluster
          ≡ some (record fs { disk = d' }, is_some u))
        × Updated u d d'

    module _ (fs : Fs dev.State) (c fuel : ℕ) (below : c < fat32_eoc) where
      abbrev v : Volume
      v = fs.volume

      cluster_hit :
          {d1 : dev.State}
          → update_sectors dev pick v c v.sectors_per_cluster 0 fs.disk ≡ (d1, some true)
          → update_clusters dev pick (suc fuel) fs c ≡ some (record fs { disk = d1 }, true)
      unfolding update_clusters
      cluster_hit e = rw (e, update_clusters) (rw (lt→ltb c fat32_eoc below, e))

      cluster_miss :
          {d1 : dev.State} {fs' : Fs dev.State} {next : ℕ}
          → update_sectors dev pick v c v.sectors_per_cluster 0 fs.disk ≡ (d1, none)
          → get_next_cluster dev (record fs { disk = d1 }) c ≡ (fs', next)
          → update_clusters dev pick (suc fuel) fs c ≡ update_clusters dev pick fuel fs' next
      unfolding update_clusters
      cluster_miss e g = rw (e, update_clusters) (rw (lt→ltb c fat32_eoc below, e, g))

    -- On the chain of a directory the loop over the clusters ends; the first sector in chain order
    -- that the change applies to gets the new bytes and the result is true; if there is none, no
    -- sector changes and the result is false.
    pub update_clusters_lem :
        (fuel : ℕ) (fs : Fs dev.State) (c : ℕ) (cs : List ℕ)
        → length cs < fuel
        → IsSound fs.volume capacity
        → IsChain (table dev rel fs.volume fs.disk) (entries fs.volume) c cs
        → AllBelow capacity (chain_lbas fs.volume cs)
        → Result fuel fs c cs fs.disk (contents fs.disk)
    unfolding update_clusters
    update_clusters_lem zero fs c cs enough ok chain room = absurd (omega arith)
    update_clusters_lem (suc fuel) fs c [] enough ok chain room =
        (fs.disk, rw (le→ltb c fat32_eoc chain), λ l. refl)
    update_clusters_lem (suc fuel) fs c (x ∷ cs) enough ok (e, valid, lt, below, good, chain) room =
        let v = fs.volume in
        let xs = sector_lbas v x v.sectors_per_cluster 0 in
        let ys = chain_lbas v cs in
        let parts = AllBelow-append capacity xs ys room in
        let (d1, run, after) = update_sectors_lem v x v.sectors_per_cluster 0 fs.disk parts.0 in
        elim (Option-cases (first_update pick (contents fs.disk) xs)) [
          | inr (u, hit) ↦
              rw (first_update-append_some pick (contents fs.disk) xs ys u hit)
                (d1, cluster_hit fs c fuel below (rw (← e) (run ∙ rw hit)), rw hit at after)
          | inl miss ↦
              let d1_same : (l : ℕ) → contents d1 l ≡ contents fs.disk l = rw miss at after in
              let next = get_next_cluster_lem dev rel (record fs { disk = d1 }) c ok lt in
              let fs2 : Fs dev.State = record fs { disk = next.disk } in
              let same : contents next.disk ≡ contents fs.disk =
                fun_ext (λ l. next.sectors l ∙ d1_same l) in
              let n = table dev rel v fs.disk c % 2 ^ 28 in
              let entry : table dev rel v d1 c ≡ table dev rel v fs.disk c =
                ap (λ s. word s (c % 128)) (d1_same (v.fat_begin_lba + c / 128)) in
              let go : update_clusters dev pick (suc fuel) fs c
                  ≡ update_clusters dev pick fuel fs2 n =
                cluster_miss fs c fuel below (rw (← e) (run ∙ rw miss))
                  (next.run ∙ ap (λ k. (fs2, k % 2 ^ 28)) entry) in
              let chain' : IsChain (table dev rel v next.disk) (entries v) n cs =
                subst
                  (λ (f : ℕ → List ℕ).
                    IsChain (λ k. word (f (v.fat_begin_lba + k / 128)) (k % 128)) (entries v) n cs)
                  (sym same) chain in
              let (d', run', after') =
                update_clusters_lem fuel fs2 n cs (omega arith) ok chain' parts.1 in
              let (d'', run'', after'') : Result fuel fs2 n cs fs.disk (contents fs.disk) =
                subst (λ (f : ℕ → List ℕ). Result fuel fs2 n cs fs.disk f) same
                  (
                    d',
                    run',
                    Updated-same _ fs.disk next.disk d' (λ l. ap (λ f. f l) same) after',
                  ) in
              rw (first_update-append_none pick (contents fs.disk) xs ys miss)
                (d'', go ∙ run'', after'')
        ]
