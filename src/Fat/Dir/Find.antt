-- ===== src/Fat/Dir/Find.antt =====
-- `fat32_find_file` compares eleven bytes without a terminator, and reads on into the attributes.
use ring_os.Prelude.{
  ℕ, zero, suc, ◌+◌, ◌<◌, ◌≡◌, ◌≢◌, refl, sym, ap, fun_ext, ◌⊎◌, ◌∙◌, Bool, true, false, Option,
  none, some, List, [], ◌∷◌, ◌++◌, arith, length, drop, get_or, ◌==◌, is_zero, ℤ, sub_ℕ, Bool-cases,
  Option-cases, inl, inr, lt→ltb, le→ltb, ◌/◌, ◌%◌, ◌^◌, if◌then◌else◌,
}
use ring_os.CString.{strcmp}
use ring_os.CString.Compare.{IsText}
use ring_os.Block.{BlockDevice, IsReliable}
use mathlib.Core.Path.{subst}
use ring_os.Fat.Table.View.{IsSound, entries, table, get_next_cluster_lem}
use ring_os.Fat.Table.{get_next_cluster}
use ring_os.Fat.Clusters.Chain.{IsChain}
use ring_os.Fat.Dir.Update.{chain_lbas, sector_lbas, AllBelow, AllBelow-append}
use ring_os.Fat.Dir.Create.{IsMounted}
use ring_os.Fat.{Volume, Fs, fat32_eoc}
use ring_os.Fat.Words.{word}
use ring_os.Fat.Dir.{Memory, bytes_at, dir_lba}
use ring_os.Fat.Dir.Listing.{
  Found, search_callback, is_skipped, list_entries, list_sectors, list_clusters, list_directory,
  find_file,
}

-- The first eleven bytes are not 0, and neither is the one behind them, the attributes.
abbrev pub HasAttributes : List ℕ → Type 0
HasAttributes entry =
    (n : List ℕ) × (a : ℕ) × (r : List ℕ) × (entry ≡ n ++ a ∷ r)
    × (length n ≡ 11)
    × IsText n
    × (a ≢ 0)

strcmp_differs :
    (n m r s : List ℕ) (a : ℕ)
    → length n ≡ length m
    → IsText n
    → a ≢ 0
    → (z : ℤ) × (strcmp (n ++ a ∷ r) (m ++ 0 ∷ s) ≡ some z) × (is_zero z ≡ false)
unfolding strcmp
strcmp_differs [] [] r s a len t ne = (sub_ℕ a 0, ground arith, ground arith)
strcmp_differs [] (y ∷ m) r s a len t ne = absurd (omega arith)
strcmp_differs (x ∷ n) [] r s a len t ne = absurd (omega arith)
strcmp_differs (x ∷ n) (y ∷ m) r s a len t ne = elim (Bool-cases (x == y)) [
  | inl e ↦
      let (z, run, differs) = strcmp_differs n m r s a (omega arith) t.1 ne in
      (z, ground arith, differs)
  | inr e ↦ (sub_ℕ x y, ground arith, ground arith)
]

if_same : (b : Bool) (f : Found) → (if b then f else f) ≡ f
if_same true f = refl
if_same false f = refl

-- The callback rejects every entry with attributes while nothing was found.
search_callback_rejects :
    (entry : List ℕ) (size attr : ℕ) (f : Found)
    → HasAttributes entry
    → length f.name ≡ 11
    → f.attributes ≡ 0
    → search_callback entry size attr f ≡ f
unfolding search_callback
search_callback_rejects entry size attr f (n, a, r, e, len, t, ne) lf af =
    let (z, run, differs) = strcmp_differs n f.name r (0 ∷ []) a (len ∙ sym lf) t ne in ground arith

-- Up to the end mark every entry of the sector has attributes and a name without a zero byte.
abbrev pub IsOrdinary : ℕ → List ℕ → Type 0
IsOrdinary zero buffer = Unit
IsOrdinary (suc n) buffer =
    (get_or buffer 0 0 ≡ 0) ⊎ HasAttributes buffer × IsOrdinary n (drop 32 buffer)

abbrev pub AllOrdinary : (ℕ → List ℕ) → List ℕ → Type 0
AllOrdinary f [] = Unit
AllOrdinary f (l ∷ ls) = IsOrdinary 16 (f l) × AllOrdinary f ls

AllOrdinary-append :
    (f : ℕ → List ℕ) (xs ys : List ℕ)
    → AllOrdinary f (xs ++ ys)
    → AllOrdinary f xs × AllOrdinary f ys
AllOrdinary-append f [] ys h = (tt, h)
AllOrdinary-append f (x ∷ xs) ys h = let r = AllOrdinary-append f xs ys h.1 in ((h.0, r.0), r.1)

module _ (f : Found) (named : length f.name ≡ 11) (blank : f.attributes ≡ 0) where
  list_entries_keeps :
      (n : ℕ) (buffer : List ℕ)
      → IsOrdinary n buffer
      → (b : Bool) × (list_entries search_callback n buffer f ≡ (f, b))
  unfolding list_entries
  list_entries_keeps zero buffer h = (false, refl)
  list_entries_keeps (suc n) buffer (inl e) = (true, rw e)
  list_entries_keeps (suc n) buffer (inr (h, rest)) =
      let (b, run) = list_entries_keeps n (drop 32 buffer) rest in
      let kept =
        search_callback_rejects buffer (word buffer 7) (get_or buffer 11 0) f h named blank in
      elim (Bool-cases (get_or buffer 0 0 == 0)) [
        | inl e ↦ (true, rw e)
        | inr e ↦ (b, rw e (rw (kept, if_same (is_skipped buffer) f) run))
      ]

  module _ (dev : BlockDevice) (rel : IsReliable dev) where
    open rel use {capacity, contents, read_value, read_keeps}

    list_sectors_keeps :
        (v : Volume) (c left i : ℕ) (d : dev.State)
        → AllBelow capacity (sector_lbas v c left i)
        → AllOrdinary (contents d) (sector_lbas v c left i)
        → (d' : dev.State) × (r : Option Bool) × (list_sectors search_callback dev v c left i d f
            ≡ (d', f, r))
          × (contents d' ≡ contents d)
    unfolding list_sectors
    list_sectors_keeps v c zero i d below h = (d, none, refl, refl)
    list_sectors_keeps v c (suc left) i d (lt, below) (h, hs) =
        let lba = dir_lba v c i in
        let d1 = (dev.read_sectors d lba 1).0 in
        let same : contents d1 ≡ contents d = fun_ext (λ l. read_keeps d lba l lt) in
        let (b, run) = list_entries_keeps 16 (contents d lba) h in
        let (d', r, run', same') = list_sectors_keeps v c left (i + 1) d1 below (
          subst (λ (g : ℕ → List ℕ). AllOrdinary g (sector_lbas v c left (i + 1))) (sym same) hs) in
        elim (Bool-cases b) [
          | inl at_end ↦
              (d1, some true, rw (read_value d lba lt, run, list_sectors) (rw at_end), same)
          | inr more ↦
              (d', r, rw (read_value d lba lt, run, list_sectors) (rw more run'), same' ∙ same)
        ]

    list_clusters_keeps :
        (fuel : ℕ) (fs : Fs dev.State) (c : ℕ) (cs : List ℕ)
        → length cs < fuel
        → IsSound fs.volume capacity
        → IsChain (table dev rel fs.volume fs.disk) (entries fs.volume) c cs
        → AllBelow capacity (chain_lbas fs.volume cs)
        → AllOrdinary (contents fs.disk) (chain_lbas fs.volume cs)
        → (d' : dev.State) × (b : Bool) × (list_clusters search_callback dev fuel fs c f
            ≡ some (record fs { disk = d' }, f, b))
          × (contents d' ≡ contents fs.disk)
    unfolding list_clusters
    list_clusters_keeps zero fs c cs enough ok chain room h = absurd (omega arith)
    list_clusters_keeps (suc fuel) fs c [] enough ok chain room h =
        (fs.disk, true, rw (le→ltb c fat32_eoc chain), refl)
    list_clusters_keeps (suc fuel) fs c (x ∷ cs) enough ok (e, valid, lt, below, good, chain) room
          h =
        let v = fs.volume in
        let parts = AllBelow-append capacity (sector_lbas v x v.sectors_per_cluster 0) _ room in
        let hs =
          AllOrdinary-append (contents fs.disk) (sector_lbas v x v.sectors_per_cluster 0) _ h in
        let (d1, r, run, same) =
          list_sectors_keeps v x v.sectors_per_cluster 0 fs.disk parts.0 hs.0 in
        let next = get_next_cluster_lem dev rel (record fs { disk = d1 }) c ok lt in
        let fs2 : Fs dev.State = record fs { disk = next.disk } in
        let n = table dev rel v fs.disk c % 2 ^ 28 in
        let entry : table dev rel v d1 c ≡ table dev rel v fs.disk c =
          ap (λ (g : ℕ → List ℕ). word (g (v.fat_begin_lba + c / 128)) (c % 128)) same in
        let same2 : contents next.disk ≡ contents fs.disk = fun_ext next.sectors ∙ same in
        let go : get_next_cluster dev (record fs { disk = d1 }) c ≡ (fs2, n) =
          next.run ∙ ap (λ k. (fs2, k % 2 ^ 28)) entry in
        let chain' : IsChain (table dev rel v next.disk) (entries v) n cs =
          subst
            (λ (g : ℕ → List ℕ).
              IsChain (λ k. word (g (v.fat_begin_lba + k / 128)) (k % 128)) (entries v) n cs)
            (sym same2) chain in
        let h' = subst (λ (g : ℕ → List ℕ). AllOrdinary g (chain_lbas v cs)) (sym same2) hs.1 in
        let (d', b, run', same') =
          list_clusters_keeps fuel fs2 n cs (omega arith) ok chain' parts.1 h' in
        let run_c = rw e at run in
        elim (Option-cases r) [
          | inr (b, stopped) ↦ (
            d1,
            b,
            rw (run_c, list_clusters) (rw (lt→ltb c fat32_eoc below, stopped, run_c)),
            same,
          )
          | inl on ↦ elim (Bool-cases (n == 0)) [
            | inl free ↦ (
              next.disk,
              false,
              rw (run_c, list_clusters) (rw (lt→ltb c fat32_eoc below, on, run_c, go, free)),
              same2,
            )
            | inr more ↦ (
              d',
              b,
              rw (run_c, list_clusters) (rw (lt→ltb c fat32_eoc below, on, run_c, go, more) run'),
              same' ∙ same2,
            )
          ]
        ]

module _ (dev : BlockDevice) (rel : IsReliable dev) where
  open rel use {contents}

  listed :
      (fuel : ℕ) (fs : Fs dev.State) (f : Found)
      → fs.is_initialized ≡ true
      → list_directory search_callback dev fuel fs f
        ≡ list_clusters search_callback dev fuel fs fs.current.cluster f
  unfolding list_directory
  listed fuel fs f h =
      ap
        (λ (b : Bool).
          if b
          then list_clusters search_callback dev fuel fs fs.current.cluster f
          else some (fs, f, false))
        h

  -- On a mounted file system over a reliable device, whose current directory is a chain of fewer
  -- clusters than the fuel in which every entry, up to the end mark of each sector, has attributes
  -- and a name of eleven bytes without a zero byte, `fat32_find_file` finds no name: it ends, its
  -- result is false, and no sector changes.
  pub find_file_misses :
      (fuel : ℕ) (fs : Fs dev.State) (cs : List ℕ) (name : Memory)
      → length cs < fuel
      → IsMounted dev rel fs cs
      → AllOrdinary (contents fs.disk) (chain_lbas fs.volume cs)
      → (d' : dev.State) × (find_file dev fuel fs name ≡ some (record fs { disk = d' }, none))
        × (contents d' ≡ contents fs.disk)
  unfolding find_file
  find_file_misses fuel fs cs name enough m h =
      let start : Found = record {
        name = bytes_at name 11;
        attributes = 0;
        file_size = 0;
        file_found = false;
      } in
      let (d', b, run, same) =
        list_clusters_keeps start refl refl dev rel fuel fs fs.current.cluster cs enough m.sound
          m.chain m.room h in
      (d', rw (listed fuel fs start m.mounted ∙ run, find_file), same)
