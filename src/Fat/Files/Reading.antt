-- ===== src/Fat/Files/Reading.antt =====
-- What `fat32_read_file` reads: the sectors of the file's clusters, in the order of the chain.
use mathlib.Core.Path.{subst}
use ring_os.Prelude.{
  ℕ, zero, suc, ◌+◌, ◌-◌, ◌*◌, ◌/◌, ◌%◌, ◌^◌, ◌≤◌, ◌<◌, ◌≡◌, refl, sym, ap, ◌∙◌, fun_ext, Bool,
  true, false, ◌&&◌, Option, some, List, [], ◌∷◌, ◌++◌, arith, u32_mod, ltb, ◌==◌, if◌then◌else◌,
  length, append-nil, append_assoc, length-append, Bool-cases, inl, inr, le→ltb, ltb→lt, ≢→==,
}
use ring_os.Block.{BlockDevice, IsReliable, gather}
use ring_os.Fat.{Volume, Fs, fat32_eoc, cluster_to_lba}
use ring_os.Fat.Words.{word}
use ring_os.Fat.Table.{get_next_cluster}
use ring_os.Fat.Table.View.{IsSound, entries, table, get_next_cluster_lem}
use ring_os.Fat.Clusters.Chain.{IsChain}
use ring_os.Fat.Dir.Update.{chain_lbas}
use ring_os.Fat.Dir.Create.{IsMounted}
use ring_os.Fat.Entry.{first_cluster, file_size}
use ring_os.Fat.Search.{search_clusters}
use ring_os.Fat.Search.Hit.{first_hit, search_clusters_lem}
use ring_os.Fat.Files.{
  sectors_for, find_name, not_found, done, read_loop, read_entry, read_found, read_file,
}

-- The sectors of a chain that hold the next `left` bytes.
abbrev pub file_bytes : (ℕ → List ℕ) → Volume → ℕ → List ℕ → List ℕ
file_bytes f v left [] = []
file_bytes f v left (c ∷ cs) =
    if left == 0
    then []
    else gather f (cluster_to_lba v c) (sectors_for v left)
      ++ file_bytes f v (left - 512 * sectors_for v left) cs

-- Every cluster of the chain lies on the device.
abbrev pub AllFit : Volume → ℕ → List ℕ → Type 0
AllFit v capacity [] = Unit
AllFit v capacity (c ∷ cs) =
    (cluster_to_lba v c + v.sectors_per_cluster ≤ capacity) × AllFit v capacity cs

-- Clusters of one sector at least; the count of sectors is a byte.
pub record IsByteSized (v : Volume) : Type 0 where
  pub some_sector : 1 ≤ v.sectors_per_cluster
  pub byte : v.sectors_per_cluster < 256

pub sectors_for-le : (v : Volume) (left : ℕ) → sectors_for v left ≤ v.sectors_per_cluster
unfolding sectors_for
sectors_for-le v left = ground arith

pub sectors_for_bytes :
    (v : Volume) (left : ℕ) → left + 511 < u32_mod → 512 * sectors_for v left ≤ left + 511
unfolding sectors_for
sectors_for_bytes v left h = ground arith

-- Unless the clusters are at an end, some bytes are read.
pub sectors_for_some :
    (v : Volume) (left : ℕ)
    → IsByteSized v
    → 0 < left
    → left + 511 < u32_mod
    → 1 ≤ sectors_for v left
unfolding sectors_for
sectors_for_some v left b h small = ground arith

-- What is left behind a cluster fits into the clusters that follow.
left_over :
    (v : Volume) (left rest : ℕ)
    → left + 511 < u32_mod
    → left ≤ 512 * v.sectors_per_cluster * suc rest
    → left - 512 * sectors_for v left ≤ 512 * v.sectors_per_cluster * rest
unfolding sectors_for
left_over v left rest small le =
    elim (Bool-cases (ltb v.sectors_per_cluster ((left + 511) % u32_mod / 512))) [
      | inl e ↦ rw e (grind arith)
      | inr e ↦ rw e (omega arith)
    ]

module _ (dev : BlockDevice) (rel : IsReliable dev) where
  open rel use {capacity, contents, read_many, read_many_keeps}

  -- What the data loop returns, and the device behind it.
  abbrev pub Loop : ℕ → ℕ → ℕ → ℕ → List ℕ → Fs dev.State → List ℕ → (ℕ → List ℕ) → Type 0
  Loop fuel size read c bytes fs cs f =
      (d' : dev.State) × (read_loop dev fuel size read c bytes fs
        ≡ some (record fs { disk = d' }, some (bytes ++ file_bytes f fs.volume (size - read) cs)))
      × (contents d' ≡ f)

  module _ (fuel size read c : ℕ) (bytes : List ℕ) (fs : Fs dev.State) where
    abbrev count : ℕ
    count = sectors_for fs.volume (size - read)

    abbrev behind : dev.State
    behind = (dev.read_sectors fs.disk (cluster_to_lba fs.volume c) count).0

    loop_ends :
        (ltb read size && ltb c fat32_eoc) ≡ false
        → read_loop dev (suc fuel) size read c bytes fs ≡ some (fs, some bytes)
    unfolding read_loop
    loop_ends e = rw (e, read_loop)

    loop_step :
        (part : List ℕ) (fs' : Fs dev.State) (next : ℕ)
        → (ltb read size && ltb c fat32_eoc) ≡ true
        → (dev.read_sectors fs.disk (cluster_to_lba fs.volume c) count).1 ≡ some part
        → get_next_cluster dev (record fs { disk = behind }) c ≡ (fs', next)
        → read_loop dev (suc fuel) size read c bytes fs
          ≡ read_loop dev fuel size ((read + count * 512) % u32_mod) next (bytes ++ part) fs'
    unfolding read_loop
    loop_step part fs' next e r g = rw (e, read_loop) (rw (r, g) refl)

  file_bytes_end :
      (f : ℕ → List ℕ) (v : Volume) (left : ℕ) (cs : List ℕ)
      → left ≡ 0
      → file_bytes f v left cs ≡ []
  file_bytes_end f v left [] e = refl
  file_bytes_end f v left (c ∷ cs) e = rw e refl

  past_end : (a b c : ℕ) → fat32_eoc ≤ c → (ltb a b && ltb c fat32_eoc) ≡ false
  past_end a b c h = ground arith

  both : (a b c : ℕ) → ltb a b ≡ true → c < fat32_eoc → (ltb a b && ltb c fat32_eoc) ≡ true
  both a b c h lt = ground arith

  -- A step on a cluster that lies on the device, with the state behind it.
  step_lem :
      (fuel size read c : ℕ) (bytes : List ℕ) (fs : Fs dev.State)
      → IsSound fs.volume capacity
      → IsByteSized fs.volume
      → c < entries fs.volume
      → c < fat32_eoc
      → cluster_to_lba fs.volume c + fs.volume.sectors_per_cluster ≤ capacity
      → ltb read size ≡ true
      → let n = sectors_for fs.volume (size - read) in
        (d' : dev.State) × (read_loop dev (suc fuel) size read c bytes fs
          ≡ read_loop dev fuel size
              ((read + n * 512) % u32_mod)
              (table dev rel fs.volume fs.disk c % 2 ^ 28)
              (bytes ++ gather (contents fs.disk) (cluster_to_lba fs.volume c) n)
              (record fs { disk = d' }))
        × (contents d' ≡ contents fs.disk)
  step_lem fuel size read c bytes fs ok b lt below here more =
      let n = sectors_for fs.volume (size - read) in
      let lba = cluster_to_lba fs.volume c in
      let d1 = (dev.read_sectors fs.disk lba n).0 in
      let le = sectors_for-le fs.volume (size - read) in
      let in_range : lba + n ≤ capacity = omega (arith, here, le) in
      let byte : n < 256 = omega (arith, le, b.byte) in
      let d1_same : contents d1 ≡ contents fs.disk =
        fun_ext (λ l. read_many_keeps fs.disk lba n l in_range byte) in
      let next = get_next_cluster_lem dev rel (record fs { disk = d1 }) c ok lt in
      let entry : table dev rel fs.volume d1 c ≡ table dev rel fs.volume fs.disk c =
        ap (λ (f : ℕ → List ℕ). word (f (fs.volume.fat_begin_lba + c / 128)) (c % 128)) d1_same in
      let fs2 : Fs dev.State = record fs { disk = next.disk } in
      (
        next.disk,
        loop_step fuel size read c bytes fs (gather (contents fs.disk) lba n) fs2
            (table dev rel fs.volume fs.disk c % 2 ^ 28) (both read size c more below)
            (read_many fs.disk lba n in_range byte) (next.run ∙ ap (λ k. (fs2, k % 2 ^ 28)) entry),
        fun_ext (λ l. next.sectors l) ∙ d1_same,
      )

  -- The data loop on a chain that lies on the device.
  pub read_loop_lem :
      (fuel size read c : ℕ) (bytes : List ℕ) (fs : Fs dev.State) (cs : List ℕ)
      → length cs < fuel
      → IsSound fs.volume capacity
      → IsByteSized fs.volume
      → size + 511 < u32_mod
      → IsChain (table dev rel fs.volume fs.disk) (entries fs.volume) c cs
      → AllFit fs.volume capacity cs
      → Loop fuel size read c bytes fs cs (contents fs.disk)
  read_loop_lem zero size read c bytes fs cs enough ok b small chain fit = absurd (omega arith)
  read_loop_lem (suc fuel) size read c bytes fs [] enough ok b small chain fit = (
    fs.disk,
    loop_ends fuel size read c bytes fs (past_end read size c chain)
        ∙ ap (λ (l : List ℕ). some (fs, some l)) (sym (append-nil bytes)),
    refl,
  )
  read_loop_lem (suc fuel) size read c bytes fs (x ∷ cs) enough ok b small
        (e, valid, lt, below, good, chain) (here, fit) =
      let f = contents fs.disk in
      let v = fs.volume in
      let left = size - read in
      let n = sectors_for v left in
      elim (Bool-cases (ltb read size)) [
        | inr full ↦
            let nothing : bytes ++ file_bytes f v left (x ∷ cs) ≡ bytes =
              ap (λ (l : List ℕ). bytes ++ l) (file_bytes_end f v left (x ∷ cs) (ground arith))
              ∙ append-nil bytes in
            (
              fs.disk,
              loop_ends fuel size read c bytes fs (rw full refl)
                  ∙ ap (λ (l : List ℕ). some (fs, some l)) (sym nothing),
              refl,
            )
        | inl more ↦
            let here' : cluster_to_lba v c + v.sectors_per_cluster ≤ capacity = rw e at here in
            let (d2, run, same) = step_lem fuel size read c bytes fs ok b lt below here' more in
            let fs2 : Fs dev.State = record fs { disk = d2 } in
            let next = table dev rel v fs.disk c % 2 ^ 28 in
            let part = gather f (cluster_to_lba v c) n in
            let read' = (read + n * 512) % u32_mod in
            let short = sectors_for_bytes v left (omega arith) in
            let lt' : read < size = ltb→lt read size more in
            let advanced : read' ≡ read + n * 512 = omega (arith, short, lt') in
            let chain' : IsChain (table dev rel v d2) (entries v) next cs =
              subst
                (λ (g : ℕ → List ℕ).
                  IsChain (λ k. word (g (v.fat_begin_lba + k / 128)) (k % 128)) (entries v) next cs)
                (sym same) chain in
            let (d', run', after') : Loop fuel size read' next (bytes ++ part) fs2 cs f =
              subst (λ (g : ℕ → List ℕ). Loop fuel size read' next (bytes ++ part) fs2 cs g) same
                (read_loop_lem fuel size read' next (bytes ++ part) fs2 cs (omega arith) ok b small
                  chain' fit) in
            let left' : size - read' ≡ left - 512 * n = omega (arith, advanced) in
            let test : (left == 0) ≡ false = ≢→== left 0 (omega (arith, lt')) in
            let bytes_eq : (bytes ++ part) ++ file_bytes f v (size - read') cs
                ≡ bytes ++ file_bytes f v left (x ∷ cs) =
              append_assoc bytes part (file_bytes f v (size - read') cs)
              ∙ rw (left', test, e) refl in
            (
              d',
              run ∙ run' ∙ ap (λ (l : List ℕ). some (record fs { disk = d' }, some l)) bytes_eq,
              after',
            )
      ]

  length-gather : (d : dev.State) (lba n : ℕ) → length (gather (contents d) lba n) ≡ 512 * n
  length-gather d lba zero = omega arith
  length-gather d lba (suc n) = omega (
    arith,
    length-append (contents d lba) (gather (contents d) (lba + 1) n),
    rel.size d lba,
    length-gather d (lba + 1) n,
  )

  -- A chain that is long enough gives all bytes.
  file_bytes-le :
      (d : dev.State) (v : Volume) (left : ℕ) (cs : List ℕ)
      → left + 511 < u32_mod
      → left ≤ 512 * v.sectors_per_cluster * length cs
      → left ≤ length (file_bytes (contents d) v left cs)
  unfolding sectors_for
  file_bytes-le d v left [] small le = grind arith
  file_bytes-le d v left (c ∷ cs) small le = elim (Bool-cases (left == 0)) [
    | inl e ↦ rw e (ground arith)
    | inr e ↦
        let n = sectors_for v left in
        let part = gather (contents d) (cluster_to_lba v c) n in
        let tail = file_bytes (contents d) v (left - 512 * n) cs in
        let enough : left - 512 * n ≤ 512 * v.sectors_per_cluster * length cs =
          left_over v left (length cs) small le in
        rw e (
          omega (
            arith,
            length-append part tail,
            length-gather d (cluster_to_lba v c) n,
            file_bytes-le d v (left - 512 * n) cs (omega arith) enough,
          ))
  ]

  -- The part of the function behind the search.
  pub read_entry_lem :
      (fuel limit : ℕ) (fs : Fs dev.State) (entry cs : List ℕ)
      → length cs < fuel
      → IsSound fs.volume capacity
      → IsByteSized fs.volume
      → file_size entry ≤ limit
      → file_size entry + 511 < u32_mod
      → IsChain (table dev rel fs.volume fs.disk) (entries fs.volume) (first_cluster entry) cs
      → AllFit fs.volume capacity cs
      → (d' : dev.State) × (read_entry dev fuel limit fs entry
          ≡ some (
            record fs { disk = d' },
            done (file_size entry) (file_bytes (contents fs.disk) fs.volume (file_size entry) cs),
          ))
        × (contents d' ≡ contents fs.disk)
  unfolding read_entry
  read_entry_lem fuel limit fs entry cs enough ok b fits small chain fit =
      let (d', run, same) =
        read_loop_lem fuel (file_size entry) 0 (first_cluster entry) [] fs cs enough ok b small
          chain fit in
      let whole : file_size entry - 0 ≡ file_size entry = omega arith in
      (d', rw (le→ltb limit (file_size entry) fits) (rw (run, whole) refl), same)

  -- On a mounted file system with clusters of 1 to 255 sectors, whose current directory is a
  -- chain of fewer clusters than the fuel, over a reliable device, `fat32_read_file` of a name
  -- that the search finds, with a size that the buffer holds and that is below 2 ^ 32 - 511, and
  -- with clusters that are a chain on the device, long enough for the size and shorter than the
  -- fuel, returns true with the size, the sectors of that chain in its order, and at least as
  -- many bytes as the size; no sector changes.
  pub read_file_lem :
      (fuel limit : ℕ) (fs : Fs dev.State) (name entry ds cs : List ℕ) (lba : ℕ)
      → length ds < fuel
      → length cs < fuel
      → IsMounted dev rel fs ds
      → IsByteSized fs.volume
      → first_hit (find_name name 16) (contents fs.disk) (chain_lbas fs.volume ds)
        ≡ some (lba, entry)
      → file_size entry ≤ limit
      → file_size entry + 511 < u32_mod
      → IsChain (table dev rel fs.volume fs.disk) (entries fs.volume) (first_cluster entry) cs
      → AllFit fs.volume capacity cs
      → file_size entry ≤ 512 * fs.volume.sectors_per_cluster * length cs
      → let bytes = file_bytes (contents fs.disk) fs.volume (file_size entry) cs in
        (d' : dev.State) × (read_file dev fuel limit fs name
          ≡ some (record fs { disk = d' }, done (file_size entry) bytes))
        × (file_size entry ≤ length bytes)
        × (contents d' ≡ contents fs.disk)
  unfolding read_file read_found
  read_file_lem fuel limit fs name entry ds cs lba enough enough' m b found fits small chain fit
        long =
      let (d1, run, same) =
        search_clusters_lem (find_name name 16) dev rel false fuel fs fs.current.cluster ds enough
          m.sound m.chain m.room in
      let fs1 : Fs dev.State = record fs { disk = d1 } in
      let chain' : IsChain (table dev rel fs.volume d1) (entries fs.volume) (first_cluster entry)
          cs =
        subst
          (λ (g : ℕ → List ℕ).
            IsChain (λ k. word (g (fs.volume.fat_begin_lba + k / 128)) (k % 128))
              (entries fs.volume) (first_cluster entry) cs)
          (sym same) chain in
      let (d', run', same') =
        read_entry_lem fuel limit fs1 entry cs enough' m.sound b fits small chain' fit in
      let bytes_eq : file_bytes (contents d1) fs.volume (file_size entry) cs
          ≡ file_bytes (contents fs.disk) fs.volume (file_size entry) cs =
        ap (λ (g : ℕ → List ℕ). file_bytes g fs.volume (file_size entry) cs) same in
      (
        d',
        ap
              (λ (b : Bool).
                if b
                then read_found dev fuel limit
                    (search_clusters (find_name name 16) dev false fuel fs fs.current.cluster)
                else some (fs, not_found))
              m.mounted
            ∙ ap (read_found dev fuel limit)
                (run ∙ ap (λ (h : Option (ℕ × List ℕ)). some (fs1, h)) found)
            ∙ run'
            ∙ ap (λ (l : List ℕ). some (record fs { disk = d' }, done (file_size entry) l))
                bytes_eq,
        file_bytes-le fs.disk fs.volume (file_size entry) cs small long,
        same' ∙ same,
      )
