-- ===== src/Fat/Files/Writing.antt =====
-- The data loop of `fat32_write_file`: it links free clusters to a chain that holds the data.
pub mod Link
pub mod Loop
use ring_os.Prelude.{
  append-nil, ℕ, zero, suc, ◌+◌, ◌-◌, ◌*◌, ◌/◌, ◌%◌, ◌^◌, ◌≤◌, ◌<◌, ◌≡◌, ◌≢◌, ◌⊎◌, refl, sym, ap,
  ◌∙◌, fun_ext, Bool, true, false, ◌&&◌, not, ◌||◌, Option, none, some, List, [], ◌∷◌, ◌++◌, arith,
  u32_mod, ltb, ◌==◌, if◌then◌else◌, length, take, length-append, Bool-cases, inl, inr, lt→ltb,
  le→ltb, ltb→lt, ltb→le, ≢→==, ==→≢, ==_iff, ==_refl,
}
use ring_os.Block.{BlockDevice, IsReliable, gather}
use mathlib.Core.Path.{subst}
use ring_os.Fat.{Volume, Fs, fat32_eoc, bad_cluster, cluster_to_lba}
use ring_os.Fat.Words.{word}
use ring_os.Fat.Table.{write_fat_entry}
use ring_os.Fat.Table.View.{IsSound, entries, table}
use ring_os.Fat.Table.Write.{Written, write_fat_entry_lem}
use ring_os.Fat.Clusters.{allocate_cluster}
use ring_os.Fat.Clusters.Chain.{IsChain, is_in}
use ring_os.Fat.Clusters.Alloc.{Allocated, Full, allocate_cluster_lem}
use ring_os.Fat.Dir.{Memory, bytes_at}
use ring_os.Fat.Files.{sectors_for, write_loop}
use ring_os.Fat.Files.Bytes.{
  slice, slice-add, length-bytes_at, take-append_left, take-append_right, take-slice, gather_cong,
  gather_parts,
}
use ring_os.Fat.Files.Layout.{
  IsLaidOut, cluster_to_lba_lem, cluster_fits, cluster_behind, clusters_apart,
}
use ring_os.Fat.Files.Reading.{file_bytes, sectors_for-le, sectors_for_bytes, sectors_for_some}

-- The sector belongs to no cluster of the chain.
abbrev pub IsApart : Volume → ℕ → List ℕ → Type 0
IsApart v l [] = Unit
IsApart v l (c ∷ cs) =
    ((l < cluster_to_lba v c) ⊎ (cluster_to_lba v c + v.sectors_per_cluster ≤ l)) × IsApart v l cs

-- The sector belongs to no copy of the table.
abbrev pub IsOutside : Volume → ℕ → Type 0
IsOutside v l = (l < v.fat_begin_lba) ⊎ (v.fat_begin_lba + v.num_fats * v.fat_size_32 ≤ l)

module _ (dev : BlockDevice) (rel : IsReliable dev) where
  open rel use {capacity, contents, write_many, write_many_at, write_many_ne}

  -- The device behind the loop. `rest` are the clusters that were taken, in their order.
  pub record Wrote (memory : Memory) (size written c : ℕ) (fs : Fs dev.State) (disk : dev.State)
      : Type 0 where
    pub rest : List ℕ
    pub chain : IsChain (table dev rel fs.volume disk) (entries fs.volume) c (c ∷ rest)
    -- The chain holds the data.
    pub bytes :
        take (size - written) (file_bytes (contents disk) fs.volume (size - written) (c ∷ rest))
        ≡ slice memory written (size - written)
    -- The clusters were free.
    pub fresh :
        (x : ℕ)
        → is_in x rest ≡ true
        → (2 ≤ x) × (x < entries fs.volume) × (table dev rel fs.volume fs.disk x ≡ 0)
    pub others :
        (x : ℕ)
        → x < entries fs.volume
        → is_in x (c ∷ rest) ≡ false
        → table dev rel fs.volume disk x ≡ table dev rel fs.volume fs.disk x
    pub outside :
        (l : ℕ)
        → IsOutside fs.volume l
        → IsApart fs.volume l (c ∷ rest)
        → contents disk l ≡ contents fs.disk l

  -- The clusters ran out.
  pub record IsExhausted (fs : Fs dev.State) (disk : dev.State) : Type 0 where
    pub full : (x : ℕ) → 2 ≤ x → x < entries fs.volume → table dev rel fs.volume disk x ≢ 0

  -- The two ways in which the loop ends.
  abbrev pub Stored : Memory → ℕ → ℕ → ℕ → Fs dev.State → Option (Fs dev.State × Bool) → Type 0
  Stored memory size written c fs run =
      ((disk : dev.State) × (run ≡ some (record fs { disk = disk }, true))
        × Wrote memory size written c fs disk)
      ⊎ ((disk : dev.State) × (run ≡ some (record fs { disk = disk }, false)) × IsExhausted fs disk)

  -- The table is a function of its sectors.
  pub table_cong :
      (v : Volume) (d e : dev.State) (x : ℕ)
      → contents d (v.fat_begin_lba + x / 128) ≡ contents e (v.fat_begin_lba + x / 128)
      → table dev rel v d x ≡ table dev rel v e x
  table_cong v d e x h = ap (λ (s : List ℕ). word s (x % 128)) h

  module _ (memory : Memory) (size written c : ℕ) (fs : Fs dev.State)
      (ok : IsLaidOut fs.volume capacity) (valid : 2 ≤ c) (lt : c < entries fs.volume) where
    abbrev v : Volume
    v = fs.volume

    abbrev start : ℕ
    start = cluster_to_lba v c

    -- The mark behind the last cluster.
    abbrev pub mark : Written dev rel fs c 0x0FFFFFFF
    mark = write_fat_entry_lem dev rel fs c 0x0FFFFFFF ok.sound lt (omega arith)

    mark_entry : table dev rel v mark.disk c ≡ 0x0FFFFFFF
    mark_entry = mark.entry c lt ∙ rw (==_refl c) refl

    pub mark-IsChain : IsChain (table dev rel v mark.disk) (entries v) c (c ∷ [])
    mark-IsChain = (
      refl,
      valid,
      lt,
      omega (arith, ok.marks),
      omega (arith, mark_entry),
      omega (arith, mark_entry),
    )

    pub mark_others :
        (x : ℕ)
        → x < entries v
        → is_in x (c ∷ []) ≡ false
        → table dev rel v mark.disk x ≡ table dev rel v fs.disk x
    mark_others x below out =
        let ne : (c == x) ≡ false = ground arith in mark.entry x below ∙ rw ne refl

    -- Nothing more is to be written.
    pub loop_stops :
        (fuel : ℕ)
        → size ≤ written
        → write_loop dev (suc fuel) memory size written c fs
          ≡ some (record fs { disk = mark.disk }, true)
    unfolding write_loop
    loop_stops fuel done = rw (le→ltb written size done) (ap some mark.run)

    pub stopped : size ≤ written → Wrote memory size written c fs mark.disk
    stopped done =
        let none_left : size - written ≡ 0 = omega arith in
        record {
          rest = [];
          chain = mark-IsChain;
          bytes = rw none_left refl;
          fresh = λ x h. absurd (cc);
          others = mark_others;
          outside = λ l out apart. mark.outside l out;
        }

    -- A cluster that is filled with data.
    abbrev left : ℕ
    left = size - written

    abbrev pub count : ℕ
    count = sectors_for v left

    abbrev pub part : List ℕ
    part = slice memory written (512 * count)

    abbrev filled : dev.State
    filled = (dev.write_sectors fs.disk start count part).0

    count-lt : count < 256
    count-lt = omega (arith, sectors_for-le v left, ok.sized.byte)

    fits : start + count ≤ capacity
    fits = omega (arith, sectors_for-le v left, cluster_fits v capacity ok c valid lt)

    pub bytes_count : length part ≡ 512 * count
    bytes_count = length-bytes_at (λ k. memory (written + k)) (512 * count)

    stored : (dev.write_sectors fs.disk start count part).1 ≡ true
    stored = write_many fs.disk start count part fits count-lt bytes_count

    pub filled_ne :
        (l : ℕ)
        → (l < start) ⊎ (start + v.sectors_per_cluster ≤ l)
        → contents filled l ≡ contents fs.disk l
    filled_ne l out =
        write_many_ne fs.disk start count l part fits count-lt bytes_count
          (elim out [ inl h ↦ inl h | inr h ↦ inr (omega (arith, sectors_for-le v left)) ])

    pub filled_data : gather (contents filled) start count ≡ part
    filled_data =
        gather_parts (contents filled) start count part bytes_count
          (λ k h. write_many_at fs.disk start count k part fits count-lt bytes_count h)

    table_sector-lt : (x : ℕ) → x < entries v → v.fat_begin_lba + x / 128 < start
    table_sector-lt x h =
        let q : x / 128 < v.fat_size_32 = omega arith in
        let all : v.fat_size_32 ≤ v.num_fats * v.fat_size_32 = grind (arith, ok.sound.one_copy) in
        omega (arith, cluster_behind v capacity ok c valid lt)

    pub kept_entries :
        (x : ℕ) → x < entries v → table dev rel v filled x ≡ table dev rel v fs.disk x
    kept_entries x h =
        table_cong v filled fs.disk x
          (filled_ne (v.fat_begin_lba + x / 128) (inl (table_sector-lt x h)))

    abbrev pub next_written : ℕ
    next_written = written + count * 512

    -- The device behind the write of the cluster.
    abbrev pub behind : Fs dev.State
    behind = record fs { disk = filled }

    -- What the loop returns if the cluster was the last one.
    pub loop_last :
        (fuel : ℕ)
        → written < size
        → next_written < u32_mod
        → size ≤ next_written
        → write_loop dev (suc fuel) memory size written c fs
          ≡ write_loop dev fuel memory size next_written c behind
    unfolding write_loop
    loop_last fuel more small done =
        let wrap : (written + count * 512) % u32_mod ≡ written + count * 512 = omega arith in
        rw (lt→ltb written size more, stored, wrap, le→ltb next_written size done) refl

    -- What it returns if there is no cluster for the rest.
    pub loop_full :
        (fuel : ℕ) (d : dev.State)
        → written < size
        → next_written < size
        → size < u32_mod
        → allocate_cluster dev behind ≡ (record fs { disk = d }, 0)
        → write_loop dev (suc fuel) memory size written c fs ≡ some (record fs { disk = d }, false)
    unfolding write_loop
    loop_full fuel d more rest small none_free =
        let wrap : (written + count * 512) % u32_mod ≡ written + count * 512 = omega arith in
        rw (lt→ltb written size more, stored, wrap, lt→ltb next_written size rest, none_free) refl

    -- What it returns if the next cluster was linked.
    pub loop_next :
        (fuel next : ℕ) (d d' : dev.State)
        → written < size
        → next_written < size
        → size < u32_mod
        → 2 ≤ next
        → allocate_cluster dev behind ≡ (record fs { disk = d }, next)
        → write_fat_entry dev (record fs { disk = d }) c next ≡ (record fs { disk = d' }, true)
        → write_loop dev (suc fuel) memory size written c fs
          ≡ write_loop dev fuel memory size next_written next (record fs { disk = d' })
    unfolding write_loop
    loop_next fuel next d d' more rest small some_next taken linked =
        let wrap : (written + count * 512) % u32_mod ≡ written + count * 512 = omega arith in
        let one : (next == 0) ≡ false = ground arith in
        rw (lt→ltb written size more, stored, wrap, lt→ltb next_written size rest, taken)
          (rw (one, linked) refl)

  pub file_bytes_step :
      (f : ℕ → List ℕ) (v : Volume) (left c : ℕ) (cs : List ℕ)
      → 0 < left
      → file_bytes f v left (c ∷ cs)
        ≡ gather f (cluster_to_lba v c) (sectors_for v left)
          ++ file_bytes f v (left - 512 * sectors_for v left) cs
  file_bytes_step f v left c cs h = let e : (left == 0) ≡ false = ground arith in rw e refl
