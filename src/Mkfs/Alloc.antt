-- ===== src/Mkfs/Alloc.antt =====
-- tools/mkfs.c: what `allocate_clusters` writes into the two tables.
use ring_os.Prelude.{
  ℕ, ◌+◌, ◌-◌, ◌*◌, ◌%◌, ◌≤◌, ◌<◌, ◌≡◌, ◌⊎◌, inl, inr, refl, ◌∙◌, arith, get_or, u32_mod, ◌==◌,
  Bool-cases, if◌then◌else◌,
}
use ring_os.Fat.Dir.{Memory}
use ring_os.Mkfs.{Image, boot_sector, load32, store32, filesystem_size, mark_cluster, le32}
use ring_os.Mkfs.Buffer.{write_at-outside, load32-outside, load32-store32}

-- The offsets of the two tables and of cluster 2.
abbrev pub first_table : ℕ
first_table = 16384

abbrev pub second_table : ℕ
second_table = 49152

abbrev pub data_start : ℕ
data_start = 81920

-- The bound of `allocate_clusters`: it refuses when the cluster behind the last one that it would
-- give has this number, and so gives clusters up to 8170.
abbrev pub cluster_limit : ℕ
cluster_limit = 8172

-- An image in the making: the boot sector is in place, the tables agree, and neither they nor
-- the data hold anything for a cluster that was not taken, nor does the memory behind the buffer.
pub record IsBuilt (fs : Image) : Type 0 where
  pub size : fs.size ≡ filesystem_size
  pub fat_start : fs.fat_start ≡ first_table
  pub cluster_start : fs.cluster_start ≡ data_start
  pub boot : (i : ℕ) → i < first_table → fs.buffer i ≡ get_or boot_sector i 0
  pub low : 2 ≤ fs.next_free_cluster
  pub high : fs.next_free_cluster < cluster_limit
  pub copies :
      (c : ℕ)
      → c < 8192
      → load32 fs.buffer (second_table + 4 * c) ≡ load32 fs.buffer (first_table + 4 * c)
  pub unused :
      (c : ℕ)
      → fs.next_free_cluster ≤ c
      → 2 < c
      → c < 8192
      → load32 fs.buffer (first_table + 4 * c) ≡ 0
  pub blank : (i : ℕ) → data_start + (fs.next_free_cluster - 2) * 4096 ≤ i → fs.buffer i ≡ 0

-- The entry of cluster `first + j` in a chain of `count` clusters.
abbrev pub link : ℕ → ℕ → ℕ → ℕ
link first count j = if j + 1 == count then 0x0FFFFFFF else first + j + 1

link-lt : (first count j : ℕ) → first + j < 8192 → link first count j < u32_mod
link-lt first count j h = ground arith

-- An offset that holds none of the entries of the `k` clusters from `first` on.
abbrev pub IsElsewhere : ℕ → ℕ → ℕ → Type 0
IsElsewhere first k i =
    (i < first_table + 4 * first)
    ⊎ ((first_table + 4 * (first + k) ≤ i) × (i < second_table + 4 * first))
    ⊎ (second_table + 4 * (first + k) ≤ i)

-- The buffer behind `k` rounds.
pub record Marked (b0 : Memory) (first count k : ℕ) (b : Memory) : Type 0 where
  pub kept : (i : ℕ) → IsElsewhere first k i → b i ≡ b0 i
  pub linked : (j : ℕ) → j < k → load32 b (first_table + 4 * (first + j)) ≡ link first count j
  pub copied : (j : ℕ) → j < k → load32 b (second_table + 4 * (first + j)) ≡ link first count j

-- Both entries of a cluster stored.
abbrev stored : Memory → ℕ → ℕ → Memory
stored b c v = store32 (store32 b (first_table + 4 * c) v) (second_table + 4 * c) v

module _ (b : Memory) (c v : ℕ) (lt : c < 8192) where
  stored_ne :
      (i : ℕ)
      → (i < first_table + 4 * c) ⊎ (first_table + 4 * c + 4 ≤ i)
      → (i < second_table + 4 * c) ⊎ (second_table + 4 * c + 4 ≤ i)
      → stored b c v i ≡ b i
  stored_ne i one two =
      write_at-outside _ (second_table + 4 * c) (le32 v) i two
      ∙ write_at-outside b (first_table + 4 * c) (le32 v) i one

  load-stored_ne :
      (i : ℕ)
      → (i + 4 ≤ first_table + 4 * c) ⊎ (first_table + 4 * c + 4 ≤ i)
      → (i + 4 ≤ second_table + 4 * c) ⊎ (second_table + 4 * c + 4 ≤ i)
      → load32 (stored b c v) i ≡ load32 b i
  load-stored_ne i one two =
      load32-outside _ (second_table + 4 * c) (le32 v) i two
      ∙ load32-outside b (first_table + 4 * c) (le32 v) i one

  load-stored_first : v < u32_mod → load32 (stored b c v) (first_table + 4 * c) ≡ v
  load-stored_first small =
      load32-outside _ (second_table + 4 * c) (le32 v) (first_table + 4 * c) (inl (omega arith))
      ∙ load32-store32 b (first_table + 4 * c) v small

  load-stored_second : v < u32_mod → load32 (stored b c v) (second_table + 4 * c) ≡ v
  load-stored_second small = load32-store32 _ (second_table + 4 * c) v small

-- A round of the loop on a buffer whose boot sector is in place.
module _ (fs : Image) (start : fs.fat_start ≡ first_table) (first count : ℕ) where
  mark_run :
      (i : ℕ) (b : Memory)
      → first + i < 8192
      → load32 b 36 ≡ 64
      → mark_cluster fs first count i b ≡ stored b (first + i) (link first count i)
  unfolding mark_cluster
  mark_run i b lt sectors =
      let small : (first + i) % u32_mod ≡ first + i = omega arith in
      let next : (first + i + 1) % u32_mod ≡ first + i + 1 = omega arith in
      let v = link first count i in
      let b1 = store32 b (first_table + 4 * (first + i)) v in
      let same : load32 b1 36 ≡ 64 =
        load32-outside b (first_table + 4 * (first + i)) (le32 v) 36 (inl (omega arith))
        ∙ sectors in
      let stored_v : load32 b1 (first_table + 4 * (first + i)) ≡ v =
        load32-store32 b (first_table + 4 * (first + i)) v (link-lt first count i lt) in
      rw (mark_cluster, small, next, start, same, stored_v) refl

  pub Marked-round :
      (i : ℕ) (b0 b : Memory)
      → first + i < 8192
      → load32 b 36 ≡ 64
      → Marked b0 first count i b
      → Marked b0 first count (i + 1) (mark_cluster fs first count i b)
  Marked-round i b0 b lt sectors m =
      let v = link first count i in
      rw (mark_run i b lt sectors) (record {
        kept = λ j away.
            stored_ne b (first + i) v lt j (ground arith) (ground arith) ∙ m.kept j (ground arith);
        linked = λ j h. elim (Bool-cases (j == i)) [
          | inl e ↦
              let same : j ≡ i = ground arith in
              rw same (load-stored_first b (first + i) v lt (link-lt first count i lt))
          | inr e ↦
              let before : j < i = ground arith in
              load-stored_ne b (first + i) v lt (first_table + 4 * (first + j)) (inl (omega arith))
                (inl (omega arith))
              ∙ m.linked j before
        ];
        copied = λ j h. elim (Bool-cases (j == i)) [
          | inl e ↦
              let same : j ≡ i = ground arith in
              rw same (load-stored_second b (first + i) v lt (link-lt first count i lt))
          | inr e ↦
              let before : j < i = ground arith in
              load-stored_ne b (first + i) v lt (second_table + 4 * (first + j)) (inr (omega arith))
                (inl (omega arith))
              ∙ m.copied j before
        ];
      })
