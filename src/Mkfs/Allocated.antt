-- ===== src/Mkfs/Allocated.antt =====
-- tools/mkfs.c: what `allocate_clusters` returns, and that it keeps the image well formed.
use ring_os.Prelude.{
  ℕ, ◌+◌, ◌-◌, ◌*◌, ◌%◌, ◌≤◌, ◌<◌, ◌^◌, ◌≡◌, ◌⊎◌, inl, inr, refl, sym, ◌∙◌, arith, get_or, u32_mod,
  leb, lt→leb, leb→lt, leb→le, for_range, for_range_inv, Bool-cases, false,
}
use ring_os.Fat.Dir.{Memory}
use ring_os.Mkfs.{Image, boot_sector, load32, total_clusters, mark_cluster, allocate_clusters}
use ring_os.Mkfs.Buffer.{load32_cong}
use ring_os.Mkfs.Alloc.{
  first_table, second_table, cluster_limit, IsBuilt, link, IsElsewhere, Marked, Marked-round,
}

-- The boot sector gives the numbers that the loop uses.
boot_sectors :
    (b : Memory) → ((i : ℕ) → i < first_table → b i ≡ get_or boot_sector i 0) → load32 b 36 ≡ 64
unfolding load32
boot_sectors b boot = omega (
  arith,
  boot 36 (omega arith),
  boot 37 (omega arith),
  boot 38 (omega arith),
  boot 39 (omega arith),
)

total_clusters_lem : (fs : Image) → IsBuilt fs → total_clusters fs ≡ cluster_limit
total_clusters_lem fs ok = rw (ok.size, ok.cluster_start, ok.boot 13 (omega arith)) refl

module _ (fs : Image) (ok : IsBuilt fs) (count : ℕ) where
  abbrev first : ℕ
  first = fs.next_free_cluster

  -- The image behind the loop.
  abbrev pub taken : Image
  taken = record fs {
    buffer = for_range count 0 (mark_cluster fs first count) fs.buffer;
    next_free_cluster = first + count;
  }

  all-Marked : first + count < cluster_limit → Marked fs.buffer first count count taken.buffer
  all-Marked fits =
      for_range_inv (Marked fs.buffer first count) (mark_cluster fs first count) count 0
        (λ i b low high m.
          Marked-round fs ok.fat_start first count i fs.buffer b (omega arith)
            (boot_sectors b (λ j h. m.kept j (inl (omega (arith, h))) ∙ ok.boot j h)) m)
        count fs.buffer (omega arith)
        (record {
          kept = λ i h. refl;
          linked = λ j h. absurd (omega arith);
          copied = λ j h. absurd (omega arith);
        })

  -- The entries of the other clusters.
  other_first :
      (c : ℕ)
      → first + count < cluster_limit
      → c < 8192
      → (c < first) ⊎ (first + count ≤ c)
      → load32 taken.buffer (first_table + 4 * c) ≡ load32 fs.buffer (first_table + 4 * c)
  other_first c fits lt out =
      load32_cong fs.buffer taken.buffer (first_table + 4 * c) (first_table + 4 * c)
        (λ k h. (all-Marked fits).kept (first_table + 4 * c + k) (ground arith))

  other_second :
      (c : ℕ)
      → first + count < cluster_limit
      → c < 8192
      → (c < first) ⊎ (first + count ≤ c)
      → load32 taken.buffer (second_table + 4 * c) ≡ load32 fs.buffer (second_table + 4 * c)
  other_second c fits lt out =
      load32_cong fs.buffer taken.buffer (second_table + 4 * c) (second_table + 4 * c)
        (λ k h. (all-Marked fits).kept (second_table + 4 * c + k) (ground arith))

  taken-copies :
      (c : ℕ)
      → first + count < cluster_limit
      → c < 8192
      → load32 taken.buffer (second_table + 4 * c) ≡ load32 taken.buffer (first_table + 4 * c)
  taken-copies c fits lt = elim (Bool-cases (leb first c)) [
    | inl above ↦ elim (Bool-cases (leb (first + count) c)) [
      | inl behind ↦
          let out = leb→le _ _ behind in
          other_second c fits lt (inr out) ∙ ok.copies c lt ∙ sym (other_first c fits lt (inr out))
      | inr before ↦
          let inside : c - first < count = ground arith in
          let at : first + (c - first) ≡ c = ground arith in
          rw at at (
            (all-Marked fits).copied (c - first) inside
            ∙ sym ((all-Marked fits).linked (c - first) inside))
    ]
    | inr below ↦
        let out = leb→lt _ _ below in
        other_second c fits lt (inl out) ∙ ok.copies c lt ∙ sym (other_first c fits lt (inl out))
  ]

  -- The clusters were taken, one behind the other.
  pub record Taken : Type 0 where
    pub run : allocate_clusters fs count ≡ (taken, first)
    pub built : IsBuilt taken
    pub linked :
        (j : ℕ)
        → j < count
        → load32 taken.buffer (first_table + 4 * (first + j)) ≡ link first count j
    pub kept : (i : ℕ) → IsElsewhere first count i → taken.buffer i ≡ fs.buffer i

  pub taken_lem : first + count < cluster_limit → Taken
  unfolding allocate_clusters
  taken_lem fits = record {
    run =
        let small : (first + count) % u32_mod ≡ first + count = omega arith in
        let room : leb cluster_limit (first + count) ≡ false = lt→leb _ _ fits in
        rw (allocate_clusters, total_clusters_lem fs ok, small, room) refl;
    built = record {
      size = ok.size;
      fat_start = ok.fat_start;
      cluster_start = ok.cluster_start;
      boot = λ i h. (all-Marked fits).kept i (inl (omega (arith, h))) ∙ ok.boot i h;
      low = omega (arith, ok.low);
      high = fits;
      copies = λ c h. taken-copies c fits h;
      unused = λ c h two lt. other_first c fits lt (inr h) ∙ ok.unused c (omega (arith, h)) two lt;
      blank = λ i h.
          (all-Marked fits).kept i (inr (inr (omega (arith, h, ok.low, fits))))
          ∙ ok.blank i (omega (arith, h));
    };
    linked = (all-Marked fits).linked;
    kept = (all-Marked fits).kept;
  }

  -- `allocate_clusters` on a well-formed image and a count of at most 2^20 (a file of 4 GB): either
  -- the first cluster that was not taken and the count add up to 8172 or more (so the last cluster
  -- would be 8171 or a later one), and it returns 0 and changes nothing, or it returns the first cluster that was not taken, the entries of both tables link it and the ones
  -- behind it into a chain, nothing else in the buffer changes, and the image stays well formed.
  pub allocate_clusters_lem :
      count ≤ 2 ^ 20
      → ((cluster_limit ≤ first + count) × (allocate_clusters fs count ≡ (fs, 0)))
        ⊎ ((first + count < cluster_limit) × Taken)
  unfolding allocate_clusters
  allocate_clusters_lem small = elim (Bool-cases (leb cluster_limit (first + count))) [
    | inl full ↦
        let wrap : (first + count) % u32_mod ≡ first + count = omega (arith, ok.high) in
        inl (leb→le _ _ full, rw (allocate_clusters, total_clusters_lem fs ok, wrap, full) refl)
    | inr fits ↦ inr (leb→lt _ _ fits, taken_lem (leb→lt _ _ fits))
  ]
