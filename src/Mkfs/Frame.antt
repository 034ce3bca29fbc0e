-- ===== src/Mkfs/Frame.antt =====
-- tools/mkfs.c: what the stores of the walk leave alone.
use ring_os.Prelude.{
  ℕ, ◌+◌, ◌-◌, ◌*◌, ◌%◌, ◌≤◌, ◌<◌, ◌≡◌, ◌⊎◌, inl, inr, refl, sym, ◌∙◌, List, arith, u32_mod, true,
  false, length, Bool-cases, ◌==◌,
}
use ring_os.Fat.Dir.{Memory}
use ring_os.Mkfs.{Image, write_at, load32, cluster_at}
use ring_os.Mkfs.Buffer.{write_at-outside, load32_cong, load32-outside}
use ring_os.Mkfs.Alloc.{first_table, second_table, data_start, cluster_limit, IsBuilt}
use ring_os.Mkfs.Allocated.{Taken, taken}
use ring_os.Mkfs.Entries.{is_free}

-- The offset of a cluster.
abbrev pub place : ℕ → ℕ
place c = data_start + (c - 2) * 4096

-- An entry of the first table.
abbrev pub entry : Image → ℕ → ℕ
entry fs c = load32 fs.buffer (first_table + 4 * c)

pub cluster_at_lem :
    (fs : Image) (c : ℕ)
    → fs.cluster_start ≡ data_start
    → 2 ≤ c
    → c < cluster_limit
    → cluster_at fs c ≡ place c
cluster_at_lem fs c start low high =
    let wrap : (c + u32_mod - 2) % u32_mod ≡ c - 2 = omega arith in
    let small : (c - 2) * 4096 % u32_mod ≡ (c - 2) * 4096 = omega arith in
    rw (wrap, small, start) refl

-- The image after a store, and that it stays well formed when only clusters that were taken are
-- written.
abbrev pub with_bytes : Image → ℕ → List ℕ → Image
with_bytes fs off bytes = record fs { buffer = write_at fs.buffer off bytes }

pub with_bytes-IsBuilt :
    (fs : Image) (off : ℕ) (bytes : List ℕ)
    → IsBuilt fs
    → data_start ≤ off
    → off + length bytes ≤ place fs.next_free_cluster
    → IsBuilt (with_bytes fs off bytes)
with_bytes-IsBuilt fs off bytes ok low high = record {
  size = ok.size;
  fat_start = ok.fat_start;
  cluster_start = ok.cluster_start;
  boot = λ i h. write_at-outside fs.buffer off bytes i (inl (omega (arith, h))) ∙ ok.boot i h;
  low = ok.low;
  high = ok.high;
  copies = λ c h.
      load32-outside fs.buffer off bytes (second_table + 4 * c) (inl (omega arith))
      ∙ ok.copies c h
      ∙ sym (load32-outside fs.buffer off bytes (first_table + 4 * c) (inl (omega arith)));
  unused = λ c h two lt.
      load32-outside fs.buffer off bytes (first_table + 4 * c) (inl (omega arith))
      ∙ ok.unused c h two lt;
  blank =
      λ i h. write_at-outside fs.buffer off bytes i (inr (omega (arith, h, high))) ∙ ok.blank i h;
}

-- The second image has what the first has: its chains, the bytes of its clusters, and of the
-- directory in cluster `dir` the entries that are not free.
pub record Extends (dir : ℕ) (fs fs' : Image) : Type 0 where
  pub more : fs.next_free_cluster ≤ fs'.next_free_cluster
  pub entries : (c : ℕ) → 2 ≤ c → c < fs.next_free_cluster → entry fs' c ≡ entry fs c
  pub bytes :
      (i : ℕ)
      → data_start ≤ i
      → i < place fs.next_free_cluster
      → (i < place dir) ⊎ (place dir + 4096 ≤ i)
      → fs'.buffer i ≡ fs.buffer i
  pub used :
      (j k : ℕ)
      → j < 128
      → k < 32
      → is_free fs.buffer (place dir) j ≡ false
      → fs'.buffer (place dir + 32 * j + k) ≡ fs.buffer (place dir + 32 * j + k)

pub Extends-refl : (dir : ℕ) (fs : Image) → Extends dir fs fs
Extends-refl dir fs = record {
  more = omega arith;
  entries = λ c low high. refl;
  bytes = λ i low high out. refl;
  used = λ j k hj hk u. refl;
}

-- An entry that is in use stays so.
pub stays_used :
    (b b' : Memory) (at j : ℕ)
    → b' (at + 32 * j + 0) ≡ b (at + 32 * j + 0)
    → is_free b at j ≡ false
    → is_free b' at j ≡ false
stays_used b b' at j same used =
    let z : at + 32 * j + 0 ≡ at + 32 * j = omega arith in rw (rw z at same) used

pub Extends-trans : (dir : ℕ) (a b c : Image) → Extends dir a b → Extends dir b c → Extends dir a c
Extends-trans dir a b c one two = record {
  more = omega (arith, one.more, two.more);
  entries =
      λ k low high. two.entries k low (omega (arith, high, one.more)) ∙ one.entries k low high;
  bytes = λ i low high out.
      two.bytes i low (omega (arith, high, one.more)) out ∙ one.bytes i low high out;
  used = λ j k hj hk u.
      two.used j k hj hk
        (stays_used a.buffer b.buffer (place dir) j (one.used j 0 hj (omega arith) u) u)
      ∙ one.used j k hj hk u;
}

-- Clusters that are taken, and stores to them, are new to the image.
pub Extends-taken :
    (dir : ℕ) (fs : Image) (ok : IsBuilt fs) (count : ℕ)
    → 2 ≤ dir
    → Taken fs ok count
    → Extends dir fs (taken fs ok count)
Extends-taken dir fs ok count low t = record {
  more = omega arith;
  entries = λ c two lt.
      load32_cong fs.buffer (taken fs ok count).buffer (first_table + 4 * c) (first_table + 4 * c)
        (λ k h. t.kept (first_table + 4 * c + k) (inl (omega arith)));
  bytes = λ i two lt out. t.kept i (inr (inr (omega arith)));
  used = λ j k hj hk u. t.kept (place dir + 32 * j + k) (inr (inr (omega arith)));
}

pub Extends-write :
    (dir : ℕ) (fs fs' : Image) (off : ℕ) (bytes : List ℕ)
    → Extends dir fs fs'
    → dir < fs.next_free_cluster
    → 2 ≤ dir
    → place fs.next_free_cluster ≤ off
    → Extends dir fs (with_bytes fs' off bytes)
Extends-write dir fs fs' off bytes e lt low new = record {
  more = e.more;
  entries = λ c two h.
      load32-outside fs'.buffer off bytes (first_table + 4 * c) (inl (omega arith))
      ∙ e.entries c two h;
  bytes = λ i two h out.
      write_at-outside fs'.buffer off bytes i (inl (omega arith)) ∙ e.bytes i two h out;
  used = λ j k hj hk u.
      write_at-outside fs'.buffer off bytes (place dir + 32 * j + k) (inl (omega arith))
      ∙ e.used j k hj hk u;
}

-- A store to a free entry of the directory.
pub Extends-slot :
    (dir : ℕ) (fs : Image) (i : ℕ) (bytes : List ℕ)
    → 2 ≤ dir
    → fs.next_free_cluster < cluster_limit
    → i < 128
    → length bytes ≡ 32
    → is_free fs.buffer (place dir) i ≡ true
    → Extends dir fs (with_bytes fs (place dir + 32 * i) bytes)
Extends-slot dir fs i bytes low high lt len free = record {
  more = omega arith;
  entries = λ c two h.
      load32-outside fs.buffer (place dir + 32 * i) bytes (first_table + 4 * c) (inl (omega arith));
  bytes = λ j two h out. write_at-outside fs.buffer (place dir + 32 * i) bytes j (ground arith);
  used = λ j k hj hk u. elim (Bool-cases (j == i)) [
    | inl e ↦ let same : j ≡ i = ground arith in absurd (true_false (sym free ∙ rw same at u))
    | inr e ↦
        write_at-outside fs.buffer (place dir + 32 * i) bytes (place dir + 32 * j + k)
          (ground arith)
  ];
}
  where
    true_false : true ≡ false → ⊥
    true_false h = ground arith
