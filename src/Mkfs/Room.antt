-- ===== src/Mkfs/Room.antt =====
-- tools/mkfs.c: when the image has room for a file and for a directory.
use ring_os.Prelude.{
  ℕ, zero, suc, ◌+◌, ◌*◌, ◌≤◌, ◌<◌, ◌≡◌, inl, inr, refl, List, arith, Bool, true, some, length,
  Bool-cases, ◌==◌, ==_iff,
}
use ring_os.Fat.Dir.{Memory}
use ring_os.Mkfs.{Image, write_at, cluster_at}
use ring_os.Mkfs.Buffer.{write_at-outside}
use ring_os.Mkfs.Alloc.{IsBuilt}
use ring_os.Mkfs.Entries.{is_free, free_entry}
use ring_os.Mkfs.Frame.{place, cluster_at_lem}
use ring_os.Mkfs.Slots.{add_some}
use ring_os.Mkfs.Tree.{entry_count, add_entry}

-- The entries of a directory from number `u` on are free.
abbrev pub IsRoomy : ℕ → ℕ → Memory → Type 0
IsRoomy dir u b = (j : ℕ) → u ≤ j → j < 128 → is_free b (place dir) j ≡ true

-- A step that is not refused: it takes `k` clusters, and the entries from number `u` on are free.
pub record Success (fs : Image) (dir u k : ℕ) (r : Image × Bool) : Type 0 where
  pub accepted : r.1 ≡ true
  pub next : r.0.next_free_cluster ≡ fs.next_free_cluster + k
  pub roomy : IsRoomy dir u r.0.buffer

-- Free entries stay free where the bytes stay.
pub IsRoomy-kept :
    (dir u : ℕ) (b b' : Memory)
    → ((i : ℕ) → place dir ≤ i → i < place dir + 4096 → b' i ≡ b i)
    → IsRoomy dir u b
    → IsRoomy dir u b'
IsRoomy-kept dir u b b' same h j above below =
    rw (same (place dir + 32 * j) (omega arith) (omega arith)) (h j above below)

free_entry_first :
    (b : Memory) (at left i u : ℕ)
    → i ≤ u
    → u < i + left
    → is_free b at u ≡ true
    → (k : ℕ) × (free_entry b at left i ≡ some k) × (k ≤ u)
unfolding free_entry
free_entry_first b at zero i u low high free = absurd (omega arith)
free_entry_first b at (suc left) i u low high free = elim (Bool-cases (is_free b at i)) [
  | inl here ↦ (i, rw here refl, low)
  | inr used ↦ elim (Bool-cases (i == u)) [
    | inl e ↦ let same : i ≡ u = (==_iff i u).0 e in absurd (ground (arith, rw same at used, free))
    | inr ne ↦
        let (k, run, le) = free_entry_first b at left (i + 1) u (ground arith) (omega arith) free in
        (k, rw used run, le)
  ]
]

module _ (fs : Image) (ok : IsBuilt fs) (dir u : ℕ) (low : 2 ≤ dir)
    (lt : dir < fs.next_free_cluster) (places : u < 128) where
  pub add-Success :
      (bytes : List ℕ)
      → length bytes ≡ 32
      → IsRoomy dir u fs.buffer
      → Success fs dir (u + 1) 0 (add_entry fs dir bytes)
  add-Success bytes len room =
      let at = cluster_at_lem fs dir ok.cluster_start low (omega (arith, ok.high)) in
      let (k, run, le) =
        free_entry_first fs.buffer (place dir) entry_count 0 u (omega arith) (omega arith)
          (room u (omega arith) places) in
      let found : free_entry fs.buffer (cluster_at fs dir) entry_count 0 ≡ some k = rw at run in
      rw (add_some fs dir bytes ok k found, at)
        (record {
          accepted = refl;
          next = omega arith;
          roomy = λ j above below.
              let same : write_at fs.buffer (place dir + 32 * k) bytes (place dir + 32 * j)
                  ≡ fs.buffer (place dir + 32 * j) =
                write_at-outside fs.buffer (place dir + 32 * k) bytes (place dir + 32 * j)
                  (inr (omega (arith, len, le, above))) in
              rw same (room j (omega arith) below);
        })
