-- ===== src/Mkfs/Slots.antt =====
-- tools/mkfs.c: what storing an entry in a directory does.
use ring_os.Prelude.{
  ℕ, zero, suc, ◌+◌, ◌*◌, ◌≤◌, ◌<◌, ◌≡◌, ◌≢◌, ◌⊎◌, inl, inr, refl, List, arith, get_or, Bool, true,
  false, none, some, length, Bool-cases, Option-cases,
}
use ring_os.Fat.Dir.{Memory}
use ring_os.Mkfs.{Image, cluster_at}
use ring_os.Mkfs.Buffer.{write_at-inside, write_at-outside}
use ring_os.Mkfs.Alloc.{IsBuilt}
use ring_os.Mkfs.Entries.{is_free, free_entry}
use ring_os.Mkfs.Tree.{add_entry, entry_count}
use ring_os.Mkfs.Frame.{
  place, cluster_at_lem, with_bytes, with_bytes-IsBuilt, Extends, Extends-refl, Extends-slot,
}

free_entry_lem :
    (b : Memory) (at left i k : ℕ)
    → free_entry b at left i ≡ some k
    → (i ≤ k) × (k < i + left) × (is_free b at k ≡ true)
unfolding free_entry
free_entry_lem b at zero i k e = ground arith
free_entry_lem b at (suc left) i k e = elim (Bool-cases (is_free b at i)) [
  | inl free ↦ ground arith
  | inr used ↦
      let (low, high, free) = free_entry_lem b at left (i + 1) k (rw used at e) in
      (omega (arith, low), omega (arith, high), free)
]

-- The entry's bytes stand at an offset.
abbrev pub IsEntry : Memory → ℕ → List ℕ → Type 0
IsEntry b at bytes = (k : ℕ) → k < 32 → b (at + k) ≡ get_or bytes k 0

-- A name that does not mark its entry as free.
abbrev pub IsNamed : List ℕ → Type 0
IsNamed bytes = (get_or bytes 0 0 ≢ 0) × (get_or bytes 0 0 ≢ 0xE5)

pub IsEntry-used :
    (b : Memory) (at j : ℕ) (bytes : List ℕ)
    → IsEntry b (at + 32 * j) bytes
    → IsNamed bytes
    → is_free b at j ≡ false
IsEntry-used b at j bytes e (not_end, not_deleted) =
    let z : at + 32 * j + 0 ≡ at + 32 * j = omega arith in
    let first : b (at + 32 * j) ≡ get_or bytes 0 0 = rw z at (e 0 (omega arith)) in
    rw first (ground arith)

-- What `add_entry` leaves behind.
pub record Added (fs : Image) (dir : ℕ) (bytes : List ℕ) (r : Image × Bool) : Type 0 where
  pub built : IsBuilt r.0
  pub extends : Extends dir fs r.0
  pub next : r.0.next_free_cluster ≡ fs.next_free_cluster
  pub outside : (i : ℕ) → (i < place dir) ⊎ (place dir + 4096 ≤ i) → r.0.buffer i ≡ fs.buffer i
  pub entered : r.1 ≡ true → (i : ℕ) × (i < 128) × IsEntry r.0.buffer (place dir + 32 * i) bytes

module _ (fs : Image) (dir : ℕ) (bytes : List ℕ) (ok : IsBuilt fs) where
  add_full :
      free_entry fs.buffer (cluster_at fs dir) entry_count 0 ≡ none
      → add_entry fs dir bytes ≡ (fs, false)
  unfolding add_entry
  add_full e = rw (e, add_entry) refl

  pub add_some :
      (i : ℕ)
      → free_entry fs.buffer (cluster_at fs dir) entry_count 0 ≡ some i
      → add_entry fs dir bytes ≡ (with_bytes fs (cluster_at fs dir + 32 * i) bytes, true)
  unfolding add_entry
  add_some i e = rw (e, add_entry) refl

  Added-some :
      (i : ℕ)
      → 2 ≤ dir
      → dir < fs.next_free_cluster
      → length bytes ≡ 32
      → i < 128
      → is_free fs.buffer (place dir) i ≡ true
      → Added fs dir bytes (with_bytes fs (place dir + 32 * i) bytes, true)
  Added-some i low lt len small free = record {
    built = with_bytes-IsBuilt fs (place dir + 32 * i) bytes ok (omega arith) (omega arith);
    extends = Extends-slot dir fs i bytes low ok.high small len free;
    next = refl;
    outside = λ j out. write_at-outside fs.buffer (place dir + 32 * i) bytes j (ground arith);
    entered = λ _. (
      i,
      small,
      λ k h. write_at-inside fs.buffer (place dir + 32 * i) bytes k (omega (arith, len, h)),
    );
  }

  -- On a well-formed image and a directory in a cluster that was taken, storing an entry keeps the
  -- image well formed and all that it has; when it is not refused, the entry stands in one of
  -- the directory's 128 places.
  pub add_entry_lem :
      2 ≤ dir
      → dir < fs.next_free_cluster
      → length bytes ≡ 32
      → Added fs dir bytes (add_entry fs dir bytes)
  add_entry_lem low lt len =
      let at = cluster_at_lem fs dir ok.cluster_start low (omega (arith, lt, ok.high)) in
      elim (Option-cases (free_entry fs.buffer (cluster_at fs dir) entry_count 0)) [
        | inl none_free ↦ rw (add_full none_free) (record {
          built = ok;
          extends = Extends-refl dir fs;
          next = refl;
          outside = λ i out. refl;
          entered = λ h. absurd (ground arith);
        })
        | inr (i, found) ↦
            let f = free_entry_lem fs.buffer (cluster_at fs dir) entry_count 0 i found in
            rw (add_some i found, at) (Added-some i low lt len (omega (arith, f.1)) (rw at at f.2))
      ]
