-- ===== src/Mkfs/Stored.antt =====
-- tools/mkfs.c: what it means that an image holds a directory of the host.
use ring_os.Prelude.{
  ℕ, ◌+◌, ◌*◌, ◌%◌, ◌≤◌, ◌<◌, ◌≡◌, inr, ◌∙◌, List, [], ◌∷◌, arith, get_or, u32_mod, false, Option,
  none, some, length, take,
}
use ring_os.Fat.Entry.{file_entry}
use ring_os.Mkfs.{Image}
use ring_os.Mkfs.Alloc.{link}
use ring_os.Mkfs.Entries.{text, is_free, create_directory_entry}
use ring_os.Mkfs.Frame.{place, entry, Extends}
use ring_os.Mkfs.Slots.{IsEntry}
use ring_os.Mkfs.Tree.{HostFile, Readings, Listing, clusters_needed, is_hidden}

-- The size of a file, as `ftell` gives it to a `uint32_t`.
abbrev pub file_length : HostFile → ℕ
file_length f = f.tell % u32_mod

-- The directory in cluster `dir` has an entry for the file. Its clusters, from `first` on, are
-- linked into a chain and hold the file's bytes. `lo` bounds the clusters from below.
pub record HoldsFile (fs : Image) (lo dir : ℕ) (name : List ℕ) (f : HostFile) : Type 0 where
  pub first : ℕ
  pub slot : ℕ
  pub above : lo ≤ first
  pub below : first + clusters_needed (file_length f) ≤ fs.next_free_cluster
  pub in_directory : slot < 128
  pub entered :
      IsEntry fs.buffer (place dir + 32 * slot) (file_entry (take 11 name) first (file_length f))
  pub used : is_free fs.buffer (place dir) slot ≡ false
  pub linked :
      (j : ℕ)
      → j < clusters_needed (file_length f)
      → entry fs (first + j) ≡ link first (clusters_needed (file_length f)) j
  pub large : file_length f ≤ clusters_needed (file_length f) * 4096
  pub complete : file_length f ≤ length f.content
  pub stored : (k : ℕ) → k < file_length f → fs.buffer (place first + k) ≡ get_or f.content k 0

-- The directory in cluster `dir` has an entry for the directory in cluster `sub`, which has the
-- entries for itself and for its parent.
pub record HoldsDirectory (fs : Image) (lo dir : ℕ) (name : List ℕ) (r : Readings) (sub : ℕ)
    : Type 0 where
  pub slot : ℕ
  pub above : lo ≤ sub
  pub below : sub < fs.next_free_cluster
  pub in_directory : slot < 128
  pub entered :
      IsEntry fs.buffer
        (place dir + 32 * slot)
        (create_directory_entry r.parent (text name) sub 0 0x10)
  pub used : is_free fs.buffer (place dir) slot ≡ false
  pub ends : entry fs sub ≡ 0x0FFFFFFF
  pub self : IsEntry fs.buffer (place sub) (create_directory_entry r.self (b'.' ∷ []) sub 0 0x10)
  pub self_used : is_free fs.buffer (place sub) 0 ≡ false
  pub up :
      IsEntry fs.buffer (place sub + 32) (create_directory_entry r.up (b'.' ∷ b'.' ∷ []) dir 0 0x10)
  pub up_used : is_free fs.buffer (place sub) 1 ≡ false

abbrev pub HoldsOpened : Image → ℕ → ℕ → List ℕ → Option HostFile → Type 0
HoldsOpened fs lo dir name none = ⊥
HoldsOpened fs lo dir name (some f) = HoldsFile fs lo dir name f

-- The image holds all that `readdir` gives, but for the hidden entries and the special files. What
-- cannot be read is not there.
abbrev pub Holds : Image → ℕ → ℕ → Listing → Type 0
Holds fs lo dir Listing.end = Unit {0}
Holds fs lo dir (Listing.file name f rest) =
    (is_hidden name ≡ false → HoldsOpened fs lo dir name f) × Holds fs lo dir rest
Holds fs lo dir (Listing.directory name r entries rest) =
    (is_hidden name ≡ false
      → (sub : ℕ) × HoldsDirectory fs lo dir name r sub × Holds fs (sub + 1) sub entries)
    × Holds fs lo dir rest
Holds fs lo dir (Listing.closed_directory name rest) =
    (is_hidden name ≡ false → ⊥) × Holds fs lo dir rest
Holds fs lo dir (Listing.other name rest) = Holds fs lo dir rest
Holds fs lo dir (Listing.missing name rest) = (is_hidden name ≡ false → ⊥) × Holds fs lo dir rest

-- What an image holds is still there in one that keeps its clusters from `lo` on, their chains and
-- the used entries of the directory.
pub record Keeps (lo dir : ℕ) (fs fs' : Image) : Type 0 where
  pub more : fs.next_free_cluster ≤ fs'.next_free_cluster
  pub entries : (c : ℕ) → 2 ≤ c → c < fs.next_free_cluster → entry fs' c ≡ entry fs c
  pub bytes : (i : ℕ) → place lo ≤ i → i < place fs.next_free_cluster → fs'.buffer i ≡ fs.buffer i
  pub used :
      (j k : ℕ)
      → j < 128
      → k < 32
      → is_free fs.buffer (place dir) j ≡ false
      → fs'.buffer (place dir + 32 * j + k) ≡ fs.buffer (place dir + 32 * j + k)

pub Extends-Keeps :
    (lo dir : ℕ) (fs fs' : Image) → 2 ≤ dir → dir < lo → Extends dir fs fs' → Keeps lo dir fs fs'
Extends-Keeps lo dir fs fs' low lt e = record {
  more = e.more;
  entries = e.entries;
  bytes = λ i above below. e.bytes i (omega arith) below (inr (omega arith));
  used = e.used;
}

-- A directory in a cluster that is kept is kept.
Keeps-inner :
    (lo dir sub : ℕ) (fs fs' : Image)
    → 2 ≤ lo
    → lo ≤ sub
    → sub < fs.next_free_cluster
    → Keeps lo dir fs fs'
    → Keeps (sub + 1) sub fs fs'
Keeps-inner lo dir sub fs fs' two above below k = record {
  more = k.more;
  entries = k.entries;
  bytes = λ i low high. k.bytes i (omega arith) high;
  used = λ j n hj hn u. k.bytes (place sub + 32 * j + n) (omega arith) (omega arith);
}

module _ (lo dir : ℕ) (fs fs' : Image) (two : 2 ≤ lo) (kept : Keeps lo dir fs fs') where
  used-kept :
      (j : ℕ)
      → j < 128
      → is_free fs.buffer (place dir) j ≡ false
      → is_free fs'.buffer (place dir) j ≡ false
  used-kept j h u =
      let z : place dir + 32 * j + 0 ≡ place dir + 32 * j = omega arith in
      rw (rw z at (kept.used j 0 h (omega arith) u)) u

  HoldsFile-kept :
      (name : List ℕ) (f : HostFile) → HoldsFile fs lo dir name f → HoldsFile fs' lo dir name f
  HoldsFile-kept name f h = record {
    first = h.first;
    slot = h.slot;
    above = h.above;
    below = omega (arith, h.below, kept.more);
    in_directory = h.in_directory;
    entered = λ k lt. kept.used h.slot k h.in_directory lt h.used ∙ h.entered k lt;
    used = used-kept h.slot h.in_directory h.used;
    linked = λ j lt.
        kept.entries (h.first + j) (omega (arith, h.above)) (omega (arith, h.below))
        ∙ h.linked j lt;
    large = h.large;
    complete = h.complete;
    stored = λ k lt.
        kept.bytes (place h.first + k) (omega (arith, h.above))
          (omega (arith, h.below, h.large, h.above))
        ∙ h.stored k lt;
  }

  HoldsDirectory-kept :
      (name : List ℕ) (r : Readings) (sub : ℕ)
      → HoldsDirectory fs lo dir name r sub
      → HoldsDirectory fs' lo dir name r sub
  HoldsDirectory-kept name r sub h =
      let inner = Keeps-inner lo dir sub fs fs' two h.above h.below kept in
      let same : (k : ℕ) → k < 64 → fs'.buffer (place sub + k) ≡ fs.buffer (place sub + k) = λ k lt.
        kept.bytes (place sub + k) (omega (arith, h.above)) (omega (arith, h.above, h.below)) in
      record {
        slot = h.slot;
        above = h.above;
        below = omega (arith, h.below, kept.more);
        in_directory = h.in_directory;
        entered = λ k lt. kept.used h.slot k h.in_directory lt h.used ∙ h.entered k lt;
        used = used-kept h.slot h.in_directory h.used;
        ends = kept.entries sub (omega (arith, h.above)) h.below ∙ h.ends;
        self = λ k lt. same k (omega (arith, lt)) ∙ h.self k lt;
        self_used = rw (same 0 (omega arith)) h.self_used;
        up = λ k lt. shifted fs fs' (place sub) k (same (32 + k) (omega (arith, lt))) ∙ h.up k lt;
        up_used = rw (same 32 (omega arith)) h.up_used;
      }
    where
      shifted :
          (a b : Image) (at k : ℕ)
          → b.buffer (at + (32 + k)) ≡ a.buffer (at + (32 + k))
          → b.buffer (at + 32 + k) ≡ a.buffer (at + 32 + k)
      shifted a b at k e = let z : at + 32 + k ≡ at + (32 + k) = omega arith in rw z e

-- An image that keeps what another holds holds it too.
pub Holds-kept :
    (lo dir : ℕ) (fs fs' : Image) (l : Listing)
    → 2 ≤ lo
    → Keeps lo dir fs fs'
    → Holds fs lo dir l
    → Holds fs' lo dir l
Holds-kept lo dir fs fs' Listing.end two kept h = tt
Holds-kept lo dir fs fs' (Listing.file name none rest) two kept (h, t) =
    (h, Holds-kept lo dir fs fs' rest two kept t)
Holds-kept lo dir fs fs' (Listing.file name (some f) rest) two kept (h, t) = (
  λ shown. HoldsFile-kept lo dir fs fs' two kept name f (h shown),
  Holds-kept lo dir fs fs' rest two kept t,
)
Holds-kept lo dir fs fs' (Listing.directory name r entries rest) two kept (h, t) = (
  λ shown.
      let (sub, here, inside) = h shown in
      (
        sub,
        HoldsDirectory-kept lo dir fs fs' two kept name r sub here,
        Holds-kept (sub + 1) sub fs fs' entries (omega arith)
            (Keeps-inner lo dir sub fs fs' two here.above here.below kept) inside,
      ),
  Holds-kept lo dir fs fs' rest two kept t,
)
Holds-kept lo dir fs fs' (Listing.closed_directory name rest) two kept (h, t) =
    (h, Holds-kept lo dir fs fs' rest two kept t)
Holds-kept lo dir fs fs' (Listing.other name rest) two kept t =
    Holds-kept lo dir fs fs' rest two kept t
Holds-kept lo dir fs fs' (Listing.missing name rest) two kept (h, t) =
    (h, Holds-kept lo dir fs fs' rest two kept t)
