-- ===== src/Mkfs/Walk.antt =====
-- tools/mkfs.c: what the loop of `process_directory` leaves in the image.
use ring_os.Prelude.{
  ℕ, ◌+◌, ◌*◌, ◌≤◌, ◌<◌, ◌≡◌, inl, inr, refl, ◌∙◌, List, arith, Bool, true, false, Option, none,
  some, Bool-cases, if◌then◌else◌,
}
use ring_os.Mkfs.{Image}
use ring_os.Mkfs.Alloc.{IsBuilt}
use ring_os.Mkfs.Frame.{place, Extends, Extends-refl, Extends-trans, stays_used}
use ring_os.Mkfs.Slots.{IsNamed}
use ring_os.Mkfs.Files.{Step, Step-refused, IsStorable, process_file_lem}
use ring_os.Mkfs.Directories.{Opened, add_directory_lem}
use ring_os.Mkfs.Stored.{HoldsDirectory, HoldsOpened, Holds, Holds-kept, Extends-Keeps}
use ring_os.Mkfs.Tree.{
  HostFile, Readings, Listing, is_hidden, is_too_long, entry_path, round, process_file,
  add_directory, process_entries,
}

abbrev pub IsStorableOpened : List ℕ → Option HostFile → Type 0
IsStorableOpened name none = Unit {0}
IsStorableOpened name (some f) = IsStorable name f

-- The names do not begin with a byte that marks an entry as free, and the files are not so large
-- that the count of their clusters wraps.
abbrev pub AllStorable : Listing → Type 0
AllStorable Listing.end = Unit {0}
AllStorable (Listing.file name f rest) =
    (is_hidden name ≡ false → IsStorableOpened name f) × AllStorable rest
AllStorable (Listing.directory name r entries rest) =
    (is_hidden name ≡ false → IsNamed name) × AllStorable entries × AllStorable rest
AllStorable (Listing.closed_directory name rest) = AllStorable rest
AllStorable (Listing.other name rest) = AllStorable rest
AllStorable (Listing.missing name rest) = AllStorable rest

-- What is kept while a new directory is filled.
Extends-inner :
    (dir c : ℕ) (fs fs2 g : Image)
    → 2 ≤ dir
    → dir < fs.next_free_cluster
    → fs.next_free_cluster ≤ c
    → Extends dir fs fs2
    → Extends c fs2 g
    → Extends dir fs g
Extends-inner dir c fs fs2 g low lt new one two = record {
  more = omega (arith, one.more, two.more);
  entries = λ k two_le h. two.entries k two_le (omega (arith, one.more)) ∙ one.entries k two_le h;
  bytes = λ i above h out.
      two.bytes i above (omega (arith, one.more)) (inl (omega arith)) ∙ one.bytes i above h out;
  used = λ j k hj hk u.
      two.bytes (place dir + 32 * j + k) (omega arith) (omega (arith, one.more)) (inl (omega arith))
      ∙ one.used j k hj hk u;
}

HoldsDirectory-inside :
    (fs2 g : Image) (lo dir : ℕ) (name : List ℕ) (r : Readings) (c : ℕ)
    → 2 ≤ dir
    → dir < c
    → Extends c fs2 g
    → HoldsDirectory fs2 lo dir name r c
    → HoldsDirectory g lo dir name r c
HoldsDirectory-inside fs2 g lo dir name r c low lt e h =
    let outer : (j k : ℕ)
        → j < 128
        → k < 32
        → g.buffer (place dir + 32 * j + k) ≡ fs2.buffer (place dir + 32 * j + k) =
      λ j k hj hk.
        e.bytes (place dir + 32 * j + k) (omega arith) (omega (arith, h.below))
          (inl (omega arith)) in
    record {
      slot = h.slot;
      above = h.above;
      below = omega (arith, h.below, e.more);
      in_directory = h.in_directory;
      entered = λ k hk. outer h.slot k h.in_directory hk ∙ h.entered k hk;
      used =
          stays_used fs2.buffer g.buffer (place dir) h.slot
            (outer h.slot 0 h.in_directory (omega arith)) h.used;
      ends = e.entries c (omega arith) h.below ∙ h.ends;
      self = λ k hk.
          let z : place c + 32 * 0 + k ≡ place c + k = omega arith in
          rw z at (e.used 0 k (omega arith) hk h.self_used) ∙ h.self k hk;
      self_used =
          stays_used fs2.buffer g.buffer (place c) 0
            (e.used 0 0 (omega arith) (omega arith) h.self_used) h.self_used;
      up = λ k hk. e.used 1 k (omega arith) hk h.up_used ∙ h.up k hk;
      up_used =
          stays_used fs2.buffer g.buffer (place c) 1
            (e.used 1 0 (omega arith) (omega arith) h.up_used) h.up_used;
    }

-- A round, and the rounds behind it.
pub round-Step :
    (fs : Image) (dir : ℕ) (promise : Image → Type 0) (path name : List ℕ) (step : Image × Bool)
    → IsBuilt fs
    → (is_hidden name ≡ false → Step fs dir promise step)
    → Step fs dir (λ g. is_hidden name ≡ false → promise g) (round fs path name step)
round-Step fs dir promise path name step ok h = elim (Bool-cases (is_hidden name)) [
  | inl hidden ↦ rw hidden (record {
    built = ok;
    extends = Extends-refl dir fs;
    kept_promise = λ _ no. absurd (ground arith);
  })
  | inr shown ↦ elim (Bool-cases (is_too_long (entry_path path name))) [
    | inl long ↦ rw (shown, long) (Step-refused fs dir (λ g. false ≡ false → promise g) ok)
    | inr short ↦
        let s = h shown in
        rw (shown, short)
          (record { built = s.built; extends = s.extends; kept_promise = λ e _. s.kept_promise e })
  ]
]

then-Step :
    (fs : Image) (dir : ℕ) (one two : Image → Type 0) (r behind : Image × Bool)
    → Step fs dir one r
    → Step r.0 dir two behind
    → ((g : Image) → Extends dir r.0 g → one r.0 → one g)
    → Step fs dir (λ g. one g × two g) (if r.1 then behind else r)
then-Step fs dir one two r behind s t keep = elim (Bool-cases r.1) [
  | inl done ↦ rw done (record {
    built = t.built;
    extends = Extends-trans dir fs r.0 behind.0 s.extends t.extends;
    kept_promise = λ e. (keep behind.0 t.extends (s.kept_promise done), t.kept_promise e);
  })
  | inr refused ↦ rw refused (record {
    built = s.built;
    extends = s.extends;
    kept_promise = λ e. absurd (ground (arith, refused, e));
  })
]

-- What the rounds of a directory promise together.
abbrev pub HoldsSub : ℕ → ℕ → List ℕ → Readings → Listing → Image → Type 0
HoldsSub lo dir name r entries g =
    (sub : ℕ) × HoldsDirectory g lo dir name r sub × Holds g (sub + 1) sub entries

-- The loop over the entries of a directory that was opened.
abbrev pub inside : Image → Option ℕ → List ℕ → Listing → Image × Bool
inside fs2 o path entries = elim o [
  | none ↦ (fs2, false)
  | some c ↦ process_entries fs2 path c entries
]

pub inside-Step :
    (fs : Image) (lo dir : ℕ) (name : List ℕ) (r : Readings) (fs2 : Image) (o : Option ℕ)
    → (path : List ℕ) (entries : Listing) → 2 ≤ dir
    → dir < lo
    → lo ≤ fs.next_free_cluster
    → Opened fs lo dir name r (fs2, o)
    → ((c : ℕ)
        → 2 ≤ c
        → c + 1 ≤ fs2.next_free_cluster
        → Step fs2 c (λ g. Holds g (c + 1) c entries) (process_entries fs2 path c entries))
    → Step fs dir (HoldsSub lo dir name r entries) (inside fs2 o path entries)
inside-Step fs lo dir name r fs2 none path entries low lt le op ih = record {
  built = op.built;
  extends = op.extends;
  kept_promise = λ h. absurd (ground arith);
}
inside-Step fs lo dir name r fs2 (some c) path entries low lt le op ih =
    let (new, next, here) = op.opened c refl in
    let s = ih c (omega (arith, new)) (omega (arith, next)) in
    record {
      built = s.built;
      extends =
          Extends-inner dir c fs fs2 _ low (omega arith) (omega (arith, new)) op.extends s.extends;
      kept_promise = λ h. (
        c,
        HoldsDirectory-inside fs2 _ lo dir name r c low (omega (arith, new)) s.extends here,
        s.kept_promise h,
      );
    }

-- What an image holds of one entry is kept by the rounds behind it.
keep_entry :
    (lo dir : ℕ) (a g : Image) (l : Listing)
    → 2 ≤ dir
    → dir < lo
    → Extends dir a g
    → Holds a lo dir l
    → Holds g lo dir l
keep_entry lo dir a g l low lt e =
    Holds-kept lo dir a g l (omega arith) (Extends-Keeps lo dir a g low lt e)

pub file-Step :
    (fs : Image) (ok : IsBuilt fs) (dir lo : ℕ) (f : Option HostFile) (name : List ℕ)
    → 2 ≤ dir
    → dir < lo
    → lo ≤ fs.next_free_cluster
    → IsStorableOpened name f
    → Step fs dir (λ g. HoldsOpened g lo dir name f) (process_file fs f name dir)
unfolding process_file
file-Step fs ok dir lo none name low lt le s =
    Step-refused fs dir (λ g. HoldsOpened g lo dir name none) ok
file-Step fs ok dir lo (some f) name low lt le s = process_file_lem fs ok dir lo low lt le f name s

-- A round and the rounds behind it, for an entry with the given promise.
entries-Step :
    (fs : Image) (ok : IsBuilt fs) (path : List ℕ) (dir lo : ℕ) (rest : Listing) (name : List ℕ)
    → (promise : Image → Type 0) (step : Image × Bool) → lo ≤ fs.next_free_cluster
    → (is_hidden name ≡ false → Step fs dir promise step)
    → ((g : Image)
        → IsBuilt g
        → lo ≤ g.next_free_cluster
        → Step g dir (λ h. Holds h lo dir rest) (process_entries g path dir rest))
    → ((a g : Image)
        → Extends dir a g
        → (is_hidden name ≡ false → promise a)
        → is_hidden name ≡ false
        → promise g)
    → let r = round fs path name step in
      Step fs dir
        (λ g. (is_hidden name ≡ false → promise g) × Holds g lo dir rest)
        (if r.1 then process_entries r.0 path dir rest else r)
entries-Step fs ok path dir lo rest name promise step le s ih keep =
    let r = round fs path name step in
    let here = round-Step fs dir promise path name step ok s in
    then-Step fs dir (λ g. is_hidden name ≡ false → promise g) (λ g. Holds g lo dir rest) r
      (process_entries r.0 path dir rest) here
      (ih r.0 here.built (omega (arith, here.extends.more))) (λ g e p. keep r.0 g e p)

pub special-Step : (fs : Image) (dir : ℕ) → IsBuilt fs → Step fs dir (λ g. Unit {0}) (fs, true)
special-Step fs dir ok = record {
  built = ok;
  extends = Extends-refl dir fs;
  kept_promise = λ _. tt;
}

behind_special :
    (fs : Image) (dir : ℕ) (one two : Image → Type 0) (r : Image × Bool)
    → Step fs dir (λ g. one g × two g) r
    → Step fs dir two r
behind_special fs dir one two r s = record {
  built = s.built;
  extends = s.extends;
  kept_promise = λ e. (s.kept_promise e).1;
}

-- The loop of `process_directory`, on a well-formed image and a directory in a cluster that was
-- taken, keeps the image well formed and all that it has, whether it is refused or not. When it
-- is not, the image holds the directory: each file that is not hidden with its entry, its chain and
-- its bytes, each directory with its entry and all that it has in turn, and all that
-- is not hidden could be read. The names do not begin with a byte that marks an entry as free,
-- `d_name` of a file has at least 11 bytes, and the size of each file, as a `uint32_t`, is below
-- 2^32 - 4095.
pub process_entries_lem :
    (fs : Image) (ok : IsBuilt fs) (path : List ℕ) (dir lo : ℕ) (l : Listing)
    → 2 ≤ dir
    → dir < lo
    → lo ≤ fs.next_free_cluster
    → AllStorable l
    → Step fs dir (λ g. Holds g lo dir l) (process_entries fs path dir l)
unfolding process_entries
process_entries_lem fs ok path dir lo Listing.end low lt le s = record {
  built = ok;
  extends = Extends-refl dir fs;
  kept_promise = λ _. tt;
}
process_entries_lem fs ok path dir lo (Listing.file name f rest) low lt le (s, ss) =
    entries-Step fs ok path dir lo rest name (λ g. HoldsOpened g lo dir name f)
      (process_file fs f name dir) le (λ shown. file-Step fs ok dir lo f name low lt le (s shown))
      (λ g b m. process_entries_lem g b path dir lo rest low lt m ss)
      (λ a g e p. (keep_entry lo dir a g (Listing.file name f Listing.end) low lt e (p, tt)).0)
process_entries_lem fs ok path dir lo (Listing.directory name stamps entries rest) low lt le
      (s, inner, ss) =
    let o = add_directory fs stamps name dir in
    let deeper = entry_path path name in
    entries-Step fs ok path dir lo rest name (HoldsSub lo dir name stamps entries)
      (inside o.0 o.1 deeper entries) le
      (λ shown.
        let op = add_directory_lem fs ok dir lo low lt le stamps name shown (s shown) in
        inside-Step fs lo dir name stamps o.0 o.1 deeper entries low lt le op (λ c two room.
          process_entries_lem o.0 op.built deeper c (c + 1) entries two (omega arith) room inner))
      (λ g b m. process_entries_lem g b path dir lo rest low lt m ss)
      (λ a g e p.
        (keep_entry lo dir a g (Listing.directory name stamps entries Listing.end) low lt e
          (p, tt)).0)
process_entries_lem fs ok path dir lo (Listing.closed_directory name rest) low lt le ss =
    entries-Step fs ok path dir lo rest name (λ g. ⊥) (fs, false) le
      (λ shown. Step-refused fs dir (λ g. ⊥) ok)
      (λ g b m. process_entries_lem g b path dir lo rest low lt m ss) (λ a g e p. p)
process_entries_lem fs ok path dir lo (Listing.other name rest) low lt le ss =
    behind_special fs dir (λ g. is_hidden name ≡ false → Unit {0}) (λ g. Holds g lo dir rest) _
      (entries-Step fs ok path dir lo rest name (λ g. Unit {0}) (fs, true) le
        (λ shown. special-Step fs dir ok)
        (λ g b m. process_entries_lem g b path dir lo rest low lt m ss) (λ a g e p. p))
process_entries_lem fs ok path dir lo (Listing.missing name rest) low lt le ss =
    entries-Step fs ok path dir lo rest name (λ g. ⊥) (fs, false) le
      (λ shown. Step-refused fs dir (λ g. ⊥) ok)
      (λ g b m. process_entries_lem g b path dir lo rest low lt m ss) (λ a g e p. p)
