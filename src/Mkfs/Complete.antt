-- ===== src/Mkfs/Complete.antt =====
-- tools/mkfs.c: which directories of the host get an image.
use mathlib.Core.Path.{subst}
use ring_os.Prelude.{
  ℕ, ◌+◌, ◌≤◌, ◌<◌, ◌≡◌, inl, inr, refl, sym, ap, List, arith, Bool, false, Option, none, some,
  length, Bool-cases, if◌then◌else◌,
}
use ring_os.Mkfs.{Image}
use ring_os.Mkfs.Alloc.{cluster_limit, IsBuilt}
use ring_os.Mkfs.Accept.{file-Success, directory-Ready}
use ring_os.Mkfs.Directories.{add_directory_lem}
use ring_os.Mkfs.Files.{Step}
use ring_os.Mkfs.Room.{IsRoomy, IsRoomy-kept, Success}
use ring_os.Mkfs.Slots.{IsNamed}
use ring_os.Mkfs.Stored.{file_length, Holds, HoldsOpened}
use ring_os.Mkfs.Tree.{
  HostFile, Readings, Listing, clusters_needed, is_hidden, is_too_long, entry_path, round,
  process_file, add_directory, process_entries,
}
use ring_os.Mkfs.Walk.{
  IsStorableOpened, AllStorable, process_entries_lem, inside, inside-Step, HoldsSub, round-Step,
  file-Step,
}

-- A part that only an entry that is not hidden has.
abbrev pub shown_part : List ℕ → ℕ → ℕ
shown_part name n = if is_hidden name then 0 else n

abbrev pub needed_for : Option HostFile → ℕ
needed_for none = 0
needed_for (some f) = clusters_needed (file_length f)

-- The clusters that the entries take, and the places in their directory.
abbrev pub demand : Listing → ℕ
demand Listing.end = 0
demand (Listing.file name f rest) = shown_part name (needed_for f) + demand rest
demand (Listing.directory name r entries rest) = shown_part name (1 + demand entries) + demand rest
demand (Listing.closed_directory name rest) = demand rest
demand (Listing.other name rest) = demand rest
demand (Listing.missing name rest) = demand rest

abbrev pub places : Listing → ℕ
places Listing.end = 0
places (Listing.file name f rest) = shown_part name 1 + places rest
places (Listing.directory name r entries rest) = shown_part name 1 + places rest
places (Listing.closed_directory name rest) = places rest
places (Listing.other name rest) = places rest
places (Listing.missing name rest) = places rest

-- `fread` gives as many bytes as `ftell` says.
abbrev pub IsComplete : Option HostFile → Type 0
IsComplete none = ⊥
IsComplete (some f) = file_length f ≤ length f.content

-- The paths are short enough, all that is not hidden can be read, and no directory has more than
-- 126 entries.
abbrev pub IsReadable : List ℕ → Listing → Type 0
IsReadable path Listing.end = Unit {0}
IsReadable path (Listing.file name f rest) =
    (is_hidden name ≡ false → (is_too_long (entry_path path name) ≡ false) × IsComplete f)
    × IsReadable path rest
IsReadable path (Listing.directory name r entries rest) =
    (is_hidden name ≡ false
      → (is_too_long (entry_path path name) ≡ false)
        × (places entries ≤ 126)
        × IsReadable (entry_path path name) entries)
    × IsReadable path rest
IsReadable path (Listing.closed_directory name rest) =
    (is_hidden name ≡ false → ⊥) × IsReadable path rest
IsReadable path (Listing.other name rest) =
    (is_hidden name ≡ false → is_too_long (entry_path path name) ≡ false) × IsReadable path rest
IsReadable path (Listing.missing name rest) = (is_hidden name ≡ false → ⊥) × IsReadable path rest

-- A round, and the rounds behind it.
round-Success :
    (fs : Image) (dir u m n : ℕ) (path name : List ℕ) (step : Image × Bool)
    → IsRoomy dir u fs.buffer
    → (is_hidden name ≡ false
        → (is_too_long (entry_path path name) ≡ false) × Success fs dir (u + m) n step)
    → Success fs dir (u + shown_part name m) (shown_part name n) (round fs path name step)
round-Success fs dir u m n path name step room h = elim (Bool-cases (is_hidden name)) [
  | inl hidden ↦ rw hidden (record {
    accepted = refl;
    next = omega arith;
    roomy = λ j above below. room j (omega arith) below;
  })
  | inr shown ↦ let (short, s) = h shown in rw (shown, short) s
]

then-Success :
    (fs : Image) (dir u v k l : ℕ) (r behind : Image × Bool)
    → Success fs dir u k r
    → Success r.0 dir v l behind
    → Success fs dir v (k + l) (if r.1 then behind else r)
then-Success fs dir u v k l r behind s t =
    rw s.accepted
      (record { accepted = t.accepted; next = omega (arith, s.next, t.next); roomy = t.roomy })

shown_part_lem : (name : List ℕ) (n : ℕ) → is_hidden name ≡ false → shown_part name n ≡ n
shown_part_lem name n shown = ap (λ (b : Bool). if b then 0 else n) shown

-- What the rounds behind an entry need is what the whole needs, less the entry's part.
entries-Success :
    (fs : Image) (ok : IsBuilt fs) (path : List ℕ) (dir lo u m n : ℕ) (rest : Listing)
    → (name : List ℕ) (promise : Image → Type 0) (step : Image × Bool) → lo ≤ fs.next_free_cluster
    → (is_hidden name ≡ false → Step fs dir promise step)
    → Success fs dir (u + shown_part name m) (shown_part name n) (round fs path name step)
    → ((g : Image)
        → IsBuilt g
        → lo ≤ g.next_free_cluster
        → g.next_free_cluster ≡ fs.next_free_cluster + shown_part name n
        → IsRoomy dir (u + shown_part name m) g.buffer
        → Success g dir
            (u + shown_part name m + places rest)
            (demand rest)
            (process_entries g path dir rest))
    → let r = round fs path name step in
      Success fs dir
        (u + (shown_part name m + places rest))
        (shown_part name n + demand rest)
        (if r.1 then process_entries r.0 path dir rest else r)
entries-Success fs ok path dir lo u m n rest name promise step le s here ih =
    let r = round fs path name step in
    let b = round-Step fs dir promise path name step ok s in
    let sum : u + (shown_part name m + places rest) ≡ u + shown_part name m + places rest =
      omega arith in
    rw sum (
      then-Success fs dir (u + shown_part name m) (u + shown_part name m + places rest)
        (shown_part name n) (demand rest) r (process_entries r.0 path dir rest) here
        (ih r.0 b.built (omega (arith, b.extends.more)) here.next here.roomy))

-- A directory that is filled, when its entries are.
inside-Success :
    (fs : Image) (lo dir u : ℕ) (name : List ℕ) (r : Readings) (path : List ℕ) (entries : Listing)
    → 2 ≤ dir
    → dir < fs.next_free_cluster
    → (fs2 : Image) (c : ℕ) → fs2.next_free_cluster ≡ fs.next_free_cluster + 1
    → c ≡ fs.next_free_cluster
    → IsRoomy dir (u + 1) fs2.buffer
    → Step fs2 c (λ g. Holds g (c + 1) c entries) (process_entries fs2 path c entries)
    → Success fs2 c (2 + places entries) (demand entries) (process_entries fs2 path c entries)
    → Success fs dir (u + 1) (1 + demand entries) (process_entries fs2 path c entries)
inside-Success fs lo dir u name r path entries low lt fs2 c next new room s t = record {
  accepted = t.accepted;
  next = omega (arith, t.next, next);
  roomy =
      IsRoomy-kept dir (u + 1) fs2.buffer (process_entries fs2 path c entries).0.buffer
        (λ i above below.
          s.extends.bytes i (omega (arith, above)) (omega (arith, below, next))
            (inl (omega (arith, below, new))))
        room;
}

round_file-Success :
    (fs : Image) (ok : IsBuilt fs) (path : List ℕ) (dir lo u : ℕ) (f : Option HostFile)
    → (name : List ℕ) → 2 ≤ dir
    → dir < lo
    → lo ≤ fs.next_free_cluster
    → (is_hidden name ≡ false → IsStorableOpened name f)
    → (is_hidden name ≡ false → (is_too_long (entry_path path name) ≡ false) × IsComplete f)
    → IsRoomy dir u fs.buffer
    → u + shown_part name 1 ≤ 128
    → fs.next_free_cluster + shown_part name (needed_for f) < cluster_limit
    → Success fs dir
        (u + shown_part name 1)
        (shown_part name (needed_for f))
        (round fs path name (process_file fs f name dir))
round_file-Success fs ok path dir lo u none name low lt le s h room free fits =
    round-Success fs dir u 1 0 path name (process_file fs none name dir) room
      (λ shown. absurd ((h shown).1))
round_file-Success fs ok path dir lo u (some f) name low lt le s h room free fits =
    round-Success fs dir u 1 (clusters_needed (file_length f)) path name
      (process_file fs (some f) name dir) room
      (λ shown. (
        (h shown).0,
        file-Success fs ok dir lo u low lt le (omega (arith, free, shown_part_lem name 1 shown))
            room f name (s shown) (h shown).1
            (omega (arith, fits, shown_part_lem name (clusters_needed (file_length f)) shown)),
      ))

-- A directory of the host, without a condition on the room.
directory-Step :
    (fs : Image) (ok : IsBuilt fs) (dir lo : ℕ) (r : Readings) (path name : List ℕ)
    → (entries : Listing) → 2 ≤ dir
    → dir < lo
    → lo ≤ fs.next_free_cluster
    → is_hidden name ≡ false
    → IsNamed name
    → AllStorable entries
    → let o = add_directory fs r name dir in
      Step fs dir (HoldsSub lo dir name r entries) (inside o.0 o.1 path entries)
directory-Step fs ok dir lo r path name entries low lt le shown named inner =
    let o = add_directory fs r name dir in
    let op = add_directory_lem fs ok dir lo low lt le r name shown named in
    inside-Step fs lo dir name r o.0 o.1 path entries low lt le op (λ c two room.
      process_entries_lem o.0 op.built path c (c + 1) entries two (omega arith) room inner)

-- On a well-formed image and a directory in a cluster that was taken: entries of the host that can
-- be read, with paths of less than 1024 bytes and at most 126 entries in each directory below, and
-- that fit into the free places of the directory in cluster `dir` and into the clusters up to
-- number 8170 (the first one that was not taken and the ones the entries need add up to less than
-- 8172), are stored: the loop returns 0. It takes as many clusters as the entries need, one for
-- each directory, and leaves the places behind the entries free. The names do not begin with a
-- byte that marks an entry as free, `d_name` of a file has at least 11 bytes, and the size of each
-- file, as a `uint32_t`, is below 2^32 - 4095.
pub process_entries-Success :
    (fs : Image) (ok : IsBuilt fs) (path : List ℕ) (dir lo u : ℕ) (l : Listing)
    → 2 ≤ dir
    → dir < lo
    → lo ≤ fs.next_free_cluster
    → AllStorable l
    → IsReadable path l
    → IsRoomy dir u fs.buffer
    → u + places l ≤ 128
    → fs.next_free_cluster + demand l < cluster_limit
    → Success fs dir (u + places l) (demand l) (process_entries fs path dir l)
unfolding process_entries
process_entries-Success fs ok path dir lo u Listing.end low lt le s h room free fits = record {
  accepted = refl;
  next = omega arith;
  roomy = λ j above below. room j (omega (arith, above)) below;
}
process_entries-Success fs ok path dir lo u (Listing.file name f rest) low lt le (s, ss) (h, hs)
      room free fits =
    entries-Success fs ok path dir lo u 1 (needed_for f) rest name
      (λ g. HoldsOpened g lo dir name f) (process_file fs f name dir) le
      (λ shown. file-Step fs ok dir lo f name low lt le (s shown))
      (round_file-Success fs ok path dir lo u f name low lt le s h room (omega (arith, free))
        (omega (arith, fits)))
      (λ g b m next r2.
        process_entries-Success g b path dir lo (u + shown_part name 1) rest low lt m ss hs r2
          (omega (arith, free)) (omega (arith, fits, next)))
process_entries-Success fs ok path dir lo u (Listing.directory name r entries rest) low lt le
      (s, inner, ss) (h, hs) room free fits =
    let o = add_directory fs r name dir in
    let deeper = entry_path path name in
    entries-Success fs ok path dir lo u 1 (1 + demand entries) rest name
      (HoldsSub lo dir name r entries) (inside o.0 o.1 deeper entries) le
      (λ shown. directory-Step fs ok dir lo r deeper name entries low lt le shown (s shown) inner)
      (round-Success fs dir u 1 (1 + demand entries) path name (inside o.0 o.1 deeper entries) room
        (λ shown.
          let (short, few, readable) = h shown in
          let one = shown_part_lem name 1 shown in
          let all = shown_part_lem name (1 + demand entries) shown in
          let op = add_directory_lem fs ok dir lo low lt le r name shown (s shown) in
          let new =
            directory-Ready fs ok dir lo u low lt le (omega (arith, free, one)) room r name shown
              (s shown) (omega (arith, fits, all)) in
          let c = fs.next_free_cluster in
          let run : inside o.0 o.1 deeper entries ≡ process_entries o.0 deeper c entries =
            ap (λ q. inside o.0 q deeper entries) new.opened in
          (
            short,
            subst (λ p. Success fs dir (u + 1) (1 + demand entries) p) (sym run)
                (inside-Success fs lo dir u name r deeper entries low (omega (arith, lt, le)) o.0 c
                  new.next refl new.roomy
                  (process_entries_lem o.0 op.built deeper c (c + 1) entries ok.low (omega arith)
                    (omega (arith, new.next)) inner)
                  (process_entries-Success o.0 op.built deeper c (c + 1) 2 entries ok.low
                    (omega arith) (omega (arith, new.next)) inner readable new.empty
                    (omega (arith, few)) (omega (arith, fits, all, new.next)))),
          )))
      (λ g b m next r2.
        process_entries-Success g b path dir lo (u + shown_part name 1) rest low lt m ss hs r2
          (omega (arith, free)) (omega (arith, fits, next)))
process_entries-Success fs ok path dir lo u (Listing.closed_directory name rest) low lt le ss
      (h, hs) room free fits =
    elim (Bool-cases (is_hidden name)) [
      | inl hidden ↦
          rw hidden
            (process_entries-Success fs ok path dir lo u rest low lt le ss hs room free fits)
      | inr shown ↦ absurd (h shown)
    ]
process_entries-Success fs ok path dir lo u (Listing.other name rest) low lt le ss (h, hs) room free
      fits =
    elim (Bool-cases (is_hidden name)) [
      | inl hidden ↦
          rw hidden
            (process_entries-Success fs ok path dir lo u rest low lt le ss hs room free fits)
      | inr shown ↦
          rw (shown, h shown)
            (process_entries-Success fs ok path dir lo u rest low lt le ss hs room free fits)
    ]
process_entries-Success fs ok path dir lo u (Listing.missing name rest) low lt le ss (h, hs) room
      free fits =
    elim (Bool-cases (is_hidden name)) [
      | inl hidden ↦
          rw hidden
            (process_entries-Success fs ok path dir lo u rest low lt le ss hs room free fits)
      | inr shown ↦ absurd (h shown)
    ]
