-- ===== src/Mkfs/Root.antt =====
-- tools/mkfs.c: the image of the whole directory that the program is given.
use ring_os.Prelude.{
  ℕ, ◌+◌, ◌*◌, ◌≤◌, ◌≡◌, inr, refl, ap, ◌∙◌, List, [], ◌∷◌, arith, Bool, true, false, Option, none,
  some, if◌then◌else◌,
}
use ring_os.Mkfs.{Image, new_image, filesystem_size, create_filesystem}
use ring_os.Mkfs.Alloc.{IsBuilt, data_start}
use ring_os.Mkfs.Allocated.{Taken, taken, taken_lem}
use ring_os.Mkfs.Complete.{IsReadable, demand, places, process_entries-Success}
use ring_os.Mkfs.Directories.{
  dotted, dotted_run, dotted-IsBuilt, dotted_self, dotted_up, dotted_entry, dotted_behind,
  self_used, up_used,
}
use ring_os.Mkfs.Entries.{create_directory_entry}
use ring_os.Mkfs.Files.{Step}
use ring_os.Mkfs.Frame.{place, entry, Extends}
use ring_os.Mkfs.Fresh.{new_image-IsBuilt}
use ring_os.Mkfs.Room.{IsRoomy}
use ring_os.Mkfs.Slots.{IsEntry}
use ring_os.Mkfs.Stored.{Holds}
use ring_os.Mkfs.Tree.{
  Readings, Listing, add_directory, process_entries, process_directory, create_filesystem_image,
}
use ring_os.Mkfs.Walk.{AllStorable, process_entries_lem}

-- The root directory is in cluster 2, which ends its chain, and begins with the two entries for
-- itself; the image holds the entries of the host's directory.
pub record HoldsRoot (fs : Image) (r : Readings) (l : Listing) : Type 0 where
  pub ends : entry fs 2 ≡ 0x0FFFFFFF
  pub self : IsEntry fs.buffer data_start (create_directory_entry r.self (b'.' ∷ []) 2 0 0x10)
  pub up :
      IsEntry fs.buffer (data_start + 32) (create_directory_entry r.up (b'.' ∷ b'.' ∷ []) 2 0 0x10)
  pub entries : Holds fs 3 2 l

-- `process_directory` behind `add_directory`.
abbrev behind_opening : List ℕ → Listing → Image × Option ℕ → Image × Bool
behind_opening path l o = elim o.1 [ none ↦ (o.0, false) | some c ↦ process_entries o.0 path c l ]

opening_run :
    (fs g : Image) (path : List ℕ) (r : Readings) (name : List ℕ) (parent c : ℕ) (l : Listing)
    → add_directory fs r name parent ≡ (g, some c)
    → process_directory fs path r name parent l ≡ process_entries g path c l
unfolding process_directory
opening_run fs g path r name parent c l e = ap (behind_opening path l) e

-- `create_filesystem_image` behind the walk.
image_run :
    (source : List ℕ) (r : Readings) (l : Listing) (res : Image × Bool)
    → process_directory new_image source r [] 0 l ≡ res
    → res.1 ≡ true
    → create_filesystem_image source r l ≡ some res.0
unfolding create_filesystem_image create_filesystem
image_run source r l res run accepted =
    ap (λ (p : Image × Bool). if p.1 then some p.0 else none) run
    ∙ ap (λ (b : Bool). if b then some res.0 else none) accepted

module _ (r : Readings) where
  root_taken : Taken new_image new_image-IsBuilt 1
  root_taken = taken_lem new_image new_image-IsBuilt 1 (omega arith)

  abbrev grown : Image
  grown = taken new_image new_image-IsBuilt 1

  abbrev root : Image
  root = dotted grown root_taken.built r 2 0 (omega arith) refl

  root_run : (name : List ℕ) → add_directory new_image r name 0 ≡ (root, some 2)
  unfolding add_directory
  root_run name =
      rw (add_directory, root_taken.run, dotted_run grown root_taken.built r 2 0 (omega arith) refl)
        refl

  root-IsBuilt : IsBuilt root
  root-IsBuilt = dotted-IsBuilt grown root_taken.built r 2 0 (omega arith) refl

  -- What an image that extends the root directory's has of it.
  root-kept : (fs : Image) (l : Listing) → Extends 2 root fs → Holds fs 3 2 l → HoldsRoot fs r l
  root-kept fs l e h = record {
    ends =
        e.entries 2 (omega arith) (omega arith)
        ∙ dotted_entry grown root_taken.built r 2 0 (omega arith) refl 2 (omega arith)
        ∙ root_taken.linked 0 (omega arith);
    self = λ k lt.
        e.used 0 k (omega arith) lt (self_used grown root_taken.built r 2 0 (omega arith) refl)
        ∙ dotted_self grown root_taken.built r 2 0 (omega arith) refl k lt;
    up = λ k lt.
        e.used 1 k (omega arith) lt (up_used grown root_taken.built r 2 0 (omega arith) refl)
        ∙ dotted_up grown root_taken.built r 2 0 (omega arith) refl k lt;
    entries = h;
  }

  module _ (source : List ℕ) (l : Listing) (s : AllStorable l) where
    walk : Step root 2 (λ g. Holds g 3 2 l) (process_entries root source 2 l)
    walk =
        process_entries_lem root root-IsBuilt source 2 3 l (omega arith) (omega arith) (omega arith)
          s

    process_run : process_directory new_image source r [] 0 l ≡ process_entries root source 2 l
    process_run = opening_run new_image root source r [] 0 2 l (root_run [])

    -- Whether the walk over the host's directory ends well or not, every byte behind the 32 MB of
    -- the buffer is 0, as before it. The names do not begin with a byte that marks an entry as free,
    -- `d_name` of a file has at least 11 bytes, and the size of each file, as a `uint32_t`, is below
    -- 2^32 - 4095.
    pub process_directory-inside :
        (i : ℕ) → filesystem_size ≤ i → (process_directory new_image source r [] 0 l).0.buffer i ≡ 0
    process_directory-inside i behind =
        rw process_run (walk.built.blank i (omega (arith, walk.built.high, behind)))

    root-IsRoomy : IsRoomy 2 2 root.buffer
    root-IsRoomy j above below =
        let zero_byte : root.buffer (place 2 + 32 * j) ≡ 0 =
          dotted_behind grown root_taken.built r 2 0 (omega arith) refl (place 2 + 32 * j)
            (omega (arith, above))
          ∙ root_taken.kept (place 2 + 32 * j) (inr (inr (omega arith)))
          ∙ new_image-IsBuilt.blank (place 2 + 32 * j) (omega arith) in
        rw zero_byte refl

    -- A host's directory that can be read, with paths of less than 1024 bytes, with at most 126
    -- entries in it and in each below it, and whose files and directories need at most 8168
    -- clusters, gets an image. It is well formed, takes that many clusters and the root directory's,
    -- and holds the host's directory: the root directory in cluster 2, and each file that is not
    -- hidden with its entry, its chain and its bytes, and each directory with its entry and all that
    -- it has. The names do not begin with a byte that marks an entry as free, `d_name` of a file has
    -- at least 11 bytes, and the size of each file, as a `uint32_t`, is below 2^32 - 4095.
    pub create_filesystem_image_lem :
        IsReadable source l
        → places l ≤ 126
        → demand l ≤ 8168
        → (fs : Image) × (create_filesystem_image source r l ≡ some fs)
          × (fs.next_free_cluster ≡ 3 + demand l)
          × IsBuilt fs
          × HoldsRoot fs r l
    create_filesystem_image_lem readable few fits =
        let res = process_entries root source 2 l in
        let ok =
          process_entries-Success root root-IsBuilt source 2 3 2 l (omega arith) (omega arith)
            (omega arith) s readable root-IsRoomy (omega (arith, few)) (omega (arith, fits)) in
        (
          res.0,
          image_run source r l res process_run ok.accepted,
          ok.next,
          walk.built,
          root-kept res.0 l walk.extends (walk.kept_promise ok.accepted),
        )
