-- ===== src/Mkfs/Accept.antt =====
-- tools/mkfs.c: `process_file` and `process_directory` when the image has room.
use ring_os.Prelude.{
  ℕ, ◌+◌, ◌*◌, ◌≤◌, ◌<◌, ◌≡◌, inl, inr, refl, ap, ◌∙◌, List, arith, Bool, true, false, Option, some,
  length, length-take, take, ◌==◌, ==_iff,
}
use ring_os.Fat.Entry.{file_entry}
use ring_os.Mkfs.{Image}
use ring_os.Mkfs.Buffer.{write_at-outside}
use ring_os.Mkfs.Alloc.{cluster_limit, IsBuilt}
use ring_os.Mkfs.Allocated.{Taken, taken, taken_lem}
use ring_os.Mkfs.Directories.{
  added, entered, parent_known, cluster_known, dotted_run, dotted_below, dotted_behind, ready,
  length-create_directory_entry,
}
use ring_os.Mkfs.Entries.{text, create_directory_entry}
use ring_os.Mkfs.Frame.{place, cluster_at_lem}
use ring_os.Mkfs.Slots.{IsNamed}
use ring_os.Mkfs.Files.{IsStorable, filled, filled-IsBuilt, length-file_entry}
use ring_os.Mkfs.Room.{IsRoomy, IsRoomy-kept, Success, add-Success}
use ring_os.Mkfs.Stored.{file_length}
use ring_os.Mkfs.Tree.{
  HostFile, Readings, clusters_needed, is_hidden, add_entry, store_file, process_file,
  add_directory, with_dots,
}

module _ (fs : Image) (ok : IsBuilt fs) (dir lo u : ℕ) (low : 2 ≤ dir) (dir_lt : dir < lo)
    (lo_le : lo ≤ fs.next_free_cluster) (places : u < 128) (room : IsRoomy dir u fs.buffer) where
  module _ (f : HostFile) (name : List ℕ) (s : IsStorable name f)
      (complete : file_length f ≤ length f.content)
      (fits : fs.next_free_cluster + clusters_needed (file_length f) < cluster_limit) where
    abbrev count : ℕ
    count = clusters_needed (file_length f)

    t : Taken fs ok count
    t = taken_lem fs ok count fits

    abbrev full : Image
    full = filled fs ok dir lo low dir_lt lo_le f name s

    full-IsRoomy : IsRoomy dir u full.buffer
    full-IsRoomy =
        IsRoomy-kept dir u fs.buffer full.buffer
          (λ i above below.
            write_at-outside (taken fs ok count).buffer (place fs.next_free_cluster)
              (take (file_length f) f.content) i (inl (omega arith))
            ∙ t.kept i (inr (inr (omega arith))))
          room

    full-add :
        Success fs dir
          (u + 1)
          count
          (add_entry full dir (file_entry (take 11 name) fs.next_free_cluster (file_length f)))
    full-add =
        let a =
          add-Success full (filled-IsBuilt fs ok dir lo low dir_lt lo_le f name s t) dir u low
            (omega arith) places (file_entry (take 11 name) fs.next_free_cluster (file_length f))
            (length-file_entry name fs.next_free_cluster (file_length f) s.array) full-IsRoomy in
        record { accepted = a.accepted; next = omega (arith, a.next); roomy = a.roomy }

    -- A file that can be read, with room for it, is stored.
    pub file-Success : Success fs dir (u + 1) count (process_file fs (some f) name dir)
    unfolding process_file store_file
    file-Success =
        let some_cluster : (fs.next_free_cluster == 0) ≡ false = ground (arith, ok.low) in
        let at =
          cluster_at_lem (taken fs ok count) fs.next_free_cluster ok.cluster_start ok.low ok.high in
        let whole : (length (take (file_length f) f.content) == file_length f) ≡ true =
          (==_iff _ _).1 (omega (arith, length-take (file_length f) f.content, complete)) in
        rw (process_file, t.run, some_cluster) (rw (store_file, at, whole) full-add)

  module _ (r : Readings) (name : List ℕ) (shown : is_hidden name ≡ false) (named : IsNamed name)
      (fits : fs.next_free_cluster + 1 < cluster_limit) where
    -- The directory's cluster is taken and has room behind its two entries.
    pub record Ready (res : Image × Option ℕ) : Type 0 where
      pub opened : res.1 ≡ some fs.next_free_cluster
      pub next : res.0.next_free_cluster ≡ fs.next_free_cluster + 1
      pub roomy : IsRoomy dir (u + 1) res.0.buffer
      pub empty : IsRoomy fs.next_free_cluster 2 res.0.buffer

    t1 : Taken fs ok 1
    t1 = taken_lem fs ok 1 fits

    abbrev opening : Image × Bool
    opening = entered fs ok dir lo low dir_lt lo_le r name shown named t1

    entry_bytes : List ℕ
    entry_bytes = create_directory_entry r.parent (text name) fs.next_free_cluster 0 0x10

    opening-Success : Success (taken fs ok 1) dir (u + 1) 0 opening
    unfolding entry_bytes
    opening-Success =
        add-Success (taken fs ok 1) t1.built dir u low (omega arith) places entry_bytes
          (length-create_directory_entry r.parent (text name) fs.next_free_cluster 0 0x10)
          (IsRoomy-kept dir u fs.buffer (taken fs ok 1).buffer
            (λ i above below. t1.kept i (inr (inr (omega arith)))) room)

    abbrev a_next : opening.0.next_free_cluster ≡ fs.next_free_cluster + 1
    a_next = (added fs ok dir lo low dir_lt lo_le r name shown named t1).next

    abbrev done_image : Image
    done_image = ready fs ok dir lo low dir_lt lo_le r name shown named t1

    run_dots :
        add_directory fs r name dir
        ≡ (with_dots opening.0 r fs.next_free_cluster dir, some fs.next_free_cluster)
    unfolding add_directory
    run_dots =
        rw
          (
            add_directory,
            t1.run,
            parent_known fs ok dir lo low dir_lt lo_le r name shown named,
            cluster_known fs ok dir lo low dir_lt lo_le r name shown named,
            opening-Success.accepted,
          )
          refl

    run_ready : add_directory fs r name dir ≡ (done_image, some fs.next_free_cluster)
    run_ready =
        run_dots
        ∙ ap (λ (g : Image). (g, some fs.next_free_cluster))
            (dotted_run opening.0 (added fs ok dir lo low dir_lt lo_le r name shown named t1).built
              r fs.next_free_cluster dir ok.low a_next)

    -- A byte of the new cluster behind the two entries.
    new_byte :
        (i : ℕ)
        → place fs.next_free_cluster + 64 ≤ i
        → i < place fs.next_free_cluster + 4096
        → done_image.buffer i ≡ 0
    new_byte i above below =
        let a = added fs ok dir lo low dir_lt lo_le r name shown named t1 in
        dotted_behind opening.0 a.built r fs.next_free_cluster dir ok.low a_next i above
        ∙ a.outside i (inr (omega (arith, low, dir_lt, lo_le, above)))
        ∙ t1.kept i (inr (inr (omega (arith, above, ok.high))))
        ∙ ok.blank i (omega (arith, above))

    -- A directory with a place in its parent and a cluster for it is stored.
    pub directory-Ready : Ready (add_directory fs r name dir)
    directory-Ready =
        let a = added fs ok dir lo low dir_lt lo_le r name shown named t1 in
        rw run_ready (record {
          opened = refl;
          next = a_next;
          roomy =
              IsRoomy-kept dir (u + 1) opening.0.buffer done_image.buffer
                (λ i above below.
                  dotted_below opening.0 a.built r fs.next_free_cluster dir ok.low a_next i
                    (omega (arith, low, dir_lt, lo_le, below)))
                opening-Success.roomy;
          empty = λ j above below.
              rw (new_byte (place fs.next_free_cluster + 32 * j) (omega arith) (omega arith)) refl;
        })
