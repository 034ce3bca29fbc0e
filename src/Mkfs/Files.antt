-- ===== src/Mkfs/Files.antt =====
-- tools/mkfs.c: what `process_file` leaves in the image.
use ring_os.Prelude.{
  ℕ, ◌+◌, ◌-◌, ◌*◌, ◌%◌, ◌^◌, ◌≤◌, ◌<◌, ◌≡◌, inl, inr, ◌∙◌, List, arith, get_or, u32_mod, Bool,
  true, false, some, length, take, length-append, length-take, get_or-append_left, get_or-take,
  Bool-cases, ◌==◌, ==_iff,
}
use ring_os.Fat.Entry.{file_entry}
use ring_os.Mkfs.{Image}
use ring_os.Mkfs.Buffer.{write_at-inside, load32-outside}
use ring_os.Mkfs.Alloc.{first_table, IsBuilt, link}
use ring_os.Mkfs.Allocated.{Taken, taken, allocate_clusters_lem}
use ring_os.Mkfs.Frame.{
  place, entry, cluster_at_lem, with_bytes, with_bytes-IsBuilt, Extends, Extends-refl,
  Extends-trans, Extends-taken, Extends-write,
}
use ring_os.Mkfs.Slots.{IsNamed, IsEntry-used, Added, add_entry_lem}
use ring_os.Mkfs.Stored.{file_length, HoldsFile}
use ring_os.Mkfs.Tree.{HostFile, clusters_needed, add_entry, store_file, process_file}

-- What a step of the walk leaves behind: the image stays well formed and keeps what it had, and
-- has what the step promises when it is not refused.
pub record Step (fs : Image) (dir : ℕ) (promise : Image → Type 0) (r : Image × Bool) : Type 0 where
  pub built : IsBuilt r.0
  pub extends : Extends dir fs r.0
  pub kept_promise : r.1 ≡ true → promise r.0

pub Step-refused :
    (fs : Image) (dir : ℕ) (promise : Image → Type 0) → IsBuilt fs → Step fs dir promise (fs, false)
Step-refused fs dir promise ok = record {
  built = ok;
  extends = Extends-refl dir fs;
  kept_promise = λ h. absurd (ground arith);
}

-- A size whose sum with the bytes of a cluster does not wrap, and a name that fills the entry.
pub record IsStorable (name : List ℕ) (f : HostFile) : Type 0 where
  pub small : file_length f + 4095 < u32_mod
  pub array : 11 ≤ length name
  pub named : IsNamed name

pub needed_lem :
    (size : ℕ)
    → size + 4095 < u32_mod
    → (1 ≤ clusters_needed size)
      × (clusters_needed size ≤ 2 ^ 20)
      × (size ≤ clusters_needed size * 4096)
needed_lem size h =
    let wrap : (size + 4096 - 1) % u32_mod ≡ size + 4095 = omega arith in rw wrap (ground arith)

pub length-file_entry :
    (name : List ℕ) (c size : ℕ) → 11 ≤ length name → length (file_entry (take 11 name) c size) ≡ 32
unfolding file_entry
length-file_entry name c size h = omega (arith, length-append (take 11 name) _, length-take 11 name)

file_entry-IsNamed :
    (name : List ℕ) (c size : ℕ)
    → 11 ≤ length name
    → IsNamed name
    → IsNamed (file_entry (take 11 name) c size)
unfolding file_entry
file_entry-IsNamed name c size long named =
    let e : get_or (file_entry (take 11 name) c size) 0 0 ≡ get_or name 0 0 =
      get_or-append_left (take 11 name) _ 0 0 (omega (arith, length-take 11 name))
      ∙ get_or-take name 11 0 0 (omega arith) in
    rw e named

module _ (fs : Image) (ok : IsBuilt fs) (dir lo : ℕ) (low : 2 ≤ dir) (dir_lt : dir < lo)
    (lo_le : lo ≤ fs.next_free_cluster) (f : HostFile) (name : List ℕ) (s : IsStorable name f) where
  abbrev pub size : ℕ
  size = file_length f

  abbrev pub count : ℕ
  count = clusters_needed size

  abbrev at_first : ℕ
  at_first = place fs.next_free_cluster

  -- The image with the file's bytes.
  abbrev pub filled : Image
  filled = with_bytes (taken fs ok count) at_first (take size f.content)

  length-bytes : length (take size f.content) ≤ count * 4096
  length-bytes = omega (arith, length-take size f.content, (needed_lem size s.small).2)

  module _ (t : Taken fs ok count) where
    pub filled-IsBuilt : IsBuilt filled
    filled-IsBuilt =
        with_bytes-IsBuilt (taken fs ok count) at_first (take size f.content) t.built
          (omega (arith, ok.low)) (omega (arith, length-bytes, ok.low))

    filled-Extends : Extends dir fs filled
    filled-Extends =
        Extends-write dir fs (taken fs ok count) at_first (take size f.content)
          (Extends-taken dir fs ok count low t) (omega arith) low (omega arith)

    filled-linked :
        (j : ℕ)
        → j < count
        → entry filled (fs.next_free_cluster + j) ≡ link fs.next_free_cluster count j
    filled-linked j h =
        load32-outside (taken fs ok count).buffer at_first (take size f.content)
          (first_table + 4 * (fs.next_free_cluster + j)) (inl (omega (arith, t.built.high, h)))
        ∙ t.linked j h

    filled-Step :
        length (take size f.content) ≡ size
        → Step fs dir
            (λ g. HoldsFile g lo dir name f)
            (add_entry filled dir (file_entry (take 11 name) fs.next_free_cluster size))
    filled-Step whole =
        let bytes = file_entry (take 11 name) fs.next_free_cluster size in
        let a : Added filled dir bytes (add_entry filled dir bytes) =
          add_entry_lem filled dir bytes filled-IsBuilt low (omega arith)
            (length-file_entry name fs.next_free_cluster size s.array) in
        record {
          built = a.built;
          extends = Extends-trans dir fs filled _ filled-Extends a.extends;
          kept_promise = λ h.
              let (i, small, e) = a.entered h in
              record {
                first = fs.next_free_cluster;
                slot = i;
                above = lo_le;
                below = omega (arith, a.next);
                in_directory = small;
                entered = e;
                used =
                    IsEntry-used (add_entry filled dir bytes).0.buffer (place dir) i bytes e
                      (file_entry-IsNamed name fs.next_free_cluster size s.array s.named);
                linked = λ j lt.
                    a.extends.entries (fs.next_free_cluster + j) (omega (arith, ok.low))
                      (omega (arith, lt))
                    ∙ filled-linked j lt;
                large = (needed_lem size s.small).2;
                complete = omega (arith, whole, length-take size f.content);
                stored = λ k lt.
                    a.outside (at_first + k) (inr (omega (arith, dir_lt, lo_le, low)))
                    ∙ write_at-inside (taken fs ok count).buffer at_first (take size f.content) k
                        (omega (arith, lt, whole))
                    ∙ get_or-take f.content size k 0 lt;
              };
        }

    store_file_lem :
        Step fs dir
          (λ g. HoldsFile g lo dir name f)
          (store_file (taken fs ok count) f name dir size fs.next_free_cluster)
    unfolding store_file
    store_file_lem =
        let at =
          cluster_at_lem (taken fs ok count) fs.next_free_cluster ok.cluster_start ok.low ok.high in
        elim (Bool-cases (length (take size f.content) == size)) [
          | inl whole ↦ rw (store_file, at, whole) (filled-Step ((==_iff _ _).0 whole))
          | inr short ↦
              rw (store_file, at, short)
                (record {
                  built = filled-IsBuilt;
                  extends = filled-Extends;
                  kept_promise = λ h. absurd (ground arith);
                })
        ]

  -- `process_file` on a well-formed image and a directory in a cluster that was taken keeps the
  -- image well formed and all that it has, whether it is refused or not. When it is not, the
  -- directory has an entry for the file, both tables chain the file's clusters, and these hold the
  -- file's bytes. The size, as a `uint32_t`, is below 2^32 - 4095, `d_name` has at least 11 bytes,
  -- and the name does not begin with a byte that marks an entry as free.
  pub process_file_lem :
      Step fs dir (λ g. HoldsFile g lo dir name f) (process_file fs (some f) name dir)
  unfolding process_file
  process_file_lem = elim (allocate_clusters_lem fs ok count (needed_lem size s.small).1) [
    | inl (full, run) ↦
        rw (process_file, run) (Step-refused fs dir (λ g. HoldsFile g lo dir name f) ok)
    | inr (fits, t) ↦
        let some_cluster : (fs.next_free_cluster == 0) ≡ false = ground (arith, ok.low) in
        rw (process_file, t.run, some_cluster) (store_file_lem t)
  ]
