-- ===== src/Mkfs/Directories.antt =====
-- tools/mkfs.c: what `process_directory` does before its loop.
use ring_os.Prelude.{
  ℕ, zero, suc, ◌+◌, ◌*◌, ◌/◌, ◌≤◌, ◌<◌, ◌≡◌, inl, inr, refl, ap, ◌∙◌, List, [], ◌∷◌, ◌++◌, arith,
  get_or, Bool, true, false, Option, none, some, length, length-append, Bool-cases, ◌==◌,
  if◌then◌else◌,
}
use ring_os.Mkfs.{Image, le16, le32}
use ring_os.Mkfs.Buffer.{write_at-inside, write_at-outside, load32-outside}
use ring_os.Mkfs.Alloc.{first_table, IsBuilt}
use ring_os.Mkfs.Allocated.{Taken, taken, allocate_clusters_lem}
use ring_os.Mkfs.Entries.{
  LocalTime, text, before_dot, behind_dot, blanks, is_free, stamp_time, stamp_date,
  create_directory_entry,
}
use ring_os.Mkfs.Frame.{
  place, entry, cluster_at_lem, with_bytes, with_bytes-IsBuilt, Extends, Extends-refl,
  Extends-trans, Extends-taken, Extends-write,
}
use ring_os.Mkfs.Slots.{IsEntry, IsNamed, IsEntry-used, Added, add_entry_lem}
use ring_os.Mkfs.Stored.{HoldsDirectory}
use ring_os.Mkfs.Tree.{Readings, with_dots, is_hidden, add_entry, add_directory}

length-blanks : (n : ℕ) (cs : List ℕ) → length (blanks n cs) ≡ n
length-blanks zero cs = refl
length-blanks (suc n) [] = ap suc (length-blanks n [])
length-blanks (suc n) (c ∷ cs) = ap suc (length-blanks n cs)

-- The fields of an entry behind its name.
abbrev fields : LocalTime → ℕ → ℕ → ℕ → List ℕ
fields tm c size a =
    (a ∷ 0 ∷ 0 ∷ [])
    ++ (le16 (stamp_time tm)
        ++ (le16 (stamp_date tm)
            ++ ((0 ∷ 0 ∷ [])
                ++ (le16 (c / 65536)
                    ++ (le16 (stamp_time tm) ++ (le16 (stamp_date tm) ++ (le16 c ++ le32 size)))))))

pub length-create_directory_entry :
    (tm : LocalTime) (name : List ℕ) (c size a : ℕ)
    → length (create_directory_entry tm name c size a) ≡ 32
unfolding create_directory_entry
length-create_directory_entry tm name c size a =
    length-append (blanks 8 (before_dot name)) (blanks 3 (behind_dot name) ++ fields tm c size a)
    ∙ ap (λ n. n + length (blanks 3 (behind_dot name) ++ fields tm c size a))
        (length-blanks 8 (before_dot name))
    ∙ ap (λ n. 8 + n)
        (length-append (blanks 3 (behind_dot name)) (fields tm c size a)
          ∙ ap (λ n. n + 21) (length-blanks 3 (behind_dot name)))

-- The name of a directory that is not hidden begins its entry.
create_directory_entry-IsNamed :
    (tm : LocalTime) (name : List ℕ) (c size a : ℕ)
    → is_hidden name ≡ false
    → IsNamed name
    → IsNamed (create_directory_entry tm (text name) c size a)
unfolding create_directory_entry
create_directory_entry-IsNamed tm [] c size a shown named = absurd (named.0 refl)
create_directory_entry-IsNamed tm (x ∷ name) c size a shown named =
    let some_byte : (x == 0) ≡ false = ground (arith, named.0) in
    let no_dot : (x == b'.') ≡ false = shown in rw (some_byte, no_dot) named

-- An image behind `with_dots`.
module _ (fs : Image) (ok : IsBuilt fs) (r : Readings) (c parent : ℕ) (low : 2 ≤ c)
    (next : fs.next_free_cluster ≡ c + 1) where
  abbrev self_bytes : List ℕ
  self_bytes = create_directory_entry r.self (b'.' ∷ []) c 0 0x10

  abbrev up_bytes : List ℕ
  up_bytes =
      create_directory_entry r.up (b'.' ∷ b'.' ∷ []) (if parent == 0 then c else parent) 0 0x10

  abbrev one_dot : Image
  one_dot = with_bytes fs (place c) self_bytes

  abbrev pub dotted : Image
  dotted = with_bytes one_dot (place c + 32) up_bytes

  length_self : length self_bytes ≡ 32
  length_self = length-create_directory_entry r.self (b'.' ∷ []) c 0 0x10

  length_up : length up_bytes ≡ 32
  length_up = length-create_directory_entry r.up (b'.' ∷ b'.' ∷ []) _ 0 0x10

  pub dotted_run : with_dots fs r c parent ≡ dotted
  unfolding with_dots
  dotted_run =
      let at = cluster_at_lem fs c ok.cluster_start low (omega (arith, next, ok.high)) in
      rw (with_dots, at) refl

  pub dotted-IsBuilt : IsBuilt dotted
  dotted-IsBuilt =
      with_bytes-IsBuilt one_dot (place c + 32) up_bytes
        (with_bytes-IsBuilt fs (place c) self_bytes ok (omega arith)
          (omega (arith, length_self, low, next)))
        (omega arith) (omega (arith, length_up, low, next))

  pub dotted_self : IsEntry dotted.buffer (place c) self_bytes
  dotted_self k h =
      write_at-outside one_dot.buffer (place c + 32) up_bytes (place c + k) (inl (omega (arith, h)))
      ∙ write_at-inside fs.buffer (place c) self_bytes k (omega (arith, h, length_self))

  pub dotted_up : IsEntry dotted.buffer (place c + 32) up_bytes
  dotted_up k h =
      write_at-inside one_dot.buffer (place c + 32) up_bytes k (omega (arith, h, length_up))

  pub dotted_below : (i : ℕ) → i < place c → dotted.buffer i ≡ fs.buffer i
  dotted_below i h =
      write_at-outside one_dot.buffer (place c + 32) up_bytes i (inl (omega (arith, h)))
      ∙ write_at-outside fs.buffer (place c) self_bytes i (inl h)

  pub dotted_behind : (i : ℕ) → place c + 64 ≤ i → dotted.buffer i ≡ fs.buffer i
  dotted_behind i h =
      write_at-outside one_dot.buffer (place c + 32) up_bytes i (inr (omega (arith, h, length_up)))
      ∙ write_at-outside fs.buffer (place c) self_bytes i (inr (omega (arith, h, length_self)))

  pub dotted_entry : (d : ℕ) → d < 8192 → entry dotted d ≡ entry fs d
  dotted_entry d h =
      load32-outside one_dot.buffer (place c + 32) up_bytes (first_table + 4 * d)
        (inl (omega arith))
      ∙ load32-outside fs.buffer (place c) self_bytes (first_table + 4 * d) (inl (omega arith))

  pub self_used : is_free dotted.buffer (place c) 0 ≡ false
  unfolding create_directory_entry
  self_used =
      IsEntry-used dotted.buffer (place c) 0 self_bytes
        (let z : place c + 32 * 0 ≡ place c = omega arith in rw z dotted_self)
        ((λ e. absurd (omega arith)), (λ e. absurd (omega arith)))

  pub up_used : is_free dotted.buffer (place c) 1 ≡ false
  unfolding create_directory_entry
  up_used =
      IsEntry-used dotted.buffer (place c) 1 up_bytes dotted_up
        ((λ e. absurd (omega arith)), (λ e. absurd (omega arith)))

  pub dotted-Extends :
      (dir : ℕ) (old : Image)
      → Extends dir old fs
      → 2 ≤ dir
      → dir < old.next_free_cluster
      → old.next_free_cluster ≤ c
      → Extends dir old dotted
  dotted-Extends dir old e two lt new =
      Extends-write dir old one_dot (place c + 32) up_bytes
        (Extends-write dir old fs (place c) self_bytes e lt two (omega arith)) lt two (omega arith)

-- What `add_directory` leaves behind, when the directory's parent is in cluster `dir`.
pub record Opened (fs : Image) (lo dir : ℕ) (name : List ℕ) (r : Readings) (res : Image × Option ℕ)
    : Type 0 where
  pub built : IsBuilt res.0
  pub extends : Extends dir fs res.0
  pub opened :
      (c : ℕ)
      → res.1 ≡ some c
      → (c ≡ fs.next_free_cluster)
        × (res.0.next_free_cluster ≡ c + 1)
        × HoldsDirectory res.0 lo dir name r c

Opened-refused :
    (fs g : Image) (lo dir : ℕ) (name : List ℕ) (r : Readings)
    → IsBuilt g
    → Extends dir fs g
    → Opened fs lo dir name r (g, none)
Opened-refused fs g lo dir name r ok e = record {
  built = ok;
  extends = e;
  opened = λ c h. absurd (ground arith);
}

module _ (fs : Image) (ok : IsBuilt fs) (dir lo : ℕ) (low : 2 ≤ dir) (dir_lt : dir < lo)
    (lo_le : lo ≤ fs.next_free_cluster) (r : Readings) (name : List ℕ)
    (shown : is_hidden name ≡ false) (named : IsNamed name) where
  abbrev pub c : ℕ
  c = fs.next_free_cluster

  abbrev bytes : List ℕ
  bytes = create_directory_entry r.parent (text name) c 0 0x10

  pub parent_known : (dir == 0) ≡ false
  parent_known = ground (arith, low)

  pub cluster_known : (c == 0) ≡ false
  cluster_known = ground (arith, ok.low)

  module _ (t : Taken fs ok 1) where
    abbrev pub entered : Image × Bool
    entered = add_entry (taken fs ok 1) dir bytes

    pub added : Added (taken fs ok 1) dir bytes entered
    added =
        add_entry_lem (taken fs ok 1) dir bytes t.built low (omega arith)
          (length-create_directory_entry r.parent (text name) c 0 0x10)

    entered-Extends : Extends dir fs entered.0
    entered-Extends =
        Extends-trans dir fs (taken fs ok 1) entered.0 (Extends-taken dir fs ok 1 low t)
          added.extends

    abbrev pub ready : Image
    ready = dotted entered.0 added.built r c dir ok.low added.next

    ready-HoldsDirectory : entered.1 ≡ true → HoldsDirectory ready lo dir name r c
    ready-HoldsDirectory h =
        let (i, small, e) = added.entered h in
        let kept : IsEntry ready.buffer (place dir + 32 * i) bytes = λ k lt.
          dotted_below entered.0 added.built r c dir ok.low added.next (place dir + 32 * i + k)
            (omega (arith, low, lo_le, dir_lt, small, lt))
          ∙ e k lt in
        record {
          slot = i;
          above = lo_le;
          below = omega (arith, added.next);
          in_directory = small;
          entered = kept;
          used =
              IsEntry-used ready.buffer (place dir) i bytes kept
                (create_directory_entry-IsNamed r.parent name c 0 0x10 shown named);
          ends =
              dotted_entry entered.0 added.built r c dir ok.low added.next c
                (omega (arith, ok.high))
              ∙ added.extends.entries c ok.low (omega arith)
              ∙ (let z : c + 0 ≡ c = omega arith in rw z at (t.linked 0 (omega arith)));
          self = dotted_self entered.0 added.built r c dir ok.low added.next;
          self_used = self_used entered.0 added.built r c dir ok.low added.next;
          up = λ k lt.
              dotted_up entered.0 added.built r c dir ok.low added.next k lt
              ∙ ap
                  (λ (b : Bool).
                    get_or
                      (create_directory_entry r.up (b'.' ∷ b'.' ∷ []) (if b then c else dir) 0 0x10)
                      k 0)
                  parent_known;
          up_used = up_used entered.0 added.built r c dir ok.low added.next;
        }

    ready-Opened : entered.1 ≡ true → Opened fs lo dir name r (ready, some c)
    ready-Opened h = record {
      built = dotted-IsBuilt entered.0 added.built r c dir ok.low added.next;
      extends =
          dotted-Extends entered.0 added.built r c dir ok.low added.next dir fs entered-Extends low
            (omega arith) (omega arith);
      opened = λ d e.
          let same : c ≡ d = ground arith in rw (← same) (refl, added.next, ready-HoldsDirectory h);
    }

    opened_lem : Opened fs lo dir name r (add_directory fs r name dir)
    unfolding add_directory
    opened_lem = elim (Bool-cases entered.1) [
      | inl done ↦
          rw
            (
              add_directory,
              t.run,
              parent_known,
              cluster_known,
              done,
              dotted_run entered.0 added.built r c dir ok.low added.next,
            )
            (ready-Opened done)
      | inr refused ↦
          rw (add_directory, t.run, parent_known, cluster_known, refused)
            (Opened-refused fs entered.0 lo dir name r added.built entered-Extends)
    ]

  -- `process_directory` up to its loop, on a well-formed image and a parent in a cluster that was
  -- taken, keeps the image well formed and all that it has. When it is not refused, the parent has
  -- an entry for the directory, whose one cluster has the entries "." and "..".
  pub add_directory_lem : Opened fs lo dir name r (add_directory fs r name dir)
  unfolding add_directory
  add_directory_lem = elim (allocate_clusters_lem fs ok 1 (omega arith)) [
    | inl (full, run) ↦
        rw (add_directory, run) (Opened-refused fs fs lo dir name r ok (Extends-refl dir fs))
    | inr (fits, t) ↦ opened_lem t
  ]
