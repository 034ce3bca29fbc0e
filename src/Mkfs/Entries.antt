-- ===== src/Mkfs/Entries.antt =====
-- tools/mkfs.c: `create_directory_entry`, and the search for a free entry of a directory.
use ring_os.Prelude.{
  ℕ, zero, suc, ◌+◌, ◌-◌, ◌*◌, ◌/◌, Bool, Option, none, some, List, [], ◌∷◌, ◌++◌, ◌||◌, ◌==◌,
  if◌then◌else◌,
}
use ring_os.Fat.Dir.{Memory}
use ring_os.Mkfs.{le16, le32}

-- The C string at the head of an array.
abbrev pub text : List ℕ → List ℕ
text [] = []
text (c ∷ cs) = if c == 0 then [] else c ∷ text cs

-- What stands before the first dot, and what stands behind it.
abbrev pub before_dot : List ℕ → List ℕ
before_dot [] = []
before_dot (c ∷ cs) = if c == b'.' then [] else c ∷ before_dot cs

abbrev pub behind_dot : List ℕ → List ℕ
behind_dot [] = []
behind_dot (c ∷ cs) = if c == b'.' then cs else behind_dot cs

-- The first `n` bytes, with blanks behind the end.
abbrev pub blanks : ℕ → List ℕ → List ℕ
blanks zero cs = []
blanks (suc n) [] = b' ' ∷ blanks n []
blanks (suc n) (c ∷ cs) = c ∷ blanks n cs

-- The fields of `struct tm` that the entry is stamped with.
pub record LocalTime : Type 0 where
  pub tm_hour : ℕ
  pub tm_min : ℕ
  pub tm_sec : ℕ
  pub tm_year : ℕ
  pub tm_mon : ℕ
  pub tm_mday : ℕ

-- The parts have no bit in common, so that `|` is the sum.
abbrev pub stamp_time : LocalTime → ℕ
stamp_time tm = tm.tm_hour * 2048 + tm.tm_min * 32 + tm.tm_sec / 2

abbrev pub stamp_date : LocalTime → ℕ
stamp_date tm = (tm.tm_year - 80) * 512 + (tm.tm_mon + 1) * 32 + tm.tm_mday

-- The 32 bytes of the entry. The name is a C string without its terminator.
unfoldable pub create_directory_entry : LocalTime → List ℕ → ℕ → ℕ → ℕ → List ℕ
create_directory_entry tm name cluster size attributes =
    blanks 8 (before_dot name)
    ++ (blanks 3 (behind_dot name)
        ++ ((attributes ∷ 0 ∷ 0 ∷ [])
            ++ (le16 (stamp_time tm)
                ++ (le16 (stamp_date tm)
                    ++ ((0 ∷ 0 ∷ [])
                        ++ (le16 (cluster / 65536)
                            ++ (le16 (stamp_time tm)
                                ++ (le16 (stamp_date tm) ++ (le16 cluster ++ le32 size)))))))))

-- `parent_dir[i].name[0] == 0x00 || parent_dir[i].name[0] == 0xE5`
abbrev pub is_free : Memory → ℕ → ℕ → Bool
is_free b dir i = b (dir + 32 * i) == 0 || b (dir + 32 * i) == 0xE5

-- The first free one of the entries from `i` on, with `left` of them to go.
unfoldable pub free_entry : Memory → ℕ → ℕ → ℕ → Option ℕ
free_entry b dir zero i = none
free_entry b dir (suc left) i =
    let rest = free_entry b dir left (i + 1) in if is_free b dir i then some i else rest
