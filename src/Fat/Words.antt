-- ===== src/Fat/Words.antt =====
-- A buffer of 512 bytes read and written as `uint32_t buffer[128]`, little-endian.
use ring_os.Prelude.{
  ℕ, ◌+◌, ◌*◌, ◌/◌, ◌%◌, ◌<◌, ◌≡◌, ◌≢◌, ◌∙◌, List, arith, length, get_or, set, length-set,
  get_or-set_self, get_or-set_ne, u32_mod,
}

unfoldable pub word : List ℕ → ℕ → ℕ
word buf i =
    get_or buf (4 * i) 0
    + 256 * get_or buf (4 * i + 1) 0
    + 65536 * get_or buf (4 * i + 2) 0
    + 16777216 * get_or buf (4 * i + 3) 0

unfoldable pub set_word : List ℕ → ℕ → ℕ → List ℕ
set_word buf i v =
    set
      (set (set (set buf (4 * i) (v % 256)) (4 * i + 1) (v / 256 % 256)) (4 * i + 2)
        (v / 65536 % 256))
      (4 * i + 3) (v / 16777216 % 256)

pub length-set_word : (buf : List ℕ) (i v : ℕ) → length (set_word buf i v) ≡ length buf
unfolding set_word
length-set_word buf i v = simp length-set

module _ (buf : List ℕ) (i v : ℕ) where
  get_or-set_word_ne :
      (j : ℕ)
      → 4 * i ≢ j
      → 4 * i + 1 ≢ j
      → 4 * i + 2 ≢ j
      → 4 * i + 3 ≢ j
      → get_or (set_word buf i v) j 0 ≡ get_or buf j 0
  unfolding set_word
  get_or-set_word_ne j a b c d =
      get_or-set_ne _ _ 0 d ∙ get_or-set_ne _ _ 0 c ∙ get_or-set_ne _ _ 0 b ∙ get_or-set_ne _ _ 0 a

  -- The other words of the buffer are kept.
  pub word-set_word_ne : (j : ℕ) → i ≢ j → word (set_word buf i v) j ≡ word buf j
  unfolding word
  word-set_word_ne j h = omega (
    arith,
    get_or-set_word_ne (4 * j) (omega arith) (omega arith) (omega arith) (omega arith),
    get_or-set_word_ne (4 * j + 1) (omega arith) (omega arith) (omega arith) (omega arith),
    get_or-set_word_ne (4 * j + 2) (omega arith) (omega arith) (omega arith) (omega arith),
    get_or-set_word_ne (4 * j + 3) (omega arith) (omega arith) (omega arith) (omega arith),
  )

  -- The buffer after one, two and three of the four writes.
  abbrev one : List ℕ
  one = set buf (4 * i) (v % 256)

  abbrev two : List ℕ
  two = set one (4 * i + 1) (v / 256 % 256)

  abbrev three : List ℕ
  three = set two (4 * i + 2) (v / 65536 % 256)

  byte3_kept : (j : ℕ) → j < 4 * i + 3 → get_or (set_word buf i v) j 0 ≡ get_or three j 0
  unfolding set_word
  byte3_kept j h = get_or-set_ne three {i = 4 * i + 3} {j = j} (v / 16777216 % 256) 0 (omega arith)

  byte2_kept : (j : ℕ) → j < 4 * i + 2 → get_or (set_word buf i v) j 0 ≡ get_or two j 0
  byte2_kept j h =
      byte3_kept j (omega arith)
      ∙ get_or-set_ne two {i = 4 * i + 2} {j = j} (v / 65536 % 256) 0 (omega arith)

  byte1_kept : (j : ℕ) → j < 4 * i + 1 → get_or (set_word buf i v) j 0 ≡ get_or one j 0
  byte1_kept j h =
      byte2_kept j (omega arith)
      ∙ get_or-set_ne one {i = 4 * i + 1} {j = j} (v / 256 % 256) 0 (omega arith)

  module _ (room : 4 * i + 3 < length buf) where
    length-three : 4 * i + 3 < length three
    length-three = simp length-set room

    byte3 : get_or (set_word buf i v) (4 * i + 3) 0 ≡ v / 16777216 % 256
    unfolding set_word
    byte3 = get_or-set_self three (4 * i + 3) (v / 16777216 % 256) 0 length-three

    -- What is stored is read back.
    pub word-set_word_self : v < u32_mod → word (set_word buf i v) i ≡ v
    unfolding word
    word-set_word_self small = omega (
      arith,
      byte1_kept (4 * i) (omega arith) ∙ get_or-set_self buf (4 * i) (v % 256) 0 (omega arith),
      byte2_kept (4 * i + 1) (omega arith)
          ∙ get_or-set_self one (4 * i + 1) (v / 256 % 256) 0 (rw length-set (omega arith)),
      byte3_kept (4 * i + 2) (omega arith)
          ∙ get_or-set_self two (4 * i + 2) (v / 65536 % 256) 0 (simp length-set (omega arith)),
      byte3,
    )
