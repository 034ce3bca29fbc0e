-- ===== src/Mkfs/Fresh.antt =====
-- tools/mkfs.c: the image that `create_filesystem` makes, and the image of a whole directory.
use ring_os.Prelude.{
  ℕ, zero, suc, ◌+◌, ◌-◌, ◌*◌, ◌≤◌, ◌<◌, ◌≡◌, ◌⊎◌, inl, inr, refl, sym, ap, ◌∙◌, List, [], ◌∷◌,
  arith, get_or, leb, ltb, true, Bool-cases, le→leb, lt→ltb, ltb→lt, ltb→le, length,
}
use ring_os.Fat.Dir.{Memory}
use ring_os.Mkfs.{
  Image, boot_sector, first_entries, write_at, load32, copy_at, new_image, filesystem_size,
}
use ring_os.Mkfs.Buffer.{write_at-outside, write_at-inside, load32_cong}
use ring_os.Mkfs.Alloc.{first_table, second_table, data_start, IsBuilt}

-- The memory behind `initialize_boot_sector` and the three entries.
abbrev seeded : Memory
seeded = write_at (write_at (λ i. 0) 0 boot_sector) first_table first_entries

abbrev both_tables : Memory
both_tables = copy_at seeded second_table first_table 32768

unfoldable fresh : Image
fresh = record {
  buffer = both_tables;
  size = filesystem_size;
  fat_start = first_table;
  cluster_start = data_start;
  next_free_cluster = 2;
  data_size = filesystem_size - data_start;
}

new_image_lem : new_image ≡ fresh
unfolding write_at load32 fresh
new_image_lem = refl

seeded_zero : (i : ℕ) → first_table + 12 ≤ i → seeded i ≡ 0
seeded_zero i h =
    write_at-outside (write_at (λ k. 0) 0 boot_sector) first_table first_entries i (inr h)
    ∙ write_at-outside (λ k. 0) 0 boot_sector i (inr (omega (arith, h)))

get_or_past : (xs : List ℕ) (i : ℕ) → length xs ≤ i → get_or xs i 0 ≡ 0
get_or_past [] i h = refl
get_or_past (x ∷ xs) zero h = absurd (omega arith)
get_or_past (x ∷ xs) (suc i) h = get_or_past xs i (omega arith)

seeded_boot : (i : ℕ) → i < first_table → seeded i ≡ get_or boot_sector i 0
seeded_boot i h =
    write_at-outside (write_at (λ k. 0) 0 boot_sector) first_table first_entries i (inl h)
    ∙ elim (Bool-cases (ltb i 90)) [
      | inl inside ↦
          let z : 0 + i ≡ i = omega arith in
          rw z at (write_at-inside (λ k. 0) 0 boot_sector i (ltb→lt i 90 inside))
      | inr behind ↦
          write_at-outside (λ k. 0) 0 boot_sector i (inr (ltb→le i 90 behind))
          ∙ sym (get_or_past boot_sector i (ltb→le i 90 behind))
    ]

copy_out : (i : ℕ) → (i < second_table) ⊎ (second_table + 32768 ≤ i) → both_tables i ≡ seeded i
copy_out i out = ground arith

copy_in : (k : ℕ) → k < 32768 → both_tables (second_table + k) ≡ seeded (first_table + k)
copy_in k h =
    let low : leb second_table (second_table + k) ≡ true = le→leb _ _ (omega arith) in
    let high : ltb (second_table + k) (second_table + 32768) ≡ true = lt→ltb _ _ (omega arith) in
    let at : first_table + (second_table + k - second_table) ≡ first_table + k = omega arith in
    rw (low, high) (ap seeded at)

load32_zero : (b : Memory) (off : ℕ) → ((k : ℕ) → k < 4 → b (off + k) ≡ 0) → load32 b off ≡ 0
unfolding load32
load32_zero b off zeros =
    let z : off + 0 ≡ off = omega arith in
    omega (
      arith,
      rw z at (zeros 0 (omega arith)),
      zeros 1 (omega arith),
      zeros 2 (omega arith),
      zeros 3 (omega arith),
    )

fresh-copies :
    (c : ℕ)
    → c < 8192
    → load32 both_tables (second_table + 4 * c) ≡ load32 both_tables (first_table + 4 * c)
fresh-copies c h =
    load32_cong both_tables both_tables (first_table + 4 * c) (second_table + 4 * c) (λ k lt.
      let a : second_table + 4 * c + k ≡ second_table + (4 * c + k) = omega arith in
      let b : first_table + 4 * c + k ≡ first_table + (4 * c + k) = omega arith in
      rw (a, b)
        (copy_in (4 * c + k) (omega arith)
          ∙ sym (copy_out (first_table + (4 * c + k)) (inl (omega arith)))))

fresh-IsBuilt : IsBuilt fresh
unfolding fresh
fresh-IsBuilt = record {
  size = refl;
  fat_start = refl;
  cluster_start = refl;
  boot = λ i h. copy_out i (inl (omega (arith, h))) ∙ seeded_boot i h;
  low = omega arith;
  high = omega arith;
  copies = fresh-copies;
  unused = λ c low two lt. load32_zero both_tables (first_table + 4 * c) (λ k h.
      copy_out (first_table + 4 * c + k) (inl (omega arith))
      ∙ seeded_zero (first_table + 4 * c + k) (omega arith));
  blank = λ i h. copy_out i (inr (omega (arith, h))) ∙ seeded_zero i (omega (arith, h));
}

-- What `create_filesystem` makes when it gets its memory is a well-formed image.
pub new_image-IsBuilt : IsBuilt new_image
new_image-IsBuilt = rw new_image_lem fresh-IsBuilt
