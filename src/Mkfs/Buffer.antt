-- ===== src/Mkfs/Buffer.antt =====
-- What a store changes and what a load reads back.
use ring_os.Prelude.{
  ℕ, ◌+◌, ◌-◌, ◌/◌, ◌%◌, ◌≤◌, ◌<◌, ◌≡◌, ◌⊎◌, refl, List, arith, length, get_or, u32_mod, leb, ltb,
  true, lt→ltb, le→leb,
}
use ring_os.Fat.Dir.{Memory}
use ring_os.Mkfs.{write_at, load32, store32, le32}

pub write_at-outside :
    (b : Memory) (off : ℕ) (bytes : List ℕ) (i : ℕ)
    → (i < off) ⊎ (off + length bytes ≤ i)
    → write_at b off bytes i ≡ b i
unfolding write_at
write_at-outside b off bytes i apart = ground arith

pub write_at-inside :
    (b : Memory) (off : ℕ) (bytes : List ℕ) (k : ℕ)
    → k < length bytes
    → write_at b off bytes (off + k) ≡ get_or bytes k 0
unfolding write_at
write_at-inside b off bytes k h =
    let low : leb off (off + k) ≡ true = le→leb _ _ (omega arith) in
    let high : ltb (off + k) (off + length bytes) ≡ true = lt→ltb _ _ (omega arith) in
    let at : off + k - off ≡ k = omega arith in rw (low, high, at) refl

-- A load reads four bytes.
pub load32_cong :
    (b b' : Memory) (off off' : ℕ)
    → ((k : ℕ) → k < 4 → b' (off' + k) ≡ b (off + k))
    → load32 b' off' ≡ load32 b off
unfolding load32
load32_cong b b' off off' same =
    let z : off + 0 ≡ off = omega arith in
    let z' : off' + 0 ≡ off' = omega arith in
    let zero_same : b' off' ≡ b off = rw (z, z') at (same 0 (omega arith)) in
    omega (arith, zero_same, same 1 (omega arith), same 2 (omega arith), same 3 (omega arith))

pub load32-outside :
    (b : Memory) (off : ℕ) (bytes : List ℕ) (i : ℕ)
    → (i + 4 ≤ off) ⊎ (off + length bytes ≤ i)
    → load32 (write_at b off bytes) i ≡ load32 b i
load32-outside b off bytes i apart =
    load32_cong b (write_at b off bytes) i i
      (λ k h. write_at-outside b off bytes (i + k) (ground arith))

pub load32-store32 : (b : Memory) (off v : ℕ) → v < u32_mod → load32 (store32 b off v) off ≡ v
unfolding load32
load32-store32 b off v small =
    let z : off + 0 ≡ off = omega arith in
    let b0 : store32 b off v off ≡ v % 256 =
      rw z at (write_at-inside b off (le32 v) 0 (omega arith)) in
    let b1 : store32 b off v (off + 1) ≡ v / 256 % 256 =
      write_at-inside b off (le32 v) 1 (omega arith) in
    let b2 : store32 b off v (off + 2) ≡ v / 65536 % 256 =
      write_at-inside b off (le32 v) 2 (omega arith) in
    let b3 : store32 b off v (off + 3) ≡ v / 16777216 % 256 =
      write_at-inside b off (le32 v) 3 (omega arith) in
    omega (arith, b0, b1, b2, b3)
