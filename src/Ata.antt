-- ===== src/Ata.antt =====
-- drivers/ata.c, on the ports of include/io.h, with the registers of include/ata.h. What the driver
-- prints is left out, and buffers are not null pointers.
pub mod Wait
pub mod Drive
pub mod Read
mod Tests
use mathlib.Core.Option
use package.ring_os.Prelude.{
  ℕ, zero, suc, ◌+◌, ◌/◌, ◌%◌, Bool, true, false, not, Option, none, some, List, [], ◌∷◌, ◌++◌,
  ◌==◌, if◌then◌else◌, take, drop,
}

-- `inb`, `inw`, `outb` and `outw`: the state is that of the hardware behind the ports.
pub record Ports : Type 1 where
  pub State : Type 0
  pub inb : State → ℕ → State × ℕ
  pub inw : State → ℕ → State × ℕ
  pub outb : State → ℕ → ℕ → State
  pub outw : State → ℕ → ℕ → State

-- `ata_initialized`, and the hardware.
pub record Ata (S : Type 0) : Type 0 where
  pub hardware : S
  pub is_initialized : Bool

abbrev pub data_port : ℕ
data_port = 0x1F0

abbrev pub seccount_port : ℕ
seccount_port = 0x1F2

abbrev pub sector_port : ℕ
sector_port = 0x1F3

abbrev pub lcyl_port : ℕ
lcyl_port = 0x1F4

abbrev pub hcyl_port : ℕ
hcyl_port = 0x1F5

abbrev pub drivehead_port : ℕ
drivehead_port = 0x1F6

-- The status register when it is read, and the command register when it is written.
abbrev pub status_port : ℕ
status_port = 0x1F7

-- `!(status & ATA_SR_BSY)`
abbrev pub is_not_busy : ℕ → Bool
is_not_busy status = status / 128 % 2 == 0

-- `status & ATA_SR_DRQ`
abbrev pub is_drq : ℕ → Bool
is_drq status = status / 8 % 2 == 1

-- `while (--timeout)` from 100000 on: the number of rounds.
abbrev pub rounds : ℕ
rounds = 99999

module _ (ports : Ports) where
  unfoldable pub ata_400ns_delay : ports.State → ports.State
  ata_400ns_delay s =
      let s1 = (ports.inb s status_port).0 in
      let s2 = (ports.inb s1 status_port).0 in
      let s3 = (ports.inb s2 status_port).0 in (ports.inb s3 status_port).0

  -- The loop that waits for a status, with `left` rounds to go.
  unfoldable pub wait_loop : (ℕ → Bool) → ℕ → ports.State → ports.State × Bool
  wait_loop ready zero s = (s, false)
  wait_loop ready (suc left) s =
      let (s', status) = ports.inb s status_port in
      let rest = wait_loop ready left (ata_400ns_delay s') in
      if ready status then (s', true) else rest

  unfoldable pub wait_not_busy : ports.State → ports.State × Bool
  wait_not_busy = wait_loop is_not_busy rounds

  unfoldable pub wait_drq : ports.State → ports.State × Bool
  wait_drq = wait_loop is_drq rounds

  -- The loop over the words of a sector, with `left` to go.
  unfoldable pub read_words : ℕ → ports.State → ports.State × List ℕ
  read_words zero s = (s, [])
  read_words (suc left) s =
      let (s1, w) = ports.inw s data_port in let (s2, ws) = read_words left s1 in (s2, w ∷ ws)

  unfoldable pub write_words : List ℕ → ports.State → ports.State
  write_words [] s = s
  write_words (w ∷ ws) s = write_words ws (ports.outw s data_port w)

  -- The drive, the number of the sector and the count, and then the command.
  unfoldable pub send_command : ℕ → ℕ → ℕ → ports.State → ports.State
  send_command lba sector_count command s =
      let s1 = ports.outb s drivehead_port (0xE0 + lba / 16777216 % 16) in
      let s2 = ports.outb s1 seccount_port sector_count in
      let s3 = ports.outb s2 sector_port (lba % 256) in
      let s4 = ports.outb s3 lcyl_port (lba / 256 % 256) in
      let s5 = ports.outb s4 hcyl_port (lba / 65536 % 256) in ports.outb s5 status_port command

  -- What `ata_init` does after its early return.
  unfoldable pub identify : ports.State → Ata ports.State × Bool
  identify s =
      let (s1, free) = wait_not_busy (ata_400ns_delay (ports.outb s drivehead_port 0xA0)) in
      let (s2, ready) = wait_drq (ata_400ns_delay (ports.outb s1 status_port 0xEC)) in
      let s3 = (read_words 256 s2).0 in
      if free
      then if ready
        then (record { hardware = s3; is_initialized = true }, true)
        else (record { hardware = s2; is_initialized = false }, false)
      else (record { hardware = s1; is_initialized = false }, false)

  unfoldable pub init : Ata ports.State → Ata ports.State × Bool
  init a = if a.is_initialized then (a, true) else identify a.hardware

  -- The loop over the sectors, with `left` to go; `none` is the result `false`.
  unfoldable pub read_data : ℕ → ports.State → ports.State × Option (List ℕ)
  read_data zero s = (s, some [])
  read_data (suc left) s =
      let (s1, ready) = wait_drq s in
      let (s2, ws) = read_words 256 s1 in
      let (s3, rest) = read_data left s2 in
      if ready then (s3, Option.map (λ more. ws ++ more) rest) else (s1, none)

  unfoldable pub start_read : ℕ → ℕ → ports.State → ports.State × Option (List ℕ)
  start_read lba sector_count s =
      let (s1, free) = wait_not_busy s in
      let run = read_data sector_count (send_command lba sector_count 0x20 s1) in
      if free then run else (s1, none)

  -- The result holds the words of the buffer.
  unfoldable pub read_sectors : Ata ports.State → ℕ → ℕ → Ata ports.State × Option (List ℕ)
  read_sectors a lba sector_count =
      let (s, r) = start_read lba sector_count a.hardware in
      if a.is_initialized then (record a { hardware = s }, r) else (a, none)

  -- The words of the buffer from the current sector on.
  unfoldable pub write_data : ℕ → List ℕ → ports.State → ports.State × Bool
  write_data zero ws s = (s, true)
  write_data (suc left) ws s =
      let (s1, ready) = wait_drq s in
      let s2 = ports.outb (write_words (take 256 ws) s1) status_port 0xE7 in
      let (s3, flushed) = wait_not_busy s2 in
      let rest = write_data left (drop 256 ws) s3 in
      if ready then if flushed then rest else (s3, false) else (s1, false)

  unfoldable pub start_write : ℕ → ℕ → List ℕ → ports.State → ports.State × Bool
  start_write lba sector_count ws s =
      let (s1, free) = wait_not_busy s in
      let run = write_data sector_count ws (send_command lba sector_count 0x30 s1) in
      if free then run else (s1, false)

  unfoldable pub write_sectors : Ata ports.State → ℕ → ℕ → List ℕ → Ata ports.State × Bool
  write_sectors a lba sector_count ws =
      let (s, r) = start_write lba sector_count ws a.hardware in
      if a.is_initialized then (record a { hardware = s }, r) else (a, false)
