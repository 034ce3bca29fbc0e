-- ===== src/Ata/Drive.antt =====
-- A drive behind the ports: what the ATA standard says of the registers, of BSY and DRQ, and of the
-- transfer of data that the READ SECTORS command of drivers/ata.c starts.
use ring_os.Prelude.{
  ℕ, zero, suc, ◌+◌, ◌*◌, ◌%◌, ◌≤◌, ◌<◌, ◌≡◌, ◌⊎◌, Bool, true, false, List, [], ◌∷◌, length, ◌==◌,
  if◌then◌else◌,
}
use ring_os.Ata.{Ports, data_port, status_port, is_not_busy, is_drq, rounds}
use ring_os.Ata.Wait.{status}

-- The registers in which a command finds its arguments.
pub record Registers : Type 0 where
  pub drivehead : ℕ
  pub seccount : ℕ
  pub sector : ℕ
  pub lcyl : ℕ
  pub hcyl : ℕ

-- The sector that the registers address.
abbrev pub address : Registers → ℕ
address r = r.sector + 256 * r.lcyl + 65536 * r.hcyl + 16777216 * (r.drivehead % 16)

abbrev pub put_register : ℕ → ℕ → Registers → Registers
put_register port value r =
    if port == 0x1F2
    then record r { seccount = value }
    else if port == 0x1F3
    then record r { sector = value }
    else if port == 0x1F4
    then record r { lcyl = value }
    else if port == 0x1F5
    then record r { hcyl = value }
    else record r { drivehead = value }

-- What the drive does, as in the state diagrams of the standard for data that the program reads: it
-- is free, or is about to be; it prepares the words of a sector, with those of the sectors behind it
-- (BSY is set, DRQ is clear); or it has words for the program (BSY is clear, DRQ is set).
pub data Phase : Type 0 where
  idle : Phase
  finishing : Phase
  preparing : List (List ℕ) → Phase
  transferring : List (List ℕ) → Phase

-- No command is under way but for its end.
abbrev pub at_rest : Phase → Bool
at_rest idle = true
at_rest finishing = true
at_rest (preparing ss) = false
at_rest (transferring ss) = false

-- Words are to be read, now or later.
abbrev pub in_transfer : Phase → Bool
in_transfer idle = false
in_transfer finishing = false
in_transfer (preparing ss) = true
in_transfer (transferring ss) = true

-- The phase that the drive gets to on its own.
abbrev pub settled : Phase → Phase
settled idle = idle
settled finishing = idle
settled (preparing ss) = transferring ss
settled (transferring ss) = transferring ss

-- The words of `n` sectors from `lba` on.
abbrev pub sectors_from : (ℕ → List ℕ) → ℕ → ℕ → List (List ℕ)
sectors_from f lba zero = []
sectors_from f lba (suc n) = f lba ∷ sectors_from f (lba + 1) n

-- The phase behind a word that was read, with the words that the sector still has: each sector is
-- prepared anew.
abbrev pub behind_word : List ℕ → List (List ℕ) → Phase
behind_word [] [] = finishing
behind_word [] (s ∷ rest) = preparing (s ∷ rest)
behind_word (w ∷ ws) rest = transferring ((w ∷ ws) ∷ rest)

pub record View : Type 0 where
  pub phase : Phase
  pub registers : Registers
  -- The words of each sector.
  pub words : ℕ → List ℕ

abbrev pub settle : View → View
settle v = record v { phase = settled v.phase }

-- Time went by.
abbrev pub Moved : View → View → Type 0
Moved v w = (w ≡ v) ⊎ (w ≡ settle v)

-- Only a status that the program has seen tells it that the drive is free, or has words; nothing is
-- said of a register that is written, or of a word that is read, before.
pub record IsDrive (ports : Ports) : Type 0 where
  pub view : ports.State → View
  pub capacity : ℕ
  pub addressable : capacity ≤ 268435456
  pub whole : (s : ports.State) (l : ℕ) → length ((view s).words l) ≡ 256
  -- While the program reads the status the drive gets on with its work, and does nothing else.
  pub poll : (s : ports.State) → Moved (view s) (view (ports.inb s status_port).0)
  -- Without a command under way a clear BSY shows that the drive is free.
  pub free_shown :
      (s : ports.State)
      → at_rest (view s).phase ≡ true
      → is_not_busy (ports.inb s status_port).1 ≡ true
      → view (ports.inb s status_port).0 ≡ settle (view s)
  -- While words are to be read DRQ shows that they are there.
  pub words_shown :
      (s : ports.State)
      → in_transfer (view s).phase ≡ true
      → is_drq (ports.inb s status_port).1 ≡ true
      → view (ports.inb s status_port).0 ≡ settle (view s)
  -- The drive is in time for the program's waits.
  pub frees :
      (s : ports.State)
      → at_rest (view s).phase ≡ true
      → (k : ℕ) × (k < rounds) × (is_not_busy (status ports k s) ≡ true)
  pub offers :
      (s : ports.State)
      → in_transfer (view s).phase ≡ true
      → (k : ℕ) × (k < rounds) × (is_drq (status ports k s) ≡ true)
  pub register :
      (s : ports.State) (port value : ℕ)
      → (view s).phase ≡ idle
      → 0x1F2 ≤ port
      → port ≤ 0x1F6
      → value < 256
      → view (ports.outb s port value) ≡ record {
        phase = idle;
        registers = put_register port value (view s).registers;
        words = (view s).words;
      }
  -- READ SECTORS
  pub read_command :
      (s : ports.State) (r : Registers) (f : ℕ → List ℕ)
      → view s ≡ record { phase = idle; registers = r; words = f }
      → 1 ≤ r.seccount
      → address r + r.seccount ≤ capacity
      → view (ports.outb s status_port 0x20) ≡ record {
        phase = preparing (sectors_from f (address r) r.seccount);
        registers = r;
        words = f;
      }
  pub word_in :
      (s : ports.State) (r : Registers) (f : ℕ → List ℕ) (w : ℕ) (ws : List ℕ)
      (rest : List (List ℕ))
      → view s ≡ record { phase = transferring ((w ∷ ws) ∷ rest); registers = r; words = f }
      → ((ports.inw s data_port).1 ≡ w)
        × (view (ports.inw s data_port).0
            ≡ record { phase = behind_word ws rest; registers = r; words = f })
