-- ===== src/Ata/Read.antt =====
-- `ata_read_sectors` over a drive.
use ring_os.Prelude.{
  ℕ, zero, suc, ◌+◌, ◌/◌, ◌%◌, ◌≤◌, ◌<◌, ◌≡◌, refl, ap, ◌∙◌, Bool, true, false, List, arith, inl,
  inr,
}
use ring_os.Ata.{
  Ports, Ata, status_port, drivehead_port, seccount_port, sector_port, lcyl_port, hcyl_port,
  is_not_busy, is_drq, rounds, ata_400ns_delay, wait_loop, wait_not_busy, wait_drq, send_command,
}
use ring_os.Ata.Wait.{before, status, wait_loop_lem}
use ring_os.Ata.Drive.{
  Registers, address, put_register, Phase, idle, finishing, preparing, transferring, at_rest,
  in_transfer, settled, settle, Moved, View, IsDrive,
}

abbrev pub shows : Phase → Registers → (ℕ → List ℕ) → View
shows p r f = record { phase = p; registers = r; words = f }

-- The registers of a command.
abbrev pub task : ℕ → ℕ → Registers
task lba n = record {
  drivehead = 0xE0 + lba / 16777216 % 16;
  seccount = n;
  sector = lba % 256;
  lcyl = lba / 256 % 256;
  hcyl = lba / 65536 % 256;
}

-- The registers address the sector, if its number has 28 bits.
pub address-task : (lba n : ℕ) → lba < 268435456 → address (task lba n) ≡ lba
address-task lba n h = omega arith

module _ (ports : Ports) (drive : IsDrive ports) where
  open drive use {
    view, capacity, poll, free_shown, words_shown, frees, offers, register, word_in, whole,
  }

  settled_twice : (p : Phase) → settled (settled p) ≡ settled p
  settled_twice idle = refl
  settled_twice finishing = refl
  settled_twice (preparing ss) = refl
  settled_twice (transferring ss) = refl

  settle_twice : (v : View) → settle (settle v) ≡ settle v
  settle_twice v = ap (λ (p : Phase). shows p v.registers v.words) (settled_twice v.phase)

  Moved-trans : (u v w : View) → Moved u v → Moved v w → Moved u w
  Moved-trans u v w (inl e) (inl g) = inl (g ∙ e)
  Moved-trans u v w (inl e) (inr g) = inr (g ∙ ap settle e)
  Moved-trans u v w (inr e) (inl g) = inr (g ∙ e)
  Moved-trans u v w (inr e) (inr g) = inr (g ∙ ap settle e ∙ settle_twice u)

  polled :
      (s t : ports.State) → Moved (view s) (view t) → Moved (view s) (view (ports.inb t 0x1F7).0)
  polled s t h = Moved-trans (view s) (view t) (view (ports.inb t 0x1F7).0) h (poll t)

  delayed :
      (s t : ports.State)
      → Moved (view s) (view t)
      → Moved (view s) (view (ata_400ns_delay ports t))
  unfolding ata_400ns_delay
  delayed s t h = polled s _ (polled s _ (polled s _ (polled s t h)))

  before_Moved :
      (k : ℕ) (s t : ports.State)
      → Moved (view s) (view t)
      → Moved (view s) (view (before ports k t))
  before_Moved zero s t h = h
  before_Moved (suc k) s t h =
      before_Moved k s (ata_400ns_delay ports (ports.inb t status_port).0)
        (delayed s (ports.inb t status_port).0 (polled s t h))

  -- What a status shows of a phase that has time to settle.
  seen :
      (test : Phase → Bool) (status_test : ℕ → Bool)
      → ((p : Phase) → test p ≡ true → test (settled p) ≡ true)
      → ((t : ports.State)
          → test (view t).phase ≡ true
          → status_test (ports.inb t status_port).1 ≡ true
          → view (ports.inb t status_port).0 ≡ settle (view t))
      → (s t : ports.State) → Moved (view s) (view t)
      → test (view s).phase ≡ true
      → status_test (ports.inb t status_port).1 ≡ true
      → view (ports.inb t status_port).0 ≡ settle (view s)
  seen test status_test stays shown s t (inl e) h now =
      shown t (ap (λ (v : View). test v.phase) e ∙ h) now ∙ ap settle e
  seen test status_test stays shown s t (inr e) h now =
      shown t (ap (λ (v : View). test v.phase) e ∙ stays (view s).phase h) now
      ∙ ap settle e
      ∙ settle_twice (view s)

  at_rest_stays : (p : Phase) → at_rest p ≡ true → at_rest (settled p) ≡ true
  at_rest_stays idle h = refl
  at_rest_stays finishing h = refl
  at_rest_stays (preparing ss) h = h
  at_rest_stays (transferring ss) h = h

  in_transfer_stays : (p : Phase) → in_transfer p ≡ true → in_transfer (settled p) ≡ true
  in_transfer_stays idle h = h
  in_transfer_stays finishing h = h
  in_transfer_stays (preparing ss) h = refl
  in_transfer_stays (transferring ss) h = refl

  -- A wait that succeeds, and has seen the drive settle.
  abbrev pub Waited : ports.State → ports.State × Bool → Type 0
  Waited s run = (s' : ports.State) × (run ≡ (s', true)) × (view s' ≡ settle (view s))

  in_time :
      (ready : ℕ → Bool) (s : ports.State)
      → ((t : ports.State)
          → Moved (view s) (view t)
          → ready (ports.inb t status_port).1 ≡ true
          → view (ports.inb t status_port).0 ≡ settle (view s))
      → (k : ℕ) × (k < rounds) × (ready (status ports k s) ≡ true)
      → Waited s (wait_loop ports ready rounds s)
  in_time ready s shown (k, lt, e) = elim (wait_loop_lem ports ready rounds s) [
    | inl found ↦ (
      (ports.inb (before ports found.round s) status_port).0,
      found.result,
      shown (before ports found.round s) (before_Moved found.round s s (inl refl)) found.now,
    )
    | inr late ↦ let never : ready (status ports k s) ≡ false = late.never k lt in absurd (cc)
  ]

  pub wait_not_busy_lem :
      (s : ports.State) → at_rest (view s).phase ≡ true → Waited s (wait_not_busy ports s)
  unfolding wait_not_busy
  wait_not_busy_lem s h =
      in_time is_not_busy s
        (λ t moved now. seen at_rest is_not_busy at_rest_stays free_shown s t moved h now)
        (frees s h)

  pub wait_drq_lem :
      (s : ports.State) → in_transfer (view s).phase ≡ true → Waited s (wait_drq ports s)
  unfolding wait_drq
  wait_drq_lem s h =
      in_time is_drq s
        (λ t moved now. seen in_transfer is_drq in_transfer_stays words_shown s t moved h now)
        (offers s h)

  module _ (lba n : ℕ) (s : ports.State) (r : Registers) (f : ℕ → List ℕ)
      (h : view s ≡ shows idle r f) (small : n < 256) where
    -- A register that is written.
    put :
        (port value : ℕ) (t : ports.State) (q : Registers)
        → 0x1F2 ≤ port
        → port ≤ 0x1F6
        → value < 256
        → view t ≡ shows idle q f
        → view (ports.outb t port value) ≡ shows idle (put_register port value q) f
    put port value t q low high byte e =
        register t port value (ap (λ (x : View). x.phase) e) low high byte
        ∙ ap (λ (x : View). shows idle (put_register port value x.registers) x.words) e

    -- The hardware when the command is written.
    pub send_command_lem :
        (command : ℕ)
        → (t : ports.State) × (send_command ports lba n command s
            ≡ ports.outb t status_port command)
          × (view t ≡ shows idle (task lba n) f)
    unfolding send_command
    send_command_lem command =
        let e1 =
          put drivehead_port (0xE0 + lba / 16777216 % 16) s r (omega arith) (omega arith)
            (omega arith) h in
        let e2 = put seccount_port n _ _ (omega arith) (omega arith) (omega arith) e1 in
        let e3 = put sector_port (lba % 256) _ _ (omega arith) (omega arith) (omega arith) e2 in
        let e4 = put lcyl_port (lba / 256 % 256) _ _ (omega arith) (omega arith) (omega arith) e3 in
        let e5 =
          put hcyl_port (lba / 65536 % 256) _ _ (omega arith) (omega arith) (omega arith) e4 in
        (_, refl, e5)

  -- The driver was started, and the drive has no command under way but for its end.
  pub record IsReady (a : Ata ports.State) : Type 0 where
    pub on : a.is_initialized ≡ true
    pub free : at_rest (view a.hardware).phase ≡ true

  -- What a sector of the drive holds.
  abbrev pub words : Ata ports.State → ℕ → List ℕ
  words a = (view a.hardware).words
