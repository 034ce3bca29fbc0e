-- ===== src/Ata/Tests.antt =====
-- A drive of one hundred sectors in memory, which is busy until its status is read once.
use ring_os.Prelude.{
  ℕ, ◌≤◌, ◌≡◌, ◌⊎◌, refl, ap, true, false, some, List, [], ◌∷◌, arith, ◌==◌, if◌then◌else◌, inr,
}
use ring_os.Block.Ram.{fit, length-fit}
use ring_os.Ata.{Ports, Ata, ata_400ns_delay, is_not_busy, status_port, is_drq, wait_loop}
use ring_os.Ata.Wait.{status, Succeeded, TimedOut, wait_loop_lem}
use ring_os.Ata.Drive.{
  Registers, address, put_register, Phase, idle, finishing, preparing, transferring, at_rest,
  in_transfer, settle, sectors_from, behind_word, View, IsDrive,
}
use ring_os.Ata.Read.{shows, words}

abbrev view : View → View
view s = record s { words = λ l. fit 256 (s.words l) }

abbrev taken : Phase → Phase × ℕ
taken (transferring ((w ∷ ws) ∷ rest)) = (behind_word ws rest, w)
taken p = (p, 0)

-- BSY, or DRQ and DRDY, or DRDY.
abbrev code : Phase → ℕ
code idle = 0x40
code finishing = 0x80
code (preparing ss) = 0x80
code (transferring ss) = 0x48

abbrev command : ℕ → View → View
command c s =
    if c == 0x20
    then record s {
      phase = preparing (sectors_from (view s).words (address s.registers) s.registers.seccount);
    }
    else s

abbrev ports : Ports
ports = record {
  State = View;
  inb = λ s p. (settle s, code s.phase);
  inw = λ s p. (record s { phase = (taken s.phase).0 }, (taken s.phase).1);
  outb = λ s p v.
      if p == status_port
      then command v s
      else record s { registers = put_register p v s.registers };
  outw = λ s p w. s;
}

register_runs :
    (s : View) (port value : ℕ)
    → s.phase ≡ idle
    → port ≤ 0x1F6
    → view (ports.outb s port value)
      ≡ shows idle (put_register port value s.registers) (view s).words
register_runs s port value free le =
    let other : (port == status_port) ≡ false = ground arith in
    rw other (ap (λ (p : Phase). shows p (put_register port value s.registers) (view s).words) free)

-- The second status that is read shows a drive that has settled.
free_in_time :
    (p : Phase) (r : Registers) (f : ℕ → List ℕ)
    → at_rest p ≡ true
    → is_not_busy (status ports 1 (shows p r f)) ≡ true
unfolding ata_400ns_delay
free_in_time idle r f h = refl
free_in_time finishing r f h = refl
free_in_time (preparing ss) r f h = absurd (cc)
free_in_time (transferring ss) r f h = absurd (cc)

words_in_time :
    (p : Phase) (r : Registers) (f : ℕ → List ℕ)
    → in_transfer p ≡ true
    → is_drq (status ports 1 (shows p r f)) ≡ true
unfolding ata_400ns_delay
words_in_time idle r f h = absurd (cc)
words_in_time finishing r f h = absurd (cc)
words_in_time (preparing ss) r f h = refl
words_in_time (transferring ss) r f h = refl

abbrev drive : IsDrive ports
drive = record {
  view = view;
  capacity = 100;
  addressable = omega arith;
  whole = λ s l. length-fit 256 (s.words l);
  poll = λ s. inr refl;
  free_shown = λ s h now. refl;
  words_shown = λ s h now. refl;
  frees = λ s h. (1, omega arith, free_in_time s.phase s.registers s.words h);
  offers = λ s h. (1, omega arith, words_in_time s.phase s.registers s.words h);
  register = λ s port value h low high byte. register_runs s port value h high;
  read_command = λ s r f h some fits.
      ap
        (λ (x : View).
          shows (preparing (sectors_from x.words (address x.registers) x.registers.seccount))
            x.registers x.words)
        h;
  word_in = λ s r f w ws rest h. (
    ap (λ (x : View). (taken x.phase).1) h,
    ap (λ (x : View). shows (taken x.phase).0 x.registers x.words) h,
  );
}

abbrev start : Ata View
start = record {
  hardware =
      shows finishing (record { drivehead = 0; seccount = 0; sector = 0; lcyl = 0; hcyl = 0 })
        (λ l. l ∷ []);
  is_initialized = true;
}

wait_loop_example :
    Succeeded ports is_drq 9 start.hardware (wait_loop ports is_drq 9 start.hardware)
    ⊎ TimedOut ports is_drq 9 start.hardware (wait_loop ports is_drq 9 start.hardware)
wait_loop_example = wait_loop_lem ports is_drq 9 start.hardware
