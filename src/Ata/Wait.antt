-- ===== src/Ata/Wait.antt =====
-- The wait for a status.
use ring_os.Prelude.{
  ℕ, zero, suc, ◌<◌, ◌≡◌, ◌⊎◌, refl, Bool, true, false, arith, Bool-cases, inl, inr,
}
use ring_os.Ata.{Ports, status_port, ata_400ns_delay, wait_loop}

module _ (ports : Ports) where
  -- The hardware before round `k`.
  abbrev pub before : ℕ → ports.State → ports.State
  before zero s = s
  before (suc k) s = before k (ata_400ns_delay ports (ports.inb s status_port).0)

  -- The status that round `k` reads.
  abbrev pub status : ℕ → ports.State → ℕ
  status k s = (ports.inb (before k s) status_port).1

  module _ (ready : ℕ → Bool) where
    -- The first round that reads a status that is ready ends the wait.
    pub record Succeeded (left : ℕ) (s : ports.State) (run : ports.State × Bool) : Type 0 where
      pub round : ℕ
      pub in_time : round < left
      pub now : ready (status round s) ≡ true
      pub earlier : (i : ℕ) → i < round → ready (status i s) ≡ false
      pub result : run ≡ ((ports.inb (before round s) status_port).0, true)

    -- No round reads one.
    pub record TimedOut (left : ℕ) (s : ports.State) (run : ports.State × Bool) : Type 0 where
      pub never : (i : ℕ) → i < left → ready (status i s) ≡ false
      pub result : run ≡ (before left s, false)

    -- The loop that waits for a status ends on any hardware: either with true, behind the read of
    -- the first round whose status is ready, or with false, behind all rounds, when none of them
    -- reads such a status.
    pub wait_loop_lem :
        (left : ℕ) (s : ports.State)
        → Succeeded left s (wait_loop ports ready left s)
          ⊎ TimedOut left s (wait_loop ports ready left s)
    unfolding wait_loop
    wait_loop_lem zero s = inr (record { never = λ i h. absurd (omega arith); result = refl })
    wait_loop_lem (suc left) s = elim (Bool-cases (ready (ports.inb s status_port).1)) [
      | inl e ↦ inl (record {
        round = 0;
        in_time = omega arith;
        now = e;
        earlier = λ i h. absurd (omega arith);
        result = rw e refl;
      })
      | inr e ↦ elim (wait_loop_lem left (ata_400ns_delay ports (ports.inb s status_port).0)) [
        | inl found ↦ inl (record {
          round = suc found.round;
          in_time = omega (arith, found.in_time);
          now = found.now;
          earlier = after e found.round found.earlier;
          result = rw e found.result;
        })
        | inr late ↦ inr (record { never = after e left late.never; result = rw e late.result })
      ]
    ]
      where
        after :
            ready (ports.inb s status_port).1 ≡ false
            → (n : ℕ)
            → ((i : ℕ)
                → i < n
                → ready (status i (ata_400ns_delay ports (ports.inb s status_port).0)) ≡ false)
            → (i : ℕ) → i < suc n
            → ready (status i s) ≡ false
        after e n h zero lt = e
        after e n h (suc i) lt = h i (omega arith)
