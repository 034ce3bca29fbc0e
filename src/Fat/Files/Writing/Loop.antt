-- ===== src/Fat/Files/Writing/Loop.antt =====
-- The data loop as a whole, and the data loop of `fat32_read_file` behind it.
use ring_os.Prelude.{
  ℕ, zero, suc, ◌+◌, ◌-◌, ◌%◌, ◌^◌, ◌≤◌, ◌<◌, ◌≡◌, ◌≢◌, ◌⊎◌, sym, ap, ◌∙◌, true, false, some, List,
  [], ◌∷◌, arith, u32_mod, ltb, length, take, Bool-cases, inl, inr, ltb→lt, ltb→le,
}
use ring_os.Block.{BlockDevice, IsReliable}
use ring_os.Fat.{Volume, Fs}
use ring_os.Fat.Table.View.{entries, table}
use ring_os.Fat.Clusters.Chain.{IsChain}
use ring_os.Fat.Clusters.Alloc.{allocate_cluster_lem}
use ring_os.Fat.Dir.{Memory}
use ring_os.Fat.Files.{write_loop, read_loop}
use ring_os.Fat.Files.Bytes.{slice}
use ring_os.Fat.Files.Layout.{IsLaidOut, cluster_fits}
use ring_os.Fat.Files.Reading.{
  AllFit, read_loop_lem, file_bytes, sectors_for_bytes, sectors_for_some,
}
use ring_os.Fat.Files.Writing.{
  IsExhausted, Stored, mark, loop_stops, stopped, loop_last, loop_full, loop_next,
}
use ring_os.Fat.Files.Writing.Link.{
  fs1, written1, end_mark, last-Wrote, last_round, exhausted, link, fs3, next_entry, next-Wrote,
}

module _ (dev : BlockDevice) (rel : IsReliable dev) where
  open rel use {capacity, contents}

  -- On a laid out volume over a reliable device, for a size below 2 ^ 32 - 511, from a used
  -- cluster and with more rounds of fuel than bytes that are left, the data loop of
  -- `fat32_write_file` ends. If it returns true, that cluster begins a chain whose other clusters
  -- were free and whose sectors hold the data that were left; the entries of all other clusters
  -- are as before, and so are the sectors outside the table and the chain. If it returns false,
  -- no cluster is free.
  pub write_loop_lem :
      (fuel : ℕ) (memory : Memory) (size written c : ℕ) (fs : Fs dev.State)
      → size - written < fuel
      → size + 511 < u32_mod
      → written ≤ size + 511
      → IsLaidOut fs.volume capacity
      → 2 ≤ c
      → c < entries fs.volume
      → table dev rel fs.volume fs.disk c ≢ 0
      → Stored dev rel memory size written c fs (write_loop dev fuel memory size written c fs)
  write_loop_lem zero memory size written c fs enough small le ok valid lt used =
      absurd (omega arith)
  write_loop_lem (suc fuel) memory size written c fs enough small le ok valid lt used =
      elim (Bool-cases (ltb written size)) [
        | inr done ↦
            let d = ltb→le written size done in
            inl (
              (mark dev rel memory size written c fs ok valid lt).disk,
              loop_stops dev rel memory size written c fs ok valid lt fuel d,
              stopped dev rel memory size written c fs ok valid lt d,
            )
        | inl go ↦
            let more = ltb→lt written size go in
            let some_sector =
              sectors_for_some fs.volume (size - written) ok.sized (omega arith) (omega arith) in
            let few = sectors_for_bytes fs.volume (size - written) (omega arith) in
            let next_at = written1 dev rel memory size written c fs ok valid lt in
            let in_word : next_at < u32_mod = omega arith in
            elim (Bool-cases (ltb next_at size)) [
              | inr done ↦
                  let d = ltb→le next_at size done in
                  inl (
                    (end_mark dev rel memory size written c fs ok valid lt).disk,
                    loop_last dev rel memory size written c fs ok valid lt fuel more in_word d
                        ∙ last_round dev rel memory size written c fs ok valid lt fuel (omega arith)
                            d,
                    last-Wrote dev rel memory size written c fs ok valid lt more d,
                  )
              | inl rest ↦
                  let room = ltb→lt next_at size rest in
                  elim (allocate_cluster_lem dev rel
                    (fs1 dev rel memory size written c fs ok valid lt) ok.sound) [
                      | inr (d, none_free, f) ↦ inr (
                        d,
                        loop_full dev rel memory size written c fs ok valid lt fuel d more room
                            (omega arith) none_free,
                        exhausted dev rel memory size written c fs ok valid lt d f,
                      )
                      | inl (next, d, taken, took) ↦
                          let linked =
                            link dev rel memory size written c fs ok valid lt next d took used in
                          let first =
                            loop_next dev rel memory size written c fs ok valid lt fuel next d
                              linked.disk more room (omega arith) took.valid taken linked.run in
                          let end_of_chain =
                            next_entry dev rel memory size written c fs ok valid lt next d took
                              used in
                          elim (write_loop_lem fuel memory size next_at next
                            (fs3 dev rel memory size written c fs ok valid lt next d took used)
                            (omega arith) small (omega arith) ok took.valid took.below
                            (λ e. absurd (omega (arith, e, end_of_chain)))) [
                              | inl (disk, run, w) ↦ inl (
                                disk,
                                first ∙ run,
                                next-Wrote dev rel memory size written c fs ok valid lt next d took
                                    used disk w more room,
                              )
                              | inr (disk, run, f) ↦
                                  inr (disk, first ∙ run, record { full = f.full })
                            ]
                    ]
            ]
      ]

  chain-AllFit :
      (t : ℕ → ℕ) (v : Volume) (c : ℕ) (cs : List ℕ)
      → IsLaidOut v capacity
      → IsChain t (entries v) c cs
      → AllFit v capacity cs
  chain-AllFit t v c [] ok h = tt
  chain-AllFit t v c (x ∷ cs) ok h = (
    cluster_fits v capacity ok x (omega (arith, h.0, h.1)) (omega (arith, h.0, h.2)),
    chain-AllFit t v (t c % 2 ^ 28) cs ok h.5,
  )

  -- The data are on the device: the data loop of `fat32_read_file` on the chain reads them.
  pub record IsReadBack (memory : Memory) (size c : ℕ) (fs : Fs dev.State) : Type 0 where
    pub chain : List ℕ
    pub bytes : List ℕ
    pub after : dev.State
    pub run :
        read_loop dev (suc (length chain)) size 0 c [] fs
        ≡ some (record fs { disk = after }, some bytes)
    pub holds : take size bytes ≡ slice memory 0 size
    pub kept : contents after ≡ contents fs.disk

  -- On a laid out volume over a reliable device, for a size below 2 ^ 32 - 511 and with more
  -- rounds of fuel than there are bytes, the data loop of `fat32_write_file` from a used cluster
  -- ends. If it returns true, the data loop of `fat32_read_file` from that cluster, with one
  -- round of fuel more than its chain has clusters, reads bytes that begin with the data; if it
  -- returns false, no cluster is free.
  pub read_loop-write_loop :
      (fuel : ℕ) (memory : Memory) (size c : ℕ) (fs : Fs dev.State)
      → size < fuel
      → size + 511 < u32_mod
      → IsLaidOut fs.volume capacity
      → 2 ≤ c
      → c < entries fs.volume
      → table dev rel fs.volume fs.disk c ≢ 0
      → ((disk : dev.State) × (write_loop dev fuel memory size 0 c fs
            ≡ some (record fs { disk = disk }, true))
          × IsReadBack memory size c (record fs { disk = disk }))
        ⊎ ((disk : dev.State) × (write_loop dev fuel memory size 0 c fs
              ≡ some (record fs { disk = disk }, false))
            × IsExhausted dev rel fs disk)
  read_loop-write_loop fuel memory size c fs enough small ok valid lt used =
      let whole : size - 0 ≡ size = omega arith in
      elim (write_loop_lem fuel memory size 0 c fs (omega arith) small (omega arith) ok valid lt
        used) [
          | inr none_free ↦ inr none_free
          | inl (disk, run, w) ↦
              let fs' : Fs dev.State = record fs { disk = disk } in
              let cs = c ∷ w.rest in
              let (d, read, same) =
                read_loop_lem dev rel (suc (length cs)) size 0 c [] fs' cs (omega arith) ok.sound
                  ok.sized small w.chain
                  (chain-AllFit (table dev rel fs.volume disk) fs.volume c cs ok w.chain) in
              inl (
                disk,
                run,
                record {
                  chain = cs;
                  bytes = file_bytes (contents disk) fs.volume (size - 0) cs;
                  after = d;
                  run = read;
                  holds =
                      ap (λ (k : ℕ). take k (file_bytes (contents disk) fs.volume (size - 0) cs))
                        (sym whole)
                      ∙ w.bytes
                      ∙ ap (slice memory 0) whole;
                  kept = same;
                },
              )
        ]
