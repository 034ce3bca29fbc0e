-- ===== src/Fat/Files/Writing/Link.antt =====
-- A cluster with data behind it: the end of the chain, or a cluster that is linked to it.
use ring_os.Prelude.{
  append-nil, ℕ, zero, suc, ◌+◌, ◌-◌, ◌*◌, ◌/◌, ◌%◌, ◌^◌, ◌≤◌, ◌<◌, ◌≡◌, ◌≢◌, refl, sym, ap, ◌∙◌,
  true, false, some, List, [], ◌∷◌, ◌++◌, arith, ◌==◌, length, take, Bool-cases, inl, inr, ≢→==,
  ==_iff, ==_refl,
}
use ring_os.Block.{BlockDevice, IsReliable, gather}
use mathlib.Core.Path.{subst}
use ring_os.Fat.{Fs, fat32_eoc, cluster_to_lba}
use ring_os.Fat.Table.View.{entries, table}
use ring_os.Fat.Table.Write.{Written, write_fat_entry_lem}
use ring_os.Fat.Clusters.Chain.{IsChain, is_in}
use ring_os.Fat.Clusters.Alloc.{Allocated, Full}
use ring_os.Fat.Dir.{Memory}
use ring_os.Fat.Files.{write_loop}
use ring_os.Fat.Files.Bytes.{slice, slice-add, take-append_right, take-slice, gather_cong}
use ring_os.Fat.Files.Layout.{IsLaidOut, cluster_behind, clusters_apart}
use ring_os.Fat.Files.Reading.{file_bytes, sectors_for-le}
use ring_os.Fat.Files.Writing.{
  IsApart, IsOutside, Wrote, IsExhausted, table_cong, file_bytes_step, mark, mark-IsChain,
  mark_others, loop_stops, stopped, filled_ne, filled_data, kept_entries, bytes_count, part, count,
  next_written, behind,
}

module _ (dev : BlockDevice) (rel : IsReliable dev) where
  open rel use {capacity, contents}

  module _ (memory : Memory) (size written c : ℕ) (fs : Fs dev.State)
      (ok : IsLaidOut fs.volume capacity) (valid : 2 ≤ c) (lt : c < entries fs.volume) where
    abbrev pub n : ℕ
    n = count dev rel memory size written c fs ok valid lt

    abbrev pub fs1 : Fs dev.State
    fs1 = behind dev rel memory size written c fs ok valid lt

    abbrev pub written1 : ℕ
    written1 = next_written dev rel memory size written c fs ok valid lt

    abbrev pub bytes : List ℕ
    bytes = part dev rel memory size written c fs ok valid lt

    -- A device on which the sectors of the cluster are as they were written.
    data_kept :
        (d : dev.State)
        → ((k : ℕ)
            → k < n
            → contents d (cluster_to_lba fs.volume c + k)
              ≡ contents fs1.disk (cluster_to_lba fs.volume c + k))
        → gather (contents d) (cluster_to_lba fs.volume c) n ≡ bytes
    data_kept d h =
        gather_cong (contents d) (contents fs1.disk) (cluster_to_lba fs.volume c) n h
        ∙ filled_data dev rel memory size written c fs ok valid lt

    -- The first of the data.
    take_part :
        size - written ≤ 512 * n
        → take (size - written) (bytes ++ []) ≡ slice memory written (size - written)
    take_part h =
        let e : size - written + (512 * n - (size - written)) ≡ 512 * n = omega arith in
        ap (take (size - written)) (append-nil bytes)
        ∙ ap (λ (k : ℕ). take (size - written) (slice memory written k)) (sym e)
        ∙ take-slice memory written (size - written) (512 * n - (size - written))

    abbrev pub end_mark : Written dev rel fs1 c 0x0FFFFFFF
    end_mark = mark dev rel memory size written1 c fs1 ok valid lt

    pub last-Wrote :
        written < size → size ≤ written1 → Wrote dev rel memory size written c fs end_mark.disk
    last-Wrote more done =
        let stop = stopped dev rel memory size written1 c fs1 ok valid lt done in
        let d = end_mark.disk in
        let lba = cluster_to_lba fs.volume c in
        let held : gather (contents d) lba n ≡ bytes = data_kept d (λ k h.
          end_mark.outside (lba + k)
            (inr (omega (arith, cluster_behind fs.volume capacity ok c valid lt)))) in
        record {
          rest = [];
          chain = mark-IsChain dev rel memory size written1 c fs1 ok valid lt;
          bytes =
              ap (take (size - written)) (
                file_bytes_step dev rel (contents d) fs.volume (size - written) c [] (omega arith)
                ∙ ap (λ (l : List ℕ). l ++ []) held)
              ∙ take_part (omega arith);
          fresh = λ x h. absurd (cc);
          others = λ x below out.
              mark_others dev rel memory size written1 c fs1 ok valid lt x below out
              ∙ kept_entries dev rel memory size written c fs ok valid lt x below;
          outside = λ l out apart.
              end_mark.outside l out
              ∙ filled_ne dev rel memory size written c fs ok valid lt l apart.0;
        }

    pub last_round :
        (fuel : ℕ)
        → 0 < fuel
        → size ≤ written1
        → write_loop dev fuel memory size written1 c fs1
          ≡ some (record fs { disk = end_mark.disk }, true)
    last_round zero h done = absurd (omega arith)
    last_round (suc fuel) h done =
        loop_stops dev rel memory size written1 c fs1 ok valid lt fuel done

    pub exhausted : (d : dev.State) → Full dev rel 0 fs1 d → IsExhausted dev rel fs d
    exhausted d f = record {
      full = λ x low below e. f.full x (omega arith) low below (
          sym (
            table_cong dev rel fs.volume d fs1.disk x
              (f.sectors (fs.volume.fat_begin_lba + x / 128)))
          ∙ e);
    }

    -- The next cluster, linked to this one.
    module _ (next : ℕ) (d2 : dev.State) (took : Allocated dev rel 0 fs1 next d2)
        (used : table dev rel fs.volume fs.disk c ≢ 0) where
      abbrev pub fs2 : Fs dev.State
      fs2 = record fs { disk = d2 }

      abbrev pub link : Written dev rel fs2 c next
      link =
          write_fat_entry_lem dev rel fs2 c next ok.sound lt (omega (arith, took.below, ok.marks))

      abbrev pub fs3 : Fs dev.State
      fs3 = record fs { disk = link.disk }

      next-ne : c ≢ next
      next-ne e = used (
          sym (kept_entries dev rel memory size written c fs ok valid lt c lt)
          ∙ ap (λ (x : ℕ). table dev rel fs.volume fs1.disk x) e
          ∙ took.free)

      linked_entry : table dev rel fs.volume link.disk c ≡ next
      linked_entry = link.entry c lt ∙ rw (==_refl c) refl

      -- Every other entry of the table.
      entry_others :
          (x : ℕ)
          → x < entries fs.volume
          → (c == x) ≡ false
          → (next == x) ≡ false
          → table dev rel fs.volume link.disk x ≡ table dev rel fs.volume fs.disk x
      entry_others x below a b =
          link.entry x below
          ∙ rw a (
              took.entry x below
              ∙ rw b (kept_entries dev rel memory size written c fs ok valid lt x below))

      pub next_entry : table dev rel fs.volume link.disk next ≡ fat32_eoc
      next_entry =
          link.entry next took.below
          ∙ rw (≢→== c next next-ne) (took.entry next took.below ∙ rw (==_refl next) refl)

      -- Sectors outside the table are as they were behind the write of the cluster.
      sectors_kept : (l : ℕ) → IsOutside fs.volume l → contents link.disk l ≡ contents fs1.disk l
      sectors_kept l out = link.outside l out ∙ took.outside l out

      module _ (disk : dev.State) (w : Wrote dev rel memory size written1 next fs3 disk)
          (more : written < size) (rest_left : written1 < size) where
        not_in : is_in c (next ∷ w.rest) ≡ false
        not_in =
            let other : (next == c) ≡ false = ≢→== next c (λ e. next-ne (sym e)) in
            elim (Bool-cases (is_in c w.rest)) [
              | inl h ↦
                  let free : table dev rel fs.volume link.disk c ≡ 0 = (w.fresh c h).2 in
                  absurd (omega (arith, linked_entry, free, took.valid))
              | inr h ↦ rw (other, h) refl
            ]

        in_range : (x : ℕ) → is_in x (next ∷ w.rest) ≡ true → (2 ≤ x) × (x < entries fs.volume)
        in_range x h = elim (Bool-cases (next == x)) [
          | inl e ↦
              let same : next ≡ x = (==_iff next x).0 e in
              (omega (arith, took.valid), omega (arith, took.below))
          | inr e ↦ let r = w.fresh x (rw e at h) in (r.0, r.1)
        ]

        chain-IsApart :
            (cs : List ℕ)
            → ((x : ℕ) → is_in x cs ≡ true → (2 ≤ x) × (x < entries fs.volume))
            → is_in c cs ≡ false
            → (k : ℕ) → k < fs.volume.sectors_per_cluster
            → IsApart fs.volume (cluster_to_lba fs.volume c + k) cs
        chain-IsApart [] h out k below = tt
        chain-IsApart (x ∷ cs) h out k below =
            let ne : x ≢ c = ground arith in
            let here = h x (rw (==_refl x) refl) in
            let apart =
              clusters_apart fs.volume capacity ok c x valid lt here.0 here.1 (λ e. ne (sym e)) in
            (
              elim apart [ inl a ↦ inl (omega arith) | inr a ↦ inr (omega arith) ],
              chain-IsApart cs (λ y i. h y (ground arith)) (ground arith) k below,
            )

        held : gather (contents disk) (cluster_to_lba fs.volume c) n ≡ bytes
        held = data_kept disk (λ k h.
            let out : IsOutside fs.volume (cluster_to_lba fs.volume c + k) =
              inr (omega (arith, cluster_behind fs.volume capacity ok c valid lt)) in
            w.outside (cluster_to_lba fs.volume c + k) out (
              chain-IsApart (next ∷ w.rest) in_range not_in k
                (omega (arith, sectors_for-le fs.volume (size - written))))
            ∙ sectors_kept (cluster_to_lba fs.volume c + k) out)

        all_bytes :
            take
              (size - written)
              (file_bytes (contents disk) fs.volume (size - written) (c ∷ next ∷ w.rest))
            ≡ slice memory written (size - written)
        all_bytes =
            let m = size - written1 in
            let whole : size - written ≡ 512 * n + m = omega arith in
            let tail : size - written - 512 * n ≡ m = omega arith in
            let l = file_bytes (contents disk) fs.volume m (next ∷ w.rest) in
            let len : length bytes ≡ 512 * n =
              bytes_count dev rel memory size written c fs ok valid lt in
            let split : take (length bytes + m) (bytes ++ l) ≡ bytes ++ take m l =
              take-append_right m bytes l in
            ap (take (size - written)) (
              file_bytes_step dev rel (contents disk) fs.volume (size - written) c (next ∷ w.rest)
                (omega arith)
              ∙ ap
                  (λ (k : ℕ).
                    gather (contents disk) (cluster_to_lba fs.volume c) n
                    ++ file_bytes (contents disk) fs.volume k (next ∷ w.rest))
                  tail
              ∙ ap (λ (p : List ℕ). p ++ l) held)
            ∙ ap (λ (k : ℕ). take k (bytes ++ l)) (whole ∙ ap (λ (k : ℕ). k + m) (sym len))
            ∙ split
            ∙ ap (λ (q : List ℕ). bytes ++ q) w.bytes
            ∙ ap (λ (k : ℕ). bytes ++ slice memory k m)
                (let e : written1 ≡ written + 512 * n = omega arith in e)
            ∙ sym (slice-add memory written (512 * n) m)
            ∙ ap (slice memory written) (sym whole)

        pub next-Wrote : Wrote dev rel memory size written c fs disk
        next-Wrote =
            let at : table dev rel fs.volume disk c ≡ next = w.others c lt not_in ∙ linked_entry in
            let low : next ≡ table dev rel fs.volume disk c % 2 ^ 28 =
              omega (arith, at, took.below, ok.marks) in
            record {
              rest = next ∷ w.rest;
              chain = (
                refl,
                valid,
                lt,
                omega (arith, ok.marks),
                (λ e. absurd (omega (arith, e, low, took.below, ok.marks))),
                subst
                    (λ (k : ℕ).
                      IsChain (table dev rel fs.volume disk) (entries fs.volume) k (next ∷ w.rest))
                    low w.chain,
              );
              bytes = all_bytes;
              fresh = λ x h. fresh_lem x h;
              others = λ x below out.
                  w.others x below (ground arith)
                  ∙ entry_others x below (ground arith) (ground arith);
              outside = λ l out apart.
                  w.outside l out apart.1
                  ∙ sectors_kept l out
                  ∙ filled_ne dev rel memory size written c fs ok valid lt l apart.0;
            }
          where
            fresh_lem :
                (x : ℕ)
                → is_in x (next ∷ w.rest) ≡ true
                → (2 ≤ x) × (x < entries fs.volume) × (table dev rel fs.volume fs.disk x ≡ 0)
            fresh_lem x h = elim (Bool-cases (next == x)) [
              | inl e ↦
                  let same : next ≡ x = (==_iff next x).0 e in
                  let free : table dev rel fs.volume fs.disk next ≡ 0 =
                    sym (kept_entries dev rel memory size written c fs ok valid lt next took.below)
                    ∙ took.free in
                  let r = in_range x h in
                  (r.0, r.1, ap (λ (y : ℕ). table dev rel fs.volume fs.disk y) (sym same) ∙ free)
              | inr e ↦
                  let r = w.fresh x (rw e at h) in
                  let other : (c == x) ≡ false = elim (Bool-cases (c == x)) [
                    | inl i ↦
                        let same : c ≡ x = (==_iff c x).0 i in
                        let zero_there : table dev rel fs.volume link.disk c ≡ 0 =
                          ap (λ (y : ℕ). table dev rel fs.volume link.disk y) same ∙ r.2 in
                        absurd (omega (arith, linked_entry, zero_there, took.valid))
                    | inr i ↦ i
                  ] in
                  (r.0, r.1, sym (entry_others x r.1 other e) ∙ r.2)
            ]
