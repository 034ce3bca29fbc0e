-- ===== src/Fat/Table/Write.antt =====
-- `fat32_write_fat_entry` as an update of the table, in every copy, on a reliable device.
use ring_os.Prelude.{
  ℕ, zero, suc, ◌+◌, ◌*◌, ◌/◌, ◌%◌, ◌≤◌, ◌<◌, ◌≡◌, ◌≢◌, ◌⊎◌, inl, inr, refl, sym, ◌∙◌, Bool, true,
  List, arith, length, u32_mod, ◌==◌, if◌then◌else◌, Bool-cases, ==_iff, ==→≢, ≢→==,
}
use ring_os.Block.{BlockDevice, IsReliable}
use ring_os.Fat.{Volume, Fs, fat_sector}
use ring_os.Fat.Words.{word, set_word, length-set_word, word-set_word_self, word-set_word_ne}
use ring_os.Fat.Table.{write_copies, write_fat_entry}
use ring_os.Fat.Table.View.{
  IsSound, entries, table, fat_sector_lem, fat_index_lem, copy_sector, copy_sector-lt, copy_fits,
}

module _ (dev : BlockDevice) (rel : IsReliable dev) where
  open rel use {capacity, contents, size, read_value, read_keeps, write_done, write_self, write_ne}

  module _ (v : Volume) (sector : ℕ) (buffer : List ℕ) (len : length buffer ≡ 512) where
    -- The sector of copy `k` that the loop writes.
    abbrev target : ℕ → ℕ
    target k = (sector + k * v.fat_size_32 % u32_mod) % u32_mod

    -- What the loop has done, from copy `fat` on.
    record Copied (left fat : ℕ) (d : dev.State) (r : dev.State × Bool) : Type 0 where
      done : r.1 ≡ true
      written : (k : ℕ) → fat ≤ k → k < fat + left → contents r.0 (target k) ≡ buffer
      stays : (l : ℕ) → contents d l ≡ buffer → contents r.0 l ≡ buffer
      kept :
          (l : ℕ)
          → ((k : ℕ) → fat ≤ k → k < fat + left → target k ≢ l)
          → contents r.0 l ≡ contents d l

    -- A sector that holds the buffer holds it after the buffer is written anywhere.
    write-stays :
        (d : dev.State) (lba l : ℕ)
        → lba < capacity
        → contents d l ≡ buffer
        → contents (dev.write_sectors d lba 1 buffer).0 l ≡ buffer
    write-stays d lba l lt e = elim (Bool-cases (lba == l)) [
      | inl t ↦ rw (← (==_iff lba l).0 t) (write_self d lba buffer lt len)
      | inr t ↦ write_ne d lba l buffer lt len (==→≢ lba l t) ∙ e
    ]

    write_copies_lem :
        (left fat : ℕ) (d : dev.State)
        → ((k : ℕ) → fat ≤ k → k < fat + left → target k < capacity)
        → Copied left fat d (write_copies dev v sector buffer left fat d)
    unfolding write_copies
    write_copies_lem zero fat d fits = record {
      done = refl;
      written = λ k a b. absurd (omega arith);
      stays = λ l e. e;
      kept = λ l ne. refl;
    }
    write_copies_lem (suc left) fat d fits =
        let now = fits fat (omega arith) (omega arith) in
        let d' = (dev.write_sectors d (target fat) 1 buffer).0 in
        let rest =
          write_copies_lem left (fat + 1) d' (λ k a b. fits k (omega arith) (omega arith)) in
        rw (write_done d (target fat) buffer now len) (record {
          done = rest.done;
          written = λ k a b. elim (Bool-cases (fat == k)) [
            | inl e ↦
                rw (← (==_iff fat k).0 e)
                  (rest.stays (target fat) (write_self d (target fat) buffer now len))
            | inr e ↦ let ne = ==→≢ fat k e in rest.written k (omega arith) (omega arith)
          ];
          stays = λ l e. rest.stays l (write-stays d (target fat) l now e);
          kept = λ l ne.
              rest.kept l (λ k a b. ne k (omega arith) (omega arith))
              ∙ write_ne d (target fat) l buffer now len (ne fat (omega arith) (omega arith));
        })

  -- What `fat32_write_fat_entry` does to the disk.
  pub record Written (fs : Fs dev.State) (c value : ℕ) : Type 0 where
    pub disk : dev.State
    pub run : write_fat_entry dev fs c value ≡ (record fs { disk = disk }, true)
    -- The entry holds the value, and every other entry what it held.
    pub entry :
        (c' : ℕ)
        → c' < entries fs.volume
        → table dev rel fs.volume disk c'
          ≡ (if c == c' then value else table dev rel fs.volume fs.disk c')
    -- Every copy of the table has the same sector there.
    pub mirrored :
        (k : ℕ)
        → k < fs.volume.num_fats
        → contents disk (fs.volume.fat_begin_lba + c / 128 + k * fs.volume.fat_size_32)
          ≡ contents disk (fs.volume.fat_begin_lba + c / 128)
    -- Sectors outside the table are kept.
    pub outside :
        (l : ℕ)
        → (l < fs.volume.fat_begin_lba)
          ⊎ (fs.volume.fat_begin_lba + fs.volume.num_fats * fs.volume.fat_size_32 ≤ l)
        → contents disk l ≡ contents fs.disk l

  module _ (fs : Fs dev.State) (c value : ℕ) (ok : IsSound fs.volume capacity)
      (h : c < entries fs.volume) where
    abbrev v : Volume
    v = fs.volume

    -- The sector of the entry, in the first copy.
    abbrev home : ℕ
    home = v.fat_begin_lba + c / 128

    abbrev buffer : List ℕ
    buffer = set_word (contents fs.disk home) (c % 128) value

    abbrev copied : dev.State × Bool
    copied =
        write_copies dev v (fat_sector v c) buffer v.num_fats 0 (dev.read_sectors fs.disk home 1).0

    home-lt : home < capacity
    home-lt = omega (arith, copy_sector-lt v capacity c ok h 0 ok.one_copy)

    length-buffer : length buffer ≡ 512
    length-buffer = length-set_word _ _ _ ∙ size fs.disk home

    write_fat_entry-eq : write_fat_entry dev fs c value ≡ (record fs { disk = copied.0 }, copied.1)
    unfolding write_fat_entry
    write_fat_entry-eq =
        rw (← fat_sector_lem v capacity c ok h, ← fat_index_lem v capacity c ok h)
          (rw (
            read_value fs.disk (fat_sector v c) (rw (fat_sector_lem v capacity c ok h) home-lt),
            write_fat_entry,
          ))

    copies :
        Copied v
          (fat_sector v c)
          buffer
          length-buffer
          v.num_fats
          0
          (dev.read_sectors fs.disk home 1).0
          copied
    copies = write_copies_lem v (fat_sector v c) buffer length-buffer v.num_fats 0 _ λ k a b.
        rw (copy_sector v capacity c ok h k (omega arith))
          (copy_sector-lt v capacity c ok h k (omega arith))

    copy_holds : (k : ℕ) → k < v.num_fats → contents copied.0 (home + k * v.fat_size_32) ≡ buffer
    copy_holds k hk =
        rw (copy_sector v capacity c ok h k hk) at (copies.written k (omega arith) (omega arith))

    home_holds : contents copied.0 home ≡ buffer
    home_holds =
        let e : home + 0 * v.fat_size_32 ≡ home = omega arith in rw e at (copy_holds 0 ok.one_copy)

    -- A sector that no copy of the entry's sector is.
    kept :
        (l : ℕ)
        → ((k : ℕ) → k < v.num_fats → home + k * v.fat_size_32 ≢ l)
        → contents copied.0 l ≡ contents fs.disk l
    kept l far =
        copies.kept l
          (λ k a b. rw (copy_sector v capacity c ok h k (omega arith)) (far k (omega arith)))
        ∙ read_keeps fs.disk home l home-lt

    copy_apart :
        (k b : ℕ) → b < v.fat_size_32 → c / 128 ≢ b → home + k * v.fat_size_32 ≢ v.fat_begin_lba + b
    copy_apart zero b hb ne = omega arith
    copy_apart (suc k) b hb ne = omega arith

    beyond :
        (l : ℕ)
        → (l < v.fat_begin_lba) ⊎ (v.fat_begin_lba + v.num_fats * v.fat_size_32 ≤ l)
        → (k : ℕ) → k < v.num_fats
        → home + k * v.fat_size_32 ≢ l
    beyond l out k hk = let f = copy_fits v capacity c ok h k hk in omega arith

    word_lem :
        value < u32_mod
        → (c' : ℕ) → c / 128 ≡ c' / 128
        → word buffer (c' % 128)
          ≡ (if c == c' then value else word (contents fs.disk home) (c' % 128))
    word_lem small c' same = elim (Bool-cases (c == c')) [
      | inl e ↦
          rw (e, ← (==_iff c c').0 e)
            (word-set_word_self (contents fs.disk home) (c % 128) value
              (rw (size fs.disk home) (omega arith)) small)
      | inr e ↦
          let ne = ==→≢ c c' e in
          rw e (word-set_word_ne (contents fs.disk home) (c % 128) value (c' % 128) (omega arith))
    ]

    entry_lem :
        value < u32_mod
        → (c' : ℕ) → c' < entries v
        → table dev rel v copied.0 c' ≡ (if c == c' then value else table dev rel v fs.disk c')
    entry_lem small c' h' = elim (Bool-cases (c / 128 == c' / 128)) [
      | inl e ↦
          let same = (==_iff (c / 128) (c' / 128)).0 e in
          rw (← same, home_holds) (word_lem small c' same)
      | inr e ↦
          let apart = ==→≢ (c / 128) (c' / 128) e in
          let ne : c ≢ c' = λ eq. apart (rw eq) in
          rw (
            kept (v.fat_begin_lba + c' / 128) (λ k hk. copy_apart k (c' / 128) (omega arith) apart),
            ≢→== c c' ne,
          )
    ]

    -- On a sound volume over a reliable device, for a cluster that has an entry and a `uint32_t`,
    -- `fat32_write_fat_entry` returns true, stores the value in the entry of the cluster and changes
    -- no other entry, writes the same sector to every copy of the table, and changes no sector
    -- outside the table.
    pub write_fat_entry_lem : value < u32_mod → Written fs c value
    write_fat_entry_lem small = record {
      disk = copied.0;
      run = rw (write_fat_entry-eq, copies.done);
      entry = entry_lem small;
      mirrored = λ k hk. copy_holds k hk ∙ sym home_holds;
      outside = λ l out. kept l (λ k hk. beyond l out k hk);
    }
