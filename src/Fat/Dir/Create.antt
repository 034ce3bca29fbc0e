-- ===== src/Fat/Dir/Create.antt =====
-- `fat32_create_file`, `fat32_create_directory` and `fat32_delete_file` as a whole.
use ring_os.Prelude.{
  ℕ, ◌<◌, ◌≡◌, ◌∙◌, ap, if◌then◌else◌, Bool, true, false, Option, some, List, length, ◌∷◌, ◌++◌,
  replicate,
}
use ring_os.Block.{BlockDevice, IsReliable}
use ring_os.Fat.{Fs}
use ring_os.Fat.Table.View.{IsSound, entries, table}
use ring_os.Fat.Clusters.Chain.{IsChain}
use ring_os.Fat.Dir.{
  Memory, bytes_at, new_entry, fill_slot, mark_slot, update_directory, update_clusters, create_file,
  create_directory, delete_file,
}
use ring_os.Fat.Dir.Slots.{
  Acts, fill, mark, slots-fill_slot, slots-mark_slot, length-bytes_at, length-new_entry,
  length-fill_slot, length-mark_slot,
}
use ring_os.Fat.Dir.Update.{
  chain_lbas, AllBelow, Updated, first_update, is_some, update_clusters_lem,
}

module _ (dev : BlockDevice) (rel : IsReliable dev) where
  open rel use {capacity, contents}

  -- A mounted file system whose current directory is a chain of clusters that lie on the device.
  pub record IsMounted (fs : Fs dev.State) (cs : List ℕ) : Type 0 where
    pub mounted : fs.is_initialized ≡ true
    pub sound : IsSound fs.volume capacity
    pub chain : IsChain (table dev rel fs.volume fs.disk) (entries fs.volume) fs.current.cluster cs
    pub room : AllBelow capacity (chain_lbas fs.volume cs)

  -- `run` changes the first sector of the directory that `pick` applies to and returns true, or
  -- changes no sector and returns false.
  abbrev pub Edits :
      (List ℕ → Option (List ℕ)) → Fs dev.State → List ℕ → Option (Fs dev.State × Bool) → Type 0
  Edits pick fs cs run =
      let u = first_update pick (contents fs.disk) (chain_lbas fs.volume cs) in
      (d' : dev.State) × (run ≡ some (record fs { disk = d' }, is_some u))
      × Updated dev rel u fs.disk d'

  module _ (fuel : ℕ) (fs : Fs dev.State) (cs : List ℕ) (name : Memory) (enough : length cs < fuel)
      (m : IsMounted fs cs) where
    edits :
        (pick : List ℕ → Option (List ℕ))
        → ((buffer b : List ℕ) → length buffer ≡ 512 → pick buffer ≡ some b → length b ≡ 512)
        → Edits pick fs cs (update_directory dev pick fuel fs)
    edits pick fits =
        let (d, run, after) =
          update_clusters_lem dev rel pick fits fuel fs fs.current.cluster cs enough m.sound m.chain
            m.room in
        (
          d,
          ap
                (λ (b : Bool).
                  if b
                  then update_clusters dev pick fuel fs fs.current.cluster
                  else some (fs, false))
                m.mounted
              ∙ run,
          after,
        )

    -- On a mounted file system whose current directory is a chain of fewer clusters than the fuel,
    -- over a reliable device, `fat32_create_file` ends: it changes the first sector of the directory
    -- that has an unused slot and returns true, or changes no sector and returns false if none has.
    -- Of the sixteen entries of that sector the first whose first byte is 0 or 0xE5 is replaced, by
    -- the eleven bytes of the name, the attributes 0x20 and 20 zeros; the others stay.
    pub create_file_lem :
        (pick : List ℕ → Option (List ℕ)) × Acts pick
          (fill (bytes_at name 11 ++ 0x20 ∷ replicate 20 0))
        × Edits pick fs cs (create_file dev fuel fs name)
    unfolding create_file new_entry
    create_file_lem = (
      fill_slot (new_entry name 0x20) 16,
      λ b len. slots-fill_slot (new_entry name 0x20) (length-new_entry name 0x20) 16 b len,
      edits (fill_slot (new_entry name 0x20) 16) λ b b' len e.
          length-fill_slot (new_entry name 0x20) 16 b b' (length-new_entry name 0x20) len e ∙ len,
    )

    -- On a mounted file system whose current directory is a chain of fewer clusters than the fuel,
    -- over a reliable device, `fat32_create_directory` ends: it puts the entry of a directory into the
    -- first sector that has an unused slot and returns true, or changes no sector and returns false
    -- if none has.
    pub create_directory_lem :
        Edits (fill_slot (new_entry name 0x10) 16) fs cs (create_directory dev fuel fs name)
    unfolding create_directory
    create_directory_lem = edits (fill_slot (new_entry name 0x10) 16) λ b b' len e.
        length-fill_slot (new_entry name 0x10) 16 b b' (length-new_entry name 0x10) len e ∙ len

    -- On a mounted file system whose current directory is a chain of fewer clusters than the fuel,
    -- over a reliable device, `fat32_delete_file` ends: it changes the first sector of the directory
    -- that has an entry in use with the eleven bytes of the name and returns true, or changes no
    -- sector and returns false if none has. Of the sixteen entries of that sector the first that is
    -- in use (its first byte is neither 0 nor 0xE5) and has the name gets 0xE5 as its first byte;
    -- the rest of the sector stays.
    pub delete_file_lem :
        (pick : List ℕ → Option (List ℕ)) × Acts pick (mark (bytes_at name 11))
        × Edits pick fs cs (delete_file dev fuel fs name)
    unfolding delete_file
    delete_file_lem = (
      mark_slot (bytes_at name 11) 16,
      λ b len. slots-mark_slot (bytes_at name 11) (length-bytes_at name 11) 16 b len,
      edits (mark_slot (bytes_at name 11) 16)
          λ b b' len e. length-mark_slot (bytes_at name 11) 16 b b' len e ∙ len,
    )
