-- ===== src/Fat/Files/Refusal.antt =====
-- `fat32_write_file` over an entry that has no clusters, as `fat32_create_file` makes it.
use ring_os.Prelude.{
  ℕ, ◌<◌, ◌≡◌, refl, ap, ◌∙◌, Bool, false, Option, none, some, List, ◌∷◌, ◌++◌, if◌then◌else◌,
  length, lt→ltb,
}
use ring_os.CString.Compare.{IsText}
use ring_os.Block.{BlockDevice, IsReliable}
use ring_os.Fat.{Fs}
use ring_os.Fat.Clusters.{free_clusters}
use ring_os.Fat.Names.{convert_to_fat_name}
use ring_os.Fat.Names.Convert.{fat_name, convert_to_fat_name_lem}
use ring_os.Fat.Dir.{Memory}
use ring_os.Fat.Dir.Update.{chain_lbas}
use ring_os.Fat.Dir.Create.{IsMounted}
use ring_os.Fat.Search.Hit.{first_hit, search_clusters_lem}
use ring_os.Fat.Files.{Slot, slot_of, replace_file, write_found, locate_and_write, write_file}

module _ (dev : BlockDevice) (rel : IsReliable dev) where
  open rel use {contents}

  refuse :
      (fuel : ℕ) (fs : Fs dev.State) (c : ℕ)
      → c < 2
      → free_clusters dev fuel fs c ≡ some (fs, false)
  unfolding free_clusters
  refuse fuel fs c h = rw (lt→ltb c 2 h) refl

  replace_refused :
      (fuel size lba c : ℕ) (memory : Memory) (n buffer : List ℕ) (index : ℕ) (fs : Fs dev.State)
      → c < 2
      → replace_file dev fuel memory size n lba
          (record { buffer = buffer; index = index; existing = some c })
          fs
        ≡ some (fs, false)
  unfolding replace_file
  replace_refused fuel size lba c memory n buffer index fs h =
      rw (refuse fuel fs c h, replace_file) refl

  -- On a mounted file system whose current directory is a chain of fewer clusters than the fuel,
  -- over a reliable device, `fat32_write_file` of a text whose first match in the directory is an
  -- entry with a first cluster below 2 (a file that was created and never written) returns false,
  -- whatever the data, and changes no sector.
  pub write_file_refused :
      (fuel : ℕ) (fs : Fs dev.State) (ds t rest : List ℕ) (memory : Memory) (size lba c : ℕ)
      (buffer : List ℕ) (index : ℕ)
      → length ds < fuel
      → IsMounted dev rel fs ds
      → IsText t
      → first_hit (slot_of (fat_name t)) (contents fs.disk) (chain_lbas fs.volume ds)
        ≡ some (lba, record { buffer = buffer; index = index; existing = some c })
      → c < 2
      → (d' : dev.State) × (write_file dev fuel fs (t ++ 0 ∷ rest) memory size
          ≡ some (record fs { disk = d' }, false))
        × (contents d' ≡ contents fs.disk)
  unfolding write_file locate_and_write write_found
  write_file_refused fuel fs ds t rest memory size lba c buffer index enough m h found none_yet =
      let (d', run, same) =
        search_clusters_lem (slot_of (fat_name t)) dev rel false fuel fs fs.current.cluster ds
          enough m.sound m.chain m.room in
      let fs1 : Fs dev.State = record fs { disk = d' } in
      let start : Fs dev.State → List ℕ → Option (Fs dev.State × Bool) =
        λ s n. locate_and_write dev fuel s n memory size in
      (
        d',
        ap
              (λ (b : Bool).
                if b
                then elim (convert_to_fat_name (t ++ 0 ∷ rest)) [
                  | none ↦ none
                  | some n ↦ start fs n
                ]
                else some (fs, false))
              m.mounted
            ∙ ap (λ (o : Option (List ℕ)). elim o [ none ↦ none | some n ↦ start fs n ])
                (convert_to_fat_name_lem rest t h)
            ∙ ap (write_found dev fuel memory size (fat_name t))
                (run ∙ ap (λ (o : Option (ℕ × Slot)). some (fs1, o)) found)
            ∙ replace_refused fuel size lba c memory (fat_name t) buffer index fs1 none_yet,
        same,
      )
