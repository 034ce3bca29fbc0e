-- ===== src/Mkfs/Tests.antt =====
-- A directory with a file and a directory with a file, and the image of it.
use ring_os.Prelude.{
  ℕ, ◌+◌, ◌*◌, ◌≤◌, ◌<◌, ◌≡◌, ◌⊎◌, inr, ◌∙◌, refl, List, [], ◌∷◌, arith, false, some, take,
}
use ring_os.Block.Ram.{fit_id, ram, ram_reliable}
use ring_os.Fat.{Fs}
use ring_os.Fat.Entry.{file_entry}
use ring_os.Fat.Files.{done, read_entry}
use ring_os.Fat.Files.Bytes.{length-bytes_at}
use ring_os.Fat.Mount.{boot_volume, root_directory, mount}
use ring_os.Mkfs.{Image, new_image, allocate_clusters}
use ring_os.Mkfs.Alloc.{IsBuilt, cluster_limit}
use ring_os.Mkfs.Allocated.{Taken, taken, taken_lem, allocate_clusters_lem}
use ring_os.Mkfs.Booting.{IsHeld, Booted, image_mounts, image_reads}
use ring_os.Mkfs.Complete.{IsReadable, places, demand, process_entries-Success}
use ring_os.Mkfs.Room.{IsRoomy, Success}
use ring_os.Mkfs.Frame.{place}
use ring_os.Mkfs.Entries.{LocalTime}
use ring_os.Mkfs.Files.{Step, IsStorable, process_file_lem}
use ring_os.Mkfs.Fresh.{new_image-IsBuilt}
use ring_os.Mkfs.Reading.{sector}
use ring_os.Mkfs.Root.{HoldsRoot, process_directory-inside, create_filesystem_image_lem}
use ring_os.Mkfs.Slots.{IsNamed}
use ring_os.Mkfs.Stored.{HoldsFile, Holds}
use ring_os.Mkfs.Tree.{
  HostFile, Readings, Listing, process_file, process_entries, process_directory,
  create_filesystem_image,
}
use ring_os.Mkfs.Walk.{AllStorable, process_entries_lem}

abbrev noon : LocalTime
noon = record { tm_hour = 12; tm_min = 0; tm_sec = 0; tm_year = 125; tm_mon = 0; tm_mday = 1 }

abbrev noons : Readings
noons = record { parent = noon; self = noon; up = noon }

-- "HELLO" and "DOCS", each in an array.
abbrev hello : List ℕ
hello = b'H' ∷ b'E' ∷ b'L' ∷ b'L' ∷ b'O' ∷ 0 ∷ 0 ∷ 0 ∷ 0 ∷ 0 ∷ 0 ∷ 0 ∷ []

abbrev docs : List ℕ
docs = b'D' ∷ b'O' ∷ b'C' ∷ b'S' ∷ 0 ∷ 0 ∷ 0 ∷ 0 ∷ 0 ∷ 0 ∷ 0 ∷ 0 ∷ []

abbrev greeting : HostFile
greeting = record { tell = 3; content = 7 ∷ 8 ∷ 9 ∷ [] }

abbrev host : Listing
host =
    Listing.file hello (some greeting)
      (Listing.directory docs noons (Listing.file hello (some greeting) Listing.end) Listing.end)

greeting-IsStorable : IsStorable hello greeting
greeting-IsStorable = record {
  small = omega arith;
  array = omega arith;
  named = ((λ e. absurd (omega (arith, e))), (λ e. absurd (omega (arith, e))));
}

docs-IsNamed : IsNamed docs
docs-IsNamed = ((λ e. absurd (omega (arith, e))), (λ e. absurd (omega (arith, e))))

host-AllStorable : AllStorable host
host-AllStorable =
    ((λ _. greeting-IsStorable), ((λ _. docs-IsNamed), ((λ _. greeting-IsStorable), tt), tt))

host-IsReadable : IsReadable (b'.' ∷ []) host
host-IsReadable =
    ((λ _. (refl, omega arith)), ((λ _. (refl, omega arith, ((λ _. (refl, omega arith)), tt))), tt))

-- The image behind `create_filesystem`, with a cluster taken.
first_taken : Taken new_image new_image-IsBuilt 1
first_taken = taken_lem new_image new_image-IsBuilt 1 (omega arith)

abbrev grown : Image
grown = taken new_image new_image-IsBuilt 1

allocate_clusters_lem_example :
    ((cluster_limit ≤ new_image.next_free_cluster + 3)
      × (allocate_clusters new_image 3 ≡ (new_image, 0)))
    ⊎ ((new_image.next_free_cluster + 3 < cluster_limit) × Taken new_image new_image-IsBuilt 3)
allocate_clusters_lem_example = allocate_clusters_lem new_image new_image-IsBuilt 3 (omega arith)

process_file_lem_example :
    Step grown 2 (λ g. HoldsFile g 3 2 hello greeting) (process_file grown (some greeting) hello 2)
process_file_lem_example =
    process_file_lem grown first_taken.built 2 3 (omega arith) (omega arith) (omega arith) greeting
      hello greeting-IsStorable

process_entries_lem_example :
    Step grown 2 (λ g. Holds g 3 2 host) (process_entries grown (b'.' ∷ []) 2 host)
process_entries_lem_example =
    process_entries_lem grown first_taken.built (b'.' ∷ []) 2 3 host (omega arith) (omega arith)
      (omega arith) host-AllStorable

process_directory-inside_example :
    (process_directory new_image (b'.' ∷ []) noons [] 0 host).0.buffer 40000000 ≡ 0
process_directory-inside_example =
    process_directory-inside noons (b'.' ∷ []) host host-AllStorable 40000000 (omega arith)

create_filesystem_image_lem_example :
    (fs : Image) × (create_filesystem_image (b'.' ∷ []) noons host ≡ some fs)
    × (fs.next_free_cluster ≡ 3 + demand host)
    × IsBuilt fs
    × HoldsRoot fs noons host
create_filesystem_image_lem_example =
    create_filesystem_image_lem noons (b'.' ∷ []) host host-AllStorable host-IsReadable
      (omega arith) (omega arith)

-- A disk with an image on it.
abbrev pub drive_of : Image → Fs (ℕ → List ℕ)
drive_of image = record {
  disk = λ l. sector image.buffer l;
  is_initialized = false;
  volume = boot_volume [];
  current = root_directory 0;
  parents = [];
}

pub drive_of-IsHeld : (image : Image) → IsHeld ram ram_reliable (drive_of image).disk image
drive_of-IsHeld image = record {
  held = λ l h.
      fit_id 512 (sector image.buffer l) (length-bytes_at (λ k. image.buffer (512 * l + k)) 512);
  large = omega arith;
  small = omega arith;
}

image_mounts_example :
    Booted ram ram_reliable new_image new_image-IsBuilt
      (drive_of new_image)
      (drive_of-IsHeld new_image)
image_mounts_example =
    image_mounts ram ram_reliable new_image new_image-IsBuilt (drive_of new_image)
      (drive_of-IsHeld new_image)

pub host_image :
    (fs : Image) × (create_filesystem_image (b'.' ∷ []) noons host ≡ some fs)
    × (fs.next_free_cluster ≡ 3 + demand host)
    × IsBuilt fs
    × HoldsRoot fs noons host
host_image =
    create_filesystem_image_lem noons (b'.' ∷ []) host host-AllStorable host-IsReadable
      (omega arith) (omega arith)

abbrev stored_greeting : HoldsFile host_image.0 3 2 hello greeting
stored_greeting = host_image.4.entries.0 refl

image_reads_example :
    (d : ℕ → List ℕ) × (bytes : List ℕ) × (read_entry ram 2 100
        (mount ram (drive_of host_image.0)).0
        (file_entry (take 11 hello) stored_greeting.first 3)
      ≡ some (record (mount ram (drive_of host_image.0)).0 { disk = d }, done 3 bytes))
    × (take 3 bytes ≡ 7 ∷ 8 ∷ 9 ∷ [])
image_reads_example =
    image_reads ram ram_reliable host_image.0 host_image.3 (drive_of host_image.0)
      (drive_of-IsHeld host_image.0) 2 100 3 2 hello greeting stored_greeting (omega arith)
      (omega arith) (omega arith) (omega arith) (omega arith)

grown-IsRoomy : IsRoomy 2 0 grown.buffer
grown-IsRoomy j above below =
    let zero_byte : grown.buffer (place 2 + 32 * j) ≡ 0 =
      first_taken.kept (place 2 + 32 * j) (inr (inr (omega arith)))
      ∙ new_image-IsBuilt.blank (place 2 + 32 * j) (omega arith) in
    rw zero_byte refl

process_entries-Success_example :
    Success grown 2 (places host) (demand host) (process_entries grown (b'.' ∷ []) 2 host)
process_entries-Success_example =
    process_entries-Success grown first_taken.built (b'.' ∷ []) 2 3 0 host (omega arith)
      (omega arith) (omega arith) host-AllStorable host-IsReadable grown-IsRoomy (omega arith)
      (omega arith)
