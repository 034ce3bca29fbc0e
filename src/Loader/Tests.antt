-- ===== src/Loader/Tests.antt =====
-- A program of 8000 bytes on a volume with clusters of sixteen sectors.
use ring_os.Prelude.{
  ℕ, ◌≡◌, ◌<◌, refl, true, some, List, [], ◌∷◌, arith, length, ◌==◌, if◌then◌else◌,
}
use ring_os.CString.{toupper}
use ring_os.Block.Ram.{fit, ram, ram_reliable}
use ring_os.Fat.{Volume, Fs, cluster_to_lba}
use ring_os.Fat.Words.{word}
use ring_os.Fat.Table.View.{IsSound, table}
use ring_os.Fat.Clusters.Chain.{IsChain}
use ring_os.Fat.Dir.Create.{IsMounted}
use ring_os.Fat.Entry.{first_cluster, file_size, file_entry, u16}
use ring_os.Fat.Names.{pad, compare_filename, normalize, same_bytes, take_base, take_ext}
use ring_os.Fat.Files.{find_name}
use ring_os.Fat.Files.Reading.{IsByteSized, AllFit}
use ring_os.Loader.{Loaded, stack_size, load_program}
use ring_os.Loader.Limit.{load_program_overruns}

abbrev volume : Volume
volume = record {
  fat_begin_lba = 1;
  cluster_begin_lba = 3;
  sectors_per_cluster = 16;
  num_fats = 2;
  fat_size_32 = 1;
  root_cluster = 2;
}

-- The root directory is cluster 2, and the program is cluster 3.
abbrev table_bytes : List ℕ
table_bytes =
    0xF8 ∷ 0xFF ∷ 0xFF ∷ 0x0F ∷ 0xFF ∷ 0xFF ∷ 0xFF ∷ 0x0F ∷ 0xF8 ∷ 0xFF ∷ 0xFF ∷ 0x0F ∷ 0xF8 ∷ 0xFF
    ∷ 0xFF ∷ 0x0F ∷ []

-- `GAME    BIN`
abbrev game : List ℕ
game = b'G' ∷ b'A' ∷ b'M' ∷ b'E' ∷ 32 ∷ 32 ∷ 32 ∷ 32 ∷ b'B' ∷ b'I' ∷ b'N' ∷ []

abbrev disk : ℕ → List ℕ
disk l =
    if l == 1
    then table_bytes
    else if l == 2
    then table_bytes
    else if l == 3
    then file_entry game 3 8000
    else []

abbrev fs : Fs (ℕ → List ℕ)
fs = record {
  disk = disk;
  is_initialized = true;
  volume = volume;
  current = record { cluster = 2; name = b'/' ∷ []; path = b'/' ∷ [] };
  parents = [];
}

volume-IsSound : IsSound volume 65536
volume-IsSound = record {
  one_copy = omega arith;
  fits = omega arith;
  small = omega arith;
  clusters = omega arith;
}

fs-IsMounted : IsMounted ram ram_reliable fs (2 ∷ [])
unfolding word fit cluster_to_lba
fs-IsMounted = record {
  mounted = refl;
  sound = volume-IsSound;
  chain = (refl, omega arith, omega arith, omega arith, omega arith, omega arith);
  room = (
    omega arith,
    (
      omega arith,
      (
        omega arith,
        (
          omega arith,
          (
            omega arith,
            (
              omega arith,
              (
                omega arith,
                (
                  omega arith,
                  (
                    omega arith,
                    (
                      omega arith,
                      (
                        omega arith,
                        (
                          omega arith,
                          (omega arith, (omega arith, (omega arith, (omega arith, tt)))),
                        ),
                      ),
                    ),
                  ),
                ),
              ),
            ),
          ),
        ),
      ),
    ),
  );
}

game-IsChain : IsChain (table ram ram_reliable volume disk) 128 3 (3 ∷ [])
unfolding word fit
game-IsChain = (refl, omega arith, omega arith, omega arith, omega arith, omega arith)

game-AllFit : AllFit volume 65536 (3 ∷ [])
unfolding cluster_to_lba
game-AllFit = (omega arith, tt)

volume-IsByteSized : IsByteSized volume
volume-IsByteSized = record { some_sector = omega arith; byte = omega arith }

load_program_overruns_example :
    (fs' : Fs (ℕ → List ℕ)) × (loaded : Loaded) × (load_program ram 2 fs game
      ≡ some (fs', some loaded))
    × (loaded.info.loaded ≡ true)
    × (loaded.info.entry_point ≡ 0x101000)
    × (stack_size < length loaded.stored)
unfolding file_size file_entry word first_cluster u16 find_name compare_filename normalize
    same_bytes take_base take_ext pad toupper fit cluster_to_lba
load_program_overruns_example =
    load_program_overruns ram ram_reliable 2 fs game (file_entry game 3 8000) (2 ∷ []) (3 ∷ []) 3
      (omega arith) (omega arith) fs-IsMounted volume-IsByteSized refl (omega arith) (omega arith)
      game-IsChain game-AllFit (omega arith)
