-- ===== src/FileIo/Tests.antt =====
-- The calls on the disk of Fat/Tests.
use ring_os.Prelude.{ℕ, ◌≡◌, refl, some, List, [], ◌∷◌, arith}
use ring_os.Block.Ram.{fit, ram, ram_reliable}
use ring_os.Fat.Tests.{small_fs, small_disk, small_fs-IsMounted, root_ordinary, readme_name}
use ring_os.FileIo.{FileIo, minus_one, fs_open, fs_read, fs_write}
use ring_os.FileIo.Refusal.{file_calls_fail}

abbrev pub small_io : FileIo (ℕ → List ℕ)
small_io = record { fs = small_fs; current_path = b'/' ∷ [] }

file_calls_fail_example :
    (d1 d2 : ℕ → List ℕ) × (fs_read ram 2 small_io [] 0 100
      ≡ some (record small_io { fs = record small_fs { disk = d1 } }, minus_one, []))
    × (fs_write ram 2 small_io [] 0 readme_name 100
        ≡ some (record small_io { fs = record small_fs { disk = d1 } }, minus_one))
    × (fs_open ram 2 small_io readme_name 0
        ≡ some (record small_io { fs = record small_fs { disk = d2 } }, minus_one))
    × ◌≡◌ {A = ℕ → List ℕ} (λ l. fit 512 (d1 l)) (λ l. fit 512 (small_disk l))
    × ◌≡◌ {A = ℕ → List ℕ} (λ l. fit 512 (d2 l)) (λ l. fit 512 (small_disk l))
file_calls_fail_example =
    file_calls_fail ram ram_reliable 2 small_io (2 ∷ []) (omega arith) small_fs-IsMounted
      root_ordinary [] readme_name readme_name 0 100 0 refl
