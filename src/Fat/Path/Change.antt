-- ===== src/Fat/Path/Change.antt =====
-- `fat32_change_directory` as a whole, over a reliable device.
use ring_os.Prelude.{
  ℕ, ◌<◌, ◌≡◌, ◌≢◌, ap, ◌∙◌, Bool, true, false, Option, some, List, [], ◌∷◌, ◌++◌, arith,
  if◌then◌else◌, length,
}
use ring_os.CString.Compare.{IsText, same_text_ne, same_text_self}
use ring_os.Block.{BlockDevice, IsReliable}
use ring_os.Fat.{Fs, Directory}
use ring_os.Fat.Names.{cat_name}
use ring_os.Fat.Dir.Update.{chain_lbas}
use ring_os.Fat.Dir.Create.{IsMounted}
use ring_os.Fat.Search.Hit.{first_hit, search_clusters_lem}
use ring_os.Fat.Path.{
  find_directory, enter, leave, enter_found, find_and_enter, go_to, change_directory,
}
use ring_os.Fat.Path.Stack.{IsConsistent, leave-enter, leave-enter_full, enter_initialized}

-- Behind the search.
abbrev Found : {S : Type 0} → Fs S × Bool → Type 0
Found r = IsConsistent r.0

disk-IsConsistent :
    {S : Type 0} (fs : Fs S) (d : S) → IsConsistent fs → IsConsistent (record fs { disk = d })
disk-IsConsistent fs d v = record {
  shown = v.shown;
  depth = v.depth;
  own_name = v.own_name;
  names = v.names;
}

abbrev parent : List ℕ
parent = b'.' ∷ b'.' ∷ []

abbrev slash : List ℕ
slash = b'/' ∷ []

abbrev dot : List ℕ
dot = b'.' ∷ []

module _ (dev : BlockDevice) (rel : IsReliable dev) where
  open rel use {capacity, contents}

  module _ (fuel : ℕ) (fs : Fs dev.State) (cs : List ℕ) (enough : length cs < fuel)
      (m : IsMounted dev rel fs cs) where
    -- The entry that the search for a directory finds first, or its end mark.
    abbrev pub found : List ℕ → Option (ℕ × Option (List ℕ))
    found n = first_hit (find_directory n 16) (contents fs.disk) (chain_lbas fs.volume cs)

    find_and_enter_lem :
        (n : List ℕ)
        → (d' : dev.State) × (find_and_enter dev fuel fs n
            ≡ some (enter_found (record fs { disk = d' }, found n)))
          × (contents d' ≡ contents fs.disk)
    unfolding find_and_enter
    find_and_enter_lem n =
        let (d', run, same) =
          search_clusters_lem (find_directory n 16) dev rel true fuel fs fs.current.cluster cs
            enough m.sound m.chain m.room in
        (d', rw (run, find_and_enter), same)

    initialized : (name : List ℕ) → change_directory dev fuel fs name ≡ go_to dev fuel fs name
    unfolding change_directory
    initialized name =
        ap (λ (b : Bool). if b then go_to dev fuel fs name else some (fs, false)) m.mounted

    go_to-found :
        (t rest n : List ℕ)
        → IsText t
        → t ≢ slash
        → t ≢ parent
        → t ≢ dot
        → cat_name (t ++ 0 ∷ rest) ≡ some n
        → change_directory dev fuel fs (t ++ 0 ∷ rest) ≡ find_and_enter dev fuel fs n
    unfolding go_to
    go_to-found t rest n h a b c e =
        initialized (t ++ 0 ∷ rest)
        ∙ rw (
          same_text_ne t slash rest h (omega arith, tt) a,
          same_text_ne t parent rest h (omega arith, (omega arith, tt)) b,
          same_text_ne t dot rest h (omega arith, tt) c,
          e,
        )

    module _ (t rest up n entry : List ℕ) (lba : ℕ) (h : IsText t) (not_root : t ≢ slash)
        (not_parent : t ≢ parent) (not_dot : t ≢ dot) (form : cat_name (t ++ 0 ∷ rest) ≡ some n)
        (hit : found n ≡ some (lba, some entry)) where
      -- The state behind the first call.
      entered :
          (d' : dev.State) × (change_directory dev fuel fs (t ++ 0 ∷ rest)
            ≡ some (enter entry (record fs { disk = d' }), true))
          × (contents d' ≡ contents fs.disk)
      unfolding enter_found
      entered =
          let (d', run, same) = find_and_enter_lem n in
          (d', go_to-found t rest n h not_root not_parent not_dot form ∙ run ∙ rw hit, same)

      up_run :
          (fs' : Fs dev.State)
          → fs'.is_initialized ≡ true
          → change_directory dev fuel fs' (b'.' ∷ b'.' ∷ 0 ∷ up) ≡ some (leave fs' fs'.parents)
      unfolding change_directory go_to
      up_run fs' ready =
          ap
            (λ (b : Bool).
              if b then go_to dev fuel fs' (b'.' ∷ b'.' ∷ 0 ∷ up) else some (fs', false))
            ready
          ∙ rw (
            same_text_ne parent slash up (omega arith, (omega arith, tt)) (omega arith, tt) (cc),
            same_text_self parent up (omega arith, (omega arith, tt)),
          )

      -- On a mounted file system whose current directory is a chain of fewer clusters than the
      -- fuel, over a reliable device, and from a consistent state with fewer than sixteen
      -- parents, `fat32_change_directory` to a directory that the search finds, by a text other
      -- than `/`, `..` and `.`, and then to `..`, returns true twice, restores the current
      -- directory, its path and the parents, and changes no sector.
      pub up-change_directory :
          IsConsistent fs
          → length fs.parents < 16
          → (fs1 : Fs dev.State) × (d' : dev.State) × (change_directory dev fuel fs (t ++ 0 ∷ rest)
              ≡ some (fs1, true))
            × (change_directory dev fuel fs1 (b'.' ∷ b'.' ∷ 0 ∷ up)
                ≡ some (record fs { disk = d' }, true))
            × (contents d' ≡ contents fs.disk)
      up-change_directory v room =
          let (d', run, same) = entered in
          let fs' = record fs { disk = d' } in
          (
            enter entry fs',
            d',
            run,
            up_run (enter entry fs') (enter_initialized entry fs' ∙ m.mounted)
                ∙ ap some (leave-enter entry fs' (disk-IsConsistent fs d' v) room),
            same,
          )

      -- On a mounted file system whose current directory is a chain of fewer clusters than the
      -- fuel, over a reliable device, with sixteen parents, `fat32_change_directory` to a
      -- directory that the search finds, by a text other than `/`, `..` and `.`, and then to
      -- `..`, returns true twice, but leads to the last parent: the directory that was left is
      -- not on the stack.
      pub up-change_directory_full :
          (d : Directory) (older : List Directory)
          → fs.parents ≡ d ∷ older
          → length fs.parents ≡ 16
          → (fs1 fs2 : Fs dev.State) × (change_directory dev fuel fs (t ++ 0 ∷ rest)
              ≡ some (fs1, true))
            × (change_directory dev fuel fs1 (b'.' ∷ b'.' ∷ 0 ∷ up) ≡ some (fs2, true))
            × (fs2.current.cluster ≡ d.cluster)
            × (fs2.parents ≡ older)
      up-change_directory_full d older e full =
          let (d', run, same) = entered in
          let fs' = record fs { disk = d' } in
          let fs1 = enter entry fs' in
          let r = leave fs1 fs1.parents in
          let after = leave-enter_full entry fs' d older e full in
          (
            fs1,
            r.0,
            run,
            up_run fs1 (enter_initialized entry fs' ∙ m.mounted)
                ∙ ap (λ (b : Bool). some (r.0, b)) after.0,
            after.1,
            after.2,
          )
