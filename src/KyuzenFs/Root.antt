-- ===== src/KyuzenFs/Root.antt =====
-- kernel/kyuzenfs.c: a file in the root directory, created and read by its path.
use aetheroz.Prelude.{
  ℕ, ◌-◌, ◌^◌, ◌≤◌, ◌<◌, ◌≡◌, ◌≢◌, refl, sym, ap, subst, ◌∙◌, Bool, true, false, none, some, List,
  [], ◌∷◌, arith, ltb, ◌==◌, if◌then◌else◌, length, take, min,
}
use aetheroz.Strings.Compare.{IsText}
use aetheroz.KyuzenFs.{Fs, find_free_sector}
use aetheroz.KyuzenFs.Directory.{chain_fuel, find_entry_in, vacant, find_slot}
use aetheroz.KyuzenFs.Paths.{
  and_then, walk, resolve_dir, name_after, parent_length, split_last, components,
}
use aetheroz.KyuzenFs.Files.{
  create_in, create_split, formatted, kfs_create_file, find_split, read_found, kfs_read_to_buffer,
}
use aetheroz.KyuzenFs.Alloc.{IsFs, SameShape}
use aetheroz.KyuzenFs.Kept.{OnTable}
use aetheroz.KyuzenFs.Create.{Reads, Creates, create_in-Creates}

-- A path of one component.
unfoldable pub IsPlain : List ℕ → Type 0
IsPlain [] = ◌≡◌ {A = ℕ} 0 0
IsPlain (c ∷ path) = (c ≢ 47) × IsPlain path

name_after_plain : (name path : List ℕ) → IsPlain path → name_after name path ≡ name
unfolding name_after IsPlain
name_after_plain name [] plain = refl
name_after_plain name (c ∷ path) (h, plain) =
    let q : (c == 47) ≡ false = ground arith in rw q (name_after_plain name path plain)

-- A path of one component is a name in the root directory.
split_last_plain :
    (fs : Fs) (path : List ℕ)
    → IsPlain path
    → length path ≢ 0
    → split_last fs path ≡ some (fs.root, path)
unfolding split_last resolve_dir walk components
split_last_plain fs path plain h =
    let same = name_after_plain path path plain in
    let q : (length path == 0) ≡ false = ground arith in
    let front : parent_length path ≡ 0 =
      ap (λ n. min (length path - length n - 1) 127) same ∙ omega arith in
    ap
      (λ n.
        if length n == 0
        then none
        else and_then (resolve_dir fs (take (parent_length path) path)) (λ dir. some (dir, n)))
      same
    ∙ rw q (ap (λ n. and_then (resolve_dir fs (take n path)) (λ dir. some (dir, path))) front)

-- What a path reads as, in a buffer with room: the bytes of `buf`.
abbrev pub ReadsBack : Fs → List ℕ → (ℕ → ℕ) → ℕ → (ℕ → ℕ) → ℕ → Type 0
ReadsBack fs path buf size out capacity =
    (got : ℕ → ℕ) × (kfs_read_to_buffer fs path out capacity ≡ some got)
    × ((j : ℕ) → j < size → got j ≡ buf j)

unfoldable pub FileCreated : List ℕ → (ℕ → ℕ) → ℕ → (ℕ → ℕ) → ℕ → Bool × Fs → Type 0
FileCreated path buf size out capacity (false, fs) = find_free_sector fs ≡ 0
FileCreated path buf size out capacity (true, fs) = ReadsBack fs path buf size out capacity

module _ (fs : Fs) (buf : ℕ → ℕ) (size : ℕ) (path : List ℕ) (out : ℕ → ℕ) (capacity : ℕ)
    (plain : IsPlain path) (named : length path ≢ 0) where
  read_plain :
      (fs' : Fs)
      → SameShape fs fs'
      → Reads fs' fs.root path buf size out capacity
      → ReadsBack fs' path buf size out capacity
  unfolding kfs_read_to_buffer find_split
  read_plain fs' same (got, found, bytes) = (
    got,
    ap (λ p. read_found fs' out capacity (find_split fs' p)) (split_last_plain fs' path plain named)
        ∙ ap (λ d. read_found fs' out capacity (find_entry_in fs' d path)) same.top
        ∙ found,
    bytes,
  )

  Creates-FileCreated :
      (r : Bool × Fs)
      → Creates fs fs.root path buf size out capacity r
      → FileCreated path buf size out capacity r
  unfolding Creates FileCreated
  Creates-FileCreated (false, fs') full = full
  Creates-FileCreated (true, fs') (same, reads) = read_plain fs' same reads

  -- A file is created by a path of one component, of 1 to 22 characters that are no terminators and no
  -- slashes, on a formatted disk: the table has an entry for each sector and stands in front of the root
  -- directory, whose chain ends, is taken, lies behind the table, has a free slot and no entry of the
  -- name; the size is below 2^32 - 511. Then `kfs_create_file` fails only when no sector is free, and else
  -- `kfs_read_to_buffer` gives, for the path and a buffer with room, the bytes of the file.
  pub kfs_read_to_buffer-kfs_create_file :
      (stale : ℕ → ℕ) (reported t i : ℕ)
      → IsFs fs
      → OnTable fs (chain_fuel fs) fs.root
      → 2 ≤ fs.root
      → IsText path
      → length path < 23
      → size < 2 ^ 32 - 511
      → size ≤ capacity
      → find_slot fs fs.root fs.root (chain_fuel fs) ≡ vacant t i
      → find_entry_in fs fs.root path ≡ none
      → FileCreated path buf size out capacity (kfs_create_file fs reported stale path buf size)
  unfolding kfs_create_file create_split
  kfs_read_to_buffer-kfs_create_file stale reported t i v on deep text short small room slot
        missing =
      let q : ltb fs.root 2 ≡ false = ground arith in
      let ready : formatted fs reported ≡ fs = rw q refl in
      let r = create_in fs stale buf size fs.root path (find_entry_in fs fs.root path) in
      let made : create_split fs stale buf size (split_last fs path) ≡ r =
        ap (create_split fs stale buf size) (split_last_plain fs path plain named) in
      let whole : kfs_create_file fs reported stale path buf size ≡ r =
        ap (λ f. create_split f stale buf size (split_last f path)) ready ∙ made in
      subst (FileCreated path buf size out capacity) (sym whole) (
        Creates-FileCreated r (
          create_in-Creates fs stale buf size fs.root path t i out capacity v on deep text short
            small room slot missing))
