-- ===== src/KyuzenFs/Paths.antt =====
-- kernel/kyuzenfs.c: paths. A path is the list of its characters before the terminator; 47 is the slash.
use aetheroz.Prelude.{
  ℕ, ◌-◌, Option, none, some, List, [], ◌∷◌, ◌++◌, ltb, ◌==◌, if◌then◌else◌, length, take, min,
}
use aetheroz.KyuzenFs.{Fs}
use aetheroz.KyuzenFs.Directory.{Found, flag_folder, find_entry_in}

-- A component goes in front of the others, unless it is empty.
abbrev pub with_component : List ℕ → List (List ℕ) → List (List ℕ)
with_component [] cs = cs
with_component (x ∷ xs) cs = (x ∷ xs) ∷ cs

-- The components of a path, with the characters of the first that were read already. Slashes in a row,
-- at the beginning and at the end make no component.
unfoldable pub components : List ℕ → List ℕ → List (List ℕ)
components comp [] = with_component comp []
components comp (c ∷ path) =
    if c == 47 then with_component comp (components [] path) else components (comp ++ (c ∷ [])) path

-- The next directory, where the entry is a folder.
abbrev pub folder_of : Option Found → Option ℕ
folder_of none = none
folder_of (some (e, _, _)) = if e.flags == flag_folder then some e.start_sector else none

abbrev pub and_then {ℓ} : {A B : Type ℓ} → Option A → (A → Option B) → Option B
and_then none f = none
and_then (some a) f = f a

-- From a directory down, component by component.
unfoldable pub walk : Fs → ℕ → List (List ℕ) → Option ℕ
walk fs dir [] = some dir
walk fs dir (comp ∷ comps) =
    if ltb 22 (length comp)
    then none
    else and_then (folder_of (find_entry_in fs dir comp)) (λ next. walk fs next comps)

unfoldable pub resolve_dir : Fs → List ℕ → Option ℕ
resolve_dir fs path = walk fs fs.root (components [] path)

-- `for (p = path; *p; p++) if (*p == '/') name = p + 1`
unfoldable pub name_after : List ℕ → List ℕ → List ℕ
name_after name [] = name
name_after name (c ∷ path) = name_after (if c == 47 then path else name) path

-- The length of the parent's path, without the slash, cut to 127.
abbrev pub parent_length : List ℕ → ℕ
parent_length path = min (length path - length (name_after path path) - 1) 127

-- The parent's sector and the name; a path that ends with a slash has no name.
unfoldable pub split_last : Fs → List ℕ → Option (ℕ × List ℕ)
split_last fs path =
    let name = name_after path path in
    if length name == 0
    then none
    else and_then (resolve_dir fs (take (parent_length path) path)) (λ dir. some (dir, name))
