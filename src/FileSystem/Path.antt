-- ===== src/FileSystem/Path.antt =====
-- src/efi/protocols/simple_file_system.rs: the paths of files.
use crab_efi.Prelude.{
  ℕ, zero, suc, ◌-◌, Bool, false, not, ◌&&◌, ◌||◌, List, [], ◌∷◌, ◌++◌, ◌==◌, ltb, if◌then◌else◌,
  length, take, map, get_or,
}
use crab_efi.FileSystem.{max_path_len}

-- The units before the null; a unit that is not ASCII becomes `?`. The room is one less than the
-- buffer has.
unfoldable pub to_utf8 : ℕ → List ℕ → List ℕ
to_utf8 zero units = []
to_utf8 (suc room) [] = []
to_utf8 (suc room) (c ∷ cs) =
    let rest = to_utf8 room cs in if c == 0 then [] else (if ltb c 128 then c else b'?') ∷ rest

abbrev pub utf16_to_utf8 : List ℕ → List ℕ
utf16_to_utf8 units = to_utf8 (max_path_len - 1) units

-- A backslash becomes a slash.
abbrev pub slash : ℕ → ℕ
slash c = if c == 0x5C then b'/' else c

abbrev pub until_null : List ℕ → List ℕ
until_null [] = []
until_null (c ∷ cs) = let rest = until_null cs in if c == 0 then [] else c ∷ rest

-- The last byte is not a slash; `len > 0 && out[len - 1] != b'/'`.
abbrev pub ends_open : List ℕ → Bool
ends_open path = ltb 0 (length path) && not (get_or path (length path - 1) 0 == b'/')

abbrev pub is_absolute : List ℕ → Bool
is_absolute [] = false
is_absolute (c ∷ cs) = c == 0x5C || c == b'/'

abbrev pub with_separator : List ℕ → List ℕ
with_separator path =
    if ends_open path && ltb (length path) (max_path_len - 1) then path ++ b'/' ∷ [] else path

abbrev pub joined : List ℕ → List ℕ → List ℕ
joined parent name =
    if is_absolute name
    then take (max_path_len - 1) (map slash name)
    else (let start = with_separator (take (max_path_len - 1) (map slash (until_null parent))) in
        start ++ take (max_path_len - 1 - length start) (map slash name))

abbrev pub without_last : List ℕ → List ℕ
without_last path =
    if ltb 1 (length path) && get_or path (length path - 1) 0 == b'/'
    then take (length path - 1) path
    else path

abbrev pub normalize_path : List ℕ → List ℕ
normalize_path [] = []
normalize_path (c ∷ cs) = if c == b'/' then cs else c ∷ cs

unfoldable pub build_full_path : List ℕ → List ℕ → List ℕ
build_full_path parent name = normalize_path (without_last (joined parent name))
