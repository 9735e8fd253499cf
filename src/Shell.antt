-- ===== src/Shell.antt =====
-- The current path of the interactive shell: Context of cmd/snmpctl/shell/context.go, without its
-- client and its history.
pub mod Directions
pub mod Paths
pub mod Navigation
use snmpproxy.Base.{
  ℕ, suc, ◌-◌, Bool, true, false, not, ◌&&◌, ◌||◌, Option, none, some, List, [], ◌∷◌, ◌++◌, Str,
  str_eq, str_beq, if◌then◌else◌, nat_beq, length, take, any,
}
use snmpproxy.Base.Text.{lit, has_prefix, split, join}

-- The `switch` of `normalizePath`, for one part.
abbrev pub add_part : List Str → Str → List Str
add_part result part =
    if str_beq part [] || str_beq part (lit ".")
    then result
    else (if str_beq part (lit "..") then take (length result - 1) result else result ++ part ∷ [])

abbrev pub add_parts : List Str → List Str → List Str
add_parts result [] = result
add_parts result (part ∷ parts) = add_parts (add_part result part) parts

-- `normalizePath`
unfoldable pub normalize_path : Str → Str
normalize_path path =
    let result = add_parts [] (split b'/' path) in
    if str_beq path [] || str_beq path (lit "/")
    then lit "/"
    else (if nat_beq (length result) 0 then lit "/" else b'/' ∷ join b'/' result)

-- `ResolvePath`; the current path comes last.
unfoldable pub resolve_path : Str → Str → Str
resolve_path path current =
    if str_beq path []
    then current
    else (if has_prefix (lit "/") path
        then normalize_path path
        else (if str_beq current (lit "/")
            then normalize_path (b'/' ∷ path)
            else normalize_path (current ++ b'/' ∷ path)))

abbrev pub valid_roots : List Str
valid_roots = lit "targets" ∷ lit "tags" ∷ lit "server" ∷ lit "session" ∷ []

-- The test for "/root", given the root without its slash.
abbrev pub is_at_or_below : Str → Str → Bool
is_at_or_below path root =
    str_beq path (b'/' ∷ root) || has_prefix (b'/' ∷ (root ++ b'/' ∷ [])) path

-- `isValidPath`
unfoldable pub is_valid_path : Str → Bool
is_valid_path path = if str_beq path (lit "/") then true else any (is_at_or_below path) valid_roots

-- `Cd`: whether it succeeds, and the path afterwards.
unfoldable pub cd : Str → Str → Bool × Str
cd path current =
    let new_path = resolve_path path current in
    if is_valid_path new_path then (true, new_path) else (false, current)

abbrev pub trim_slash : Str → Str
trim_slash [] = []
trim_slash (c ∷ s) = if nat_beq c b'/' then s else c ∷ s

-- `PathParts`
unfoldable pub path_parts : Str → List Str
path_parts current = if str_beq current (lit "/") then [] else split b'/' (trim_slash current)

-- `InTargets` and `InTags`
unfoldable pub in_targets : Str → Bool
in_targets current = is_at_or_below current (lit "targets")

unfoldable pub in_tags : Str → Bool
in_tags current = is_at_or_below current (lit "tags")
