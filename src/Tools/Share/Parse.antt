-- ===== src/Tools/Share/Parse.antt =====
-- tools/share/_shared.ts: the parsers of the configuration of a share and of the host's `.ini` files. Each is
-- a regular expression that is anchored at the start of a line and matched along the whole text.
use better_unraid_mcp.Base.{
  refl, ◌≡◌, ℕ, zero, suc, ◌+◌, ◌-◌, Text, u, List, [], ◌∷◌, map, Bool, true, false, ◌||◌, Option,
  none, some, text_eq, starts_with, split_on, trim, is_alnum, filter_b, length, drop, ◌==◌,
  if◌then◌else◌,
}

-- `/…/gm` with `^` in front: at the start of each line that no match has consumed, the value of a match
-- and its length.
abbrev pub Match : Type 0
Match = Option (Text × Text × ℕ)

ends_line : ℕ → Bool
ends_line c = c == 10 || (c == 13 || (c == 0x2028 || c == 0x2029))

-- `text.matchAll(…)`, by what is left to skip and whether a line starts here.
unfoldable pub match_all : (Text → Match) → ℕ → Bool → Text → List (Text × Text)
unfolding ends_line
match_all match skip at_start [] = []
match_all match (suc skip) at_start (c ∷ s) = match_all match skip (ends_line c) s
match_all match zero false (c ∷ s) = match_all match zero (ends_line c) s
match_all match zero true (c ∷ s) = elim (match (c ∷ s)) [
  | none ↦ match_all match zero (ends_line c) s
  | some (key, value, size) ↦ (key, value) ∷ match_all match (size - 1) (ends_line c) s
]

-- `[^"]*"`: what stands before the next quote.
unfoldable pub until_quote : Text → Option Text
until_quote [] = none
until_quote (c ∷ s) = elim (until_quote s) [
  | none ↦ if c == b'"' then some [] else none
  | some value ↦ if c == b'"' then some [] else some (c ∷ value)
]

-- `[A-Za-z0-9_]*`, the longest.
unfoldable pub key_of : Text → Text
key_of [] = []
key_of (c ∷ s) = let rest = key_of s in if is_alnum c || c == b'_' then c ∷ rest else []

-- A match of a key, `="` and a value up to the next quote.
pair_after : Text → Text → Match
unfolding until_quote
pair_after [] rest = none
pair_after (k ∷ key) rest = elim (starts_with rest (u "=\"")) [
  | false ↦ none
  | true ↦ elim (until_quote (drop 2 rest)) [
    | none ↦ none
    | some value ↦ some ((k ∷ key), value, length (k ∷ key) + length value + 3)
  ]
]

pub cfg_match : Text → Match
unfolding key_of pair_after
cfg_match s = pair_after (key_of s) (drop (length (key_of s)) s)

-- A configuration: the pairs in the order of the file; a later pair replaces an earlier one.
abbrev pub Config : Type 0
Config = List (Text × Text)

pub parse_share_cfg : Text → Config
unfolding match_all cfg_match
parse_share_cfg text = match_all cfg_match 0 true text

-- `cfg[key]`
unfoldable pub get : Text → Config → Option Text
get key [] = none
get key ((k, value) ∷ cfg) = elim (get key cfg) [
  | some later ↦ some later
  | none ↦ if text_eq k key then some value else none
]

-- `^\["([^"]+)"\]`: the name of a section, and the length of its header.
section_name : Text → Match
unfolding until_quote
section_name s = elim (starts_with s (u "[\"")) [
  | false ↦ none
  | true ↦ elim (until_quote (drop 2 s)) [
    | none ↦ none
    | some [] ↦ none
    | some (c ∷ name) ↦ elim (starts_with (drop (length (c ∷ name) + 3) s) (u "]")) [
      | false ↦ none
      | true ↦ some (c ∷ name, [], length (c ∷ name) + 4)
    ]
  ]
]

-- The length up to the first line of a section that starts with `type="Cache"`; a line that starts with
-- `[` ends the section.
cache_line : Bool → Text → Option ℕ
cache_line at_start [] = none
cache_line false (c ∷ s) = elim (cache_line (c == 10) s) [
  | none ↦ none
  | some size ↦ some (suc size)
]
cache_line true (c ∷ s) = elim (cache_line (c == 10) s) [
  | none ↦ if starts_with (c ∷ s) (u "type=\"Cache\"") then some 12 else none
  | some size ↦
      if starts_with (c ∷ s) (u "type=\"Cache\"")
      then some 12
      else if c == b'['
      then none
      else some (suc size)
]

pool_match : Text → Match
unfolding section_name cache_line
pool_match s = elim (section_name s) [
  | none ↦ none
  | some (name, value, size) ↦ elim (starts_with (drop size s) (u "\n")) [
    | false ↦ none
    | true ↦ elim (cache_line true (drop (size + 1) s)) [
      | none ↦ none
      | some more ↦ some (name, value, size + 1 + more)
    ]
  ]
]

pub parse_pool_names : Text → List Text
unfolding match_all pool_match
parse_pool_names disks_ini = map (λ found. found.0) (match_all pool_match 0 true disks_ini)

pub parse_disk_names : Text → List Text
unfolding match_all section_name
parse_disk_names disks_ini = map (λ found. found.0) (match_all section_name 0 true disks_ini)

reserved_match : Text → Match
reserved_match s = elim (starts_with s (u "reservedNames=\"")) [
  | false ↦ none
  | true ↦ elim (until_quote (drop 15 s)) [
    | none ↦ none
    | some names ↦ some ([], names, length names + 16)
  ]
]

-- `filter(Boolean)`
is_nonempty : Text → Bool
is_nonempty [] = false
is_nonempty (c ∷ s) = true

split_names : List (Text × Text) → List Text
unfolding is_nonempty
split_names [] = []
split_names ((key, names) ∷ found) = filter_b is_nonempty (map trim (split_on b',' names))

pub parse_reserved_names : Text → List Text
unfolding match_all reserved_match split_names
parse_reserved_names var_ini = split_names (match_all reserved_match 0 true var_ini)

parse_share_cfg_example :
    parse_share_cfg (u "# x\nshareComment=\"a b\"\n\nshareUseCache=\"yes\"\nbad\n")
    ≡ (u "shareComment", u "a b") ∷ (u "shareUseCache", u "yes") ∷ []
unfolding parse_share_cfg starts_with u is_alnum
parse_share_cfg_example = refl

parse_pool_names_example :
    parse_pool_names
      (u "[\"disk1\"]\nid=\"x\"\ntype=\"Data\"\n[\"fast\"]\nid=\"y\"\ntype=\"Cache\"\n")
    ≡ u "fast" ∷ []
unfolding parse_pool_names starts_with u
parse_pool_names_example = refl
