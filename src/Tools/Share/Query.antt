-- ===== src/Tools/Share/Query.antt =====
-- tools/share/_shared.ts: the form bodies that emhttpd takes.
pub mod Laws
use better_unraid_mcp.Base.{
  ℕ, zero, suc, ◌+◌, ◌-◌, ◌*◌, ◌/◌, ◌%◌, Text, u, List, [], ◌∷◌, ◌++◌, Bool, true, false, ◌&&◌,
  ◌||◌, Option, none, some, is_alnum, join, ltb, leb, ◌==◌, if◌then◌else◌, refl, ◌≡◌,
}
use better_unraid_mcp.Tools.Share.Parse.{Config, get}

-- The settings that a call asks for; the schema has checked the values of all but the comment and the
-- pool.
pub record ShareSettings : Type 0 where
  pub comment : Option Text
  pub allocator : Option Text
  pub use_cache : Option Text
  pub cache_pool : Option Text
  pub smb_export : Option Text
  pub smb_security : Option Text

pub data Submit : Type 0 where
  add_share apply delete : Submit

pub record EditQueryInput : Type 0 where
  pub name : Text
  pub name_orig : Text
  pub current : Config
  pub changes : ShareSettings
  pub command : Submit

unfoldable pub command_text : Submit → Text
command_text add_share = u "Add Share"
command_text apply = u "Apply"
command_text delete = u "Delete"

unfoldable pub create_defaults : Config
create_defaults =
    (u "shareAllocator", u "highwater")
    ∷ (u "shareUseCache", u "no")
    ∷ (u "shareCOW", u "auto")
    ∷ (u "shareCaseSensitive", u "auto")
    ∷ (u "shareExport", u "-")
    ∷ (u "shareSecurity", u "public")
    ∷ []

unfoldable pub edit_fields : List Text
edit_fields =
    u "shareComment"
    ∷ u "shareAllocator"
    ∷ u "shareFloor"
    ∷ u "shareSplitLevel"
    ∷ u "shareUseCache"
    ∷ u "shareCachePool"
    ∷ u "shareCachePool2"
    ∷ u "shareCOW"
    ∷ u "shareInclude"
    ∷ u "shareExclude"
    ∷ []

unfoldable pub smb_fields : List Text
smb_fields =
    u "shareExport" ∷ u "shareSecurity" ∷ u "shareCaseSensitive" ∷ u "shareVolsizelimit" ∷ []

-- One setting in front of the others, if it is asked for.
abbrev pub put : Text → Option Text → Config → Config
put key none fields = fields
put key (some value) fields = (key, value) ∷ fields

unfoldable pub changed_fields : ShareSettings → Config
changed_fields changes = put (u "shareComment") changes.comment (
    put (u "shareAllocator") changes.allocator (
      put (u "shareUseCache") changes.use_cache (
        put (u "shareCachePool") changes.cache_pool (
          put (u "shareExport") changes.smb_export
            (put (u "shareSecurity") changes.smb_security [])))))

hex : ℕ → ℕ
hex n = if ltb n 10 then n + b'0' else n + 55

-- One byte as `%XX`.
percent : ℕ → Text
unfolding hex
percent byte = b'%' ∷ hex (byte / 16) ∷ hex (byte % 16) ∷ []

-- The letters that `encodeURIComponent` leaves alone.
unfoldable pub is_unreserved : ℕ → Bool
is_unreserved c =
    is_alnum c
    || (c == b'-'
        || (c == b'_'
            || (c == b'.'
                || (c == b'!'
                    || (c == b'~' || (c == b'*' || (c == b'\'' || (c == b'(' || c == b')'))))))))

-- A code point below 0x10000 in UTF-8.
encode_unit : ℕ → Text
unfolding is_unreserved percent
encode_unit c =
    if is_unreserved c
    then c ∷ []
    else if ltb c 128
    then percent c
    else if ltb c 2048
    then percent (192 + c / 64) ++ percent (128 + c % 64)
    else percent (224 + c / 4096) ++ (percent (128 + c / 64 % 64) ++ percent (128 + c % 64))

-- A surrogate pair in UTF-8.
encode_pair : ℕ → ℕ → Text
unfolding percent
encode_pair high low =
    let c = (high - 0xd800) * 1024 + (low - 0xdc00) + 0x10000 in
    percent (240 + c / 262144)
    ++ (percent (128 + c / 4096 % 64) ++ (percent (128 + c / 64 % 64) ++ percent (128 + c % 64)))

is_high : ℕ → Bool
is_high c = leb 0xd800 c && leb c 0xdbff

is_low : ℕ → Bool
is_low c = leb 0xdc00 c && leb c 0xdfff

before : Text → Option Text → Option Text
before s none = none
before s (some rest) = some (s ++ rest)

-- `encodeURIComponent(value)`; `none` where it throws, for half of a surrogate pair.
unfoldable pub encode_uri_component : Text → Option Text
unfolding encode_unit encode_pair is_high is_low before
encode_uri_component [] = some []
encode_uri_component (c ∷ []) = if is_high c || is_low c then none else some (encode_unit c)
encode_uri_component (c ∷ (d ∷ s)) = elim (is_high c && is_low d) [
  | true ↦ before (encode_pair c d) (encode_uri_component s)
  | false ↦ elim (is_high c || is_low c) [
    | true ↦ none
    | false ↦ before (encode_unit c) (encode_uri_component (d ∷ s))
  ]
]

-- `key=value` in front of the pairs that follow.
unfoldable pub pair_before : Text → Option Text → Option (List Text) → Option (List Text)
pair_before key none rest = none
pair_before key (some value) none = none
pair_before key (some value) (some rest) = some ((key ++ (u "=" ++ value)) ∷ rest)

unfoldable pub encode_each : Config → Option (List Text)
unfolding pair_before encode_uri_component
encode_each [] = some []
encode_each ((key, value) ∷ pairs) =
    pair_before key (encode_uri_component value) (encode_each pairs)

unfoldable pub joined : Option (List Text) → Option Text
joined none = none
joined (some pairs) = some (join (u "&") pairs)

unfoldable pub encode_pairs : Config → Option Text
unfolding joined encode_each
encode_pairs pairs = joined (encode_each pairs)

-- `merged[field] ?? ""`
unfoldable pub or_blank : Option Text → Text
or_blank none = []
or_blank (some value) = value

unfoldable pub field_pairs : List Text → Config → Config
unfolding or_blank
field_pairs [] merged = []
field_pairs (field ∷ fields) merged =
    (field, or_blank (get field merged)) ∷ field_pairs fields merged

-- The pairs of the ShareEdit form.
unfoldable pub edit_pairs : EditQueryInput → Config
unfolding field_pairs
edit_pairs input =
    (u "shareName", input.name)
      ∷ (u "shareNameOrig", input.name_orig)
      ∷ field_pairs edit_fields (create_defaults ++ (input.current ++ changed_fields input.changes))
    ++ (u "cmdEditShare", command_text input.command) ∷ []

unfoldable pub build_edit_query : EditQueryInput → Option Text
unfolding edit_pairs encode_pairs
build_edit_query input = encode_pairs (edit_pairs input)

-- Whether one of the two SMB settings is asked for.
abbrev pub is_given : Option Text → Bool
is_given none = false
is_given (some value) = true

abbrev pub changes_smb : ShareSettings → Bool
changes_smb changes = is_given changes.smb_export || is_given changes.smb_security

-- The pairs of the SecuritySMB form.
unfoldable pub smb_pairs : Text → Config → ShareSettings → Config
unfolding field_pairs
smb_pairs name current changes =
    (u "shareName", name)
      ∷ field_pairs smb_fields (create_defaults ++ (current ++ changed_fields changes))
    ++ (u "changeShareSecurity", u "Apply") ∷ []

encode_uri_component_example : encode_uri_component (u "a b&=é") ≡ some (u "a%20b%26%3D%C3%A9")
unfolding encode_uri_component u is_alnum
encode_uri_component_example = refl
