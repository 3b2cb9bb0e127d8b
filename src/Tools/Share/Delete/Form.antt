-- ===== src/Tools/Share/Delete/Form.antt =====
-- The form that `share_delete` submits.
use better_unraid_mcp.Base.{
  text_eq, ℕ, ◌≡◌, refl, ap, ◌∙◌, Text, u, List, [], ◌∷◌, ◌++◌, true, false, not, none, some, All,
  All-map, All-append, all, is_alnum, is_alpha, is_digit, join, split_on, split_on-join, filter_b,
  starts_with, ◌==◌, arith,
}
use better_unraid_mcp.Tools.Share.Name.{is_share_char, validate_share_name}
use better_unraid_mcp.Tools.Share.Parse.{get}
use better_unraid_mcp.Tools.Share.Query.{
  encode_each, pair_before, encode_pairs, joined, edit_pairs, field_pairs, build_edit_query,
  or_blank, create_defaults, edit_fields, changed_fields, command_text,
}
use better_unraid_mcp.Tools.Share.Query.Laws.{encode_uri_component-name}
use better_unraid_mcp.Tools.Share.Name.Laws.{valid_name-All}
use better_unraid_mcp.Tools.Share.Delete.{
  delete_query_only, is_name_pair, delete_input, no_settings,
}

other_parts : List Text
other_parts =
    u "shareComment="
    ∷ u "shareAllocator=highwater"
    ∷ u "shareFloor="
    ∷ u "shareSplitLevel="
    ∷ u "shareUseCache=no"
    ∷ u "shareCachePool="
    ∷ u "shareCachePool2="
    ∷ u "shareCOW=auto"
    ∷ u "shareInclude="
    ∷ u "shareExclude="
    ∷ u "cmdEditShare=Delete"
    ∷ []

-- The pairs of the full form of a share whose name needs no encoding, and those that are kept.
encoded_parts : Text → List Text
encoded_parts name = (u "shareName=" ++ name) ∷ (u "shareNameOrig=" ++ name) ∷ other_parts

kept_parts : Text → List Text
kept_parts name =
    (u "shareName=" ++ name) ∷ (u "shareNameOrig=" ++ name) ∷ u "cmdEditShare=Delete" ∷ []

build_edit_query_delete :
    (name : Text)
    → validate_share_name name ≡ none
    → build_edit_query (delete_input name) ≡ some (join (u "&") (encoded_parts name))
unfolding encoded_parts other_parts delete_input no_settings build_edit_query edit_pairs
    encode_pairs joined encode_each pair_before field_pairs or_blank edit_fields create_defaults
    changed_fields command_text get text_eq u is_alnum
build_edit_query_delete name h = rw (encode_uri_component-name name h) refl

share_char≢and : (c : ℕ) → is_share_char c ≡ true → (c == b'&') ≡ false
unfolding is_share_char is_alnum is_alpha is_digit
share_char≢and c h = ground arith

abbrev NoAnd : Text → Type 0
NoAnd s = All (λ c. (c == b'&') ≡ false) s

literal-NoAnd : (s : Text) → all (λ c. not (c == b'&')) s ≡ true → NoAnd s
literal-NoAnd [] h = tt
literal-NoAnd (c ∷ s) h = (ground arith, literal-NoAnd s (ground arith))

literals-NoAnd :
    (parts : List Text) → all (λ s. all (λ c. not (c == b'&')) s) parts ≡ true → All NoAnd parts
literals-NoAnd [] h = tt
literals-NoAnd (s ∷ parts) h = (literal-NoAnd s (ground arith), literals-NoAnd parts (ground arith))

name-NoAnd : (key name : Text) → NoAnd key → validate_share_name name ≡ none → NoAnd (key ++ name)
name-NoAnd key name k h =
    All-append (λ c. (c == b'&') ≡ false) key name k
      (All-map share_char≢and name (valid_name-All name h))

names-NoAnd :
    (name : Text) (rest : List Text)
    → validate_share_name name ≡ none
    → All NoAnd rest
    → All NoAnd ((u "shareName=" ++ name) ∷ (u "shareNameOrig=" ++ name) ∷ rest)
unfolding u
names-NoAnd name rest h k = (
  name-NoAnd (u "shareName=") name (literal-NoAnd (u "shareName=") refl) h,
  (name-NoAnd (u "shareNameOrig=") name (literal-NoAnd (u "shareNameOrig=") refl) h, k),
)

split-parts :
    (name : Text)
    → validate_share_name name ≡ none
    → split_on b'&' (join (u "&") (encoded_parts name)) ≡ encoded_parts name
unfolding encoded_parts other_parts u
split-parts name h =
    split_on-join b'&' _ _ (names-NoAnd name other_parts h (literals-NoAnd other_parts refl))

filter-others : filter_b is_name_pair other_parts ≡ u "cmdEditShare=Delete" ∷ []
unfolding other_parts is_name_pair starts_with filter_b u
filter-others = refl

filter-parts : (name : Text) → filter_b is_name_pair (encoded_parts name) ≡ kept_parts name
unfolding encoded_parts kept_parts filter_b is_name_pair starts_with u
filter-parts name =
    ap (λ rest. (u "shareName=" ++ name) ∷ (u "shareNameOrig=" ++ name) ∷ rest) filter-others

delete_query_kept :
    (name : Text)
    → validate_share_name name ≡ none
    → delete_query_only (join (u "&") (encoded_parts name)) ≡ join (u "&") (kept_parts name)
unfolding delete_query_only
delete_query_kept name h =
    ap (λ parts. join (u "&") (filter_b is_name_pair parts)) (split-parts name h)
    ∙ ap (join (u "&")) (filter-parts name)

-- For a valid name, the form that deletes the share has exactly three fields: its name, twice, and the
-- command; the other fields of the full form are dropped, and nothing in the name adds a field.
pub delete_form_lem :
    (name : Text)
    → validate_share_name name ≡ none
    → (full : Text) × (build_edit_query (delete_input name) ≡ some full)
      × (split_on b'&' (delete_query_only full)
          ≡ (u "shareName=" ++ name) ∷ (u "shareNameOrig=" ++ name) ∷ u "cmdEditShare=Delete" ∷ [])
unfolding kept_parts u
delete_form_lem name h = (
  join (u "&") (encoded_parts name),
  build_edit_query_delete name h,
  ap (split_on b'&') (delete_query_kept name h)
      ∙ split_on-join b'&' _ _ (
          names-NoAnd name (u "cmdEditShare=Delete" ∷ []) h
            (literals-NoAnd (u "cmdEditShare=Delete" ∷ []) refl)),
)
