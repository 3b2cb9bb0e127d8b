-- ===== src/Tools/Share/Query/Laws.antt =====
-- Names that need no encoding.
use better_unraid_mcp.Base.{
  ℕ, ◌≡◌, refl, Text, [], ◌∷◌, true, false, none, some, All, All-map, is_alnum, is_alpha, is_digit,
  arith,
}
use better_unraid_mcp.Tools.Share.Name.{is_share_char, validate_share_name}
use better_unraid_mcp.Tools.Share.Name.Laws.{valid_name-All}
use better_unraid_mcp.Tools.Share.Query.{
  is_unreserved, encode_unit, is_high, is_low, before, encode_uri_component,
}

unreserved-unit :
    (c : ℕ)
    → is_unreserved c ≡ true
    → (is_high c ≡ false) × (is_low c ≡ false) × (encode_unit c ≡ c ∷ [])
unfolding is_unreserved is_alnum is_alpha is_digit is_high is_low encode_unit
unreserved-unit c h = (ground arith, ground arith, ground arith)

-- Letters that stand for themselves are left as they are.
pub encode_uri_component-plain :
    (s : Text) → All (λ c. is_unreserved c ≡ true) s → encode_uri_component s ≡ some s
unfolding encode_uri_component before
encode_uri_component-plain [] h = refl
encode_uri_component-plain (c ∷ []) (h, hs) =
    let (high, low, unit) = unreserved-unit c h in rw (high, low, unit) refl
encode_uri_component-plain (c ∷ (d ∷ s)) (h, hs) =
    let (high, low, unit) = unreserved-unit c h in
    rw (high, encode_uri_component)
      (rw (high, low, encode_uri_component)
        (rw unit (rw (encode_uri_component-plain (d ∷ s) hs, before) refl)))

share_char-unreserved : (c : ℕ) → is_share_char c ≡ true → is_unreserved c ≡ true
unfolding is_share_char is_unreserved is_alnum is_alpha is_digit
share_char-unreserved c h = ground arith

pub encode_uri_component-name :
    (name : Text) → validate_share_name name ≡ none → encode_uri_component name ≡ some name
encode_uri_component-name name h =
    encode_uri_component-plain name (All-map share_char-unreserved name (valid_name-All name h))
