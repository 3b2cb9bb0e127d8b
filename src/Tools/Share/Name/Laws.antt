-- ===== src/Tools/Share/Name/Laws.antt =====
-- The names that pass the validation, and where the configuration of such a share is.
use better_unraid_mcp.Base.{
  ◌≡◌, refl, ℕ, Text, u, [], ◌∷◌, ◌++◌, true, false, none, All, All-map, All-append, all, all-All,
  is_alnum, is_alpha, is_digit, length, starts_with, split_on, split_on-plain, ◌==◌, arith, ◌≤◌,
}
use better_unraid_mcp.Tools.Share.Name.{is_share_char, validate_share_name, share_cfg_path}

valid-chars : (name : Text) → validate_share_name name ≡ none → all is_share_char name ≡ true
unfolding validate_share_name
valid-chars name h = ground arith

-- Every letter of a valid name is a letter, a digit, a dot, an underscore or a hyphen.
pub valid_name-All :
    (name : Text) → validate_share_name name ≡ none → All (λ c. is_share_char c ≡ true) name
valid_name-All name h = all-All is_share_char name (valid-chars name h)

share_char≢slash : (c : ℕ) → is_share_char c ≡ true → (c == b'/') ≡ false
unfolding is_share_char is_alnum is_alpha is_digit
share_char≢slash c h = ground arith

-- The configuration of a share with a valid name lies directly in the directory of the configurations:
-- cut at its slashes, the path ends in the name and `.cfg`, and the name is not empty, has at most forty
-- letters and does not begin with a dot.
pub share_cfg_path_lem :
    (name : Text)
    → validate_share_name name ≡ none
    → (split_on b'/' (share_cfg_path name)
        ≡ u "" ∷ u "boot" ∷ u "config" ∷ u "shares" ∷ (name ++ u ".cfg") ∷ [])
      × (1 ≤ length name)
      × (length name ≤ 40)
      × (starts_with name (u ".") ≡ false)
unfolding share_cfg_path split_on u validate_share_name
share_cfg_path_lem name h = (
  rw (split_on-plain b'/' (name ++ u ".cfg") last) refl,
  ground arith,
  ground arith,
  ground arith,
)
  where
    last : All (λ c. (c == b'/') ≡ false) (name ++ u ".cfg")
    last =
        All-append (λ c. (c == b'/') ≡ false) name (u ".cfg")
          (All-map share_char≢slash name (valid_name-All name h)) (refl, (refl, (refl, (refl, tt))))
