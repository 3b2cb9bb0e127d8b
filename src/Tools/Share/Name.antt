-- ===== src/Tools/Share/Name.antt =====
-- tools/share/_shared.ts: the names that a share may have.
pub mod Laws
use better_unraid_mcp.Base.{
  ℕ, Text, u, List, [], ◌∷◌, ◌++◌, Bool, true, false, ◌&&◌, ◌||◌, not, Option, none, some, text_eq,
  lower, is_alnum, starts_with, any, all, length, ltb, ◌==◌, if◌then◌else◌,
}

unfoldable pub reserved_share_names : List Text
reserved_share_names =
    u "flash"
    ∷ u "boot"
    ∷ u "disks"
    ∷ u "disk"
    ∷ u "user"
    ∷ u "user0"
    ∷ u "cache"
    ∷ u "parity"
    ∷ u "remotes"
    ∷ u "addons"
    ∷ u "rootshare"
    ∷ []

-- Compared without regard to the case.
unfoldable pub is_reserved_name : Text → List Text → Bool
is_reserved_name name extra =
    any (λ reserved. text_eq (lower reserved) (lower name)) (reserved_share_names ++ extra)

abbrev pub max_share_name_length : ℕ
max_share_name_length = 40

-- `[A-Za-z0-9._-]`
unfoldable pub is_share_char : ℕ → Bool
is_share_char c = is_alnum c || (c == b'.' || (c == b'_' || c == b'-'))

unfoldable pub validate_share_name : Text → Option Text
unfolding is_share_char
validate_share_name name =
    if length name == 0
    then some (u "Share name is empty.")
    else if ltb max_share_name_length (length name)
    then some (u "Share name must be 40 characters or less.")
    else if starts_with name (u ".")
    then some (u "Share names must not start with a dot (hidden shares are not allowed).")
    else if not (all is_share_char name)
    then some (u "Share names may only contain letters, digits, dot, underscore, and hyphen.")
    else none

pub share_cfg_path : Text → Text
share_cfg_path name = u "/boot/config/shares" ++ (u "/" ++ (name ++ u ".cfg"))
