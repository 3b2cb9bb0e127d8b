-- ===== src/Tools/QuoteShell.antt =====
-- tools/_shared/quote-shell.ts: quoting a value for a POSIX shell.
pub mod Reader
pub mod Laws
use better_unraid_mcp.Base.{ℕ, Text, [], ◌∷◌, ◌++◌, u, ◌==◌, if◌then◌else◌}

-- `value.replace(/'/g, "'\\''")`
unfoldable pub escape_quotes : Text → Text
escape_quotes [] = []
escape_quotes (c ∷ s) =
    let rest = escape_quotes s in if c == b'\'' then u "'\\''" ++ rest else c ∷ rest

unfoldable pub quote_for_shell : Text → Text
unfolding escape_quotes
quote_for_shell value = u "'" ++ (escape_quotes value ++ u "'")
