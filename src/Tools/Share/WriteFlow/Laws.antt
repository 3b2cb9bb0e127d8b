-- ===== src/Tools/Share/WriteFlow/Laws.antt =====
-- What the shared steps of the write flow send, and what their success shows.
use better_unraid_mcp.Base.{
  ◌≡◌, refl, ◌⊎◌, inl, inr, Text, u, List, [], ◌∷◌, Bool, true, false, Option, none, some, All,
  text_eq_iff, Bool-cases, List-cases, join, if◌then◌else◌, arith,
}
use better_unraid_mcp.Effects.{Attempt, returned, thrown, Action, ◌>>=◌}
use better_unraid_mcp.Respond.{ToolResult, is_error}
use better_unraid_mcp.Tools.QuoteShell.Reader.{words}
use better_unraid_mcp.Tools.QuoteShell.Laws.{words-quote_for_shell}
use better_unraid_mcp.Tools.Ssh.{ShellCommand, ShellResult, ShellExecutor, succeeded, is_success}
use better_unraid_mcp.Tools.Ssh.Laws.{Succeeds, execute_then, checked_then, no_success}
use better_unraid_mcp.Tools.Share.Parse.{Config, get, parse_share_cfg}
use better_unraid_mcp.Tools.Share.Query.{
  EditQueryInput, ShareSettings, changed_fields, changes_smb, build_edit_query, smb_pairs,
  encode_pairs,
}
use better_unraid_mcp.Tools.Share.WriteFlow.{
  emcmd_command, HostContext, check_against_host, encoded, cfg_command, cfg_of, submit_command,
  submit_to_emhttpd, rejected, differs, unverified, unverified_keys, verdict, read_back, submit_smb,
  apply_and_verify,
}

-- A query is one argument of `emcmd`, whatever its letters are.
pub emcmd_command-words :
    (query : Text) → words (emcmd_command query) ≡ some (u "/usr/local/sbin/emcmd" ∷ query ∷ [])
unfolding emcmd_command join
emcmd_command-words query = words-quote_for_shell (u "/usr/local/sbin/emcmd" ∷ query ∷ [])

-- A step that may throw before it sends anything.
pub encoded_then :
    {A : Type 0} (Q : Attempt ToolResult × List ShellCommand → Type 0) (o : Option A)
    (sent : List ShellCommand) (rest : A → Action ShellCommand ToolResult)
    → ((message : Text) → Q (thrown message, sent))
    → ((a : A) → o ≡ some a → Q (rest a sent))
    → Q ((encoded o >>= rest) sent)
encoded_then Q none sent rest fails goes = fails _
encoded_then Q (some a) sent rest fails goes = goes a refl

-- A form, whose refusal by emhttpd ends the handler.
pub submit_then :
    (Q : Attempt ToolResult × List ShellCommand → Type 0) (shell : ShellExecutor) (query : Text)
    (sent : List ShellCommand) (rest : Action ShellCommand ToolResult)
    → ((message : Text) → Q (thrown message, submit_command query ∷ sent))
    → ((refusal : ToolResult)
        → is_error refusal ≡ true
        → Q (returned refusal, submit_command query ∷ sent))
    → (Succeeds shell sent (submit_command query) → Q (rest (submit_command query ∷ sent)))
    → Q (submit_to_emhttpd shell query rest sent)
unfolding submit_to_emhttpd rejected
submit_then Q shell query sent rest fails refused goes =
    checked_then Q shell (submit_command query) sent _ _ fails (λ r. refused _ refl)
      (λ r a ok. goes (r, a, ok))

-- What follows the commands `base` after the edit form was accepted: the SMB form if one of its settings is
-- asked for, and last the look at the configuration.
abbrev pub Finishes :
    ShellExecutor → EditQueryInput → List ShellCommand → List ShellCommand → Type 0
Finishes shell input base sent =
    (sent ≡ base)
    ⊎ ((sent ≡ cfg_command input.name ∷ base)
        ⊎ ((query : Text) × (changes_smb input.changes ≡ true)
            × (encode_pairs (smb_pairs input.name input.current input.changes) ≡ some query)
            × ((sent ≡ submit_command query ∷ base)
                ⊎ (Succeeds shell base (submit_command query)
                    × (sent ≡ cfg_command input.name ∷ submit_command query ∷ base)))))

-- What the write flow sends after the commands `base`: nothing, if the form has no encoding, or the edit
-- form, and the rest only if that was accepted.
abbrev pub Applies : ShellExecutor → EditQueryInput → List ShellCommand → List ShellCommand → Type 0
Applies shell input base sent =
    (sent ≡ base)
    ⊎ ((query : Text) × (build_edit_query input ≡ some query)
        × ((sent ≡ submit_command query ∷ base)
            ⊎ (Succeeds shell base (submit_command query)
                × Finishes shell input (submit_command query ∷ base) sent)))

submit_smb-Finishes :
    (shell : ShellExecutor) (input : EditQueryInput) (base : List ShellCommand)
    → Finishes shell input base (submit_smb shell input (read_back shell input) base).1
unfolding submit_smb read_back submit_to_emhttpd
submit_smb-Finishes shell input base = cases (changes_smb input.changes) refl
  where
    F : Attempt ToolResult × List ShellCommand → Type 0
    F p = Finishes shell input base p.1

    smb : Option Text
    smb = encode_pairs (smb_pairs input.name input.current input.changes)

    cases :
        (b : Bool)
        → changes_smb input.changes ≡ b
        → Finishes shell input base
            ((if b
                then (encoded smb >>= λ query.
                    submit_to_emhttpd shell query (read_back shell input))
                else read_back shell input)
              base).1
    cases false e =
        execute_then F shell (cfg_command input.name) base _ (λ m. inr (inl refl))
          (λ r a. inr (inl refl))
    cases true e =
        encoded_then F smb base _ (λ m. inl refl)
          (λ query f.
            checked_then F shell (submit_command query) base _ _
              (λ m. inr (inr (query, e, f, inl refl))) (λ r. inr (inr (query, e, f, inl refl)))
              (λ r a ok.
                execute_then F shell (cfg_command input.name) (submit_command query ∷ base) _
                  (λ m. inr (inr (query, e, f, inr ((r, a, ok), refl))))
                  (λ s b. inr (inr (query, e, f, inr ((r, a, ok), refl))))))

pub apply_and_verify-Applies :
    (shell : ShellExecutor) (input : EditQueryInput) (base : List ShellCommand)
    → Applies shell input base (apply_and_verify shell input base).1
unfolding apply_and_verify submit_to_emhttpd
apply_and_verify-Applies shell input base =
    encoded_then (λ p. Applies shell input base p.1) (build_edit_query input) base _ (λ m. inl refl)
      (λ query e.
        checked_then (λ p. Applies shell input base p.1) shell (submit_command query) base _ _
          (λ m. inr (query, e, inl refl)) (λ r. inr (query, e, inl refl))
          (λ r a ok. inr (
            query,
            e,
            inr ((r, a, ok), submit_smb-Finishes shell input (submit_command query ∷ base)),
          )))

-- Every requested setting stands in a configuration.
abbrev pub Settled : Config → Config → Type 0
Settled fields cfg = All (λ field. get field.0 cfg ≡ some field.1) fields

-- The look at the configuration that follows exactly these commands shows every requested setting.
abbrev pub ReadBack : ShellExecutor → EditQueryInput → List ShellCommand → Type 0
ReadBack shell input before =
    (result : ShellResult) × (shell before (cfg_command input.name) ≡ returned result)
    × (succeeded result ≡ true)
    × Settled (changed_fields input.changes) (parse_share_cfg result.stdout)

-- After the commands `base`, of which the edit form is the last, the SMB form was accepted if one of its
-- settings is asked for, and then the configuration was read back.
abbrev pub Finished : ShellExecutor → EditQueryInput → List ShellCommand → Type 0
Finished shell input base =
    ((changes_smb input.changes ≡ false) × ReadBack shell input base)
    ⊎ ((query : Text) × (changes_smb input.changes ≡ true)
        × (encode_pairs (smb_pairs input.name input.current input.changes) ≡ some query)
        × Succeeds shell base (submit_command query)
        × ReadBack shell input (submit_command query ∷ base))

-- The edit form was accepted, and after it, and after the SMB form if there is one, the requested settings
-- were read back.
abbrev pub Verified : ShellExecutor → EditQueryInput → List ShellCommand → Type 0
Verified shell input base =
    (query : Text) × (build_edit_query input ≡ some query)
    × Succeeds shell base (submit_command query)
    × Finished shell input (submit_command query ∷ base)

differs-false : (o : Option Text) (value : Text) → differs o value ≡ false → o ≡ some value
unfolding differs
differs-false none value h = ground arith
differs-false (some found) value h = rw ((text_eq_iff found value).0 (ground arith)) refl

unverified-Settled : (fields cfg : Config) → unverified fields cfg ≡ [] → Settled fields cfg
unfolding unverified
unverified-Settled [] cfg h = tt
unverified-Settled ((key, value) ∷ fields) cfg h = elim (Bool-cases (differs (get key cfg) value)) [
  | inl e ↦ absurd (ground arith)
  | inr e ↦ (differs-false (get key cfg) value e, unverified-Settled fields cfg (ground arith))
]

verdict-Settled :
    (input : EditQueryInput) (result : ShellResult)
    → is_success (returned (verdict input (cfg_of result))) ≡ true
    → (succeeded result ≡ true)
      × Settled (changed_fields input.changes) (parse_share_cfg result.stdout)
unfolding verdict cfg_of unverified_keys
verdict-Settled input result h = elim (Bool-cases (succeeded result)) [
  | inr bad ↦ no_success (rw (bad, verdict, cfg_of) at h)
  | inl ok ↦ elim (List-cases (unverified_keys input.changes (parse_share_cfg result.stdout))) [
    | inl e ↦
        (ok, unverified-Settled (changed_fields input.changes) (parse_share_cfg result.stdout) e)
    | inr (key, keys, e) ↦ no_success (rw (e, verdict) at (rw (ok, verdict, cfg_of) at h))
  ]
]

read_back-ReadBack :
    (shell : ShellExecutor) (input : EditQueryInput) (base : List ShellCommand)
    → is_success (read_back shell input base).0 ≡ true
    → ReadBack shell input base
unfolding read_back
read_back-ReadBack shell input base =
    execute_then (λ p. is_success p.0 ≡ true → ReadBack shell input base) shell
      (cfg_command input.name) base _ (λ m. no_success)
      (λ r a h. let (ok, settled) = verdict-Settled input r h in (r, a, ok, settled))

submit_smb-Finished :
    (shell : ShellExecutor) (input : EditQueryInput) (base : List ShellCommand)
    → is_success (submit_smb shell input (read_back shell input) base).0 ≡ true
    → Finished shell input base
unfolding submit_smb submit_to_emhttpd
submit_smb-Finished shell input base = cases (changes_smb input.changes) refl
  where
    Q : Attempt ToolResult × List ShellCommand → Type 0
    Q p = is_success p.0 ≡ true → Finished shell input base

    smb : Option Text
    smb = encode_pairs (smb_pairs input.name input.current input.changes)

    cases :
        (b : Bool)
        → changes_smb input.changes ≡ b
        → Q (
            (if b
                then (encoded smb >>= λ query.
                    submit_to_emhttpd shell query (read_back shell input))
                else read_back shell input)
              base)
    cases false e = λ h. inl (e, read_back-ReadBack shell input base h)
    cases true e =
        encoded_then Q smb base _ (λ m. no_success)
          (λ query f.
            checked_then Q shell (submit_command query) base _ _ (λ m. no_success) (λ r. no_success)
              (λ r a ok h. inr (
                query,
                e,
                f,
                (r, a, ok),
                read_back-ReadBack shell input (submit_command query ∷ base) h,
              )))

pub apply_and_verify-Verified :
    (shell : ShellExecutor) (input : EditQueryInput) (base : List ShellCommand)
    → is_success (apply_and_verify shell input base).0 ≡ true
    → Verified shell input base
unfolding apply_and_verify submit_to_emhttpd
apply_and_verify-Verified shell input base =
    encoded_then Q (build_edit_query input) base _ (λ m. no_success)
      (λ query e.
        checked_then Q shell (submit_command query) base _ _ (λ m. no_success) (λ r. no_success)
          (λ r a ok h. (
            query,
            e,
            (r, a, ok),
            submit_smb-Finished shell input (submit_command query ∷ base) h,
          )))
  where
    Q : Attempt ToolResult × List ShellCommand → Type 0
    Q p = is_success p.0 ≡ true → Verified shell input base

pub check_against_host-error :
    (name : Text) (changes : ShareSettings) (host : HostContext) (r : ToolResult)
    → check_against_host name changes host ≡ some r
    → is_error r ≡ true
unfolding check_against_host
check_against_host-error name changes host r e = ground arith
