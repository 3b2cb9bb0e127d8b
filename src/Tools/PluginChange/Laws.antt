-- ===== src/Tools/PluginChange/Laws.antt =====
-- Which plugins may be installed or removed.
use better_unraid_mcp.Base.{
  ℕ, ◌≡◌, refl, ◌⊎◌, inl, inr, Text, List, [], ◌∷◌, true, ◌&&◌, ◌||◌, Option, none, find, All,
  Option-cases, Bool-cases, leb, ◌==◌, arith,
}
use better_unraid_mcp.Effects.{Executor, resume-pure}
use better_unraid_mcp.Gate.{ElicitationChannel, require_confirmation_interactive}
use better_unraid_mcp.Gate.Laws.{Confirmed, confirmation_iff}
use better_unraid_mcp.Tools.PluginChange.{
  Verb, PluginNamesInput, Operation, change_plugins, Reply, is_head, is_part, all_parts, is_word,
  scope_rest, is_scoped, names_spec, breaks_spec, first_invalid_name, describe_change, submit,
  change_plugin,
}

find-none :
    (names : List Text) → find breaks_spec names ≡ none → All (λ name. names_spec name ≡ true) names
unfolding breaks_spec
find-none [] h = tt
find-none (name ∷ names) h = elim (Bool-cases (names_spec name)) [
  | inl e ↦ (e, find-none names (rw (e, breaks_spec) at h))
  | inr e ↦ absurd (ground arith)
]

-- A call changes nothing, or all its names are plain package names, it is confirmed with a prompt that
-- lists them, and it sends exactly the one mutation of its verb for them.
pub change_plugin_writes :
    (client : Executor Operation Reply) (verb : Verb) (channel : Option ElicitationChannel)
    (input : PluginNamesInput)
    → let sent = (change_plugin client verb channel input []).1 in
      (sent ≡ [])
      ⊎ (All (λ name. names_spec name ≡ true) input.names
          × Confirmed input.confirm (describe_change verb input.names) channel
          × (sent ≡ change_plugins verb input.names ∷ []))
unfolding change_plugin submit first_invalid_name
change_plugin_writes client verb channel input =
    elim (Option-cases (find breaks_spec input.names)) [
      | inr (name, e) ↦ inl (rw (e, change_plugin) refl)
      | inl e ↦
          elim (Option-cases (
            require_confirmation_interactive input.confirm (describe_change verb input.names)
              channel)) [
                | inr (refusal, g) ↦ inl (rw (e, change_plugin) (rw (g, change_plugin) refl))
                | inl g ↦
                    rw (e, change_plugin)
                      (rw (g, change_plugin)
                        (inr (
                          find-none input.names e,
                          (confirmation_iff input.confirm (describe_change verb input.names)
                                channel).0
                              g,
                          resume-pure (client [] (change_plugins verb input.names)) _ _,
                        )))
              ]
    ]

-- A lower-case letter, a digit, one of `._-`, a slash or an at sign.
abbrev pub IsPlain : ℕ → Type 0
IsPlain c =
    (((leb b'a' c && leb c b'z') || (leb b'0' c && leb c b'9'))
      || (c == b'.' || (c == b'_' || (c == b'-' || (c == b'/' || c == b'@')))))
    ≡ true

all_parts-IsPlain : (s : Text) → all_parts s ≡ true → All IsPlain s
unfolding all_parts is_part is_head
all_parts-IsPlain [] h = tt
all_parts-IsPlain (c ∷ cs) h = (ground arith, all_parts-IsPlain cs (ground arith))

word-IsPlain : (s : Text) → is_word s ≡ true → All IsPlain s
unfolding is_word is_head
word-IsPlain [] h = tt
word-IsPlain (c ∷ cs) h = (ground arith, all_parts-IsPlain cs (ground arith))

scope_rest-IsPlain : (s : Text) → scope_rest s ≡ true → All IsPlain s
unfolding scope_rest is_part is_head
scope_rest-IsPlain [] h = tt
scope_rest-IsPlain (c ∷ cs) h = elim (Bool-cases (c == b'/')) [
  | inl e ↦ (ground arith, word-IsPlain cs (ground arith))
  | inr e ↦ (ground arith, scope_rest-IsPlain cs (ground arith))
]

scoped-IsPlain : (s : Text) → is_scoped s ≡ true → All IsPlain s
unfolding is_scoped is_head
scoped-IsPlain [] h = tt
scoped-IsPlain (c ∷ cs) h = (ground arith, scope_rest-IsPlain cs (ground arith))

-- An allowed name has only lower-case letters, digits and the signs `._-/@`: no colon, blank, hash or
-- backslash, so no URL, git reference or shell text.
pub names_spec-IsPlain : (name : Text) → names_spec name ≡ true → All IsPlain name
unfolding names_spec
names_spec-IsPlain [] h = tt
names_spec-IsPlain (c ∷ cs) h = elim (Bool-cases (c == b'@')) [
  | inl e ↦ (ground arith, scoped-IsPlain cs (ground arith))
  | inr e ↦ word-IsPlain (c ∷ cs) (ground arith)
]
