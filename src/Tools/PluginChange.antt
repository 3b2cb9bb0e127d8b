-- ===== src/Tools/PluginChange.antt =====
-- tools/plugin/: the handlers of the tools `plugin_add` and `plugin_remove`, which differ in their verb
-- and their mutation, with what they share in tools/plugin/_shared.ts.
pub mod Laws
use better_unraid_mcp.Base.{
  ℕ, ◌≡◌, Text, u, ◌++◌, List, [], ◌∷◌, Bool, true, false, not, ◌&&◌, ◌||◌, Option, none, some,
  find, join, leb, ◌==◌, if◌then◌else◌,
}
use better_unraid_mcp.Effects.{Action, Executor, pure, ◌>>=◌, execute, try_catch, guarded}
use better_unraid_mcp.Json.{bool, obj, end, field}
use better_unraid_mcp.Respond.{ToolResult, tool_error, ResponseFormat, format_response}
use better_unraid_mcp.Gate.{ElicitationChannel, require_confirmation_interactive}

pub data Verb : Type 0 where
  add remove : Verb

pub record PluginNamesInput : Type 0 where
  pub response_format : ResponseFormat
  pub names : List Text
  pub confirm : Option Bool

-- The mutation of a verb, with `bundled: false` and `restart: true`; the reply tells whether a manual
-- restart is required.
pub data Operation : Type 0 where
  change_plugins : Verb → List Text → Operation

abbrev pub Reply : Operation → Type 0
Reply op = Bool

-- `[a-z0-9]` and `[a-z0-9._-]`
is_head : ℕ → Bool
is_head c = (leb b'a' c && leb c b'z') || (leb b'0' c && leb c b'9')

is_part : ℕ → Bool
unfolding is_head
is_part c = is_head c || (c == b'.' || (c == b'_' || c == b'-'))

all_parts : Text → Bool
unfolding is_part
all_parts [] = true
all_parts (c ∷ cs) = is_part c && all_parts cs

-- `[a-z0-9][a-z0-9._-]*$`
is_word : Text → Bool
unfolding all_parts
is_word [] = false
is_word (c ∷ cs) = is_head c && all_parts cs

-- What follows the scope's first character, with the slash and the word after it.
scope_rest : Text → Bool
unfolding is_word
scope_rest [] = false
scope_rest (c ∷ cs) =
    let rest = scope_rest cs in if c == b'/' then is_word cs else is_part c && rest

is_scoped : Text → Bool
unfolding scope_rest
is_scoped [] = false
is_scoped (c ∷ cs) = is_head c && scope_rest cs

-- `NAMES_SPEC.test(name)`
unfoldable pub names_spec : Text → Bool
unfolding is_scoped
names_spec [] = false
names_spec (c ∷ cs) = if c == b'@' then is_scoped cs else is_word (c ∷ cs)

breaks_spec : Text → Bool
breaks_spec name = not (names_spec name)

pub first_invalid_name : List Text → Option Text
unfolding breaks_spec
first_invalid_name names = find breaks_spec names

verb_name : Verb → Text
verb_name add = u "add"
verb_name remove = u "remove"

capitalized : Verb → Text
capitalized add = u "Add"
capitalized remove = u "Remove"

build_invalid_name_error : Verb → Text → Text
build_invalid_name_error verb name =
    u "Refusing to "
    ++ (verb_name verb
        ++ (u " \""
            ++ (name
                ++ u
                    "\": only bare or scoped npm package names are allowed (no URLs, git refs, paths, or version suffixes). No changes were made.")))

build_restart_report : Verb → List Text → Bool → Text
unfolding capitalized
build_restart_report verb names manual_restart_required =
    capitalized verb
    ++ (u " of "
        ++ (join (u ", ") names
            ++ (u " submitted; "
                ++ (if manual_restart_required
                    then u
                        "a manual API restart is required to apply it. Verify with plugin_list after restarting."
                    else u
                        "the Unraid API is restarting to apply it. Verify with plugin_list once it reconnects."))))

pub describe_change : Verb → List Text → Text
describe_change verb names = verb_name verb ++ (u " plugin(s) " ++ join (u ", ") names)

mutation_field : Verb → Text
mutation_field add = u "addPlugin"
mutation_field remove = u "removePlugin"

submit : Executor Operation Reply → Verb → PluginNamesInput → Action Operation ToolResult
unfolding build_restart_report mutation_field
submit client verb input =
    try_catch
      (do
        manual ← execute client (change_plugins verb input.names)
        pure (
            format_response input.response_format (build_restart_report verb input.names manual)
              (obj (field (mutation_field verb) (bool manual) end))))
      (λ message. tool_error (
        u "Failed to "
        ++ (verb_name verb
            ++ (u " plugin(s) " ++ (join (u ", ") input.names ++ (u ": " ++ message))))))

-- `createPluginAddHandler` and `createPluginRemoveHandler`
pub change_plugin :
    Executor Operation Reply
    → Verb
    → Option ElicitationChannel
    → PluginNamesInput
    → Action Operation ToolResult
unfolding submit build_invalid_name_error
change_plugin client verb channel input = elim (first_invalid_name input.names) [
  | some name ↦ pure (tool_error (build_invalid_name_error verb name))
  | none ↦
      guarded
        (require_confirmation_interactive input.confirm (describe_change verb input.names) channel)
        (submit client verb input)
]
