-- ===== src/Tests/Raw.antt =====
-- The raw GraphQL tools at concrete documents.
use better_unraid_mcp.Base.{
  ◌≡◌, refl, ◌⊎◌, u, text_eq, member, Text, List, [], ◌∷◌, true, none, some,
}
use better_unraid_mcp.Effects.{Attempt, returned, Executor}
use better_unraid_mcp.Json.{null}
use better_unraid_mcp.Gate.Laws.{RiskAccepted}
use better_unraid_mcp.Tools.RawGraphql.{
  mutation, Selections, nothing, field, spread, operation, fragment, Document, find_risky_fields,
  Request, Reply, GraphqlMutationInput, risky_refusal_message, graphql_mutation,
}
use better_unraid_mcp.Tools.RawGraphql.Fields.{below, itself, in_fragment}
use better_unraid_mcp.Tools.RawGraphql.Laws.{risky_mutation_gated}

abbrev stop_selection : Selections
stop_selection = field (u "setState") nothing nothing

-- `mutation { array { ...Stop } } fragment Stop on ArrayMutations { setState }`
abbrev hidden_stop : Document
hidden_stop =
    operation mutation (field (u "array") (spread (u "Stop") nothing) nothing)
    ∷ fragment (u "Stop") stop_selection
    ∷ []

abbrev parser : Text → Attempt Document
parser s = returned hidden_stop

abbrev no_problems : Document → List Text
no_problems document = []

abbrev server : Executor Request Reply
server sent request = returned null

abbrev stop_input : GraphqlMutationInput
stop_input = record {
  mutation_text = u "…";
  variables = none;
  flags = record { confirm = some true; acknowledge_risk = some true };
  dry_run = none;
}

risky_mutation_gated_example :
    let sent = (graphql_mutation parser no_problems server none stop_input []).1 in
    (sent ≡ [])
    ⊎ ((no_problems hidden_stop ≡ [])
        × RiskAccepted stop_input.flags (risky_refusal_message (find_risky_fields hidden_stop)) none
        × (sent ≡ record { document = hidden_stop; variables = none } ∷ []))
unfolding member text_eq u
risky_mutation_gated_example =
    risky_mutation_gated parser no_problems server none stop_input (u "setState") hidden_stop
      mutation (field (u "array") (spread (u "Stop") nothing) nothing) []
      (fragment (u "Stop") stop_selection ∷ []) refl refl
      (below (u "array") (spread (u "Stop") nothing) nothing (
        in_fragment (u "Stop") stop_selection nothing
          (operation mutation (field (u "array") (spread (u "Stop") nothing) nothing) ∷ []) [] refl
          (itself nothing nothing)))
      refl
