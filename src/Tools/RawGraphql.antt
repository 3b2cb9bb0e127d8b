-- ===== src/Tools/RawGraphql.antt =====
-- tools/graphql/: the handlers of the tools `graphql_query` and `graphql_mutation` with their _shared.ts. Of a
-- parsed document this keeps what the handlers look at: the definitions and the fields that they select. The
-- parser and the validation against the schema are parameters.
pub mod Fields
pub mod Laws
use better_unraid_mcp.Base.{
  ◌≡◌, refl, text_eq, ℕ, Text, u, ◌++◌, List, [], ◌∷◌, Bool, true, false, ◌&&◌, not, Option, none,
  some, join, map, member, length, decimal, is_true, if◌then◌else◌,
}
use better_unraid_mcp.Effects.{
  Attempt, returned, thrown, Action, Executor, pure, ◌>>=◌, execute, try_catch, guarded,
}
use better_unraid_mcp.Json.{Json, stringify}
use better_unraid_mcp.Respond.{ToolResult, tool_error, tool_text}
use better_unraid_mcp.Respond.Truncate.{truncate_json_payload}
use better_unraid_mcp.Gate.{
  ElicitationChannel, RiskGateFlags, require_risk_acknowledgement_interactive,
  require_confirmation_interactive,
}

pub data OperationType : Type 0 where
  query mutation subscription : OperationType

-- A selection set: a field with what it selects, a spread of a named fragment, or an inline fragment, and the
-- selections after it.
pub data Selections : Type 0 where
  nothing : Selections
  field : Text → Selections → Selections → Selections
  spread : Text → Selections → Selections
  inline : Selections → Selections → Selections

pub data Definition : Type 0 where
  operation : OperationType → Selections → Definition
  fragment : Text → Selections → Definition
  type_system : Definition

abbrev pub Document : Type 0
Document = List Definition

pub record ParsedOperation : Type 0 where
  pub document : Document
  pub kind : OperationType

operations_of : Document → List OperationType
operations_of [] = []
operations_of (operation kind selections ∷ document) = kind ∷ operations_of document
operations_of (fragment name selections ∷ document) = operations_of document
operations_of (type_system ∷ document) = operations_of document

count_error : {A : Type 0} → ℕ → Attempt A
count_error n = thrown (u "Expected exactly one GraphQL operation, found " ++ (decimal n ++ u "."))

only_operation : Document → List OperationType → Attempt ParsedOperation
unfolding count_error
only_operation document [] = count_error 0
only_operation document (kind ∷ []) = returned (record { document = document; kind = kind })
only_operation document (kind ∷ second ∷ kinds) = count_error (length (kind ∷ second ∷ kinds))

-- `parseSingleOperation`, after the parser.
pub single_operation : Attempt Document → Attempt ParsedOperation
unfolding only_operation operations_of
single_operation (thrown message) = thrown message
single_operation (returned document) = only_operation document (operations_of document)

abbrev pub risky_mutation_fields : List Text
risky_mutation_fields = u "setState" ∷ u "forceStop" ∷ u "reset" ∷ u "configureUps" ∷ []

-- `found.add(name)` for a risky name, on a set in the order of insertion.
add_risky : Text → List Text → List Text
add_risky name found =
    if member name risky_mutation_fields && not (member name found)
    then found ++ (name ∷ [])
    else found

-- The visit of one selection set, from the outside in and from the left.
pub visit_fields : Selections → List Text → List Text
unfolding add_risky
visit_fields nothing found = found
visit_fields (field name selected rest) found =
    visit_fields rest (visit_fields selected (add_risky name found))
visit_fields (spread name rest) found = visit_fields rest found
visit_fields (inline selected rest) found = visit_fields rest (visit_fields selected found)

pub visit_definition : Definition → List Text → List Text
unfolding visit_fields
visit_definition (operation kind selections) found = visit_fields selections found
visit_definition (fragment name selections) found = visit_fields selections found
visit_definition type_system found = found

visit_document : Document → List Text → List Text
unfolding visit_definition
visit_document [] found = found
visit_document (definition ∷ document) found =
    visit_document document (visit_definition definition found)

pub find_risky_fields : Document → List Text
unfolding visit_document
find_risky_fields document = visit_document document []

render_json_result : Json → ToolResult
render_json_result payload = tool_text (truncate_json_payload (stringify payload))

validation_failure : List Text → Text
validation_failure messages =
    u "GraphQL validation failed against the vendored Unraid schema (nothing was sent):\n"
    ++ join (u "\n") (map (λ message. u "- " ++ message) messages)

dry_run_valid_text : Text
dry_run_valid_text =
    u
      "Valid against the vendored Unraid schema; not sent (dry_run). Re-call without dry_run to execute."

kind_text : OperationType → Text
kind_text query = u "query"
kind_text mutation = u "mutation"
kind_text subscription = u "subscription"

-- A document with the variables of a call.
pub record Request : Type 0 where
  pub document : Document
  pub variables : Option Json

abbrev pub Reply : Request → Type 0
Reply request = Json

pub record GraphqlQueryInput : Type 0 where
  pub query_text : Text
  pub variables : Option Json
  pub dry_run : Option Bool

pub record GraphqlMutationInput : Type 0 where
  pub mutation_text : Text
  pub variables : Option Json
  pub flags : RiskGateFlags
  pub dry_run : Option Bool

-- A parse that may throw, as a step of a handler.
abbrev pub attempt : {A : Type 0} → Attempt A → Action Request A
attempt a sent = (a, sent)

pub query_only : OperationType → Option ToolResult
unfolding kind_text
query_only query = none
query_only kind = some (
    tool_error (
      u "graphql_query only runs query operations; got a "
      ++ (kind_text kind
          ++ u ". Use graphql_mutation for mutations (subscriptions are unsupported).")))

pub mutation_only : OperationType → Option ToolResult
unfolding kind_text
mutation_only mutation = none
mutation_only kind = some (
    tool_error (
      u "graphql_mutation only runs mutation operations; got a "
      ++ (kind_text kind ++ u ". Use graphql_query for queries.")))

pub problem_refusal : List Text → Option ToolResult
unfolding validation_failure
problem_refusal [] = none
problem_refusal (problem ∷ problems) = some (tool_error (validation_failure (problem ∷ problems)))

pub dry_run_answer : Option Bool → Option ToolResult
dry_run_answer dry_run = if is_true dry_run then some (tool_text dry_run_valid_text) else none

pub risky_refusal_message : List Text → Text
risky_refusal_message fields =
    u "Refusing to run this mutation: it selects "
    ++ (join (u ", ") fields
        ++ u
            ", which can stop the array, hard-kill a VM, or rewrite the system shutdown configuration. Re-call with both \"confirm\": true and \"acknowledge_risk\": true to proceed. No changes were made.")

-- The gate that only a document with risky fields has to pass.
pub risk_refusal_for : List Text → RiskGateFlags → Option ElicitationChannel → Option ToolResult
risk_refusal_for [] flags channel = none
risk_refusal_for (name ∷ fields) flags channel =
    require_risk_acknowledgement_interactive flags (risky_refusal_message (name ∷ fields)) channel

pub action_description : Text
action_description = u "run a raw GraphQL mutation against the Unraid API"

send : Executor Request Reply → Request → Action Request ToolResult
unfolding render_json_result
send client request = do payload ← execute client request; pure (render_json_result payload)

pub graphql_query :
    (Text → Attempt Document)
    → (Document → List Text)
    → Executor Request Reply
    → GraphqlQueryInput
    → Action Request ToolResult
unfolding query_only problem_refusal dry_run_answer send
graphql_query parse validate client input =
    try_catch
      (do
        parsed ← attempt (single_operation (parse input.query_text))
        guarded (query_only parsed.kind) (
            guarded (problem_refusal (validate parsed.document)) (
              guarded (dry_run_answer input.dry_run) (
                send client (record { document = parsed.document; variables = input.variables })))))
      (λ message. tool_error (u "GraphQL query failed: " ++ message))

-- What follows the parse of a mutation.
pub run_parsed :
    (Document → List Text)
    → Executor Request Reply
    → Option ElicitationChannel
    → GraphqlMutationInput
    → ParsedOperation
    → Action Request ToolResult
unfolding send
run_parsed validate client channel input parsed = guarded (mutation_only parsed.kind) (
    guarded (problem_refusal (validate parsed.document)) (
      guarded (dry_run_answer input.dry_run) (
        guarded (risk_refusal_for (find_risky_fields parsed.document) input.flags channel) (
          guarded (require_confirmation_interactive input.flags.confirm action_description channel)
            (send client (record { document = parsed.document; variables = input.variables }))))))

pub graphql_mutation :
    (Text → Attempt Document)
    → (Document → List Text)
    → Executor Request Reply
    → Option ElicitationChannel
    → GraphqlMutationInput
    → Action Request ToolResult
unfolding run_parsed
graphql_mutation parse validate client channel input =
    try_catch
      (do
        parsed ← attempt (single_operation (parse input.mutation_text))
        run_parsed validate client channel input parsed)
      (λ message. tool_error (u "GraphQL mutation failed: " ++ message))

find_risky_fields_example :
    find_risky_fields (
      operation mutation (field (u "array") (spread (u "Stop") nothing) nothing)
      ∷ fragment (u "Stop") (field (u "setState") nothing nothing)
      ∷ [])
    ≡ u "setState" ∷ []
unfolding find_risky_fields u text_eq member
find_risky_fields_example = refl
