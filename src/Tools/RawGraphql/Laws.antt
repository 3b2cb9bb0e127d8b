-- ===== src/Tools/RawGraphql/Laws.antt =====
-- What `graphql_mutation` sends, and behind which gates.
use better_unraid_mcp.Base.{
  ◌≡◌, refl, ◌⊎◌, inl, inr, Text, List, [], ◌∷◌, ◌++◌, Bool, true, false, Option, none, member,
  is_true, arith,
}
use better_unraid_mcp.Effects.{
  Attempt, returned, thrown, Executor, resume, resume-pure, guarded_cases,
}
use better_unraid_mcp.Respond.{ToolResult}
use better_unraid_mcp.Gate.{ElicitationChannel}
use better_unraid_mcp.Gate.Laws.{RiskAccepted, Confirmed, risk_iff, confirmation_gated}
use better_unraid_mcp.Tools.RawGraphql.{
  OperationType, query, mutation, subscription, Selections, operation, Document, ParsedOperation,
  single_operation, only_operation, operations_of, count_error, risky_mutation_fields,
  visit_definition, find_risky_fields, Request, Reply, GraphqlMutationInput, mutation_only,
  problem_refusal, dry_run_answer, risky_refusal_message, risk_refusal_for, action_description,
  run_parsed, graphql_mutation, send,
}
use better_unraid_mcp.Tools.RawGraphql.Fields.{Executes, definition-IsCovered, Executes-found}

only_operation-document :
    (document : Document) (kinds : List OperationType) (result : ParsedOperation)
    → only_operation document kinds ≡ returned result
    → result.document ≡ document
unfolding only_operation count_error
only_operation-document document [] result h = absurd (ground arith)
only_operation-document document (kind ∷ []) result h = ground arith
only_operation-document document (kind ∷ second ∷ kinds) result h = absurd (ground arith)

-- The gate for risky fields was passed, or there are none.
abbrev pub RiskPassed : GraphqlMutationInput → Option ElicitationChannel → List Text → Type 0
RiskPassed input channel fields =
    (fields ≡ []) ⊎ RiskAccepted input.flags (risky_refusal_message fields) channel

risk_passed :
    (input : GraphqlMutationInput) (channel : Option ElicitationChannel) (fields : List Text)
    → risk_refusal_for fields input.flags channel ≡ none
    → RiskPassed input channel fields
unfolding risk_refusal_for
risk_passed input channel [] h = inl refl
risk_passed input channel (name ∷ fields) h =
    inr ((risk_iff input.flags (risky_refusal_message (name ∷ fields)) channel).0 h)

mutation_only-none : (kind : OperationType) → mutation_only kind ≡ none → kind ≡ mutation
unfolding mutation_only
mutation_only-none query h = absurd (ground arith)
mutation_only-none mutation h = refl
mutation_only-none subscription h = absurd (ground arith)

problem_refusal-none : (problems : List Text) → problem_refusal problems ≡ none → problems ≡ []
unfolding problem_refusal
problem_refusal-none [] h = refl
problem_refusal-none (problem ∷ problems) h = absurd (ground arith)

dry_run_answer-none :
    (dry_run : Option Bool) → dry_run_answer dry_run ≡ none → is_true dry_run ≡ false
unfolding dry_run_answer
dry_run_answer-none dry_run h = ground arith

-- A mutation that passed every check and gate was sent, alone.
abbrev pub Sends :
    (Document → List Text)
    → Option ElicitationChannel
    → GraphqlMutationInput
    → ParsedOperation
    → List Request
    → Type 0
Sends validate channel input parsed sent =
    (parsed.kind ≡ mutation)
    × (validate parsed.document ≡ [])
    × (is_true input.dry_run ≡ false)
    × RiskPassed input channel (find_risky_fields parsed.document)
    × Confirmed input.flags.confirm action_description channel
    × (sent ≡ record { document = parsed.document; variables = input.variables } ∷ [])

run_parsed-Sends :
    (validate : Document → List Text) (client : Executor Request Reply)
    (channel : Option ElicitationChannel) (input : GraphqlMutationInput) (parsed : ParsedOperation)
    → let sent = (run_parsed validate client channel input parsed []).1 in
      (sent ≡ []) ⊎ Sends validate channel input parsed sent
unfolding run_parsed send
run_parsed-Sends validate client channel input parsed =
    guarded_cases Q (mutation_only parsed.kind) _ [] (λ r e. inl refl)
      (λ k.
        guarded_cases Q (problem_refusal (validate parsed.document)) _ [] (λ r e. inl refl)
          (λ v.
            guarded_cases Q (dry_run_answer input.dry_run) _ [] (λ r e. inl refl)
              (λ d.
                guarded_cases Q
                  (risk_refusal_for (find_risky_fields parsed.document) input.flags channel) _ []
                  (λ r e. inl refl)
                  (λ g.
                    confirmation_gated Q input.flags.confirm action_description channel _ []
                      (λ r e. inl refl)
                      (λ c. inr (
                        mutation_only-none parsed.kind k,
                        problem_refusal-none (validate parsed.document) v,
                        dry_run_answer-none input.dry_run d,
                        risk_passed input channel (find_risky_fields parsed.document) g,
                        c,
                        resume-pure (client [] _) _ _,
                      ))))))
  where
    Q : Attempt ToolResult × List Request → Type 0
    Q p = (p.1 ≡ []) ⊎ Sends validate channel input parsed p.1

parsed-Sends :
    (validate : Document → List Text) (client : Executor Request Reply)
    (channel : Option ElicitationChannel) (input : GraphqlMutationInput)
    (a : Attempt ParsedOperation)
    → let sent = (resume a [] (run_parsed validate client channel input)).1 in
      (sent ≡ [])
      ⊎ ((parsed : ParsedOperation) × (a ≡ returned parsed)
          × Sends validate channel input parsed sent)
parsed-Sends validate client channel input (thrown message) = inl refl
parsed-Sends validate client channel input (returned parsed) =
    elim (run_parsed-Sends validate client channel input parsed) [
      | inl e ↦ inl e
      | inr s ↦ inr (parsed, refl, s)
    ]

-- A call sends nothing, or its text parses to a document with exactly one operation, a mutation, that the
-- schema accepts; it is no dry run; the gate for risky fields is passed if the document names one; the call
-- is confirmed; and it sends that document, once.
pub graphql_mutation_lem :
    (parse : Text → Attempt Document) (validate : Document → List Text)
    (client : Executor Request Reply) (channel : Option ElicitationChannel)
    (input : GraphqlMutationInput)
    → let sent = (graphql_mutation parse validate client channel input []).1 in
      (sent ≡ [])
      ⊎ ((parsed : ParsedOperation) × (single_operation (parse input.mutation_text)
            ≡ returned parsed)
          × Sends validate channel input parsed sent)
unfolding graphql_mutation
graphql_mutation_lem parse validate client channel input =
    parsed-Sends validate client channel input (single_operation (parse input.mutation_text))

some_risky :
    (input : GraphqlMutationInput) (channel : Option ElicitationChannel) (name : Text)
    (fields : List Text)
    → member name fields ≡ true
    → RiskPassed input channel fields
    → RiskAccepted input.flags (risky_refusal_message fields) channel
unfolding member
some_risky input channel name fields h (inl e) =
    absurd (let no : member name [] ≡ true = rw e at h in ground arith)
some_risky input channel name fields h (inr accepted) = accepted

-- If the operation of the parsed document runs one of the four risky fields, at any depth and through any
-- fragments, then a call sends nothing, or its schema check found no problem, the gate for risky fields was
-- passed, and it sends the document, once.
pub risky_mutation_gated :
    (parse : Text → Attempt Document) (validate : Document → List Text)
    (client : Executor Request Reply) (channel : Option ElicitationChannel)
    (input : GraphqlMutationInput) (name : Text) (document : Document) (kind : OperationType)
    (selections : Selections) (before later : Document)
    → parse input.mutation_text ≡ returned document
    → document ≡ before ++ (operation kind selections ∷ later)
    → Executes document name selections
    → member name risky_mutation_fields ≡ true
    → let sent = (graphql_mutation parse validate client channel input []).1 in
      (sent ≡ [])
      ⊎ ((validate document ≡ [])
          × RiskAccepted input.flags (risky_refusal_message (find_risky_fields document)) channel
          × (sent ≡ record { document = document; variables = input.variables } ∷ []))
unfolding single_operation visit_definition
risky_mutation_gated parse validate client channel input name document kind selections before later
      p split runs risky =
    elim (graphql_mutation_lem parse validate client channel input) [
      | inl e ↦ inl e
      | inr (parsed, q, (k, v, d, g, c, s)) ↦
          let same : parsed.document ≡ document =
            only_operation-document document (operations_of document) parsed
              (rw (p, single_operation) at q) in
          let found : member name (find_risky_fields document) ≡ true =
            Executes-found document name selections risky
              (definition-IsCovered document (operation kind selections) selections before later
                split (λ seen. refl))
              runs in
          inr (
            rw same at v,
            some_risky input channel name (find_risky_fields document) found (rw same at g),
            rw same at s,
          )
    ]
