-- ===== src/Tools/ApikeyManage/Laws.antt =====
-- What `apikey_manage` changes.
use better_unraid_mcp.Base.{
  ◌≡◌, refl, ◌⊎◌, inl, inr, Text, List, [], ◌∷◌, true, false, ◌||◌, Option, none, some, arith,
}
use better_unraid_mcp.Effects.{
  Attempt, returned, thrown, Action, Executor, pure, ◌>>=◌, resume, try_catch, guarded_cases,
}
use better_unraid_mcp.Respond.{ToolResult, tool_error, tool_text, is_error}
use better_unraid_mcp.Gate.{ElicitationChannel}
use better_unraid_mcp.Gate.Laws.{RiskAccepted, risk_gated}
use better_unraid_mcp.Tools.Ssh.{is_success}
use better_unraid_mcp.Tools.ApikeyManage.{
  ManageAction, create, update, add_role, remove_role, delete, Role, ApiKeyManageArgs, Operation,
  create_key, update_key, add_role_to, remove_role_from, delete_keys, Reply, is_missing, not_single,
  no_ids, validate_for, validate_args, refusal_message, or_empty, or_none, first_role, run_create,
  run_for, run_manage_action, invalid_refusal, apikey_manage,
}

-- A text that was given and is not empty.
abbrev pub Given : Option Text → Text → Type 0
Given o text = (o ≡ some text) × (is_missing (some text) ≡ false)

-- The mutation that an action's arguments name, with all that it needs.
abbrev pub Asked : ManageAction → ApiKeyManageArgs → Operation → Type 0
Asked create args op =
    (name : Text) × Given args.name name × (op ≡ create_key name args.description args.roles)
Asked update args op =
    (id : Text) × Given args.id id × (op ≡ update_key id args.name args.description args.roles)
Asked add_role args op =
    (id : Text) × (role : Role) × Given args.id id
    × (args.roles ≡ some (role ∷ []))
    × (op ≡ add_role_to id (some role))
Asked remove_role args op =
    (id : Text) × (role : Role) × Given args.id id
    × (args.roles ≡ some (role ∷ []))
    × (op ≡ remove_role_from id (some role))
Asked delete args op =
    (id : Text) × (ids : List Text) × (args.ids ≡ some (id ∷ ids)) × (op ≡ delete_keys (id ∷ ids))

given : (o : Option Text) → is_missing o ≡ false → Given o (or_empty o)
unfolding is_missing or_empty
given none h = absurd (ground arith)
given (some []) h = absurd (ground arith)
given (some (c ∷ s)) h = (refl, refl)

single_role :
    (o : Option (List Role))
    → not_single o ≡ false
    → (role : Role) × (o ≡ some (role ∷ [])) × (first_role o ≡ some role)
unfolding not_single first_role
single_role none h = absurd (ground arith)
single_role (some []) h = absurd (ground arith)
single_role (some (role ∷ [])) h = (role, refl, refl)
single_role (some (role ∷ second ∷ roles)) h = absurd (ground arith)

some_ids :
    (o : Option (List Text))
    → no_ids o ≡ false
    → (id : Text) × (ids : List Text) × (o ≡ some (id ∷ ids)) × (or_none o ≡ id ∷ ids)
unfolding no_ids or_none
some_ids none h = absurd (ground arith)
some_ids (some []) h = absurd (ground arith)
some_ids (some (id ∷ ids)) h = (id, ids, refl, refl)

-- The mutation of one case of the switch.
operation_for : ManageAction → ApiKeyManageArgs → Operation
operation_for create args = create_key (or_empty args.name) args.description args.roles
operation_for update args = update_key (or_empty args.id) args.name args.description args.roles
operation_for add_role args = add_role_to (or_empty args.id) (first_role args.roles)
operation_for remove_role args = remove_role_from (or_empty args.id) (first_role args.roles)
operation_for delete args = delete_keys (or_none args.ids)

role-Given :
    (action : ManageAction) (args : ApiKeyManageArgs)
    → (is_missing args.id || not_single args.roles) ≡ false
    → (role : Role) × Given args.id (or_empty args.id)
      × (args.roles ≡ some (role ∷ []))
      × (first_role args.roles ≡ some role)
role-Given action args h =
    let (role, one, first) = single_role args.roles (ground arith) in
    (role, given args.id (ground arith), one, first)

valid-Asked :
    (action : ManageAction) (args : ApiKeyManageArgs)
    → validate_for action args ≡ none
    → Asked action args (operation_for action args)
unfolding validate_for operation_for
valid-Asked create args h = (or_empty args.name, given args.name (ground arith), refl)
valid-Asked update args h = (or_empty args.id, given args.id (ground arith), refl)
valid-Asked add_role args h =
    let (role, id, one, first) = role-Given add_role args (ground arith) in
    (or_empty args.id, role, id, one, rw first refl)
valid-Asked remove_role args h =
    let (role, id, one, first) = role-Given remove_role args (ground arith) in
    (or_empty args.id, role, id, one, rw first refl)
valid-Asked delete args h =
    let (id, ids, e, o) = some_ids args.ids (ground arith) in (id, ids, e, rw o refl)

-- The mutation was sent, alone, and a success means that it returned.
abbrev pub Settles :
    Executor Operation Reply → Operation → Attempt ToolResult × List Operation → Type 0
Settles client op p =
    (p.1 ≡ op ∷ [])
    × ((is_success p.0 ≡ false) ⊎ ((reply : Reply op) × (client [] op ≡ returned reply)))

-- The rest of the handler after the reply to its one mutation.
finish : {A : Type 0} → (A → Text) → (Text → Text) → Attempt A → Action Operation ToolResult
finish render message a =
    try_catch
      (λ sent.
        (let (r, later) = resume a sent (λ reply. pure (render reply)) in
          resume r later (λ text. pure (tool_text text))))
      (λ error. tool_error (message error))

finish_lem :
    {A : Type 0} (render : A → Text) (message : Text → Text) (a : Attempt A) (sent : List Operation)
    → let p = finish render message a sent in
      (p.1 ≡ sent) × ((is_success p.0 ≡ false) ⊎ ((reply : A) × (a ≡ returned reply)))
unfolding finish
finish_lem render message (returned reply) sent = (refl, inr (reply, refl))
finish_lem render message (thrown error) sent = (refl, inl refl)

run_for-Settles :
    (client : Executor Operation Reply) (action : ManageAction) (args : ApiKeyManageArgs)
    (message : Text → Text)
    → Settles client (operation_for action args) (
        try_catch
          (do text ← run_for client action args; pure (tool_text text))
          (λ error. tool_error (message error))
          [])
unfolding run_for operation_for finish run_create
run_for-Settles client create args message =
    finish_lem _ message (client [] (operation_for create args)) (operation_for create args ∷ [])
run_for-Settles client update args message =
    finish_lem _ message (client [] (operation_for update args)) (operation_for update args ∷ [])
run_for-Settles client add_role args message =
    finish_lem _ message (client [] (operation_for add_role args))
      (operation_for add_role args ∷ [])
run_for-Settles client remove_role args message =
    finish_lem _ message (client [] (operation_for remove_role args))
      (operation_for remove_role args ∷ [])
run_for-Settles client delete args message =
    finish_lem _ message (client [] (operation_for delete args)) (operation_for delete args ∷ [])

invalid_refusal_cases :
    (o : Option Text) (r : ToolResult)
    → invalid_refusal o ≡ some r
    → is_success (returned r) ≡ false
unfolding invalid_refusal
invalid_refusal_cases none r h = absurd (ground arith)
invalid_refusal_cases (some invalid) (tool_text text) h = absurd (ground arith)
invalid_refusal_cases (some invalid) (tool_error message) h = refl

invalid_refusal-none : (o : Option Text) → invalid_refusal o ≡ none → o ≡ none
unfolding invalid_refusal
invalid_refusal-none none h = refl
invalid_refusal-none (some invalid) h = absurd (ground arith)

error-fails : (r : ToolResult) → is_error r ≡ true → is_success (returned r) ≡ false
error-fails (tool_text text) h = absurd (ground arith)
error-fails (tool_error message) h = refl

-- A call sends nothing and fails, or both flags or a human authorise it, its arguments have all that their
-- action needs, and it sends the one mutation that they name; a success means that the mutation returned.
pub apikey_manage_lem :
    (client : Executor Operation Reply) (channel : Option ElicitationChannel)
    (args : ApiKeyManageArgs)
    → let p = apikey_manage client channel args [] in
      ((p.1 ≡ []) × (is_success p.0 ≡ false))
      ⊎ (RiskAccepted args.flags (refusal_message args) channel
          × (op : Operation) × Asked args.action args op
          × Settles client op p)
unfolding apikey_manage run_manage_action validate_args
apikey_manage_lem client channel args =
    guarded_cases Q (invalid_refusal (validate_args args)) _ []
      (λ r e. inl (refl, invalid_refusal_cases (validate_args args) r e))
      (λ e.
        risk_gated Q args.flags (refusal_message args) channel _ []
          (λ r g. inl (refl, error-fails r g))
          (λ g. inr (
            g,
            operation_for args.action args,
            valid-Asked args.action args (invalid_refusal-none (validate_args args) e),
            run_for-Settles client args.action args _,
          )))
  where
    Q : Attempt ToolResult × List Operation → Type 0
    Q p =
        ((p.1 ≡ []) × (is_success p.0 ≡ false))
        ⊎ (RiskAccepted args.flags (refusal_message args) channel
            × (op : Operation) × Asked args.action args op
            × Settles client op p)
