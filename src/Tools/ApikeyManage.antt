-- ===== src/Tools/ApikeyManage.antt =====
-- tools/apikey/apikey-manage.ts: the handler of the tool `apikey_manage`.
pub mod Laws
use better_unraid_mcp.Base.{
  Text, u, ◌++◌, List, [], ◌∷◌, Bool, true, false, ◌||◌, not, Option, none, some, map, join,
  if◌then◌else◌,
}
use better_unraid_mcp.Effects.{Action, Executor, pure, ◌>>=◌, execute, try_catch, guarded}
use better_unraid_mcp.Respond.{ToolResult, tool_error, tool_text}
use better_unraid_mcp.Gate.{
  ElicitationChannel, RiskGateFlags, require_risk_acknowledgement_interactive,
}

pub data ManageAction : Type 0 where
  create update add_role remove_role delete : ManageAction

pub data Role : Type 0 where
  admin connect guest viewer : Role

pub record ApiKeyManageArgs : Type 0 where
  pub action : ManageAction
  pub name : Option Text
  pub description : Option Text
  pub roles : Option (List Role)
  pub id : Option Text
  pub ids : Option (List Text)
  pub flags : RiskGateFlags

-- The mutations with their inputs.
pub data Operation : Type 0 where
  create_key : Text → Option Text → Option (List Role) → Operation
  update_key : Text → Option Text → Option Text → Option (List Role) → Operation
  add_role_to remove_role_from : Text → Option Role → Operation
  delete_keys : List Text → Operation

pub record CreatedKey : Type 0 where
  pub id : Text
  pub name : Text
  pub key : Text
  pub roles : List Role

pub record UpdatedKey : Type 0 where
  pub id : Text
  pub name : Text
  pub roles : List Role

abbrev pub Reply : Operation → Type 0
Reply (create_key name description roles) = CreatedKey
Reply (update_key id name description roles) = UpdatedKey
Reply _ = Bool

action_text : ManageAction → Text
action_text create = u "create"
action_text update = u "update"
action_text add_role = u "add_role"
action_text remove_role = u "remove_role"
action_text delete = u "delete"

role_text : Role → Text
role_text admin = u "ADMIN"
role_text connect = u "CONNECT"
role_text guest = u "GUEST"
role_text viewer = u "VIEWER"

-- `!text`
pub is_missing : Option Text → Bool
is_missing none = true
is_missing (some []) = true
is_missing (some (c ∷ s)) = false

-- `roles?.length !== 1`
pub not_single : Option (List Role) → Bool
not_single (some (role ∷ [])) = false
not_single _ = true

-- `!ids?.length`
pub no_ids : Option (List Text) → Bool
no_ids none = true
no_ids (some []) = true
no_ids (some (id ∷ ids)) = false

role_message : ManageAction → Text
unfolding action_text
role_message action =
    u "action \"" ++ (action_text action ++ u "\" requires `id` and exactly one role in `roles`.")

pub validate_for : ManageAction → ApiKeyManageArgs → Option Text
unfolding role_message
validate_for create args =
    if is_missing args.name then some (u "action \"create\" requires `name`.") else none
validate_for update args =
    if is_missing args.id then some (u "action \"update\" requires `id`.") else none
validate_for add_role args =
    if is_missing args.id || not_single args.roles then some (role_message add_role) else none
validate_for remove_role args =
    if is_missing args.id || not_single args.roles then some (role_message remove_role) else none
validate_for delete args =
    if no_ids args.ids
    then some (u "action \"delete\" requires `ids` (one or more key ids).")
    else none

pub validate_args : ApiKeyManageArgs → Option Text
validate_args args = validate_for args.action args

lock_out : ManageAction → Text
lock_out delete = u ", and deleting the key this MCP server itself uses would lock it out"
lock_out _ = u ""

pub refusal_message : ApiKeyManageArgs → Text
unfolding action_text lock_out
refusal_message args =
    u "Refusing to "
    ++ (action_text args.action
        ++ (u " API key(s): this manages the credentials that control access to your Unraid server"
            ++ (lock_out args.action
                ++ u
                    ". Re-call with \"confirm\": true and \"acknowledge_risk\": true to proceed. No changes were made.")))

-- `text ?? ""`
pub or_empty : Option Text → Text
or_empty none = []
or_empty (some text) = text

-- `ids ?? []`
pub or_none : Option (List Text) → List Text
or_none none = []
or_none (some ids) = ids

-- `roles?.[0]`
pub first_role : Option (List Role) → Option Role
first_role none = none
first_role (some []) = none
first_role (some (role ∷ roles)) = some role

-- A value in a template: a missing one reads `undefined`.
shown : Option Text → Text
shown none = u "undefined"
shown (some text) = text

shown_role : Option Role → Text
unfolding role_text
shown_role none = u "undefined"
shown_role (some role) = role_text role

shown_ids : Option (List Text) → Text
shown_ids none = u "undefined"
shown_ids (some ids) = join (u ", ") ids

roles_text : List Role → Text
unfolding role_text
roles_text roles = join (u ", ") (map role_text roles)

created_text : CreatedKey → Text
unfolding roles_text
created_text created =
    u "Created API key \""
    ++ (created.name
        ++ (u "\" (id "
            ++ (created.id
                ++ (u ") with roles ["
                    ++ (roles_text created.roles
                        ++ (u "].\nKey value (shown once — store it somewhere safe now): "
                            ++ created.key))))))

updated_text : UpdatedKey → Text
unfolding roles_text
updated_text updated =
    u "Updated API key \""
    ++ (updated.name
        ++ (u "\" (id "
            ++ (updated.id ++ (u "); roles now [" ++ (roles_text updated.roles ++ u "].")))))

-- The outcome of a change of roles, by its words.
role_outcome : Text → Text → ApiKeyManageArgs → Text
unfolding shown shown_role
role_outcome done to args =
    u "Role "
    ++ (shown_role (first_role args.roles)
        ++ (done ++ (to ++ (shown args.id ++ u ". Verify with apikey_list."))))

-- `runCreate`
pub run_create : Executor Operation Reply → ApiKeyManageArgs → Action Operation Text
unfolding created_text
run_create client args = do
  created ← execute client (create_key (or_empty args.name) args.description args.roles)
  pure (created_text created)

-- One case of the switch of `runManageAction`.
pub run_for : Executor Operation Reply → ManageAction → ApiKeyManageArgs → Action Operation Text
unfolding run_create updated_text role_outcome shown_ids
run_for client create args = run_create client args
run_for client update args = do
  updated ← execute client (update_key (or_empty args.id) args.name args.description args.roles)
  pure (updated_text updated)
run_for client add_role args = do
  _ ← execute client (add_role_to (or_empty args.id) (first_role args.roles))
  pure (role_outcome (u " added") (u " to API key ") args)
run_for client remove_role args = do
  _ ← execute client (remove_role_from (or_empty args.id) (first_role args.roles))
  pure (role_outcome (u " removed") (u " from API key ") args)
run_for client delete args = do
  _ ← execute client (delete_keys (or_none args.ids))
  pure (u "Deleted API key(s) " ++ (shown_ids args.ids ++ u ". Verify with apikey_list."))

pub run_manage_action : Executor Operation Reply → ApiKeyManageArgs → Action Operation Text
run_manage_action client args = run_for client args.action args

pub invalid_refusal : Option Text → Option ToolResult
invalid_refusal none = none
invalid_refusal (some invalid) = some (tool_error (invalid ++ u " No changes were made."))

-- `createApiKeyManageHandler(client, channel)(args)`
pub apikey_manage :
    Executor Operation Reply
    → Option ElicitationChannel
    → ApiKeyManageArgs
    → Action Operation ToolResult
unfolding invalid_refusal run_manage_action
apikey_manage client channel args = guarded (invalid_refusal (validate_args args)) (
    guarded (require_risk_acknowledgement_interactive args.flags (refusal_message args) channel) (
      try_catch (do text ← run_manage_action client args; pure (tool_text text))
        (λ message.
          tool_error
            (u "Failed to " ++ (action_text args.action ++ (u " API key(s): " ++ message))))))
