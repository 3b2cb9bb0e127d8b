-- ===== src/Tools/NotificationDelete/Laws.antt =====
-- What `notification_delete` may delete.
use better_unraid_mcp.Base.{
  ◌≡◌, ◌≢◌, refl, arith, ◌⊎◌, inl, inr, Text, List, [], ◌∷◌, Option, none, some, Option-cases,
}
use better_unraid_mcp.Effects.{Executor, resume-pure}
use better_unraid_mcp.Gate.{ElicitationChannel, require_confirmation_interactive}
use better_unraid_mcp.Gate.Laws.{Confirmed, confirmation_iff}
use better_unraid_mcp.Tools.NotificationDelete.{
  Scope, one, all_archived, TypeInput, DeleteArgs, Operation, delete_archived, delete_one, Reply,
  describe_delete, Target, invalid, every_archived, single, single_target, archived_target,
  target_for, validate_scope, run_delete, delete_with, notification_delete,
}

-- No id was given, or an empty one, which counts as none.
abbrev pub NoId : Option Text → Type 0
NoId id = (id ≡ none) ⊎ (id ≡ some [])

-- What may be sent for the arguments: nothing, the delete of the one named notification, or, for the
-- other scope and without an id and a type, that of the whole archive.
abbrev pub Deletes : DeleteArgs → List Operation → Type 0
Deletes args sent =
    (sent ≡ [])
    ⊎ (((id : Text) × (kind : TypeInput) × (args.scope ≡ one)
          × (args.id ≡ some id)
          × (id ≢ [])
          × (args.kind ≡ some kind)
          × (sent ≡ delete_one id kind ∷ []))
        ⊎ ((args.scope ≡ all_archived)
            × NoId args.id
            × (args.kind ≡ none)
            × (sent ≡ delete_archived ∷ [])))

-- The target is what the arguments name.
abbrev Names : DeleteArgs → Target → Type 0
Names args (invalid message) = Unit
Names args every_archived = (args.scope ≡ all_archived) × NoId args.id × (args.kind ≡ none)
Names args (single id kind) =
    (args.scope ≡ one) × (args.id ≡ some id) × (id ≢ []) × (args.kind ≡ some kind)

single_target_named :
    (args : DeleteArgs) (id : Option Text) (kind : Option TypeInput)
    → args.scope ≡ one
    → args.id ≡ id
    → args.kind ≡ kind
    → Names args (single_target id kind)
unfolding single_target
single_target_named args (some (c ∷ cs)) (some kind) s e k = (s, e, (λ h. ground arith), k)
single_target_named args (some (c ∷ cs)) none s e k = tt
single_target_named args (some []) (some kind) s e k = tt
single_target_named args (some []) none s e k = tt
single_target_named args none kind s e k = tt

archived_target_named :
    (args : DeleteArgs) (id : Option Text) (kind : Option TypeInput)
    → args.scope ≡ all_archived
    → args.id ≡ id
    → args.kind ≡ kind
    → Names args (archived_target id kind)
unfolding archived_target
archived_target_named args none none s e k = (s, inl e, k)
archived_target_named args (some []) none s e k = (s, inr e, k)
archived_target_named args (some (c ∷ cs)) none s e k = tt
archived_target_named args none (some kind) s e k = tt
archived_target_named args (some []) (some kind) s e k = tt
archived_target_named args (some (c ∷ cs)) (some kind) s e k = tt

target_for_named :
    (args : DeleteArgs) (scope : Scope)
    → args.scope ≡ scope
    → Names args (target_for scope args.id args.kind)
unfolding target_for
target_for_named args one s = single_target_named args args.id args.kind s refl refl
target_for_named args all_archived s = archived_target_named args args.id args.kind s refl refl

validate_scope-Names : (args : DeleteArgs) → Names args (validate_scope args)
unfolding validate_scope
validate_scope-Names args = target_for_named args args.scope refl

run_delete-Deletes :
    (client : Executor Operation Reply) (args : DeleteArgs) (target : Target)
    → Names args target
    → Deletes args (run_delete client args target []).1
unfolding run_delete delete_with
run_delete-Deletes client args (invalid message) n = inl refl
run_delete-Deletes client args every_archived (s, e, k) =
    inr (inr (s, e, k, resume-pure (client [] delete_archived) _ _))
run_delete-Deletes client args (single id kind) (s, e, n, k) =
    inr (inl (id, kind, s, e, n, k, resume-pure (client [] (delete_one id kind)) _ _))

-- A call deletes nothing, or it is confirmed and deletes what its arguments name: for the scope `one` the
-- notification of its id, which is not empty, and its type, or the archive, and that only for the scope
-- `all_archived` with no type and no id but the empty one.
pub notification_delete_sends :
    (client : Executor Operation Reply) (channel : Option ElicitationChannel) (args : DeleteArgs)
    → let sent = (notification_delete client channel args []).1 in
      (sent ≡ [])
      ⊎ (Confirmed args.confirm (describe_delete args.scope) channel × Deletes args sent)
unfolding notification_delete
notification_delete_sends client channel args =
    elim (Option-cases
      (require_confirmation_interactive args.confirm (describe_delete args.scope) channel)) [
        | inl e ↦
            rw (e, notification_delete)
              (inr (
                (confirmation_iff args.confirm (describe_delete args.scope) channel).0 e,
                run_delete-Deletes client args (validate_scope args) (validate_scope-Names args),
              ))
        | inr (refusal, e) ↦ inl (rw (e, notification_delete) refl)
      ]
