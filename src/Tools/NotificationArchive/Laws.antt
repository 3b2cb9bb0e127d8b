-- ===== src/Tools/NotificationArchive/Laws.antt =====
-- What `notification_archive` may move.
use better_unraid_mcp.Base.{
  ◌≡◌, refl, ◌⊎◌, inl, inr, Text, List, [], ◌∷◌, Bool, true, false, Option, none, some, is_true,
  Option-cases, arith, ap, subst, sym,
}
use better_unraid_mcp.Respond.{ResponseFormat}
use better_unraid_mcp.Effects.{Executor, resume-pure}
use better_unraid_mcp.Tools.NotificationArchive.{
  Direction, ImportanceInput, ArchiveArgs, Operation, Reply, has_ids, is_given, same,
  validate_target, run_ids, run_all, target_operation, run_archive, notification_archive,
}

-- The call names some ids and neither all nor an importance, or it names all and no ids.
abbrev pub Moves : ArchiveArgs → List Operation → Type 0
Moves args sent =
    ((id : Text) × (ids : List Text) × (args.ids ≡ some (id ∷ ids))
      × (is_true args.all ≡ false)
      × (args.importance ≡ none)
      × (sent ≡ run_ids args.direction (id ∷ ids) ∷ []))
    ⊎ ((args.ids ≡ none)
        × (is_true args.all ≡ true)
        × (sent ≡ run_all args.direction args.importance ∷ []))

abbrev IsValid : ArchiveArgs → Type 0
IsValid args =
    ((id : Text) × (ids : List Text) × (args.ids ≡ some (id ∷ ids))
      × (is_true args.all ≡ false)
      × (args.importance ≡ none))
    ⊎ ((args.ids ≡ none) × (is_true args.all ≡ true))

IsValid-for :
    (format : ResponseFormat) (direction : Direction) (ids : Option (List Text))
    (every : Option Bool) (importance : Option ImportanceInput)
    → let args : ArchiveArgs = record {
      response_format = format;
      direction = direction;
      ids = ids;
      all = every;
      importance = importance;
    } in
      (ids ≡ some [] → ⊥) → validate_target args ≡ none → IsValid args
unfolding validate_target has_ids is_given same
IsValid-for format direction none (some true) importance n h = inr (refl, refl)
IsValid-for format direction none (some false) importance n h = ground arith
IsValid-for format direction none none importance n h = ground arith
IsValid-for format direction (some []) every importance n h = absurd (n refl)
IsValid-for format direction (some (id ∷ ids)) (some true) importance n h = ground arith
IsValid-for format direction (some (id ∷ ids)) (some false) none n h =
    inl (id, ids, refl, refl, refl)
IsValid-for format direction (some (id ∷ ids)) (some false) (some i) n h = ground arith
IsValid-for format direction (some (id ∷ ids)) none none n h = inl (id, ids, refl, refl, refl)
IsValid-for format direction (some (id ∷ ids)) none (some i) n h = ground arith

valid-Moves :
    (client : Executor Operation Reply) (args : ArchiveArgs)
    → IsValid args
    → Moves args (target_operation args ∷ [])
unfolding target_operation
valid-Moves client args (inl (id, ids, e, a, i)) =
    inl (id, ids, e, a, i, ap (λ op. op ∷ []) (rw (e, target_operation) refl))
valid-Moves client args (inr (e, a)) =
    inr (e, a, ap (λ op. op ∷ []) (rw (e, target_operation) refl))

-- For arguments that the input schema lets through (no empty list of ids), a call sends nothing, or it
-- sends the one mutation of its direction: for the ids, if it names ids and neither `all` nor an
-- importance, or for all notifications of the importance, if it names `all` and no ids.
pub notification_archive_sends :
    (client : Executor Operation Reply) (args : ArchiveArgs)
    → (args.ids ≡ some [] → ⊥)
    → let sent = (notification_archive client args []).1 in (sent ≡ []) ⊎ Moves args sent
unfolding notification_archive run_archive
notification_archive_sends client args n = elim (Option-cases (validate_target args)) [
  | inl e ↦
      rw (e, run_archive)
        (inr (
          subst (Moves args) (sym (resume-pure (client [] (target_operation args)) _ _)) (
            valid-Moves client args (
              IsValid-for args.response_format args.direction args.ids args.all args.importance n
                e))))
  | inr (message, e) ↦ inl (rw (e, run_archive) refl)
]
