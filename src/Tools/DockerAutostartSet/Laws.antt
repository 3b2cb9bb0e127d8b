-- ===== src/Tools/DockerAutostartSet/Laws.antt =====
-- Which changes `docker_autostart_set` accepts, what they do, and what it sends.
use better_unraid_mcp.Base.{
  ◌≡◌, refl, sym, ◌∙◌, ap, subst, ◌⊎◌, inl, inr, ◌↔◌, Text, u, List, [], ◌∷◌, true, false, Option,
  none, some, text_eq, text_eq_refl, text_eq_sym, member, All, All-map, Option-cases, Bool-cases,
  arith, ◌||◌,
}
use better_unraid_mcp.Effects.{Attempt, returned, thrown, Executor, resume-pure}
use better_unraid_mcp.Gate.{ElicitationChannel, require_confirmation_interactive}
use better_unraid_mcp.Gate.Laws.{Confirmed, confirmation_iff}
use better_unraid_mcp.Tools.DockerAutostartSet.{
  Change, Container, EntryInput, AutostartArgs, Operation, read_state, set_autostart, Reply,
  change_ids, container_ids, repeated, once, missing, refuse_ids, refuse_unknown, validate_changes,
  first_of, merge_entry, change_by_id, build_entries, write_entries, read_and_write,
  docker_autostart_set,
}
use better_unraid_mcp.Tools.DockerAutostartSet.Merged.{
  changed, unchanged, merge_entry-changed, merge_entry-unchanged,
}
use better_unraid_mcp.Tools.DockerAutostartSet.Order.{IsComplete, build_entries-IsComplete}

abbrev pub Unique : List Text → Type 0
Unique [] = Unit
Unique (id ∷ ids) = All (λ other. text_eq id other ≡ false) ids × Unique ids

repeated-Unique :
    (seen ids : List Text)
    → repeated seen ids ≡ []
    → Unique ids × All (λ id. member id seen ≡ false) ids
unfolding repeated member text_eq
repeated-Unique seen [] h = (tt, tt)
repeated-Unique seen (id ∷ ids) h = elim (Bool-cases (member id seen)) [
  | inl m ↦ absurd (ground arith)
  | inr m ↦
      let (unique, apart) = repeated-Unique (id ∷ seen) ids (rw (m, repeated) at h) in
      (
        (All-map (λ x a. first_false x a) ids apart, unique),
        (m, All-map (λ x a. rest_false x a) ids apart),
      )
]
  where
    first_false : (x : Text) → (text_eq id x || member x seen) ≡ false → text_eq id x ≡ false
    first_false x a = ground arith

    rest_false : (x : Text) → (text_eq id x || member x seen) ≡ false → member x seen ≡ false
    rest_false x a = ground arith

All-and :
    (P Q : Text → Type 0) (R : Text → Type 0)
    → ((x : Text) → P x → Q x → R x)
    → (xs : List Text) → All P xs
    → All Q xs
    → All R xs
All-and P Q R f [] h k = tt
All-and P Q R f (x ∷ xs) (p, h) (q, k) = (f x p q, All-and P Q R f xs h k)

member-apart :
    (id x : Text) (seen : List Text)
    → text_eq id x ≡ false
    → member x seen ≡ false
    → member x (id ∷ seen) ≡ false
unfolding member
member-apart id x seen e m = ground arith

Unique-not_repeated :
    (seen ids : List Text)
    → Unique ids
    → All (λ id. member id seen ≡ false) ids
    → repeated seen ids ≡ []
unfolding repeated
Unique-not_repeated seen [] h a = refl
Unique-not_repeated seen (id ∷ ids) (f, h) (m, a) =
    rw (m, repeated)
      (Unique-not_repeated (id ∷ seen) ids h
        (All-and _ _ _ (λ x e n. member-apart id x seen e n) ids f a))

not_seen : (ids : List Text) → All (λ id. member id [] ≡ false) ids
unfolding member
not_seen [] = tt
not_seen (id ∷ ids) = (refl, not_seen ids)

missing_none :
    (known ids : List Text) → (missing known ids ≡ []) ↔ All (λ id. member id known ≡ true) ids
unfolding missing
missing_none known [] = ((λ h. tt), λ h. refl)
missing_none known (id ∷ ids) = elim (Bool-cases (member id known)) [
  | inl m ↦ (
    (λ h. (m, (missing_none known ids).0 (rw (m, missing) at h))),
    λ (n, h). rw (m, missing) ((missing_none known ids).1 h),
  )
  | inr m ↦ ((λ h. absurd (ground arith)), λ (n, h). absurd (ground arith))
]

once-nil : (ids : List Text) → once [] ids ≡ [] → ids ≡ []
unfolding once member
once-nil [] h = refl
once-nil (id ∷ ids) h = ground arith

refuse_ids-none :
    (duplicates unknown : List Text)
    → refuse_ids duplicates unknown ≡ none
    → (duplicates ≡ []) × (unknown ≡ [])
unfolding refuse_ids refuse_unknown
refuse_ids-none [] [] h = (refl, refl)
refuse_ids-none [] (x ∷ unknown) h = ground arith
refuse_ids-none (x ∷ duplicates) unknown h = ground arith

-- Changes are accepted exactly if no id stands in them twice and every id is that of a container.
pub validate_changes_iff :
    (changes : List Change) (containers : List Container)
    → (validate_changes changes containers ≡ none) ↔ (
        Unique (change_ids changes)
        × All (λ id. member id (container_ids containers) ≡ true) (change_ids changes))
unfolding validate_changes refuse_ids refuse_unknown once
validate_changes_iff changes containers = (forth, back)
  where
    forth :
        validate_changes changes containers ≡ none
        → Unique (change_ids changes)
          × All (λ id. member id (container_ids containers) ≡ true) (change_ids changes)
    forth h =
        let (d, m) = refuse_ids-none _ _ h in
        ((repeated-Unique [] (change_ids changes) (once-nil _ d)).0, (missing_none _ _).0 m)

    back :
        Unique (change_ids changes)
          × All (λ id. member id (container_ids containers) ≡ true) (change_ids changes)
        → validate_changes changes containers ≡ none
    back (h, k) =
        let d : repeated [] (change_ids changes) ≡ [] =
          Unique-not_repeated [] (change_ids changes) h (not_seen (change_ids changes)) in
        let m : missing (container_ids containers) (change_ids changes) ≡ [] =
          (missing_none _ _).1 k in
        rw d (rw m refl)

absent_id :
    (changes : List Change) (id : Text)
    → All (λ other. text_eq id other ≡ false) (change_ids changes)
    → change_by_id changes id ≡ none
unfolding change_by_id first_of
absent_id [] id h = refl
absent_id (change ∷ changes) id (e, h) =
    rw (text_eq_sym id change.id e) (rw (absent_id changes id h, change_by_id) refl)

-- With unique ids the map holds each change.
change_found :
    (changes : List Change)
    → Unique (change_ids changes)
    → All (λ change. change_by_id changes change.id ≡ some change) changes
unfolding change_by_id first_of
change_found [] h = tt
change_found (change ∷ changes) (f, h) = (
  rw (absent_id changes change.id f) (rw (text_eq_refl change.id) refl),
  All-map (λ other e. rw e refl) changes (change_found changes h),
)

merge-changed :
    (c : Container) (change : Change) (found : Option Change)
    → found ≡ some change
    → merge_entry c found ≡ changed c change
merge-changed c change found e = rw e (merge_entry-changed c change)

-- Accepted changes take effect, and nothing else does: the entry of a container that a change names has the
-- state of that change, its wait if it asks for one and else the container's, and the container's position;
-- a container that no change names keeps its state, its wait and its position.
pub changes_applied :
    (changes : List Change) (containers : List Container) (c : Container)
    → validate_changes changes containers ≡ none
    → let entry = merge_entry c (change_by_id changes c.id) in
      All (λ change. change.id ≡ c.id → entry ≡ changed c change) changes
      × (All (λ other. text_eq c.id other ≡ false) (change_ids changes) → entry ≡ unchanged c)
changes_applied changes containers c valid =
    let unique = ((validate_changes_iff changes containers).0 valid).0 in
    (
      All-map (λ change e same. merge-changed c change _ (ap (change_by_id changes) (sym same) ∙ e))
          changes (change_found changes unique),
      λ absent. rw (absent_id changes c.id absent) (merge_entry-unchanged c),
    )

-- What may be sent: the read of the containers, and after it the write of the complete inputs of these
-- containers with the changes, if the changes are valid for the containers that the API gave.
abbrev pub Sends : Executor Operation Reply → AutostartArgs → List Operation → Type 0
Sends client args sent =
    (sent ≡ read_state ∷ [])
    ⊎ ((containers : List Container) × (client [] read_state ≡ returned containers)
        × (validate_changes args.changes containers ≡ none)
        × (inputs : List EntryInput) × IsComplete containers args.changes inputs
        × (sent ≡ set_autostart inputs args.persist ∷ read_state ∷ []))

write-Sends :
    (client : Executor Operation Reply) (args : AutostartArgs) (containers : List Container)
    → client [] read_state ≡ returned containers
    → Sends client args
        (write_entries client args containers
          (validate_changes args.changes containers)
          (read_state ∷ [])).1
unfolding write_entries
write-Sends client args containers e =
    elim (Option-cases (validate_changes args.changes containers)) [
      | inl v ↦ inr (
        containers,
        e,
        v,
        build_entries containers args.changes,
        build_entries-IsComplete containers args.changes,
        rw (v, write_entries)
            (resume-pure
              (client (read_state ∷ [])
                (set_autostart (build_entries containers args.changes) args.persist))
              _ _),
      )
      | inr (refusal, v) ↦ inl (rw (v, write_entries) refl)
    ]

read-Sends :
    (client : Executor Operation Reply) (args : AutostartArgs) (reply : Attempt (List Container))
    → client [] read_state ≡ reply
    → Sends client args (read_and_write client args []).1
unfolding read_and_write
read-Sends client args (thrown message) e = inl (rw e refl)
read-Sends client args (returned containers) e =
    subst (Sends client args) (rw e refl) (write-Sends client args containers e)

-- Without a confirmation nothing is sent. Otherwise the containers are read, and the only write, for valid
-- changes alone, is that of the complete set: one input for each container that was read, with the state and
-- the wait of the change that names it or else its own, in boot order.
pub docker_autostart_set-Sends :
    (client : Executor Operation Reply) (channel : Option ElicitationChannel) (args : AutostartArgs)
    → let sent = (docker_autostart_set client channel args []).1 in
      (sent ≡ [])
      ⊎ (Confirmed args.confirm (u "change Docker autostart configuration") channel
          × Sends client args sent)
unfolding docker_autostart_set
docker_autostart_set-Sends client channel args =
    elim (Option-cases (
      require_confirmation_interactive args.confirm (u "change Docker autostart configuration")
        channel)) [
          | inl e ↦
              rw (e, docker_autostart_set)
                (inr (
                  (confirmation_iff args.confirm (u "change Docker autostart configuration")
                        channel).0
                      e,
                  read-Sends client args _ refl,
                ))
          | inr (refusal, e) ↦ inl (rw (e, docker_autostart_set) refl)
        ]
