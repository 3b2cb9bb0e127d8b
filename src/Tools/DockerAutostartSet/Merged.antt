-- ===== src/Tools/DockerAutostartSet/Merged.antt =====
-- The entries of the containers, merged with the changes.
use better_unraid_mcp.Base.{
  ℕ, ◌≡◌, refl, sym, ap, ◌∙◌, inl, inr, ◌⊎◌, Text, List, [], ◌∷◌, ◌++◌, true, false, Option, none,
  some, text_eq, text_eq_iff, text_eq_sym, All, Option-cases, Bool-cases, arith,
}
use better_unraid_mcp.Tools.DockerAutostartSet.{
  Change, Container, MergedEntry, change_ids, first_of, merge_entry, change_by_id, merge_all,
}

-- The wait that a change asks for, or the container's own.
abbrev pub requested_wait : Option ℕ → Option ℕ → Option ℕ
requested_wait none kept = kept
requested_wait (some n) kept = some n

-- A container whose state and wait a change sets, in its old position.
abbrev pub changed : Container → Change → MergedEntry
changed c change = record {
  id = c.id;
  auto_start = change.auto_start;
  wait = requested_wait change.wait c.auto_start_wait;
  order = c.auto_start_order;
}

-- A container as it is.
abbrev pub unchanged : Container → MergedEntry
unchanged c = record {
  id = c.id;
  auto_start = c.auto_start;
  wait = c.auto_start_wait;
  order = c.auto_start_order;
}

-- The entry of a container: one of the changes that name it applied, or, if none does, nothing.
abbrev pub IsMerged : List Change → Container → MergedEntry → Type 0
IsMerged changes c e =
    ((change : Change) × (before : List Change) × (later : List Change) × (changes
        ≡ before ++ (change ∷ later))
      × (change.id ≡ c.id)
      × (e ≡ changed c change))
    ⊎ (All (λ other. text_eq c.id other ≡ false) (change_ids changes) × (e ≡ unchanged c))

-- One entry for each container, in the order of the containers.
abbrev pub AllMerged : List Change → List Container → List MergedEntry → Type 0
AllMerged changes [] [] = Unit
AllMerged changes [] (e ∷ entries) = false ≡ true
AllMerged changes (c ∷ containers) [] = false ≡ true
AllMerged changes (c ∷ containers) (e ∷ entries) =
    IsMerged changes c e × AllMerged changes containers entries

pub merge_entry-changed :
    (c : Container) (change : Change) → merge_entry c (some change) ≡ changed c change
unfolding merge_entry first_of
merge_entry-changed c change = elim (Option-cases change.wait) [
  | inl e ↦ rw e refl
  | inr (n, e) ↦ rw e refl
]

pub merge_entry-unchanged : (c : Container) → merge_entry c none ≡ unchanged c
unfolding merge_entry
merge_entry-unchanged c = refl

first_of-none : {A : Type 0} (a b : Option A) → first_of a b ≡ none → (a ≡ none) × (b ≡ none)
unfolding first_of
first_of-none none b h = (refl, h)
first_of-none (some a) b h = absurd (ground arith)

-- The change that is found for an id is one of the changes, and names it.
change_by_id-some :
    (changes : List Change) (id : Text) (change : Change)
    → change_by_id changes id ≡ some change
    → (before : List Change) × (later : List Change) × (changes ≡ before ++ (change ∷ later))
      × (change.id ≡ id)
unfolding change_by_id first_of
change_by_id-some [] id change h = absurd (ground arith)
change_by_id-some (other ∷ changes) id change h = elim (Option-cases (change_by_id changes id)) [
  | inr (found, e) ↦
      let same : some found ≡ some change = rw (e, change_by_id) at h in
      let (before, later, split, named) = change_by_id-some changes id change (e ∙ same) in
      (other ∷ before, later, ap (λ rest. other ∷ rest) split, named)
  | inl e ↦ elim (Bool-cases (text_eq other.id id)) [
    | inl same ↦
        let one : some other ≡ some change = rw same at (rw (e, change_by_id) at h) in
        let here : other ≡ change = cc in
        (
          [],
          changes,
          ap (λ first. first ∷ changes) here,
          ap (λ x. x.id) (sym here) ∙ (text_eq_iff other.id id).0 same,
        )
    | inr apart ↦ absurd (ground arith)
  ]
]

-- For an id without a change, none names it.
change_by_id-none :
    (changes : List Change) (id : Text)
    → change_by_id changes id ≡ none
    → All (λ other. text_eq id other ≡ false) (change_ids changes)
unfolding change_by_id first_of
change_by_id-none [] id h = tt
change_by_id-none (other ∷ changes) id h =
    let (rest, here) = first_of-none (change_by_id changes id) _ h in
    (
      elim (Bool-cases (text_eq other.id id)) [
        | inl e ↦ absurd (ground arith)
        | inr e ↦ text_eq_sym other.id id e
      ],
      change_by_id-none changes id rest,
    )

merge_entry-IsMerged :
    (changes : List Change) (c : Container) (found : Option Change)
    → change_by_id changes c.id ≡ found
    → IsMerged changes c (merge_entry c found)
merge_entry-IsMerged changes c none e =
    inr (change_by_id-none changes c.id e, merge_entry-unchanged c)
merge_entry-IsMerged changes c (some change) e =
    let (before, later, split, same) = change_by_id-some changes c.id change e in
    inl (change, before, later, split, same, merge_entry-changed c change)

pub merge_all-AllMerged :
    (containers : List Container) (changes : List Change)
    → AllMerged changes containers (merge_all containers changes)
unfolding merge_all
merge_all-AllMerged [] changes = tt
merge_all-AllMerged (c ∷ containers) changes =
    (merge_entry-IsMerged changes c _ refl, merge_all-AllMerged containers changes)
