-- ===== src/Tools/DockerAutostartSet/Order.antt =====
-- The order and the completeness of the entries that `docker_autostart_set` writes.
use mathlib.Core.List.{Perm}
use mathlib.Core.List.Perm
use better_unraid_mcp.Base.{
  ℕ, ◌≤◌, ◌⊎◌, ◌≡◌, refl, inl, inr, List, [], ◌∷◌, map, true, false, Option, none, some, Bool-cases,
  arith,
}
use better_unraid_mcp.Tools.DockerAutostartSet.{
  Change, Container, MergedEntry, EntryInput, order_le, insert_by_order, sort_by_order, merge_all,
  entry_input, build_entries,
}
use better_unraid_mcp.Tools.DockerAutostartSet.Merged.{AllMerged, merge_all-AllMerged}

-- Neighbours are in order.
abbrev pub IsOrdered : List MergedEntry → Type 0
IsOrdered [] = Unit
IsOrdered (e ∷ []) = Unit
IsOrdered (e ∷ (f ∷ entries)) = (order_le e.order f.order ≡ true) × IsOrdered (f ∷ entries)

order_le_total : (a b : Option ℕ) → order_le a b ≡ false → order_le b a ≡ true
unfolding order_le
order_le_total none none h = ground arith
order_le_total none (some b) h = refl
order_le_total (some a) none h = ground arith
order_le_total (some a) (some b) h = ground arith

insert-IsOrdered :
    (e : MergedEntry) (entries : List MergedEntry)
    → IsOrdered entries
    → IsOrdered (insert_by_order e entries)
unfolding insert_by_order
insert-IsOrdered e [] h = tt
insert-IsOrdered e (f ∷ []) h = elim (Bool-cases (order_le e.order f.order)) [
  | inl l ↦ rw l (l, tt)
  | inr l ↦ rw l (order_le_total e.order f.order l, tt)
]
insert-IsOrdered e (f ∷ (g ∷ entries)) (k, h) = elim (Bool-cases (order_le e.order f.order)) [
  | inl l ↦ rw l (l, (k, h))
  | inr l ↦ elim (Bool-cases (order_le e.order g.order)) [
    | inl m ↦ rw l (rw m (order_le_total e.order f.order l, (m, h)))
    | inr m ↦
        let rest : IsOrdered (insert_by_order e (g ∷ entries)) =
          insert-IsOrdered e (g ∷ entries) h in
        rw l (rw m (k, (rw (m, insert_by_order) at rest)))
  ]
]

insert-Perm :
    (e : MergedEntry) (entries : List MergedEntry) → Perm (insert_by_order e entries) (e ∷ entries)
unfolding insert_by_order
insert-Perm e [] = Perm.refl (e ∷ [])
insert-Perm e (f ∷ entries) = elim (Bool-cases (order_le e.order f.order)) [
  | inl l ↦ rw l (Perm.refl (e ∷ f ∷ entries))
  | inr l ↦ rw l (Perm.trans (Perm.cons f (insert-Perm e entries)) (Perm.swap e f entries))
]

sort-IsOrdered : (entries : List MergedEntry) → IsOrdered (sort_by_order entries)
unfolding sort_by_order
sort-IsOrdered [] = tt
sort-IsOrdered (e ∷ entries) = insert-IsOrdered e (sort_by_order entries) (sort-IsOrdered entries)

sort-Perm : (entries : List MergedEntry) → Perm (sort_by_order entries) entries
unfolding sort_by_order
sort-Perm [] = Perm.refl []
sort-Perm (e ∷ entries) =
    Perm.trans (insert-Perm e (sort_by_order entries)) (Perm.cons e (sort-Perm entries))

-- A position stands before another: the other container has none, or both have one and it is no smaller.
abbrev pub InOrder : Option ℕ → Option ℕ → Type 0
InOrder a b = (b ≡ none) ⊎ ((m : ℕ) × (n : ℕ) × (a ≡ some m) × (b ≡ some n) × (m ≤ n))

-- The order in which the containers are started at boot: those without a position come last.
abbrev pub InBootOrder : List MergedEntry → Type 0
InBootOrder [] = Unit
InBootOrder (e ∷ []) = Unit
InBootOrder (e ∷ (f ∷ entries)) = InOrder e.order f.order × InBootOrder (f ∷ entries)

order_le_sound : (a b : Option ℕ) → order_le a b ≡ true → InOrder a b
unfolding order_le
order_le_sound none none h = inl refl
order_le_sound none (some n) h = absurd (ground arith)
order_le_sound (some m) none h = inl refl
order_le_sound (some m) (some n) h = inr (m, n, refl, refl, ground arith)

ordered-InBootOrder : (entries : List MergedEntry) → IsOrdered entries → InBootOrder entries
ordered-InBootOrder [] h = tt
ordered-InBootOrder (e ∷ []) h = tt
ordered-InBootOrder (e ∷ (f ∷ entries)) (here, h) =
    (order_le_sound e.order f.order here, ordered-InBootOrder (f ∷ entries) h)

-- What is written of an entry.
abbrev pub written : MergedEntry → EntryInput
written e = record { id = e.id; auto_start = e.auto_start; wait = e.wait }

-- The inputs of all containers, with the changes applied, in boot order.
abbrev pub IsComplete : List Container → List Change → List EntryInput → Type 0
IsComplete containers changes inputs =
    (entries : List MergedEntry) × (merged : List MergedEntry) × (inputs ≡ map written entries)
    × InBootOrder entries
    × Perm entries merged
    × AllMerged changes containers merged

-- The entries that are written are those of all containers, one for each, in some order: the state and the
-- wait of a change that names the container, or the container's own, and none is lost, added or repeated.
-- They stand in boot order, those without a position last.
pub build_entries-IsComplete :
    (containers : List Container) (changes : List Change)
    → IsComplete containers changes (build_entries containers changes)
unfolding build_entries entry_input
build_entries-IsComplete containers changes = (
  sort_by_order (merge_all containers changes),
  merge_all containers changes,
  refl,
  ordered-InBootOrder _ (sort-IsOrdered (merge_all containers changes)),
  sort-Perm (merge_all containers changes),
  merge_all-AllMerged containers changes,
)
