-- ===== src/Tools/RawGraphql/Fields.antt =====
-- The visit of a document finds every risky field that its operation runs.
use better_unraid_mcp.Base.{
  ◌≡◌, refl, ◌⊎◌, inl, inr, Text, List, [], ◌∷◌, ◌++◌, Bool, true, false, ◌&&◌, ◌||◌, not, text_eq,
  text_eq_iff, text_eq_refl, member, Bool-cases, arith,
}
use better_unraid_mcp.Tools.RawGraphql.{
  Selections, nothing, field, spread, inline, Definition, operation, fragment, type_system,
  Document, risky_mutation_fields, add_risky, visit_fields, visit_definition, visit_document,
  find_risky_fields,
}

-- A server that runs these selections of the document runs the named field, through fragments too.
pub data Executes (document : Document) (name : Text) : Selections → Type 0 where
  itself : (selected rest : Selections) → Executes document name (field name selected rest)
  below :
      (parent : Text) (selected rest : Selections)
      → Executes document name selected
      → Executes document name (field parent selected rest)
  after_field :
      (before : Text) (selected rest : Selections)
      → Executes document name rest
      → Executes document name (field before selected rest)
  in_fragment :
      (other : Text) (selected rest : Selections) (before later : Document)
      → document ≡ before ++ (fragment other selected ∷ later)
      → Executes document name selected
      → Executes document name (spread other rest)
  after_spread :
      (other : Text) (rest : Selections)
      → Executes document name rest
      → Executes document name (spread other rest)
  in_inline :
      (selected rest : Selections)
      → Executes document name selected
      → Executes document name (inline selected rest)
  after_inline :
      (selected rest : Selections)
      → Executes document name rest
      → Executes document name (inline selected rest)

-- The text of the selections themselves names the field.
selects : Text → Selections → Bool
selects name nothing = false
selects name (field other selected rest) =
    text_eq other name || (selects name selected || selects name rest)
selects name (spread other rest) = selects name rest
selects name (inline selected rest) = selects name selected || selects name rest

abbrev IsRisky : Text → Type 0
IsRisky name = member name risky_mutation_fields ≡ true

member-append_left :
    (name : Text) (xs ys : List Text) → member name xs ≡ true → member name (xs ++ ys) ≡ true
unfolding member
member-append_left name [] ys h = absurd (ground arith)
member-append_left name (x ∷ xs) ys h = elim (Bool-cases (text_eq x name)) [
  | inl e ↦ rw e refl
  | inr e ↦ rw e (member-append_left name xs ys (rw e at h))
]

member-append_last : (name : Text) (xs : List Text) → member name (xs ++ (name ∷ [])) ≡ true
unfolding member
member-append_last name [] = rw (text_eq_refl name) refl
member-append_last name (x ∷ xs) = elim (Bool-cases (text_eq x name)) [
  | inl e ↦ rw e refl
  | inr e ↦ rw e (member-append_last name xs)
]

add_risky-keeps :
    (name other : Text) (found : List Text)
    → member name found ≡ true
    → member name (add_risky other found) ≡ true
unfolding add_risky
add_risky-keeps name other found h =
    elim (Bool-cases (member other risky_mutation_fields && not (member other found))) [
      | inl e ↦ rw (e, add_risky) (member-append_left name found (other ∷ []) h)
      | inr e ↦ rw (e, add_risky) h
    ]

add_risky-finds :
    (name : Text) (found : List Text) → IsRisky name → member name (add_risky name found) ≡ true
unfolding add_risky
add_risky-finds name found r = elim (Bool-cases (member name found)) [
  | inl e ↦ add_risky-keeps name name found e
  | inr e ↦ rw (r, e, add_risky) (member-append_last name found)
]

visit_fields-keeps :
    (name : Text) (selections : Selections) (found : List Text)
    → member name found ≡ true
    → member name (visit_fields selections found) ≡ true
unfolding visit_fields
visit_fields-keeps name nothing found h = h
visit_fields-keeps name (field other selected rest) found h =
    visit_fields-keeps name rest _
      (visit_fields-keeps name selected _ (add_risky-keeps name other found h))
visit_fields-keeps name (spread other rest) found h = visit_fields-keeps name rest found h
visit_fields-keeps name (inline selected rest) found h =
    visit_fields-keeps name rest _ (visit_fields-keeps name selected found h)

or_cases : (a b : Bool) → (a || b) ≡ true → (a ≡ true) ⊎ (b ≡ true)
or_cases true b h = inl refl
or_cases false b h = inr h

visit_fields-finds :
    (name : Text) (selections : Selections) (found : List Text)
    → IsRisky name
    → selects name selections ≡ true
    → member name (visit_fields selections found) ≡ true
unfolding visit_fields selects
visit_fields-finds name nothing found r h = absurd (ground arith)
visit_fields-finds name (field other selected rest) found r h =
    elim (or_cases (text_eq other name) (selects name selected || selects name rest) h) [
      | inl e ↦ visit_fields-keeps name rest _ (
          visit_fields-keeps name selected _
            (rw ((text_eq_iff other name).0 e) (add_risky-finds name found r)))
      | inr e ↦ elim (or_cases (selects name selected) (selects name rest) e) [
        | inl s ↦ visit_fields-keeps name rest _ (visit_fields-finds name selected _ r s)
        | inr s ↦ visit_fields-finds name rest _ r s
      ]
    ]
visit_fields-finds name (spread other rest) found r h = visit_fields-finds name rest found r h
visit_fields-finds name (inline selected rest) found r h =
    elim (or_cases (selects name selected) (selects name rest) h) [
      | inl s ↦ visit_fields-keeps name rest _ (visit_fields-finds name selected _ r s)
      | inr s ↦ visit_fields-finds name rest _ r s
    ]

visit_definition-keeps :
    (name : Text) (definition : Definition) (found : List Text)
    → member name found ≡ true
    → member name (visit_definition definition found) ≡ true
unfolding visit_definition
visit_definition-keeps name (operation kind selections) found h =
    visit_fields-keeps name selections found h
visit_definition-keeps name (fragment other selections) found h =
    visit_fields-keeps name selections found h
visit_definition-keeps name type_system found h = h

visit_document-keeps :
    (name : Text) (document : Document) (found : List Text)
    → member name found ≡ true
    → member name (visit_document document found) ≡ true
unfolding visit_document
visit_document-keeps name [] found h = h
visit_document-keeps name (definition ∷ document) found h =
    visit_document-keeps name document _ (visit_definition-keeps name definition found h)

-- What a definition contributes to the visit, whatever stands around it.
visit_document-finds :
    (name : Text) (definition : Definition) (before later : Document) (found : List Text)
    → ((seen : List Text) → member name (visit_definition definition seen) ≡ true)
    → member name (visit_document (before ++ (definition ∷ later)) found) ≡ true
unfolding visit_document
visit_document-finds name definition [] later found h = visit_document-keeps name later _ (h found)
visit_document-finds name definition (other ∷ before) later found h =
    visit_document-finds name definition before later _ h

-- Every risky field that the selections name is found in the document.
pub IsCovered : Document → Selections → Type 0
IsCovered document selections =
    (name : Text)
    → IsRisky name
    → selects name selections ≡ true
    → member name (find_risky_fields document) ≡ true

pub definition-IsCovered :
    (document : Document) (definition : Definition) (selections : Selections)
    (before later : Document)
    → document ≡ before ++ (definition ∷ later)
    → ((seen : List Text) → visit_definition definition seen ≡ visit_fields selections seen)
    → IsCovered document selections
unfolding find_risky_fields IsCovered
definition-IsCovered document definition selections before later e v name r s = rw e (
    visit_document-finds name definition before later []
      (λ seen. rw (v seen) (visit_fields-finds name selections seen r s)))

pub Executes-found :
    (document : Document) (name : Text) (selections : Selections)
    → IsRisky name
    → IsCovered document selections
    → Executes document name selections
    → member name (find_risky_fields document) ≡ true
unfolding IsCovered selects visit_definition
Executes-found document name _ r c (itself selected rest) = c name r (rw (text_eq_refl name) refl)
Executes-found document name _ r c (below parent selected rest h) =
    Executes-found document name selected r (λ m k s. c m k (ground arith)) h
Executes-found document name _ r c (after_field before selected rest h) =
    Executes-found document name rest r (λ m k s. c m k (ground arith)) h
Executes-found document name _ r c (in_fragment other selected rest before later e h) =
    Executes-found document name selected r
      (definition-IsCovered document (fragment other selected) selected before later e
        (λ seen. refl))
      h
Executes-found document name _ r c (after_spread other rest h) =
    Executes-found document name rest r (λ m k s. c m k s) h
Executes-found document name _ r c (in_inline selected rest h) =
    Executes-found document name selected r (λ m k s. c m k (ground arith)) h
Executes-found document name _ r c (after_inline selected rest h) =
    Executes-found document name rest r (λ m k s. c m k (ground arith)) h
