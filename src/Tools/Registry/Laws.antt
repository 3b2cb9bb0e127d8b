-- ===== src/Tools/Registry/Laws.antt =====
-- Which tools a server offers, in read-only mode and else.
use better_unraid_mcp.Base.{
  ◌≡◌, refl, ◌⊎◌, inl, inr, ◌↔◌, Text, u, List, [], ◌∷◌, Bool, true, false, ◌&&◌, ◌||◌, not, Option,
  none, some, text_eq, text_eq_iff, member, Bool-cases, arith, if◌then◌else◌,
}
use better_unraid_mcp.Tools.Registry.{
  ToolRegistration, tool_registrations, register_each, register_all_tools,
}

abbrev tools_of : List ToolRegistration → List Text
tools_of [] = []
tools_of (r ∷ rs) = r.tool ∷ tools_of rs

-- No tool stands in the list twice.
distinct : List ToolRegistration → Bool
unfolding member
distinct [] = true
distinct (r ∷ rs) = not (member r.tool (tools_of rs)) && distinct rs

-- Whether a tool is declared to mutate, by its first entry.
abbrev pub declared : Text → List ToolRegistration → Option Bool
declared tool [] = none
declared tool (r ∷ rs) = if text_eq r.tool tool then some r.is_mutating else declared tool rs

-- A tool that its declaration lets be offered.
abbrev pub IsOffered : Bool → Option Bool → Type 0
IsOffered read_only flag = (flag ≡ some false) ⊎ ((flag ≡ some true) × (read_only ≡ false))

registrations_distinct : distinct tool_registrations ≡ true
unfolding distinct member text_eq u
registrations_distinct = refl

both_false : (a b : Bool) → (a || b) ≡ false → (a ≡ false) × (b ≡ false)
both_false a b h = (ground arith, ground arith)

absent_registered :
    (read_only : Bool) (tool : Text) (rs : List ToolRegistration)
    → member tool (tools_of rs) ≡ false
    → member tool (register_each read_only rs) ≡ false
unfolding register_each member
absent_registered read_only tool [] h = refl
absent_registered read_only tool (r ∷ rs) h =
    let (other, rest) = both_false (text_eq r.tool tool) (member tool (tools_of rs)) h in
    let later = absent_registered read_only tool rs rest in
    elim (Bool-cases (read_only && r.is_mutating)) [
      | inl skip ↦ rw skip later
      | inr kept ↦ rw kept (rw (other, member) later)
    ]

IsOffered-here :
    (read_only flag : Bool) → ((read_only && flag) ≡ false) ↔ IsOffered read_only (some flag)
IsOffered-here true true = ((λ h. ground arith), λ h. ground arith)
IsOffered-here true false = ((λ h. inl refl), λ h. refl)
IsOffered-here false true = ((λ h. inr (refl, refl)), λ h. refl)
IsOffered-here false false = ((λ h. inl refl), λ h. refl)

registered_iff :
    (read_only : Bool) (tool : Text) (rs : List ToolRegistration)
    → distinct rs ≡ true
    → (member tool (register_each read_only rs) ≡ true) ↔ IsOffered read_only (declared tool rs)
unfolding register_each member distinct
registered_iff read_only tool [] d = ((λ h. ground arith), λ h. ground arith)
registered_iff read_only tool (r ∷ rs) d = elim (Bool-cases (text_eq r.tool tool)) [
  | inr other ↦
      let rest = registered_iff read_only tool rs (ground arith) in
      elim (Bool-cases (read_only && r.is_mutating)) [
        | inl skip ↦ rw skip (rw other rest)
        | inr kept ↦ rw kept (rw (other, member) rest)
      ]
  | inl same ↦
      let equal : r.tool ≡ tool = (text_eq_iff r.tool tool).0 same in
      elim (Bool-cases (read_only && r.is_mutating)) [
        | inl skip ↦
            let gone : member tool (register_each read_only rs) ≡ false =
              absent_registered read_only tool rs (rw (← equal) (ground arith)) in
            rw skip (
              rw same (
                (λ h. absurd (ground arith)),
                λ o. absurd (clash skip ((IsOffered-here read_only r.is_mutating).1 o)),
              ))
        | inr kept ↦
            rw kept (
              rw (same, member) ((λ h. (IsOffered-here read_only r.is_mutating).0 kept), λ o. refl))
      ]
]
  where
    clash : (read_only && r.is_mutating) ≡ true → (read_only && r.is_mutating) ≡ false → ⊥
    clash a b = ground arith

-- A server offers a tool exactly if the table declares it as one that only reads, or declares it as
-- mutating and the server is not in read-only mode.
pub register_all_tools_iff :
    (read_only : Bool) (tool : Text)
    → (member tool (register_all_tools read_only) ≡ true)
      ↔ IsOffered read_only (declared tool tool_registrations)
unfolding register_all_tools
register_all_tools_iff read_only tool =
    registered_iff read_only tool tool_registrations registrations_distinct
