-- ===== src/Tools/UnassignedAction/Mountpoint.antt =====
-- The mount point in an answer of lsblk, described apart from the code that looks it up.
use better_unraid_mcp.Base.{
  ◌≡◌, refl, ◌∙◌, sym, ap, ◌⊎◌, inl, inr, Text, u, Bool, true, false, Option, none, some, text_eq,
  Option-cases, arith,
}
use better_unraid_mcp.Json.{
  Json, Items, Fields, null, bool, num, negative, str, arr, obj, nil, cons, end, field,
}
use better_unraid_mcp.Tools.UnassignedAction.{
  present, member_of, property, first_element, mountpoint_of,
}

-- No member has the key.
abbrev pub Lacks : Text → Fields → Type 0
Lacks key end = Unit
Lacks key (field k value fields) = (text_eq k key ≡ false) × Lacks key fields

-- The last member with the key has the value.
abbrev pub Member : Text → Json → Fields → Type 0
Member key value end = false ≡ true
Member key value (field k v fields) =
    Member key value fields ⊎ ((text_eq k key ≡ true) × (v ≡ value) × Lacks key fields)

abbrev pub is_null : Json → Bool
is_null null = true
is_null _ = false

-- The element 0 of an array, or of an object.
abbrev pub First : Json → Json → Type 0
First listed value =
    ((rest : Items) × (listed ≡ arr (cons value rest)))
    ⊎ ((fields : Fields) × (listed ≡ obj fields) × Member (u "0") value fields)

-- The answer is an object, the first of its block devices is one too, and that device's mount point is the
-- value, which is not null.
abbrev pub HasMount : Option Json → Json → Type 0
HasMount parsed value =
    (root : Fields) × (listed : Json) × (device : Fields) × (parsed ≡ some (obj root))
    × Member (u "blockdevices") listed root
    × First listed (obj device)
    × Member (u "mountpoint") value device
    × (is_null value ≡ false)

present-some : (value : Json) → is_null value ≡ false → present (some value) ≡ some value
unfolding present
present-some null h = absurd (ground arith)
present-some (bool b) h = refl
present-some (num n) h = refl
present-some (negative n) h = refl
present-some (str s) h = refl
present-some (arr items) h = refl
present-some (obj fields) h = refl

abbrev null_of : Option Json → Bool
null_of none = true
null_of (some v) = is_null v

present_sound :
    (o : Option Json) (value : Json)
    → present o ≡ some value
    → (o ≡ some value) × (is_null value ≡ false)
unfolding present
present_sound none value h = absurd (ground arith)
present_sound (some null) value h = absurd (ground arith)
present_sound (some (bool b)) value h = (h, ap null_of (sym h))
present_sound (some (num n)) value h = (h, ap null_of (sym h))
present_sound (some (negative n)) value h = (h, ap null_of (sym h))
present_sound (some (str s)) value h = (h, ap null_of (sym h))
present_sound (some (arr items)) value h = (h, ap null_of (sym h))
present_sound (some (obj fields)) value h = (h, ap null_of (sym h))

member_of-none : (key : Text) (fields : Fields) → member_of key fields ≡ none → Lacks key fields
unfolding member_of
member_of-none key end h = tt
member_of-none key (field k v fields) h = elim (Option-cases (member_of key fields)) [
  | inr (later, e) ↦ absurd (ground arith)
  | inl e ↦ (ground arith, member_of-none key fields e)
]

none-member_of : (key : Text) (fields : Fields) → Lacks key fields → member_of key fields ≡ none
unfolding member_of
none-member_of key end h = refl
none-member_of key (field k v fields) (apart, h) =
    rw (none-member_of key fields h, apart, member_of) refl

member_of-Member :
    (key : Text) (fields : Fields) (value : Json)
    → member_of key fields ≡ some value
    → Member key value fields
unfolding member_of
member_of-Member key end value h = absurd (ground arith)
member_of-Member key (field k v fields) value h = elim (Option-cases (member_of key fields)) [
  | inr (later, e) ↦
      let same : some later ≡ some value = rw (e, member_of) at h in
      inl (member_of-Member key fields value (e ∙ same))
  | inl e ↦ inr (ground arith, ground arith, member_of-none key fields e)
]

Member-member_of :
    (key : Text) (fields : Fields) (value : Json)
    → Member key value fields
    → member_of key fields ≡ some value
unfolding member_of
Member-member_of key end value h = absurd (ground arith)
Member-member_of key (field k v fields) value (inl h) =
    rw (Member-member_of key fields value h, member_of) refl
Member-member_of key (field k v fields) value (inr (same, e, lacks)) =
    rw (none-member_of key fields lacks, same, e, member_of) refl

property-Member :
    (key : Text) (o : Option Json) (value : Json)
    → property key o ≡ some value
    → (fields : Fields) × (o ≡ some (obj fields))
      × Member key value fields
      × (is_null value ≡ false)
unfolding property
property-Member key none value h = absurd (ground arith)
property-Member key (some null) value h = absurd (ground arith)
property-Member key (some (bool b)) value h = absurd (ground arith)
property-Member key (some (num n)) value h = absurd (ground arith)
property-Member key (some (negative n)) value h = absurd (ground arith)
property-Member key (some (str s)) value h = absurd (ground arith)
property-Member key (some (arr items)) value h = absurd (ground arith)
property-Member key (some (obj fields)) value h =
    let (e, live) = present_sound (member_of key fields) value h in
    (fields, refl, member_of-Member key fields value e, live)

Member-property :
    (key : Text) (fields : Fields) (value : Json)
    → Member key value fields
    → is_null value ≡ false
    → property key (some (obj fields)) ≡ some value
unfolding property
Member-property key fields value m live =
    ap present (Member-member_of key fields value m) ∙ present-some value live

first_element-First :
    (o : Option Json) (value : Json)
    → first_element o ≡ some value
    → (listed : Json) × (o ≡ some listed) × First listed value
unfolding first_element
first_element-First none value h = absurd (ground arith)
first_element-First (some null) value h = absurd (ground arith)
first_element-First (some (bool b)) value h = absurd (ground arith)
first_element-First (some (num n)) value h = absurd (ground arith)
first_element-First (some (negative n)) value h = absurd (ground arith)
first_element-First (some (str s)) value h = absurd (ground arith)
first_element-First (some (arr nil)) value h = absurd (ground arith)
first_element-First (some (arr (cons v rest))) value h =
    let e : v ≡ value = some_eq v value (present_sound (some v) value h).0 in
    (arr (cons v rest), refl, inl (rest, ap (λ w. arr (cons w rest)) e))
  where
    some_eq : (a b : Json) → some a ≡ some b → a ≡ b
    some_eq a b e = cc
first_element-First (some (obj fields)) value h =
    let (inner, e, m, live) = property-Member (u "0") (some (obj fields)) value h in
    (obj fields, refl, inr (inner, ap or_null e, m))
  where
    or_null : Option Json → Json
    or_null none = null
    or_null (some v) = v

First-first_element :
    (listed : Json) (device : Fields)
    → First listed (obj device)
    → first_element (some listed) ≡ some (obj device)
unfolding first_element present
First-first_element listed device (inl (rest, e)) = rw e refl
First-first_element listed device (inr (fields, e, m)) =
    rw e (Member-property (u "0") fields (obj device) m refl)

First-is_null : (listed device : Json) → First listed device → is_null listed ≡ false
First-is_null listed device (inl (rest, e)) = rw e refl
First-is_null listed device (inr (fields, e, m)) = rw e refl

-- The value that is looked up is the mount point that the answer has.
pub mountpoint_of-HasMount :
    (parsed : Option Json) (value : Json)
    → mountpoint_of parsed ≡ some value
    → HasMount parsed value
unfolding mountpoint_of
mountpoint_of-HasMount parsed value h =
    let (device, at_device, point, live) =
      property-Member (u "mountpoint") (first_element (property (u "blockdevices") parsed)) value
        h in
    let (listed, at_list, first) =
      first_element-First (property (u "blockdevices") parsed) (obj device) at_device in
    let (root, at_root, blocks, there) = property-Member (u "blockdevices") parsed listed at_list in
    (root, listed, device, at_root, blocks, first, point, live)

pub HasMount-mountpoint_of :
    (parsed : Option Json) (value : Json)
    → HasMount parsed value
    → mountpoint_of parsed ≡ some value
unfolding mountpoint_of
HasMount-mountpoint_of parsed value (root, listed, device, at_root, blocks, first, point, live) =
    let found : property (u "blockdevices") parsed ≡ some listed =
      ap (property (u "blockdevices")) at_root
      ∙ Member-property (u "blockdevices") root listed blocks
          (First-is_null listed (obj device) first) in
    ap (λ o. property (u "mountpoint") (first_element o)) found
    ∙ ap (property (u "mountpoint")) (First-first_element listed device first)
    ∙ Member-property (u "mountpoint") device value point live
