-- ===== src/Json.antt =====
-- JSON values and `JSON.stringify(value, null, 2)`. Members whose value is `undefined` are left out
-- by the code that builds the value.
pub mod Size
use better_unraid_mcp.Base.{
  ℕ, zero, suc, ◌+◌, ◌*◌, ◌/◌, ◌%◌, ◌≤◌, ◌≡◌, refl, Bool, true, false, ◌&&◌, List, [], ◌∷◌, ◌++◌,
  Text, u, decimal, leb, ltb, ◌==◌, if◌then◌else◌, length, length-append, arith,
}

mutual
  pub data Json : Type 0 where
    null : Json
    bool : Bool → Json
    num : ℕ → Json
    negative : ℕ → Json
    str : Text → Json
    arr : Items → Json
    obj : Fields → Json

  pub data Items : Type 0 where
    nil : Items
    cons : Json → Items → Items

  pub data Fields : Type 0 where
    end : Fields
    field : Text → Json → Fields → Fields

hex_digit : ℕ → ℕ
hex_digit n = if ltb n 10 then n + b'0' else n + 87

-- `\u` and four hexadecimal digits.
escape_unit : ℕ → Text
unfolding hex_digit
escape_unit c =
    b'\\'
    ∷ b'u'
    ∷ hex_digit (c / 4096 % 16)
    ∷ hex_digit (c / 256 % 16)
    ∷ hex_digit (c / 16 % 16)
    ∷ hex_digit (c % 16)
    ∷ []

is_high : ℕ → Bool
is_high c = leb 0xd800 c && leb c 0xdbff

is_low : ℕ → Bool
is_low c = leb 0xdc00 c && leb c 0xdfff

is_surrogate : ℕ → Bool
is_surrogate c = leb 0xd800 c && leb c 0xdfff

-- One code unit that is not the first of a surrogate pair.
quote_unit : ℕ → Text
unfolding escape_unit is_surrogate
quote_unit c =
    if c == b'"'
    then b'\\' ∷ b'"' ∷ []
    else if c == 92
    then 92 ∷ 92 ∷ []
    else if c == 8
    then 92 ∷ b'b' ∷ []
    else if c == 12
    then 92 ∷ b'f' ∷ []
    else if c == 10
    then 92 ∷ b'n' ∷ []
    else if c == 13
    then 92 ∷ b'r' ∷ []
    else if c == 9
    then 92 ∷ b't' ∷ []
    else if ltb c 32
    then escape_unit c
    else if is_surrogate c
    then escape_unit c
    else c ∷ []

quote_units : Text → Text
quote_units [] = []
quote_units (c ∷ []) = quote_unit c
quote_units (c ∷ (d ∷ s)) =
    let pair = c ∷ d ∷ quote_units s in
    let single = quote_unit c ++ quote_units (d ∷ s) in
    if is_high c && is_low d then pair else single

-- A JSON string literal.
pub quote : Text → Text
unfolding quote_units quote_unit is_high is_low
quote s = b'"' ∷ quote_units s ++ b'"' ∷ []

length-quote_unit : (c : ℕ) → length (quote_unit c) ≤ 6
unfolding quote_unit
length-quote_unit c = ground arith

length-quote_units : (s : Text) → length (quote_units s) ≤ 6 * length s
unfolding quote_units
length-quote_units [] = omega arith
length-quote_units (c ∷ []) = omega (arith, length-quote_unit c)
length-quote_units (c ∷ (d ∷ s)) = ground (
  arith,
  length-quote_unit c,
  length-quote_units s,
  length-quote_units (d ∷ s),
  length-append (quote_unit c) (quote_units (d ∷ s)),
)

-- Escaping makes a text at most six times as long.
pub length-quote : (s : Text) → length (quote s) ≤ 6 * length s + 2
unfolding quote
length-quote s = omega (arith, length-append (quote_units s) (b'"' ∷ []), length-quote_units s)

pub spaces : ℕ → Text
spaces zero = []
spaces (suc n) = b' ' ∷ spaces n

abbrev new_line : ℕ → Text
new_line depth = 10 ∷ spaces depth

unfoldable mutual
  pub pretty : ℕ → Json → Text
  pretty d null = u "null"
  pretty d (bool true) = u "true"
  pretty d (bool false) = u "false"
  pretty d (num n) = decimal n
  pretty d (negative n) = b'-' ∷ decimal n
  pretty d (str s) = quote s
  pretty d (arr nil) = u "[]"
  pretty d (arr (cons x xs)) = b'[' ∷ pretty_items (d + 2) (cons x xs) ++ (new_line d ++ b']' ∷ [])
  pretty d (obj end) = u "{}"
  pretty d (obj (field k v fs)) =
      b'{' ∷ pretty_fields (d + 2) (field k v fs) ++ (new_line d ++ b'}' ∷ [])

  pub pretty_items : ℕ → Items → Text
  pretty_items d nil = []
  pretty_items d (cons x nil) = new_line d ++ pretty d x
  pretty_items d (cons x (cons y xs)) =
      new_line d ++ (pretty d x ++ b',' ∷ pretty_items d (cons y xs))

  pub pretty_fields : ℕ → Fields → Text
  pretty_fields d end = []
  pretty_fields d (field k v end) = new_line d ++ (quote k ++ (u ": " ++ pretty d v))
  pretty_fields d (field k v (field l w fs)) =
      new_line d ++ (quote k ++ (u ": " ++ (pretty d v ++ b',' ∷ pretty_fields d (field l w fs))))

unfoldable pub stringify : Json → Text
unfolding pretty quote spaces
stringify v = pretty 0 v

stringify_example :
    stringify (
      obj
        (field (u "a") (arr (cons (num 12) (cons null nil))) (field (u "b") (str (u "x\"y")) end)))
    ≡ u "{\n  \"a\": [\n    12,\n    null\n  ],\n  \"b\": \"x\\\"y\"\n}"
unfolding stringify u decimal
stringify_example = refl
