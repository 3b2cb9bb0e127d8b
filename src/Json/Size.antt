-- ===== src/Json/Size.antt =====
-- How long the text of a JSON value can be.
use better_unraid_mcp.Base.{
  ℕ, zero, suc, ◌+◌, ◌*◌, ◌≤◌, ◌≡◌, refl, ap, true, false, [], ◌∷◌, ◌++◌, Text, u, decimal, length,
  length-append, arith,
}
use better_unraid_mcp.Json.{
  Json, null, bool, num, negative, str, arr, obj, Items, nil, cons, Fields, end, field, quote,
  length-quote, spaces, new_line, pretty, pretty_items, pretty_fields, stringify,
}

-- Every string may grow six times by escaping, and every member starts a line of its own.
abbrev mutual
  pub text_bound : ℕ → Json → ℕ
  text_bound d null = 4
  text_bound d (bool b) = 5
  text_bound d (num n) = length (decimal n)
  text_bound d (negative n) = suc (length (decimal n))
  text_bound d (str s) = 6 * length s + 2
  text_bound d (arr xs) = items_bound (d + 2) xs + d + 3
  text_bound d (obj fs) = fields_bound (d + 2) fs + d + 3

  pub items_bound : ℕ → Items → ℕ
  items_bound d nil = 0
  items_bound d (cons x xs) = d + 2 + text_bound d x + items_bound d xs

  pub fields_bound : ℕ → Fields → ℕ
  fields_bound d end = 0
  fields_bound d (field k v fs) = d + 6 + 6 * length k + text_bound d v + fields_bound d fs

length-spaces : (n : ℕ) → length (spaces n) ≡ n
unfolding spaces
length-spaces zero = refl
length-spaces (suc n) = ap suc (length-spaces n)

-- Members joined by commas, without a look into the text of one member.
length-member :
    (d : ℕ) (k body rest : Text)
    → length (new_line d ++ (quote k ++ (u ": " ++ (body ++ rest))))
      ≤ d + 5 + 6 * length k + length body + length rest
unfolding u
length-member d k body rest = omega (
  arith,
  length-quote k,
  length-spaces d,
  length-append (spaces d) (quote k ++ (u ": " ++ (body ++ rest))),
  length-append (quote k) (u ": " ++ (body ++ rest)),
  length-append body rest,
)

length-member_last :
    (d : ℕ) (k body : Text)
    → length (new_line d ++ (quote k ++ (u ": " ++ body))) ≤ d + 5 + 6 * length k + length body
unfolding u
length-member_last d k body = omega (
  arith,
  length-quote k,
  length-spaces d,
  length-append (spaces d) (quote k ++ (u ": " ++ body)),
  length-append (quote k) (u ": " ++ body),
)

mutual
  unfolding pretty u

  length-pretty : (d : ℕ) (v : Json) → length (pretty d v) ≤ text_bound d v
  length-pretty d null = omega arith
  length-pretty d (bool true) = omega arith
  length-pretty d (bool false) = omega arith
  length-pretty d (num n) = omega arith
  length-pretty d (negative n) = omega arith
  length-pretty d (str s) = length-quote s
  length-pretty d (arr nil) = omega arith
  length-pretty d (arr (cons x xs)) = omega (
    arith,
    length-pretty_items (d + 2) (cons x xs),
    length-spaces d,
    length-append (pretty_items (d + 2) (cons x xs)) (new_line d ++ b']' ∷ []),
    length-append (spaces d) (b']' ∷ []),
  )
  length-pretty d (obj end) = omega arith
  length-pretty d (obj (field k v fs)) = omega (
    arith,
    length-pretty_fields (d + 2) (field k v fs),
    length-spaces d,
    length-append (pretty_fields (d + 2) (field k v fs)) (new_line d ++ b'}' ∷ []),
    length-append (spaces d) (b'}' ∷ []),
  )

  length-pretty_items : (d : ℕ) (xs : Items) → length (pretty_items d xs) ≤ items_bound d xs
  length-pretty_items d nil = omega arith
  length-pretty_items d (cons x nil) =
      omega (arith, length-pretty d x, length-spaces d, length-append (spaces d) (pretty d x))
  length-pretty_items d (cons x (cons y xs)) = omega (
    arith,
    length-pretty d x,
    length-pretty_items d (cons y xs),
    length-spaces d,
    length-append (spaces d) (pretty d x ++ b',' ∷ pretty_items d (cons y xs)),
    length-append (pretty d x) (b',' ∷ pretty_items d (cons y xs)),
  )

  length-pretty_fields : (d : ℕ) (fs : Fields) → length (pretty_fields d fs) ≤ fields_bound d fs
  length-pretty_fields d end = omega arith
  length-pretty_fields d (field k v end) =
      omega (arith, length-pretty d v, length-member_last d k (pretty d v))
  length-pretty_fields d (field k v (field l w fs)) = omega (
    arith,
    length-pretty d v,
    length-pretty_fields d (field l w fs),
    length-member d k (pretty d v) (b',' ∷ pretty_fields d (field l w fs)),
  )

pub length-stringify : (v : Json) → length (stringify v) ≤ text_bound 0 v
unfolding stringify
length-stringify v = length-pretty 0 v
