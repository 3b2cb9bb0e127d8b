-- ===== src/Base/Chars.antt =====
-- JavaScript strings as lists of UTF-16 code units, with the string operations that the source
-- calls. A literal is `u "…"`; every character of the source's literals is one code unit.
use Prim.Native.Char.{code}
use Prim.Native.String.{String}
use Prim.Native.Nat.{ℕ, zero, suc, ◌+◌, ◌/◌, ◌%◌}
use mathlib.Core.Path.{◌≡◌, refl, ap, ◌∙◌}
use mathlib.Core.Logic.{inl, inr, ◌↔◌}
use mathlib.Core.Bool.{Bool, true, false, ◌&&◌, ◌||◌}
use mathlib.Core.List.{List, [], ◌∷◌, ◌++◌, map, reverse}
use native.Mathlib.Omega.{arith}
use better_unraid_mcp.Base.Compare.{Bool-cases, ltb, leb, ◌==◌, if◌then◌else◌}
use better_unraid_mcp.Base.Lists.{All}

abbrev pub Text : Type 0
Text = List ℕ

unfoldable pub u : String → Text
u String.[] = []
u (String.◌∷◌ c s) = code c ∷ u s

-- `a === b`
unfoldable pub text_eq : Text → Text → Bool
text_eq [] [] = true
text_eq (a ∷ s) (b ∷ t) = a == b && text_eq s t
text_eq _ _ = false

text_eq_sound : (s t : Text) → text_eq s t ≡ true → s ≡ t
unfolding text_eq
text_eq_sound [] [] h = refl
text_eq_sound (a ∷ s) (b ∷ t) h = ground (arith, text_eq_sound s t)
text_eq_sound [] (b ∷ t) h = ground arith
text_eq_sound (a ∷ s) [] h = ground arith

pub text_eq_refl : (s : Text) → text_eq s s ≡ true
unfolding text_eq
text_eq_refl [] = refl
text_eq_refl (a ∷ s) = ground (arith, text_eq_refl s)

pub text_eq_iff : (s t : Text) → (text_eq s t ≡ true) ↔ (s ≡ t)
text_eq_iff s t = (text_eq_sound s t, λ e. rw e (text_eq_refl t))

pub text_eq_sym : (s t : Text) → text_eq s t ≡ false → text_eq t s ≡ false
text_eq_sym s t h = elim (Bool-cases (text_eq t s)) [
  | inl e ↦ let same : t ≡ s = (text_eq_iff t s).0 e in absurd (differ (rw same (text_eq_refl s)))
  | inr e ↦ e
]
  where
    differ : text_eq s t ≡ true → ⊥
    differ e = ground arith

-- `s.startsWith(t)`
unfoldable pub starts_with : Text → Text → Bool
starts_with s [] = true
starts_with [] (b ∷ t) = false
starts_with (a ∷ s) (b ∷ t) = a == b && starts_with s t

-- `s.includes(t)`
unfoldable pub includes : Text → Text → Bool
unfolding starts_with
includes [] t = starts_with [] t
includes (a ∷ s) t = starts_with (a ∷ s) t || includes s t

-- One character of `s.split(",")`: the head of the result is the part that is being read.
split_step : ℕ → ℕ → List Text → List Text
split_step sep c [] = []
split_step sep c (part ∷ parts) = if c == sep then [] ∷ part ∷ parts else (c ∷ part) ∷ parts

-- `s.split(sep)` for a separator of one code unit.
unfoldable pub split_on : ℕ → Text → List Text
unfolding split_step
split_on sep [] = [] ∷ []
split_on sep (c ∷ s) = split_step sep c (split_on sep s)

-- `parts.join(sep)`
unfoldable pub join : Text → List Text → Text
join sep [] = []
join sep (part ∷ []) = part
join sep (part ∷ (next ∷ parts)) = part ++ (sep ++ join sep (next ∷ parts))

-- `toLowerCase` on the ASCII letters; other characters are left alone.
unfoldable pub char_lower : ℕ → ℕ
char_lower c = if leb b'A' c && leb c b'Z' then c + 32 else c

unfoldable pub lower : Text → Text
unfolding char_lower
lower s = map char_lower s

unfoldable pub is_digit : ℕ → Bool
is_digit c = leb b'0' c && leb c b'9'

unfoldable pub is_alpha : ℕ → Bool
is_alpha c = leb b'A' c && leb c b'Z' || leb b'a' c && leb c b'z'

unfoldable pub is_alnum : ℕ → Bool
unfolding is_digit is_alpha
is_alnum c = is_alpha c || is_digit c

-- The white space and line ends that `trim` removes and `\s` matches.
unfoldable pub is_blank : ℕ → Bool
is_blank c =
    leb 9 c && leb c 13
    || c == 32
    || c == 160
    || c == 5760
    || leb 8192 c && leb c 8202
    || c == 8232
    || c == 8233
    || c == 8239
    || c == 8287
    || c == 12288
    || c == 65279

trim_start : Text → Text
trim_start [] = []
trim_start (c ∷ s) = if is_blank c then trim_start s else c ∷ s

unfoldable pub trim : Text → Text
unfolding trim_start is_blank
trim s = reverse (trim_start (reverse (trim_start s)))

unfoldable pub decimal_from : ℕ → ℕ → Text → Text
decimal_from zero n s = s
decimal_from (suc fuel) n s =
    let digits = (n % 10 + b'0') ∷ s in
    let more = decimal_from fuel (n / 10) digits in if ltb n 10 then digits else more

-- `String(n)`; a number has at most as many digits as its value, plus one.
unfoldable pub decimal : ℕ → Text
unfolding decimal_from
decimal n = decimal_from (n + 1) n []

unfoldable pub filter_b : (Text → Bool) → List Text → List Text
filter_b p [] = []
filter_b p (s ∷ ss) = if p s then s ∷ filter_b p ss else filter_b p ss

-- `list.includes(s)`
unfoldable pub member : Text → List Text → Bool
unfolding text_eq
member s [] = false
member s (t ∷ ts) = text_eq t s || member s ts

-- `split(sep)` cuts at the first separator, and leaves a text without one whole.
split_step-cut :
    (sep : ℕ) (parts : List Text) (part : Text)
    → split_step sep sep (part ∷ parts) ≡ [] ∷ part ∷ parts
unfolding split_step
split_step-cut sep parts part = ground arith

split_on-cons :
    (sep : ℕ) (s : Text) → (part : Text) × (parts : List Text) × (split_on sep s ≡ part ∷ parts)
unfolding split_on split_step
split_on-cons sep [] = ([], [], refl)
split_on-cons sep (c ∷ s) =
    let (part, parts, e) = split_on-cons sep s in
    elim (Bool-cases (c == sep)) [
      | inl f ↦ ([], part ∷ parts, rw (e, split_step) (rw (f, split_step) refl))
      | inr f ↦ (c ∷ part, parts, rw (e, split_step) (rw (f, split_step) refl))
    ]

pub split_on-append :
    (sep : ℕ) (s t : Text)
    → All (λ c. (c == sep) ≡ false) s
    → split_on sep (s ++ sep ∷ t) ≡ s ∷ split_on sep t
unfolding split_on split_step
split_on-append sep [] t h =
    let (part, parts, e) = split_on-cons sep t in rw (e, split_step) (split_step-cut sep parts part)
split_on-append sep (c ∷ s) t (n, h) =
    rw (split_on-append sep s t h, split_step) (rw (n, split_step) refl)

pub split_on-plain :
    (sep : ℕ) (s : Text) → All (λ c. (c == sep) ≡ false) s → split_on sep s ≡ s ∷ []
unfolding split_on split_step
split_on-plain sep [] h = refl
split_on-plain sep (c ∷ s) (n, h) =
    rw (split_on-plain sep s h, split_step) (rw (n, split_step) refl)

-- Splitting takes apart what was joined with a separator that no part has.
pub split_on-join :
    (sep : ℕ) (part : Text) (parts : List Text)
    → All (λ s. All (λ c. (c == sep) ≡ false) s) (part ∷ parts)
    → split_on sep (join (sep ∷ []) (part ∷ parts)) ≡ part ∷ parts
unfolding join
split_on-join sep part [] (h, hs) = split_on-plain sep part h
split_on-join sep part (next ∷ parts) (h, hs) =
    split_on-append sep part (join (sep ∷ []) (next ∷ parts)) h
    ∙ ap (λ rest. part ∷ rest) (split_on-join sep next parts hs)
