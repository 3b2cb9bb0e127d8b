-- ===== src/Respond/Truncate/Bounds.antt =====
-- Whatever is rendered fits the output budget.
use better_unraid_mcp.Base.{
  ℕ, zero, suc, ◌+◌, ◌-◌, ◌*◌, ◌/◌, ◌%◌, ◌^◌, ◌≤◌, ◌<◌, [], ◌∷◌, Text, u, decimal, decimal_from,
  length, take, length-take-le, arith,
}
use native.Mathlib.Nat.{pow-suc}
use better_unraid_mcp.Json.Size.{length-stringify}
use better_unraid_mcp.Respond.Truncate.{
  max_output_chars, truncation_hint, render_envelope, shrink, truncate_json_payload,
}

-- A number below 10 ^ k has at most k digits, and at least one.
length-decimal_from :
    (k fuel n : ℕ) (s : Text) → n < 10 ^ suc k → length (decimal_from fuel n s) ≤ length s + suc k
unfolding decimal_from
length-decimal_from k zero n s h = omega arith
length-decimal_from zero (suc fuel) n s h = ground (arith)
length-decimal_from (suc k) (suc fuel) n s h =
    let small : n / 10 < 10 ^ suc k = omega (arith, pow-suc 10 (suc k)) in
    ground (arith, length-decimal_from k fuel (n / 10) ((n % 10 + b'0') ∷ s) small)

length-decimal : (n : ℕ) → n < 10 ^ 16 → length (decimal n) ≤ 16
unfolding decimal
length-decimal n h = length-decimal_from 15 (n + 1) n [] h

length-envelope :
    (s : Text) (head : ℕ) → length s < 10 ^ 16 → length (render_envelope s head) ≤ 6 * head + 1000
unfolding render_envelope truncation_hint u
length-envelope s head h = omega (
  arith,
  length-take-le head s,
  length-decimal (length s - length (take head s)) (omega arith),
  length-stringify _,
)

shrink_bounded :
    (s : Text) (rounds head : ℕ)
    → length s < 10 ^ 16
    → head ≤ 2 ^ rounds * 1000
    → length (shrink rounds s head) ≤ max_output_chars
unfolding shrink
shrink_bounded s zero head small h = omega (arith, length-envelope s head small)
shrink_bounded s (suc rounds) head small h = ground (
  arith,
  length-envelope s head small,
  shrink_bounded s rounds (head / 2) small (omega (arith, pow-suc 2 rounds)),
)

-- The loop that shrinks the head ends with an envelope within the budget: the text that
-- `truncateJsonPayload` returns never has more than 30000 code units, for any text that a
-- JavaScript engine can hold (shorter than 10 ^ 16).
pub truncate_json_payload_bounded :
    (s : Text) → length s < 10 ^ 16 → length (truncate_json_payload s) ≤ max_output_chars
unfolding truncate_json_payload
truncate_json_payload_bounded s small = ground (arith, shrink_bounded s 5 20000 small (omega arith))
