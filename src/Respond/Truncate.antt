-- ===== src/Respond/Truncate.antt =====
-- tools/_shared/truncate-output.ts: caps on the rendered output.
pub mod Bounds
use better_unraid_mcp.Base.{
  ℕ, zero, suc, ◌-◌, ◌/◌, Bool, true, ◌&&◌, [], ◌∷◌, ◌++◌, Text, u, decimal, leb, ltb,
  if◌then◌else◌, length, take, drop,
}
use better_unraid_mcp.Json.{Json, bool, num, str, obj, end, field, stringify}

abbrev pub max_output_chars : ℕ
max_output_chars = 30000

abbrev pub truncated_head_chars : ℕ
truncated_head_chars = 20000

abbrev pub min_head_chars : ℕ
min_head_chars = 1000

pub truncate_output : Text → Text
truncate_output output =
    let dropped = length output - max_output_chars in
    if leb (length output) max_output_chars
    then output
    else u "[truncated "
      ++ (decimal dropped ++ (u " characters from the start]\n" ++ drop dropped output))

unfoldable pub truncation_hint : Text
truncation_hint =
    u "Narrow the selection, add filters, or page the data to fit under the output cap."

pub render_envelope : Text → ℕ → Text
render_envelope serialized head_length =
    let head = take head_length serialized in
    stringify (
      obj (
        field (u "truncated") (bool true) (
          field (u "dropped_chars") (num (length serialized - length head)) (
            field (u "hint") (str truncation_hint)
              (field (u "partial_json_head") (str head) end)))))

-- The `while` loop of `truncateJsonPayload`, by the rounds that are left.
pub shrink : ℕ → Text → ℕ → Text
shrink zero serialized head_length = render_envelope serialized head_length
shrink (suc rounds) serialized head_length =
    let envelope = render_envelope serialized head_length in
    let smaller = shrink rounds serialized (head_length / 2) in
    if ltb max_output_chars (length envelope) && ltb min_head_chars head_length
    then smaller
    else envelope

-- 20000 is halved five times before it is at most 1000.
abbrev pub halvings : ℕ
halvings = 5

pub truncate_json_payload : Text → Text
truncate_json_payload serialized =
    if leb (length serialized) max_output_chars
    then serialized
    else shrink halvings serialized truncated_head_chars
