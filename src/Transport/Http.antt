-- ===== src/Transport/Http.antt =====
-- transport/http.ts: which requests reach the MCP endpoint, and what the others are answered. The URL
-- parser, the JSON parser and the digest belong to the platform and are parameters.
pub mod Laws
use better_unraid_mcp.Base.{
  ℕ, ◌+◌, ◌≡◌, Text, u, List, [], ◌∷◌, ◌++◌, Bool, true, false, not, ◌&&◌, ◌||◌, Option, none, some,
  text_eq, starts_with, ltb, length, drop, if◌then◌else◌,
}

abbrev pub max_body_bytes : ℕ
max_body_bytes = 1000000

-- A request whose body arrives in chunks of bytes. A header that is no string is `none`.
pub record HttpRequest : Type 0 where
  pub method : Option Text
  pub url : Option Text
  pub authorization : Option Text
  pub chunks : List (List ℕ)

-- A body that is read: the JSON value, or nothing when it is empty.
pub data ReadBody (Body : Type 0) : Type 0 where
  parsed : Option Body → ReadBody Body
  too_large : ReadBody Body
  syntax_error : ReadBody Body

-- How the dispatch of a request ends: with the transport's answer, or with an error that the transport
-- throws, a `SyntaxError` or another, after the headers were sent or before.
pub data Dispatched (R : Type 0) : Type 0 where
  answered : R → Dispatched R
  failed_syntax : Bool → Dispatched R
  failed : Bool → Text → Dispatched R

-- What the client gets: the transport's answer, an error with its status, JSON-RPC code and message,
-- or the end of an answer that had begun.
pub data HttpReply (R : Type 0) : Type 0 where
  not_found : HttpReply R
  unauthorized : HttpReply R
  rpc_error : ℕ → Text → Text → HttpReply R
  handled : R → HttpReply R
  ended : HttpReply R
  server_error : HttpReply R

unfoldable pub is_supported_method : Option Text → Bool → Bool
is_supported_method none sessions = false
is_supported_method (some method) sessions =
    if sessions
    then text_eq method (u "POST") || (text_eq method (u "GET") || text_eq method (u "DELETE"))
    else text_eq method (u "POST")

-- The loop of `readJsonBody`: the bytes so far, or none when there are more than allowed.
unfoldable pub collect : ℕ → ℕ → List ℕ → List (List ℕ) → Option (List ℕ)
collect max_bytes total raw [] = some raw
collect max_bytes total raw (chunk ∷ chunks) =
    let rest = collect max_bytes (total + length chunk) (raw ++ chunk) chunks in
    if ltb max_bytes (total + length chunk) then none else rest

unfoldable pub parse_body : {Body : Type 0} → (List ℕ → Option Body) → List ℕ → ReadBody Body
parse_body parse [] = parsed none
parse_body parse (byte ∷ raw) = elim (parse (byte ∷ raw)) [
  | none ↦ syntax_error
  | some body ↦ parsed (some body)
]

unfoldable pub read_json_body :
    {Body : Type 0} → (List ℕ → Option Body) → ℕ → List (List ℕ) → ReadBody Body
unfolding parse_body
read_json_body parse max_bytes chunks = elim (collect max_bytes 0 [] chunks) [
  | none ↦ too_large
  | some raw ↦ parse_body parse raw
]

-- A path with at least two characters loses one slash (47) at its end.
unfoldable pub drop_last_slash : Text → Text
drop_last_slash [] = []
drop_last_slash (c ∷ []) = if text_eq (c ∷ []) (u "/") then [] else c ∷ []
drop_last_slash (c ∷ (d ∷ cs)) = c ∷ drop_last_slash (d ∷ cs)

unfoldable pub normalize_path : Text → Text
unfolding drop_last_slash
normalize_path (c ∷ (d ∷ cs)) = c ∷ drop_last_slash (d ∷ cs)
normalize_path path = path

-- `bearer_prefix` has seven characters.
pub extract_bearer_token : Option Text → Option Text
extract_bearer_token none = none
extract_bearer_token (some header) =
    if starts_with header (u "Bearer ") then some (drop 7 header) else none

pub is_authorized : (Text → Text) → Option Text → Option Text → Bool
is_authorized digest authorization none = true
is_authorized digest authorization (some token) = elim (extract_bearer_token authorization) [
  | none ↦ false
  | some provided ↦ text_eq (digest provided) (digest token)
]

-- `writeJsonRpcError`
write_rpc_error : {R : Type 0} → Bool → ℕ → Text → Text → HttpReply R
write_rpc_error headers_sent status code message =
    if headers_sent then ended else rpc_error status code message

pub answer : {R : Type 0} → Dispatched R → HttpReply R
unfolding write_rpc_error
answer (answered r) = handled r
answer (failed_syntax headers_sent) =
    write_rpc_error headers_sent 400 (u "-32700") (u "Parse error")
answer (failed headers_sent message) =
    write_rpc_error headers_sent 500 (u "-32603") (u "Internal server error")

-- `options`: the mode, the token, and what the platform supplies. `pathname` is none where the URL
-- parser throws.
pub record Endpoint (Body R : Type 0) : Type 0 where
  pub sessions : Bool
  pub bearer_token : Option Text
  pub pathname : Text → Option Text
  pub digest : Text → Text
  pub parse : List ℕ → Option Body
  pub serve : HttpRequest → Option Body → Dispatched R

module _ {Body R : Type 0} (options : Endpoint Body R) where
  -- `dispatchMcpRequest` with the `catch` of `routeRequest`. With sessions only a `POST` has a body.
  dispatch_read : HttpRequest → ReadBody Body → HttpReply R
  dispatch_read request (parsed body) = answer (options.serve request body)
  dispatch_read request too_large = rpc_error 413 (u "-32700") (u "Request body too large")
  dispatch_read request syntax_error = rpc_error 400 (u "-32700") (u "Parse error")

  unfoldable pub is_post : Option Text → Bool
  is_post none = false
  is_post (some method) = text_eq method (u "POST")

  unfoldable pub request_body : HttpRequest → ReadBody Body
  unfolding is_post
  request_body request =
      if options.sessions && not (is_post request.method)
      then parsed none
      else read_json_body options.parse max_body_bytes request.chunks

  unfoldable pub request_url : HttpRequest → Text
  request_url request = elim request.url [ none ↦ u "/" | some url ↦ url ]

  route_path : HttpRequest → Text → HttpReply R
  unfolding dispatch_read request_body
  route_path request path =
      if not (text_eq (normalize_path path) (u "/mcp"))
      then not_found
      else if not (is_authorized options.digest request.authorization options.bearer_token)
      then unauthorized
      else dispatch_read request (request_body request)

  -- `routeRequest`, with the `catch` of `startHttp` for a URL that cannot be parsed.
  pub route_request : HttpRequest → HttpReply R
  unfolding request_url route_path
  route_request request =
      if not (is_supported_method request.method options.sessions)
      then not_found
      else elim (options.pathname (request_url request)) [
        | none ↦ server_error
        | some path ↦ route_path request path
      ]
