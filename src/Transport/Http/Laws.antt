-- ===== src/Transport/Http/Laws.antt =====
-- Which requests the endpoint serves, and how much of a body it buffers.
use better_unraid_mcp.Base.{
  ℕ, ◌+◌, ◌≤◌, ◌≡◌, refl, ◌∙◌, ap, ◌↔◌, Text, u, List, [], ◌∷◌, ◌++◌, true, false, Option, none,
  some, text_eq, text_eq_iff, starts_with, drop, ltb, length, length-append, if◌then◌else◌,
  Bool-cases, Option-cases, arith, inl, inr, ==_iff, ◌==◌,
}
use better_unraid_mcp.Transport.Http.{
  HttpRequest, ReadBody, parsed, too_large, syntax_error, Dispatched, answered, failed_syntax,
  failed, handled, is_supported_method, collect, parse_body, read_json_body, normalize_path,
  extract_bearer_token, is_authorized, write_rpc_error, answer, Endpoint, dispatch_read,
  request_body, request_url, route_path, route_request,
}

-- All the bytes of a body, and their number.
abbrev pub all_bytes : List (List ℕ) → List ℕ
all_bytes [] = []
all_bytes (chunk ∷ chunks) = chunk ++ all_bytes chunks

append_assoc : (xs ys zs : List ℕ) → (xs ++ ys) ++ zs ≡ xs ++ (ys ++ zs)
append_assoc [] ys zs = refl
append_assoc (x ∷ xs) ys zs = rw (append_assoc xs ys zs)

append_nil : (xs : List ℕ) → xs ++ [] ≡ xs
append_nil [] = refl
append_nil (x ∷ xs) = rw (append_nil xs)

collect-all :
    (max_bytes total : ℕ) (raw : List ℕ) (chunks : List (List ℕ))
    → total ≤ max_bytes
    → collect max_bytes total raw chunks ≡ (
        if ltb max_bytes (total + length (all_bytes chunks))
        then none
        else some (raw ++ all_bytes chunks))
unfolding collect
collect-all max_bytes total raw [] h = ground (arith, append_nil raw)
collect-all max_bytes total raw (chunk ∷ chunks) h =
    let l : length (chunk ++ all_bytes chunks) ≡ length chunk + length (all_bytes chunks) =
      length-append chunk (all_bytes chunks) in
    let sum : (total + length chunk) + length (all_bytes chunks)
        ≡ total + (length chunk + length (all_bytes chunks)) =
      omega arith in
    elim (Bool-cases (ltb max_bytes (total + length chunk))) [
      | inl e ↦ rw (e, collect) (ground arith)
      | inr e ↦
          rw (e, collect)
            (rw (collect-all max_bytes (total + length chunk) (raw ++ chunk) chunks (ground arith))
              (rw (append_assoc raw chunk (all_bytes chunks)) (rw (l, sum))))
    ]

collect_whole :
    (max_bytes : ℕ) (chunks : List (List ℕ))
    → collect max_bytes 0 [] chunks
      ≡ (if ltb max_bytes (length (all_bytes chunks)) then none else some (all_bytes chunks))
collect_whole max_bytes chunks =
    let e : 0 + length (all_bytes chunks) ≡ length (all_bytes chunks) = omega arith in
    collect-all max_bytes 0 [] chunks (omega arith) ∙ rw e

-- Reading a body in chunks: it is refused exactly if all its bytes are more than allowed, and else it
-- is read as the whole of its bytes is, however it was cut.
pub read_json_body-whole :
    {Body : Type 0} (parse : List ℕ → Option Body) (max_bytes : ℕ) (chunks : List (List ℕ))
    → read_json_body parse max_bytes chunks ≡ (
        if ltb max_bytes (length (all_bytes chunks))
        then too_large
        else parse_body parse (all_bytes chunks))
unfolding read_json_body
read_json_body-whole parse max_bytes chunks =
    elim (Bool-cases (ltb max_bytes (length (all_bytes chunks)))) [
      | inl e ↦ rw e (rw (collect_whole max_bytes chunks, read_json_body) (rw e))
      | inr e ↦ rw e (rw (collect_whole max_bytes chunks, read_json_body) (rw e))
    ]

starts_with-drop : (s t : Text) → starts_with s t ≡ true → s ≡ t ++ drop (length t) s
unfolding starts_with
starts_with-drop s [] h = refl
starts_with-drop [] (b ∷ t) h = ground arith
starts_with-drop (a ∷ s) (b ∷ t) h = elim (Bool-cases (a == b)) [
  | inl e ↦
      let same : a ≡ b = (==_iff a b).0 e in
      let rest : s ≡ t ++ drop (length t) s = starts_with-drop s t (rw e at h) in cc
  | inr e ↦ absurd (ground arith)
]

starts_with-append : (t r : Text) → starts_with (t ++ r) t ≡ true
unfolding starts_with
starts_with-append [] r = refl
starts_with-append (b ∷ t) r = rw ((==_iff b b).1 refl) (starts_with-append t r)

drop-append : (t r : Text) → drop (length t) (t ++ r) ≡ r
drop-append [] r = refl
drop-append (b ∷ t) r = drop-append t r

extract-found :
    (header provided : Text)
    → extract_bearer_token (some header) ≡ some provided
    → header ≡ u "Bearer " ++ provided
unfolding extract_bearer_token u
extract-found header provided h = elim (Bool-cases (starts_with header (u "Bearer "))) [
  | inl e ↦
      let token : some (drop 7 header) ≡ some provided = (rw e at h) in
      let inside : drop 7 header ≡ provided = cc in
      starts_with-drop header (u "Bearer ") e ∙ ap (λ t. u "Bearer " ++ t) inside
  | inr e ↦ absurd (ground arith)
]

extract-append :
    (provided : Text) → extract_bearer_token (some (u "Bearer " ++ provided)) ≡ some provided
unfolding extract_bearer_token u
extract-append provided = rw (starts_with-append (u "Bearer ") provided) refl

abbrev pub Presents : (Text → Text) → Option Text → Text → Type 0
Presents digest authorization token =
    (provided : Text) × (authorization ≡ some (u "Bearer " ++ provided))
    × (digest provided ≡ digest token)

presented :
    (digest : Text → Text) (authorization : Option Text) (token : Text)
    → is_authorized digest authorization (some token) ≡ true
    → Presents digest authorization token
unfolding is_authorized extract_bearer_token
presented digest none token h = ground arith
presented digest (some header) token h = elim (Option-cases (extract_bearer_token (some header))) [
  | inl e ↦ absurd (ground arith)
  | inr (provided, e) ↦ (
    provided,
    ap some (extract-found header provided e),
    (text_eq_iff (digest provided) (digest token)).0 (rw (e, is_authorized) at h),
  )
]

-- With a token, exactly the requests whose header is `Bearer ` and a token of the same digest.
pub authorized_iff :
    (digest : Text → Text) (authorization : Option Text) (token : Text)
    → (is_authorized digest authorization (some token) ≡ true) ↔ Presents digest authorization token
unfolding is_authorized
authorized_iff digest authorization token = (
  presented digest authorization token,
  λ (provided, e, d). rw e (
      rw (extract-append provided, is_authorized)
        ((text_eq_iff (digest provided) (digest token)).1 d)),
)

answer-handled : {R : Type 0} (d : Dispatched R) (r : R) → answer d ≡ handled r → d ≡ answered r
unfolding answer write_rpc_error
answer-handled (answered q) r h = ap answered (ground arith)
answer-handled (failed_syntax true) r h = ground arith
answer-handled (failed_syntax false) r h = ground arith
answer-handled (failed true message) r h = ground arith
answer-handled (failed false message) r h = ground arith

module _ {Body R : Type 0} (options : Endpoint Body R) where
  abbrev pub IsAdmitted : HttpRequest → Type 0
  IsAdmitted request =
      (is_supported_method request.method options.sessions ≡ true)
      × (((path : Text) × (options.pathname (request_url options request) ≡ some path)
            × (text_eq (normalize_path path) (u "/mcp") ≡ true))
          × (is_authorized options.digest request.authorization options.bearer_token ≡ true))

  abbrev pub IsServed : HttpRequest → R → Type 0
  IsServed request r =
      (body : Option Body) × (request_body options request ≡ parsed body)
      × (options.serve request body ≡ answered r)

  dispatch_handled :
      (request : HttpRequest) (read : ReadBody Body) (r : R)
      → dispatch_read options request read ≡ handled r
      → (body : Option Body) × (read ≡ parsed body) × (options.serve request body ≡ answered r)
  unfolding dispatch_read
  dispatch_handled request (parsed body) r h =
      (body, refl, answer-handled (options.serve request body) r h)
  dispatch_handled request too_large r h = ground arith
  dispatch_handled request syntax_error r h = ground arith

  route_path-handled :
      (request : HttpRequest) (path : Text) (r : R)
      → route_path options request path ≡ handled r
      → (text_eq (normalize_path path) (u "/mcp") ≡ true)
        × ((is_authorized options.digest request.authorization options.bearer_token ≡ true)
            × IsServed request r)
  unfolding route_path
  route_path-handled request path r h =
      elim (Bool-cases (text_eq (normalize_path path) (u "/mcp"))) [
        | inr e ↦ absurd (ground arith)
        | inl e ↦
            elim (Bool-cases
              (is_authorized options.digest request.authorization options.bearer_token)) [
                | inr a ↦ absurd (ground arith)
                | inl a ↦ (
                  e,
                  (
                    a,
                    dispatch_handled request _ r (rw (a, route_path) at (rw (e, route_path) at h)),
                  ),
                )
              ]
      ]

  -- The transport's answer is returned exactly for the requests with an accepted method, a URL whose
  -- path is `/mcp`, and the token if there is one, whose body is read and which the server answers.
  pub route_handled_iff :
      (request : HttpRequest) (r : R)
      → (route_request options request ≡ handled r) ↔ (IsAdmitted request × IsServed request r)
  unfolding route_request answer
  route_handled_iff request r = (forth, back)
    where
      forth : route_request options request ≡ handled r → IsAdmitted request × IsServed request r
      forth h = elim (Bool-cases (is_supported_method request.method options.sessions)) [
        | inr m ↦ absurd (ground arith)
        | inl m ↦ elim (Option-cases (options.pathname (request_url options request))) [
          | inl p ↦ absurd (ground arith)
          | inr (path, p) ↦
              let (e, (a, served)) =
                route_path-handled request path r
                  (rw (p, route_request) at (rw (m, route_request) at h)) in
              ((m, ((path, p, e), a)), served)
        ]
      ]

      back : IsAdmitted request × IsServed request r → route_request options request ≡ handled r
      back ((m, ((path, p, e), a)), (body, b, s)) =
          rw (m, route_request)
            (rw (p, route_request)
              (rw (e, route_path) (rw (a, route_path) (rw (b, dispatch_read) (rw (s, answer))))))
