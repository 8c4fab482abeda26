-- ===== src/Http/Gate.antt =====
-- `handle` and `forward` of src/http.rs, up to the call of what answers.
pub mod Closed
use mathlib.Core.Option
use sessionhub.Base.{
  ℕ, Bool, true, false, not, ◌||◌, ◌&&◌, ◌^◌, List, [], ◌∷◌, Option, none, some, same, ltb, ◌==◌,
  if◌then◌else◌, codes,
}
use sessionhub.Base.Result.{Result, err, ok}
use sessionhub.Utf8.{Text, trim}
use sessionhub.Strings.{starts_with, parse_below}
use sessionhub.Remote.{Remote}
use sessionhub.Http.{Request, parse, header, cookie, query_param, path_without_token, token_ok}

-- The handlers of this machine, and those that relay to another.
pub data Route : Type 0 where
  upgrade api_status api_stop api_reload api_file api_exec api_put api_term_ls api_term_spawn :
      Route
  api_term_send api_term_capture api_show api_signout : Route

pub data Relay : Type 0 where
  relay_ws relay_status relay_file relay_exec relay_put relay_term_ls relay_term_spawn : Relay
  relay_term_send relay_term_capture : Relay

-- Who answers a request, and with what: `serve_static` with whether it sets the cookie, the sign-in
-- page, the refusals, a relay with the machine and the body, a handler with the body.
pub data Answer : Type 0 where
  serve_static : Bool → Answer
  signin_page : Answer
  invalid_token : Answer
  bad_body : Text → Answer
  no_machine : Text → Answer
  not_reached : Text → Answer
  relayed : Relay → Remote → List ℕ → Answer
  routed : Route → List ℕ → Answer

abbrev pub is_public_asset : Text → Bool
is_public_asset path =
    same path (codes "/manifest.json")
    || (same path (codes "/icon-192.png")
        || (same path (codes "/icon-512.webp")
            || (same path (codes "/icon-maskable-512.webp") || same path (codes "/icon-32.png"))))

abbrev pub is_some_and : (Text → Bool) → Option Text → Bool
is_some_and p none = false
is_some_and p (some v) = p v

unfoldable pub wants_html : Request → Bool
unfolding header starts_with
wants_html req =
    if same req.path (codes "/ws") || starts_with (codes "/api/") req.path
    then false
    else if is_some_and (λ m. same m (codes "navigate")) (header req (codes "sec-fetch-mode"))
    then true
    else is_some_and (starts_with (codes "text/html")) (header req (codes "accept"))

unfoldable pub authed : Text → Request → Bool
unfolding token_ok query_param cookie
authed secret req =
    token_ok secret (query_param req (codes "token"))
    || token_ok secret (cookie req (codes "sh_token"))

unfoldable pub spawn_body_len : Request → ℕ
unfolding header parse_below trim
spawn_body_len req = elim (header req (codes "content-length")) [
  | none ↦ 0
  | some v ↦ elim (parse_below (2 ^ 64) (trim v)) [ none ↦ 0 | some n ↦ n ]
]

unfoldable pub has_body : Request → Bool
unfolding spawn_body_len
has_body req =
    same req.path (codes "/api/put")
    || (same req.path (codes "/api/term/send")
        || (same req.path (codes "/api/term/spawn") && ltb 0 (spawn_body_len req)))

-- The arm of a `match` on texts.
unfoldable pub arm {ℓ} : {A : Type ℓ} → Text → List (Text × A) → Option A
arm path [] = none
arm path ((p, a) ∷ arms) = if same path p then some a else arm path arms

abbrev pub relays : List (Text × Relay)
relays =
    (codes "/ws", relay_ws)
    ∷ (codes "/api/status", relay_status)
    ∷ (codes "/api/file", relay_file)
    ∷ (codes "/api/exec", relay_exec)
    ∷ (codes "/api/put", relay_put)
    ∷ (codes "/api/term/ls", relay_term_ls)
    ∷ (codes "/api/term/spawn", relay_term_spawn)
    ∷ (codes "/api/term/send", relay_term_send)
    ∷ (codes "/api/term/capture", relay_term_capture)
    ∷ []

abbrev pub routes : List (Text × Route)
routes =
    (codes "/ws", upgrade)
    ∷ (codes "/api/status", api_status)
    ∷ (codes "/api/stop", api_stop)
    ∷ (codes "/api/reload", api_reload)
    ∷ (codes "/api/file", api_file)
    ∷ (codes "/api/exec", api_exec)
    ∷ (codes "/api/put", api_put)
    ∷ (codes "/api/term/ls", api_term_ls)
    ∷ (codes "/api/term/spawn", api_term_spawn)
    ∷ (codes "/api/term/send", api_term_send)
    ∷ (codes "/api/term/capture", api_term_capture)
    ∷ (codes "/api/show", api_show)
    ∷ (codes "/api/signout", api_signout)
    ∷ []

-- Reading of a body from the socket, and the actor's answer about a paired machine.
module _ (read_body : Request → Result Text (List ℕ)) (ask_remote : Text → Option Remote) where
  unfoldable pub route : Request → Bool → List ℕ → Answer
  unfolding arm query_param
  route req set_cookie body = elim (query_param req (codes "via")) [
    | some name ↦ elim (ask_remote name) [
      | none ↦ no_machine name
      | some r ↦ elim (arm req.path relays) [
        | some relay ↦ relayed relay r body
        | none ↦ not_reached req.path
      ]
    ]
    | none ↦ elim (arm req.path routes) [
      | some handler ↦ routed handler body
      | none ↦ serve_static set_cookie
    ]
  ]

  unfoldable pub let_in : Request → Answer
  unfolding route has_body query_param
  let_in req =
      let set_cookie = is_some_and (λ t. true) (query_param req (codes "token")) in
      if has_body req
      then elim (read_body req) [ err why ↦ bad_body why | ok body ↦ route req set_cookie body ]
      else route req set_cookie []

  -- A request, from behind its parsing.
  unfoldable pub handle : Text → Request → Answer
  unfolding authed wants_html let_in
  handle secret req =
      if not (authed secret req) && is_public_asset req.path
      then serve_static false
      else if not (authed secret req)
      then (if wants_html req then signin_page else invalid_token)
      else let_in req

-- What a forwarded port does with a request, up to its connection.
pub data Forwarded : Type 0 where
  turned_away : Forwarded
  redirected : Text → Forwarded
  passed_on : Forwarded

unfoldable pub forward : Text → Request → Forwarded
unfolding authed query_param path_without_token
forward secret req =
    if not (authed secret req) then turned_away else elim (query_param req (codes "token")) [
      | some t ↦ redirected (path_without_token req)
      | none ↦ passed_on
    ]
