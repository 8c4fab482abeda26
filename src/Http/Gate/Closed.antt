-- ===== src/Http/Gate/Closed.antt =====
-- Who is let in, and what is answered to the others.
use sessionhub.Base.{
  ℕ, ◌≡◌, ◌⊎◌, ◌↔◌, refl, ◌∙◌, inl, inr, Bool, true, false, List, [], ◌∷◌, Option, none, some,
  length, ◌==◌, codes, arith, Bool-cases, Option-cases, bit_or, bit_xor,
}
use sessionhub.Base.Result.{Result, Result-cases}
use sessionhub.Base.Bits.{bit_xor_zero, bit_xor_self, bit_or_zero}
use sessionhub.Utf8.{Text, as_bytes}
use sessionhub.Remote.{Remote}
use sessionhub.Http.{Request, cookie, query_param, token_ok, differences}
use sessionhub.Http.Gate.{
  Answer, Relay, Route, is_public_asset, wants_html, authed, has_body, arm, relays, routes, route,
  let_in, handle, forward, serve_static, signin_page, invalid_token, not_reached, relayed, routed,
  turned_away, passed_on,
}

-- What was given is there, and is the secret byte for byte.
abbrev pub Carries : Text → Option Text → Type 0
Carries secret given = (t : Text) × (given ≡ some t) × (as_bytes t ≡ as_bytes secret)

differences-zero :
    (acc : ℕ) (xs ys : List ℕ)
    → length ys ≡ length xs
    → differences acc xs ys ≡ 0
    → (acc ≡ 0) × (ys ≡ xs)
unfolding differences
differences-zero acc [] [] h e = (e, refl)
differences-zero acc [] (y ∷ ys) h e = absurd (omega arith)
differences-zero acc (x ∷ xs) [] h e = absurd (omega arith)
differences-zero acc (x ∷ xs) (y ∷ ys) h e =
    let more = differences-zero (bit_or acc (bit_xor x y)) xs ys (omega arith) e in
    let both = bit_or_zero acc (bit_xor x y) more.0 in
    (both.0, rw (bit_xor_zero x y both.1, more.1))

differences_self : (xs : List ℕ) → differences 0 xs xs ≡ 0
unfolding differences
differences_self [] = refl
differences_self (x ∷ xs) = rw (bit_xor_self x) (differences_self xs)

token_ok→Carries :
    (secret : Text) (given : Option Text) → token_ok secret given ≡ true → Carries secret given
unfolding token_ok
token_ok→Carries secret none e = cc
token_ok→Carries secret (some t) e =
    elim (Bool-cases (length (as_bytes t) == length (as_bytes secret))) [
      | inl y ↦ (
        t,
        refl,
        (differences-zero 0 (as_bytes secret) (as_bytes t) (ground arith)
            (ground (arith, rw y at e))).1,
      )
      | inr n ↦ cc (rw n at e)
    ]

Carries→token_ok :
    (secret : Text) (given : Option Text) → Carries secret given → token_ok secret given ≡ true
unfolding token_ok
Carries→token_ok secret given (t, there, e) =
    rw (there, token_ok, e, differences_self (as_bytes secret)) (ground arith)

-- `token_ok` answers yes to a token that was given and is, byte for byte, the expected one, and to
-- nothing else.
pub token_ok_iff :
    (secret : Text) (given : Option Text) → token_ok secret given ≡ true ↔ Carries secret given
token_ok_iff secret given = (token_ok→Carries secret given, Carries→token_ok secret given)

-- A request that carries the secret, in its query or in its cookie.
abbrev pub IsSigned : Text → Request → Type 0
IsSigned secret req =
    Carries secret (query_param req (codes "token"))
    ⊎ Carries secret (cookie req (codes "sh_token"))

authed→IsSigned : (secret : Text) (req : Request) → authed secret req ≡ true → IsSigned secret req
unfolding authed
authed→IsSigned secret req e =
    elim (Bool-cases (token_ok secret (query_param req (codes "token")))) [
      | inl y ↦ inl (token_ok→Carries secret (query_param req (codes "token")) y)
      | inr n ↦ inr (token_ok→Carries secret (cookie req (codes "sh_token")) (rw n at e))
    ]

IsSigned→authed : (secret : Text) (req : Request) → IsSigned secret req → authed secret req ≡ true
unfolding authed
IsSigned→authed secret req (inl c) =
    rw (Carries→token_ok secret (query_param req (codes "token")) c)
IsSigned→authed secret req (inr c) =
    elim (Bool-cases (token_ok secret (query_param req (codes "token")))) [
      | inl y ↦ rw y
      | inr n ↦ rw (n, Carries→token_ok secret (cookie req (codes "sh_token")) c)
    ]

-- What is answered without the token: a public asset without a cookie where the path names one, and
-- where it does not, the sign-in page if a page was asked for, or a refusal if not.
abbrev pub IsRefusal : Request → Answer → Type 0
IsRefusal req answer =
    ((is_public_asset req.path ≡ true) × (answer ≡ serve_static false))
    ⊎ ((is_public_asset req.path ≡ false) × (wants_html req ≡ true) × (answer ≡ signin_page))
    ⊎ ((is_public_asset req.path ≡ false) × (wants_html req ≡ false) × (answer ≡ invalid_token))

not-IsSigned : (secret : Text) (req : Request) → ¬ IsSigned secret req → authed secret req ≡ false
not-IsSigned secret req h = elim (Bool-cases (authed secret req)) [
  | inl y ↦ absurd (h (authed→IsSigned secret req y))
  | inr n ↦ n
]

-- A request that carries the secret neither in its query nor in its cookie is answered with a public
-- asset, without a cookie set, if its path names one, else with the sign-in page if a page was asked
-- for, else with a refusal; no handler and no other machine gets to see it, whatever its body and
-- whatever machines there are.
pub handle-refused :
    (read_body : Request → Result Text (List ℕ)) (ask_remote : Text → Option Remote) (secret : Text)
    (req : Request)
    → ¬ IsSigned secret req
    → IsRefusal req (handle read_body ask_remote secret req)
unfolding handle
handle-refused read_body ask_remote secret req h =
    let shut = not-IsSigned secret req h in
    elim (Bool-cases (is_public_asset req.path)) [
      | inl y ↦ inl (y, rw (handle, shut, y))
      | inr n ↦ elim (Bool-cases (wants_html req)) [
        | inl page ↦ inr (inl (n, page, rw (handle, shut, n, page)))
        | inr plain ↦ inr (inr (n, plain, rw (handle, shut, n, plain)))
      ]
    ]

handle-let_in :
    (read_body : Request → Result Text (List ℕ)) (ask_remote : Text → Option Remote) (secret : Text)
    (req : Request)
    → IsSigned secret req
    → handle read_body ask_remote secret req ≡ let_in read_body ask_remote req
unfolding handle
handle-let_in read_body ask_remote secret req h = rw (handle, IsSigned→authed secret req h)

-- The relay that an answer is, if it is one.
abbrev pub relay_of : Answer → Option Remote
relay_of (relayed relay r body) = some r
relay_of _ = none

route-relayed :
    (read_body : Request → Result Text (List ℕ)) (ask_remote : Text → Option Remote) (req : Request)
    (set_cookie : Bool) (body : List ℕ) (r : Remote)
    → relay_of (route read_body ask_remote req set_cookie body) ≡ some r
    → (name : Text) × (query_param req (codes "via") ≡ some name) × (ask_remote name ≡ some r)
unfolding route
route-relayed read_body ask_remote req set_cookie body r e =
    elim (Option-cases (query_param req (codes "via"))) [
      | inl q ↦ absurd (unrelayed (arm req.path routes) (rw (q, route) at e))
      | inr (name, q) ↦ elim (Option-cases (ask_remote name)) [
        | inl p ↦ cc (rw (q, p, route) at e)
        | inr (r', p) ↦ (name, q, p ∙ the_one r' (arm req.path relays) (rw (q, p, route) at e))
      ]
    ]
  where
    unrelayed :
        (o : Option Route)
        → ¬ (
            relay_of
              (elim o [ some handler ↦ routed handler body | none ↦ serve_static set_cookie ])
            ≡ some r)
    unrelayed none q = cc
    unrelayed (some handler) q = cc

    the_one :
        (r' : Remote) (o : Option Relay)
        → relay_of (elim o [ some relay ↦ relayed relay r' body | none ↦ not_reached req.path ])
          ≡ some r
        → some r' ≡ some r
    the_one r' none q = cc
    the_one r' (some relay) q = q

-- A request is relayed to another machine only if it carries the secret, and only to the machine
-- that the actor has for the name in `via`: to no address of the request's own.
pub handle-relayed :
    (read_body : Request → Result Text (List ℕ)) (ask_remote : Text → Option Remote) (secret : Text)
    (req : Request) (r : Remote)
    → relay_of (handle read_body ask_remote secret req) ≡ some r
    → IsSigned secret req
      × ((name : Text) × (query_param req (codes "via") ≡ some name) × (ask_remote name ≡ some r))
unfolding handle let_in
handle-relayed read_body ask_remote secret req r e = elim (Bool-cases (authed secret req)) [
  | inr shut ↦ elim (Bool-cases (is_public_asset req.path)) [
    | inl y ↦ cc (rw (handle, shut, y) at e)
    | inr n ↦ elim (Bool-cases (wants_html req)) [
      | inl page ↦ cc (rw (handle, shut, n, page) at e)
      | inr plain ↦ cc (rw (handle, shut, n, plain) at e)
    ]
  ]
  | inl signed ↦
      let e' : relay_of (let_in read_body ask_remote req) ≡ some r = rw (handle, signed) at e in
      (
        authed→IsSigned secret req signed,
        elim (Bool-cases (has_body req)) [
          | inr n ↦ route-relayed read_body ask_remote req _ [] r (rw (let_in, n) at e')
          | inl y ↦ elim (Result-cases (read_body req)) [
            | inl (why, q) ↦ cc (rw (let_in, y, q) at e')
            | inr (body, q) ↦
                route-relayed read_body ask_remote req _ body r (rw (let_in, y, q) at e')
          ]
        ],
      )
]

-- A forwarded port passes a request on only if its cookie is the secret and its query has no token;
-- it turns a request away exactly if it carries the secret in neither.
pub forward-passed_on :
    (secret : Text) (req : Request)
    → (forward secret req ≡ passed_on
        → Carries secret (cookie req (codes "sh_token")) × (query_param req (codes "token") ≡ none))
      × (forward secret req ≡ turned_away ↔ ¬ IsSigned secret req)
unfolding forward
forward-passed_on secret req = (passed, (away, λ h. rw (forward, not-IsSigned secret req h)))
  where
    passed :
        forward secret req ≡ passed_on
        → Carries secret (cookie req (codes "sh_token")) × (query_param req (codes "token") ≡ none)
    passed e = elim (Bool-cases (authed secret req)) [
      | inr shut ↦ cc (rw (forward, shut) at e)
      | inl signed ↦ elim (Option-cases (query_param req (codes "token"))) [
        | inr (t, q) ↦ cc (rw (forward, signed, q) at e)
        | inl q ↦ elim (authed→IsSigned secret req signed) [ inl c ↦ cc (q, c.1) | inr c ↦ (c, q) ]
      ]
    ]

    away : forward secret req ≡ turned_away → ¬ IsSigned secret req
    away e signed = elim (Option-cases (query_param req (codes "token"))) [
      | inr (t, q) ↦ cc (rw (forward, IsSigned→authed secret req signed, q) at e)
      | inl q ↦ cc (rw (forward, IsSigned→authed secret req signed, q) at e)
    ]
