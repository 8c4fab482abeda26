-- ===== src/Http/Queries.antt =====
-- Queries put together of names and encoded values, and the redirect that leaves the token out.
use mathlib.Core.Option
use sessionhub.Base.{
  ℕ, ◌<◌, ◌≡◌, refl, ap, ◌∙◌, inl, inr, Bool, true, false, not, List, [], ◌∷◌, ◌++◌, map, none,
  ◌==◌, All, All-append, arith, Bool-cases, codes, same, same→eq, Option-cases,
}
use sessionhub.Utf8.{Text, split, as_bytes}
use sessionhub.Utf8.Encoding.{IsScalar, as_bytes-small}
use sessionhub.Strings.{split_once, join, filter, filter_map, value_of, starts_with}
use sessionhub.Strings.Laws.{
  Without, split-join, split-Without, split_once-front, split_once-none, split_once-append,
  filter-All, filter-passes,
}
use sessionhub.Remote.{encode_byte, encode_all, percent_encode}
use sessionhub.Http.{
  Request, percent_decode, query_param, path_without_token, is_empty, is_kept, with_query,
  target_of,
}
use sessionhub.Http.Percent.{percent_decode-percent_encode}

abbrev pub is_amp : ℕ → Bool
is_amp c = c == b'&'

abbrev pub is_equals : ℕ → Bool
is_equals c = c == b'='

-- `name=value`, the value encoded.
abbrev pub pair_text : Text × Text → Text
pair_text (name, value) = name ++ b'=' ∷ percent_encode value

-- A name without a separator, and a value of Unicode scalar values.
abbrev pub IsPair : Text × Text → Type 0
IsPair pair = Without is_amp pair.0 × Without is_equals pair.0 × All IsScalar pair.1

encode_byte-plain : (b : ℕ) → b < 256 → Without is_amp (encode_byte b)
encode_byte-plain b h = ground arith

encode_all-plain : (bs : List ℕ) → All (λ b. b < 256) bs → Without is_amp (encode_all bs)
unfolding encode_all
encode_all-plain [] h = tt
encode_all-plain (b ∷ bs) (hb, hs) =
    All-append (λ c. is_amp c ≡ false) (encode_byte b) (encode_all bs) (encode_byte-plain b hb)
      (encode_all-plain bs hs)

pair_text-plain : (pair : Text × Text) → IsPair pair → Without is_amp (pair_text pair)
unfolding percent_encode
pair_text-plain (name, value) (amp, eq, scalar) =
    All-append (λ c. is_amp c ≡ false) name (b'=' ∷ percent_encode value) amp
      (refl, encode_all-plain (as_bytes value) (as_bytes-small value scalar))

pairs-plain :
    (pairs : List (Text × Text)) → All IsPair pairs → All (Without is_amp) (map pair_text pairs)
pairs-plain [] h = tt
pairs-plain (pair ∷ pairs) (h, hs) = (pair_text-plain pair h, pairs-plain pairs hs)

abbrev encoded : Text × Text → Text × Text
encoded (name, value) = (name, percent_encode value)

filter_map-pairs :
    (pairs : List (Text × Text))
    → All IsPair pairs
    → filter_map (λ kv. split_once b'=' kv) (map pair_text pairs) ≡ map encoded pairs
unfolding filter_map
filter_map-pairs [] h = refl
filter_map-pairs ((name, value) ∷ pairs) ((amp, eq, scalar), hs) =
    rw (split_once-front b'=' name (percent_encode value) eq, filter_map, filter_map-pairs pairs hs)

value_of-encoded :
    (name : Text) (pairs : List (Text × Text))
    → All IsPair pairs
    → Option.map percent_decode (value_of name (map encoded pairs)) ≡ value_of name pairs
unfolding value_of
value_of-encoded name [] h = refl
value_of-encoded name ((k, v) ∷ pairs) ((amp, eq, scalar), hs) = elim (Bool-cases (same k name)) [
  | inl y ↦ rw (y, percent_decode-percent_encode v scalar)
  | inr n ↦ rw n (value_of-encoded name pairs hs)
]

-- Of a query that joins names and percent-encoded values by `=` and `&`, the names without `=` and
-- `&` and the values of Unicode scalar values, `query_param` gives the value of the first pair of
-- the name, as it was before it was encoded, or none where no pair has the name.
pub query_param-join :
    (req : Request) (pair : Text × Text) (pairs : List (Text × Text)) (name : Text)
    → req.query ≡ join (codes "&") (map pair_text (pair ∷ pairs))
    → All IsPair (pair ∷ pairs)
    → query_param req name ≡ value_of name (pair ∷ pairs)
unfolding query_param
query_param-join req pair pairs name e h =
    rw
      (
        query_param,
        e,
        split-join b'&' (pair_text pair) (map pair_text pairs) (pairs-plain (pair ∷ pairs) h),
        filter_map-pairs (pair ∷ pairs) h,
      )
      (value_of-encoded name (pair ∷ pairs) h)

abbrev IsKept : Text → Type 0
IsKept kv = is_kept kv ≡ true

token_start : (b : Text) → starts_with (codes "token=") (codes "token" ++ b'=' ∷ b) ≡ true
unfolding starts_with
token_start b = refl

not_token : (kv b : Text) → IsKept kv → ¬ (kv ≡ codes "token" ++ b'=' ∷ b)
not_token kv b h e =
    let start : starts_with (codes "token=") kv ≡ true =
      ap (starts_with (codes "token=")) e ∙ token_start b in
    elim (Bool-cases (not (is_empty kv))) [
      | inl y ↦ cc (rw (y, start) at h)
      | inr n ↦ cc (rw n at h)
    ]

value_of-kept :
    (kvs : List Text)
    → All IsKept kvs
    → value_of (codes "token") (filter_map (λ kv. split_once b'=' kv) kvs) ≡ none
unfolding filter_map value_of
value_of-kept [] h = refl
value_of-kept (kv ∷ kvs) (h, hs) = elim (Option-cases (split_once b'=' kv)) [
  | inl q ↦ rw (q, filter_map) (value_of-kept kvs hs)
  | inr ((a, b), q) ↦ elim (Bool-cases (same a (codes "token"))) [
    | inl y ↦ absurd (
        not_token kv b h
          (split_once-append b'=' kv a b q ∙ ap (λ x. x ++ b'=' ∷ b) (same→eq a (codes "token") y)))
    | inr n ↦ rw (q, filter_map, n) (value_of-kept kvs hs)
  ]
]

with_query-target :
    (path : Text) (kvs : List Text)
    → Without (λ c. c == b'?') path
    → target_of (with_query path kvs) ≡ (path, join (codes "&") kvs)
unfolding with_query join
with_query-target path [] h = rw (target_of, split_once-none b'?' path h)
with_query-target path (kv ∷ kvs) h =
    rw (target_of, split_once-front b'?' path (join (codes "&") (kv ∷ kvs)) h)

tokenless :
    (next : Request) (kvs : List Text)
    → next.query ≡ join (codes "&") kvs
    → All (Without is_amp) kvs
    → All IsKept kvs
    → query_param next (codes "token") ≡ none
unfolding query_param join
tokenless next [] e a k = rw (query_param, e)
tokenless next (kv ∷ kvs) e a k =
    rw (query_param, e, split-join b'&' kv kvs a, value_of-kept (kv ∷ kvs) k)

-- The redirect that follows the setting of the cookie, where the path has no `?` in it: read as a
-- request's target it has the same path, and a request with its query has no `token` in it.
pub path_without_token-tokenless :
    (req next : Request)
    → Without (λ c. c == b'?') req.path
    → next.query ≡ (target_of (path_without_token req)).1
    → ((target_of (path_without_token req)).0 ≡ req.path)
      × (query_param next (codes "token") ≡ none)
unfolding path_without_token
path_without_token-tokenless req next h e =
    let kvs = filter is_kept (split is_amp req.query) in
    let target = with_query-target req.path kvs h in
    (
      ap (λ t. t.0) target,
      tokenless next kvs (e ∙ ap (λ t. t.1) target)
          (filter-All (Without is_amp) is_kept (split is_amp req.query)
            (split-Without is_amp req.query))
          (filter-passes is_kept (split is_amp req.query)),
    )
