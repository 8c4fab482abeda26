-- ===== src/Http.antt =====
-- src/http.rs: requests taken apart, and the gate in front of every route. Sockets, and what a route
-- does once it is chosen, are not here.
pub mod Gate
pub mod Percent
pub mod Queries
mod Tests
use mathlib.Core.Option
use sessionhub.Base.{
  ℕ, zero, suc, ◌+◌, ◌-◌, ◌*◌, Bool, true, false, not, ◌||◌, ◌&&◌, List, [], ◌∷◌, ◌++◌, map, Option,
  none, some, length, any, all, same, ◌==◌, within, if◌then◌else◌, codes, bit_or, bit_xor,
}
use sessionhub.Utf8.{Text, as_bytes, from_utf8_lossy, trim, split, is_alphanumeric}
use sessionhub.Strings.{
  split_once, starts_with, join, to_ascii_lowercase, filter, filter_map, value_of,
}

pub record Request : Type 0 where
  path : Text
  query : Text
  headers : List (Text × Text)

-- `split("\r\n")`.
unfoldable pub split_lines : Text → List Text
split_lines [] = [] ∷ []
split_lines (c ∷ cs) = elim (split_lines cs) [
  | [] ↦ []
  | [] ∷ parts ↦ (c ∷ []) ∷ parts
  | (d ∷ part) ∷ parts ↦ if c == 13 && d == 10 then [] ∷ part ∷ parts else (c ∷ d ∷ part) ∷ parts
]

abbrev pub is_empty : Text → Bool
is_empty cs = same cs []

abbrev pub header_of : Text → Option (Text × Text)
header_of line = Option.map (λ p. (to_ascii_lowercase (trim p.0), trim p.1)) (split_once b':' line)

abbrev pub target_of : Text → Text × Text
target_of target = elim (split_once b'?' target) [ some p ↦ p | none ↦ (target, []) ]

unfoldable pub parse : Text → Option Request
unfolding split_lines split split_once filter filter_map trim
parse head = elim (split_lines head) [
  | [] ↦ none
  | line ∷ lines ↦ elim (split (λ c. c == b' ') line) [
    | method ∷ target ∷ rest ↦ some (record {
      path = (target_of target).0;
      query = (target_of target).1;
      headers = filter_map header_of (filter (λ l. not (is_empty l)) lines);
    })
    | _ ↦ none
  ]
]

unfoldable pub header : Request → Text → Option Text
unfolding value_of
header req name = value_of name req.headers

unfoldable pub cookie : Request → Text → Option Text
unfolding header value_of split split_once filter_map trim
cookie req name = elim (header req (codes "cookie")) [
  | none ↦ none
  | some line ↦
      value_of name (filter_map (λ kv. split_once b'=' (trim kv)) (split (λ c. c == b';') line))
]

abbrev pub hex_digit : ℕ → Option ℕ
hex_digit c =
    if within b'0' b'9' c
    then some (c - b'0')
    else if within b'a' b'f' c
    then some (c - b'a' + 10)
    else if within b'A' b'F' c
    then some (c - b'A' + 10)
    else none

-- `u8::from_str_radix(…, 16)` of two bytes, as text: a `+` may stand in front.
unfoldable pub hex_pair : ℕ → ℕ → Option ℕ
hex_pair h l = elim (hex_digit l) [
  | none ↦ none
  | some y ↦ if h == b'+' then some y else Option.map (λ x. x * 16 + y) (hex_digit h)
]

-- A turn of the loop at a byte: the byte put out, and how many of those behind it are taken too.
unfoldable pub decoded : ℕ → List ℕ → ℕ × ℕ
unfolding hex_pair
decoded b (h ∷ l ∷ rest) =
    if b == b'%' then elim (hex_pair h l) [ some v ↦ (v, 2) | none ↦ (b, 0) ] else (b, 0)
decoded b _ = (b, 0)

-- The loop, with the bytes still to pass over.
unfoldable pub decode_bytes : ℕ → List ℕ → List ℕ
unfolding decoded
decode_bytes skip [] = []
decode_bytes (suc skip) (b ∷ bs) = decode_bytes skip bs
decode_bytes zero (b ∷ bs) = (decoded b bs).0 ∷ decode_bytes (decoded b bs).1 bs

unfoldable pub percent_decode : Text → Text
unfolding decode_bytes from_utf8_lossy as_bytes
percent_decode raw =
    if any (λ c. c == b'%') raw then from_utf8_lossy (decode_bytes 0 (as_bytes raw)) else raw

unfoldable pub query_param : Request → Text → Option Text
unfolding value_of split split_once filter_map percent_decode
query_param req name =
    Option.map percent_decode
      (value_of name (filter_map (λ kv. split_once b'=' kv) (split (λ c. c == b'&') req.query)))

-- A piece of a query that is there and is not a token's.
abbrev pub is_kept : Text → Bool
is_kept kv = not (is_empty kv) && not (starts_with (codes "token=") kv)

unfoldable pub with_query : Text → List Text → Text
unfolding join
with_query path [] = path
with_query path (kv ∷ kvs) = path ++ b'?' ∷ join (codes "&") (kv ∷ kvs)

unfoldable pub path_without_token : Request → Text
unfolding split starts_with filter with_query
path_without_token req = with_query req.path (filter is_kept (split (λ c. c == b'&') req.query))

-- `zip` and `fold`.
unfoldable pub differences : ℕ → List ℕ → List ℕ → ℕ
differences acc (a ∷ more) (b ∷ bs) = differences (bit_or acc (bit_xor a b)) more bs
differences acc _ _ = acc

unfoldable pub token_ok : Text → Option Text → Bool
unfolding differences as_bytes
token_ok expected none = false
token_ok expected (some given) =
    if length (as_bytes given) == length (as_bytes expected)
    then differences 0 (as_bytes expected) (as_bytes given) == 0
    else false

-- `page_id`.
unfoldable pub page_id : Request → Option Text
unfolding query_param
page_id req = elim (query_param req (codes "page")) [
  | none ↦ none
  | some p ↦
      if within 8 64 (length (as_bytes p)) && all is_alphanumeric (as_bytes p) then some p else none
]
