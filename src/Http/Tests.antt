-- ===== src/Http/Tests.antt =====
-- Requests taken apart and judged, and the theorems of this folder at them.
use sessionhub.Base.{
  ℕ, ◌≡◌, refl, inl, inr, true, List, [], ◌∷◌, ◌++◌, Option, none, some, codes, arith,
}
use sessionhub.Base.Result.{Result, ok}
use sessionhub.Utf8.{Text, is_whitespace, encode_char, front}
use sessionhub.Remote.{Remote, percent_encode}
use sessionhub.Strings.{join, value_of, split_once}
use sessionhub.Http.{
  Request, parse, percent_decode, query_param, path_without_token, target_of, token_ok, cookie,
}
use sessionhub.Http.Queries.{pair_text, query_param-join, path_without_token-tokenless}
use sessionhub.Http.Gate.{handle, relayed, relay_file}
use sessionhub.Http.Gate.Closed.{IsSigned, IsRefusal, handle-refused, handle-relayed, relay_of}

abbrev secret : Text
secret = codes "s3cret"

abbrev there : Remote
there = record {
  name = codes "box";
  addr = codes "10.0.0.2:7717";
  token = codes "t";
  version = [];
  access_id = [];
  access_secret = [];
}

abbrev no_body : Request → Result Text (List ℕ)
no_body req = ok []

abbrev ask : Text → Option Remote
ask name = value_of name ((codes "box", there) ∷ [])

abbrev bare : Request
bare = record {
  path = codes "/";
  query = [];
  headers = (codes "accept", codes "text/html,*/*") ∷ [];
}

abbrev via_box : Request
via_box = record {
  path = codes "/api/file";
  query = codes "path=C%3A%5Cx&via=box";
  headers = (codes "cookie", codes "a=b; sh_token=s3cret") ∷ [];
}

reads_a_head :
    parse (codes "GET /a?b=c HTTP/1.1" ++ 13 ∷ 10 ∷ codes "Host: h" ++ 13 ∷ 10 ∷ 13 ∷ 10 ∷ [])
    ≡ some (record {
      path = codes "/a";
      query = codes "b=c";
      headers = (codes "host", codes "h") ∷ [];
    })
unfolding parse is_whitespace
reads_a_head = refl

decodes_a_path : query_param via_box (codes "path") ≡ some (codes "C:\\x")
unfolding query_param encode_char front
decodes_a_path = refl

-- A sign passes for a digit.
plus_is_taken : percent_decode (codes "a%+4b") ≡ b'a' ∷ 4 ∷ b'b' ∷ []
unfolding percent_decode encode_char front
plus_is_taken = refl

relays : handle no_body ask secret via_box ≡ relayed relay_file there []
unfolding handle is_whitespace encode_char
relays = refl

-- An empty secret lets an empty token in.
empty_secret : token_ok [] (some []) ≡ true
unfolding token_ok
empty_secret = refl

bare-unsigned : ¬ IsSigned secret bare
unfolding query_param cookie
bare-unsigned (inl (t, q, e)) = cc
bare-unsigned (inr (t, q, e)) = cc

handle-refused_example : IsRefusal bare (handle no_body ask secret bare)
handle-refused_example = handle-refused no_body ask secret bare bare-unsigned

handle-relayed_example :
    IsSigned secret via_box
    × ((name : Text) × (query_param via_box (codes "via") ≡ some name) × (ask name ≡ some there))
unfolding handle is_whitespace encode_char
handle-relayed_example = handle-relayed no_body ask secret via_box there is_relayed
  where
    is_relayed : relay_of (handle no_body ask secret via_box) ≡ some there
    is_relayed = refl

abbrev asked : Request
asked = record { path = codes "/api/file"; query = codes "via=a%26b&x="; headers = [] }

query_param-join_example :
    query_param asked (codes "via")
    ≡ value_of (codes "via") ((codes "via", codes "a&b") ∷ (codes "x", []) ∷ [])
unfolding join percent_encode encode_char
query_param-join_example =
    query_param-join asked (codes "via", codes "a&b") ((codes "x", []) ∷ []) (codes "via")
      same_query
      (
        (
          (refl, (refl, (refl, tt))),
          (refl, (refl, (refl, tt))),
          (inl (omega arith), (inl (omega arith), (inl (omega arith), tt))),
        ),
        (((refl, tt), (refl, tt), tt), tt),
      )
  where
    same_query :
        asked.query
        ≡ join (codes "&") (pair_text (codes "via", codes "a&b") ∷ pair_text (codes "x", []) ∷ [])
    same_query = refl

abbrev first_visit : Request
first_visit = record { path = codes "/a"; query = codes "x=1&token=s3cret"; headers = [] }

abbrev second_visit : Request
second_visit = record { path = codes "/a"; query = codes "x=1"; headers = [] }

path_without_token-tokenless_example :
    ((target_of (path_without_token first_visit)).0 ≡ codes "/a")
    × (query_param second_visit (codes "token") ≡ none)
unfolding split_once path_without_token
path_without_token-tokenless_example =
    path_without_token-tokenless first_visit second_visit (refl, (refl, tt)) same_query
  where
    same_query : second_visit.query ≡ (target_of (path_without_token first_visit)).1
    same_query = refl
