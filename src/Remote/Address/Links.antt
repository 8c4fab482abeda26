-- ===== src/Remote/Address/Links.antt =====
-- Pairing links, written and read back.
use sessionhub.Base.{
  ℕ, ◌<◌, ◌≡◌, ◌≢◌, refl, sym, ap, ◌∙◌, Bool, true, false, ◌||◌, [], ◌∷◌, ◌++◌, none, some, same,
  ◌==◌, if◌then◌else◌, All, All-append, arith, codes, append_assoc,
}
use sessionhub.Base.Result.{ok}
use sessionhub.Utf8.{Text, is_whitespace}
use sessionhub.Utf8.Laws.{Solid, trim-Solid}
use sessionhub.Strings.{filter_map, value_of, decimal, first_part}
use sessionhub.Strings.Laws.{
  Without, first_part-front, split_once-front, split_once-none, split-alone,
}
use sessionhub.Remote.Address.{
  or_default, trimmed, strip_scheme, split_hostport, split_or_all, some_text, find_param, param,
  pair_link, parse_link,
}
use sessionhub.Remote.Address.Parts.{
  IsHost, IsInner, All-map, host-IsInner, decimal-IsInner, host_port, split_hostport-host_port,
  host_port-IsPlain, strip_scheme-sessionhub,
}
use sessionhub.Remote.Address.RoundTrip.{KeepsLower, solid, slashless, not_empty, not_empty_front}

-- A token as `pair_link` can carry it: something, without white space, `&` and `;`.
abbrev pub IsToken : Text → Type 0
IsToken token = (token ≢ []) × Solid token × Without (λ c. c == b'&' || c == b';') token

trimmed_token :
    (token : Text)
    → Solid token
    → trimmed (codes "token" ++ b'=' ∷ token) ≡ some (codes "token", token)
unfolding trimmed is_whitespace
trimmed_token token hs = rw (
  trimmed,
  split_once-front b'=' (codes "token") token (refl, (refl, (refl, (refl, (refl, tt))))),
  trim-Solid (codes "token") (refl, (refl, (refl, (refl, (refl, tt))))),
  trim-Solid token hs,
)

find_param-alone :
    (blob key value name : Text)
    → Without (λ c. c == b'&' || c == b';') blob
    → trimmed blob ≡ some (key, value)
    → same value [] ≡ false
    → find_param blob name ≡ (if same key name then some value else none)
unfolding find_param filter_map value_of
find_param-alone blob key value name apart e filled =
    rw (find_param, split-alone (λ c. c == b'&' || c == b';') blob apart, filter_map, e)
      (one (same key name) filled)
  where
    one :
        (b : Bool)
        → same value [] ≡ false
        → some_text (if b then some value else none) ≡ (if b then some value else none)
    one true e = rw e
    one false e = refl

find_param-named :
    (token name : Text)
    → IsToken token
    → find_param (codes "token" ++ b'=' ∷ token) name
      ≡ (if same (codes "token") name then some token else none)
find_param-named token name (filled, hs, hw) =
    find_param-alone (codes "token" ++ b'=' ∷ token) (codes "token") token name
      (refl, (refl, (refl, (refl, (refl, (refl, hw)))))) (trimmed_token token hs)
      (not_empty token filled)

find_param-nothing : (name : Text) → find_param [] name ≡ none
unfolding find_param filter_map value_of trimmed
find_param-nothing name = refl

-- The address of a link, and the link as it is split.
link_text :
    (host : Text) (port : ℕ) (token : Text)
    → pair_link host port token
      ≡ codes "sessionhub://"
        ++ ((host_port host port ++ codes "/pair") ++ b'#' ∷ (codes "token" ++ b'=' ∷ token))
unfolding pair_link
link_text host port token =
    ap (λ t. codes "sessionhub://" ++ t)
      (sym (append_assoc host (b':' ∷ decimal port) (codes "/pair#token=" ++ token))
        ∙ sym (
            append_assoc (host_port host port) (codes "/pair")
              (b'#' ∷ (codes "token" ++ b'=' ∷ token))))

address-All :
    (P : ℕ → Type 0) (host : Text) (port : ℕ)
    → ((c : ℕ) → IsInner c → P c)
    → P b':'
    → All P (codes "/pair")
    → All IsInner host
    → All P (host_port host port ++ codes "/pair")
address-All P host port f colon pair h =
    All-append P (host_port host port) (codes "/pair")
      (All-append P host (b':' ∷ decimal port) (All-map f host h)
        (colon, All-map f (decimal port) (decimal-IsInner port)))
      pair

link-Solid :
    (host : Text) (port : ℕ) (token : Text)
    → All IsInner host
    → Solid token
    → Solid (
        codes "sessionhub://"
        ++ ((host_port host port ++ codes "/pair") ++ b'#' ∷ (codes "token" ++ b'=' ∷ token)))
unfolding is_whitespace
link-Solid host port token inner hs =
    All-append _ (codes "sessionhub://") _
      (
        refl,
        (
          refl,
          (
            refl,
            (refl, (refl, (refl, (refl, (refl, (refl, (refl, (refl, (refl, (refl, tt)))))))))),
          ),
        ),
      )
      (All-append _ (host_port host port ++ codes "/pair") _
        (address-All _ host port (λ c i. i.5) refl (refl, (refl, (refl, (refl, (refl, tt))))) inner)
        (refl, (refl, (refl, (refl, (refl, (refl, (refl, hs))))))))

parse_link-parts :
    (is_ip : Text → Bool) (to_lowercase : Text → Text)
    (text rest address fragment hostport host token access_id access_secret : Text) (port : ℕ)
    → Solid text
    → same text [] ≡ false
    → strip_scheme text ≡ (false, rest)
    → split_or_all b'#' rest ≡ (address, fragment)
    → split_or_all b'?' address ≡ (address, [])
    → param fragment [] (codes "token") ≡ token
    → param fragment [] (codes "cf_id") ≡ access_id
    → param fragment [] (codes "cf_secret") ≡ access_secret
    → same token [] ≡ false
    → first_part b'/' address ≡ hostport
    → Solid hostport
    → same hostport [] ≡ false
    → split_hostport hostport ≡ ok (host, some port)
    → same host [] ≡ false
    → (port == 0) ≡ false
    → parse_link is_ip to_lowercase text
      ≡ ok (record {
        host = to_lowercase host;
        port = port;
        tls = false;
        token = token;
        access_id = access_id;
        access_secret = access_secret;
      })
unfolding parse_link
parse_link-parts is_ip to_lowercase text rest address fragment hostport host token access_id
      access_secret port whole some_link scheme hash quest t i k filled first solid_host some_host
      parts named nonzero =
    rw (
      parse_link,
      trim-Solid text whole,
      some_link,
      scheme,
      hash,
      quest,
      t,
      i,
      k,
      filled,
      first,
      trim-Solid hostport solid_host,
      some_host,
      parts,
      named,
      nonzero,
    )

-- The link that a machine shows is read back by `parse_link`: the host, the port and the token of
-- it, without TLS and without an access key, for a host of lower-case letters, digits, `-`, `_` and
-- `.`, a port above 0, and a token that is not empty and has no white space, `&` and `;` in it.
pub parse_link-pair_link :
    (is_ip : Text → Bool) (to_lowercase : Text → Text)
    → KeepsLower to_lowercase
    → (host : Text) (port : ℕ) (token : Text) → IsHost host
    → 0 < port
    → port < 65536
    → IsToken token
    → parse_link is_ip to_lowercase (pair_link host port token)
      ≡ ok (record {
        host = host;
        port = port;
        tls = false;
        token = token;
        access_id = [];
        access_secret = [];
      })
unfolding split_or_all param
parse_link-pair_link is_ip to_lowercase lowers host port token h positive small ht =
    let inner = host-IsInner host h in
    let address : Text = host_port host port ++ codes "/pair" in
    let rest : Text = codes "token" ++ b'=' ∷ token in
    let no_hash : Without (λ c. c == b'#') address =
      address-All (λ c. (c == b'#') ≡ false) host port (λ c i. i.3) refl
        (refl, (refl, (refl, (refl, (refl, tt))))) inner in
    let no_quest : Without (λ c. c == b'?') address =
      address-All (λ c. (c == b'?') ≡ false) host port (λ c i. i.4) refl
        (refl, (refl, (refl, (refl, (refl, tt))))) inner in
    let plain = host_port-IsPlain host port inner in
    ap (parse_link is_ip to_lowercase) (link_text host port token)
    ∙ parse_link-parts is_ip to_lowercase (codes "sessionhub://" ++ (address ++ b'#' ∷ rest))
        (address ++ b'#' ∷ rest) address rest (host_port host port) host token [] [] port
        (link-Solid host port token inner ht.1) refl
        (strip_scheme-sessionhub (address ++ b'#' ∷ rest))
        (rw (split_or_all, split_once-front b'#' address rest no_hash))
        (rw (split_or_all, split_once-none b'?' address no_quest))
        (ap (λ o. or_default o (find_param [] (codes "token")))
          (find_param-named token (codes "token") ht))
        (ap (λ o. or_default o (find_param [] (codes "cf_id")))
            (find_param-named token (codes "cf_id") ht)
          ∙ ap (or_default none) (find_param-nothing (codes "cf_id")))
        (ap (λ o. or_default o (find_param [] (codes "cf_secret")))
            (find_param-named token (codes "cf_secret") ht)
          ∙ ap (or_default none) (find_param-nothing (codes "cf_secret")))
        (not_empty token ht.0)
        (first_part-front b'/' (host_port host port) (codes "pair")
          (slashless (host_port host port) plain))
        (solid (host_port host port) plain) (not_empty_front host b':' (decimal port))
        (split_hostport-host_port host port inner small) (not_empty host h.0) (ground arith)
    ∙ rw (lowers host h.1)
