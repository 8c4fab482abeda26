-- ===== src/Remote/Address.antt =====
-- Addresses and pairing links of src/remote.rs.
pub mod Parts
pub mod RoundTrip
pub mod Links
use mathlib.Core.Option
use sessionhub.Base.{
  ℕ, ◌+◌, ◌-◌, ◌*◌, Bool, true, false, not, ◌||◌, ◌&&◌, List, [], ◌∷◌, ◌++◌, Option, none, some,
  length, drop, any, same, ◌==◌, if◌then◌else◌, codes,
}
use sessionhub.Base.Result.{Result, err, ok, ◌>>=◌, or_err, unless}
use sessionhub.Utf8.{Text, trim, split}
use sessionhub.Strings.{
  split_once, rsplit_once, starts_with, to_ascii_lowercase, filter_map, value_of, parse_below,
  decimal, strip_char, first_part,
}

-- Why an address or a link is refused: the sentences of the source, told apart.
pub data AddressError : Type 0 where
  empty_text no_token no_address no_host no_port zero_port unclosed_bracket not_a_port :
      AddressError

pub record Target : Type 0 where
  pub tls : Bool
  pub host : Text
  pub port : ℕ

pub record PairLink : Type 0 where
  pub host : Text
  pub port : ℕ
  pub tls : Bool
  pub token : Text
  pub access_id : Text
  pub access_secret : Text

abbrev pub default_port : ℕ
default_port = 7717

abbrev pub schemes : List (Text × Bool)
schemes =
    (codes "sessionhub://", false)
    ∷ (codes "https://", true)
    ∷ (codes "http://", false)
    ∷ (codes "wss://", true)
    ∷ (codes "ws://", false)
    ∷ []

-- The loop over the schemes.
unfoldable pub strip_first : List (Text × Bool) → Text → Bool × Text
unfolding starts_with
strip_first [] text = (false, text)
strip_first ((prefix, tls) ∷ more) text =
    if starts_with prefix (to_ascii_lowercase text)
    then (tls, drop (length prefix) text)
    else strip_first more text

unfoldable pub strip_scheme : Text → Bool × Text
unfolding strip_first
strip_scheme text = strip_first schemes text

unfoldable pub parse_port : Text → Result AddressError ℕ
unfolding parse_below
parse_port text = or_err not_a_port (parse_below 65536 text)

abbrev pub with_port : Text → Result AddressError ℕ → Result AddressError (Text × Option ℕ)
with_port host (err why) = err why
with_port host (ok port) = ok (host, some port)

unfoldable pub bracketed : Text → Result AddressError (Text × Option ℕ)
unfolding split_once parse_port
bracketed rest = elim (split_once b']' rest) [
  | none ↦ err unclosed_bracket
  | some p ↦ elim (strip_char b':' p.1) [
    | none ↦ ok (p.0, none)
    | some port ↦ with_port p.0 (parse_port port)
  ]
]

unfoldable pub split_hostport : Text → Result AddressError (Text × Option ℕ)
unfolding bracketed rsplit_once parse_port
split_hostport hostport = elim (strip_char b'[' hostport) [
  | some rest ↦ bracketed rest
  | none ↦ elim (rsplit_once b':' hostport) [
    | some p ↦
        if any (λ c. c == b':') p.0 then ok (hostport, none) else with_port p.0 (parse_port p.1)
    | none ↦ ok (hostport, none)
  ]
]

unfoldable pub authority : Target → Text
unfolding decimal
authority t =
    if any (λ c. c == b':') t.host
    then b'[' ∷ (t.host ++ b']' ∷ b':' ∷ decimal t.port)
    else t.host ++ b':' ∷ decimal t.port

unfoldable pub canonical : Target → Text
unfolding authority decimal
canonical t =
    if t.tls
    then (if t.port == 443
        then codes "https://" ++ t.host
        else codes "https://" ++ (t.host ++ b':' ∷ decimal t.port))
    else authority t

-- `str::split_once`, with the whole text where there is no separator.
unfoldable pub split_or_all : ℕ → Text → Text × Text
unfolding split_once
split_or_all sep cs = elim (split_once sep cs) [ some p ↦ p | none ↦ (cs, []) ]

unfoldable pub trimmed : Text → Option (Text × Text)
unfolding split_once trim
trimmed kv = Option.map (λ p. (trim p.0, trim p.1)) (split_once b'=' kv)

-- A value that is not empty.
abbrev pub some_text : Option Text → Option Text
some_text none = none
some_text (some v) = if same v [] then none else some v

unfoldable pub find_param : Text → Text → Option Text
unfolding filter_map split value_of trimmed
find_param blob name =
    some_text (value_of name (filter_map trimmed (split (λ c. c == b'&' || c == b';') blob)))

-- `or_else` and `unwrap_or_default`.
abbrev pub or_default : Option Text → Option Text → Text
or_default (some v) other = v
or_default none (some v) = v
or_default none none = []

unfoldable pub param : Text → Text → Text → Text
unfolding find_param
param fragment query name = or_default (find_param fragment name) (find_param query name)

unfoldable pub pair_link : Text → ℕ → Text → Text
unfolding decimal
pair_link host port token =
    codes "sessionhub://" ++ (host ++ b':' ∷ (decimal port ++ (codes "/pair#token=" ++ token)))

-- The port of an address that may leave it out.
unfoldable pub port_or : Option ℕ → Bool → ℕ
port_or (some p) tls = p
port_or none tls = if tls then 443 else default_port

-- Whether the standard library reads a text as an IP address, and Unicode's lower case.
module _ (is_ip : Text → Bool) (to_lowercase : Text → Text) where
  unfoldable pub parse_addr : Text → Result AddressError Target
  unfolding trim strip_scheme first_part split_hostport port_or
  parse_addr addr = do
    let text : Text = trim addr
    _ ← unless empty_text (same text [])
    let scheme = strip_scheme text
    parts ← split_hostport (trim (first_part b'/' scheme.1))
    _ ← unless no_host (same parts.0 [])
    let tls : Bool = scheme.0 && not (is_ip parts.0)
    let port : ℕ = port_or parts.1 tls
    _ ← unless zero_port (port == 0)
    ok (record { tls = tls; host = to_lowercase parts.0; port = port })

  unfoldable pub parse_link : Text → Result AddressError PairLink
  unfolding trim strip_scheme split_or_all param first_part split_hostport
  parse_link raw = do
    let text : Text = trim raw
    _ ← unless empty_text (same text [])
    let scheme = strip_scheme text
    let hash = split_or_all b'#' scheme.1
    let quest = split_or_all b'?' hash.0
    let token : Text = param hash.1 quest.1 (codes "token")
    _ ← unless no_token (same token [])
    let hostport : Text = trim (first_part b'/' quest.0)
    _ ← unless no_address (same hostport [])
    parts ← split_hostport hostport
    _ ← unless no_host (same parts.0 [])
    let tls : Bool = scheme.0 && not (is_ip parts.0)
    port ← or_err no_port (elim parts.1 [ some p ↦ some p | none ↦ if tls then some 443 else none ])
    _ ← unless zero_port (port == 0)
    ok (record {
      host = to_lowercase parts.0;
      port = port;
      tls = tls;
      token = token;
      access_id = param hash.1 quest.1 (codes "cf_id");
      access_secret = param hash.1 quest.1 (codes "cf_secret");
    })
