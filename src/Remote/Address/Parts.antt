-- ===== src/Remote/Address/Parts.antt =====
-- Hosts, ports and schemes, one at a time.
use sessionhub.Base.{
  ℕ, ◌<◌, ◌≡◌, ◌≢◌, refl, sym, subst, Bool, true, false, ◌||◌, List, [], ◌∷◌, ◌++◌, none, some,
  ◌==◌, within, All, All-append, arith, codes,
}
use sessionhub.Base.Result.{ok}
use sessionhub.Utf8.{Text, is_digit, is_whitespace}
use sessionhub.Strings.{starts_with, to_lower, decimal, strip_char}
use sessionhub.Strings.Laws.{
  Without, to_ascii_lowercase-IsLower, starts_with-scheme, rsplit_once-none, rsplit_once-back,
  any-Without,
}
use sessionhub.Strings.Numbers.{decimal-digits, parse_below-decimal}
use sessionhub.Remote.Address.{strip_first, strip_scheme, parse_port, split_hostport}

-- A character of a host's name as it is stored.
abbrev pub is_host_char : ℕ → Bool
is_host_char c = within b'a' b'z' c || (is_digit c || (c == b'-' || (c == b'_' || c == b'.')))

abbrev pub IsHost : Text → Type 0
IsHost host = (host ≢ []) × All (λ c. is_host_char c ≡ true) host

-- A character that stands neither for a part of an address nor for white space.
abbrev pub IsInner : ℕ → Type 0
IsInner c =
    ((c == b':') ≡ false)
    × ((c == b'/') ≡ false)
    × ((c == b'[') ≡ false)
    × ((c == b'#') ≡ false)
    × ((c == b'?') ≡ false)
    × (is_whitespace c ≡ false)
    × (to_lower c ≡ c)

pub host_char-IsInner : (c : ℕ) → is_host_char c ≡ true → IsInner c
unfolding is_whitespace
host_char-IsInner c h = (
  ground arith,
  ground arith,
  ground arith,
  ground arith,
  ground arith,
  ground arith,
  ground arith,
)

pub digit-IsInner : (c : ℕ) → is_digit c ≡ true → IsInner c
digit-IsInner c h = host_char-IsInner c (ground arith)

pub All-map {ℓ κ μ} :
    {A : Type ℓ} {P : A → Type κ} {Q : A → Type μ}
    → ((x : A) → P x → Q x)
    → (xs : List A) → All P xs
    → All Q xs
All-map f [] h = tt
All-map f (x ∷ xs) (h, hs) = (f x h, All-map f xs hs)

pub host-IsInner : (host : Text) → IsHost host → All IsInner host
host-IsInner host (some_char, h) = All-map host_char-IsInner host h

pub decimal-IsInner : (n : ℕ) → All IsInner (decimal n)
decimal-IsInner n = All-map digit-IsInner (decimal n) (decimal-digits n).3

pub no_colon : (cs : Text) → All IsInner cs → Without (λ c. c == b':') cs
no_colon cs = All-map (λ c h. h.0) cs

pub no_slash : (cs : Text) → All IsInner cs → Without (λ c. c == b'/') cs
no_slash cs = All-map (λ c h. h.1) cs

-- `host:port`.
abbrev pub host_port : Text → ℕ → Text
host_port host port = host ++ b':' ∷ decimal port

pub strip_char-inner :
    (cs : Text) → All IsInner cs → (rest : Text) → strip_char b'[' (cs ++ b':' ∷ rest) ≡ none
strip_char-inner [] h rest = refl
strip_char-inner (c ∷ cs) (h, hs) rest = rw h.2

pub strip_char-alone : (cs : Text) → All IsInner cs → strip_char b'[' cs ≡ none
strip_char-alone [] h = refl
strip_char-alone (c ∷ cs) (h, hs) = rw h.2

pub split_hostport-host_port :
    (host : Text) (port : ℕ)
    → All IsInner host
    → port < 65536
    → split_hostport (host_port host port) ≡ ok (host, some port)
unfolding split_hostport parse_port
split_hostport-host_port host port h small = rw (
  split_hostport,
  strip_char-inner host h (decimal port),
  rsplit_once-back b':' host (decimal port) (no_colon (decimal port) (decimal-IsInner port)),
  any-Without (λ c. c == b':') host (no_colon host h),
  parse_port,
  parse_below-decimal 65536 port small,
)

pub split_hostport-host : (host : Text) → All IsInner host → split_hostport host ≡ ok (host, none)
unfolding split_hostport
split_hostport-host host h =
    rw (split_hostport, strip_char-alone host h, rsplit_once-none b':' host (no_colon host h))

-- Neither white space nor a slash.
abbrev pub IsPlain : Text → Type 0
IsPlain = All (λ c. ((c == b'/') ≡ false) × (is_whitespace c ≡ false) × (to_lower c ≡ c))

pub host_port-IsPlain : (host : Text) (port : ℕ) → All IsInner host → IsPlain (host_port host port)
unfolding is_whitespace
host_port-IsPlain host port h =
    All-append _ host (b':' ∷ decimal port) (plain host h)
      ((refl, refl, refl), plain (decimal port) (decimal-IsInner port))
  where
    plain : (cs : Text) → All IsInner cs → IsPlain cs
    plain cs = All-map (λ c h. (h.1, h.5, h.6)) cs

pub unschemed :
    (scheme more : Text) (host : Text) (port : ℕ)
    → Without (λ c. c == b':') scheme
    → All IsInner host
    → starts_with (scheme ++ b':' ∷ b'/' ∷ more) (host_port host port) ≡ false
unschemed scheme more host port hs h =
    let digits = decimal-digits port in go digits.0 digits.1 digits.2 digits.3
  where
    go :
        (d : ℕ) (ds : Text)
        → decimal port ≡ d ∷ ds
        → All (λ c. is_digit c ≡ true) (decimal port)
        → starts_with (scheme ++ b':' ∷ b'/' ∷ more) (host_port host port) ≡ false
    go d ds e all_digits =
        let first = subst (All (λ c. is_digit c ≡ true)) e all_digits in
        subst (λ t. starts_with (scheme ++ b':' ∷ b'/' ∷ more) (host ++ b':' ∷ t) ≡ false) (sym e)
          (starts_with-scheme scheme more host d ds hs (no_colon host h)
            (digit-IsInner d first.0).1)

pub strip_scheme-host_port :
    (host : Text) (port : ℕ)
    → All IsInner host
    → strip_scheme (host_port host port) ≡ (false, host_port host port)
unfolding strip_scheme strip_first
strip_scheme-host_port host port h =
    let lower =
      to_ascii_lowercase-IsLower (host_port host port)
        (All-map (λ c h. h.2) (host_port host port) (host_port-IsPlain host port h)) in
    rw (
      strip_scheme,
      strip_first,
      lower,
      unschemed (codes "sessionhub") (codes "/") host port
          (refl, (refl, (refl, (refl, (refl, (refl, (refl, (refl, (refl, (refl, tt)))))))))) h,
      unschemed (codes "https") (codes "/") host port (refl, (refl, (refl, (refl, (refl, tt))))) h,
      unschemed (codes "http") (codes "/") host port (refl, (refl, (refl, (refl, tt)))) h,
      unschemed (codes "wss") (codes "/") host port (refl, (refl, (refl, tt))) h,
      unschemed (codes "ws") (codes "/") host port (refl, (refl, tt)) h,
    )

pub strip_scheme-https : (rest : Text) → strip_scheme (codes "https://" ++ rest) ≡ (true, rest)
unfolding strip_scheme strip_first starts_with
strip_scheme-https rest = refl

pub strip_scheme-sessionhub :
    (rest : Text) → strip_scheme (codes "sessionhub://" ++ rest) ≡ (false, rest)
unfolding strip_scheme strip_first starts_with
strip_scheme-sessionhub rest = refl
