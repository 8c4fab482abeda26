-- ===== src/Remote.antt =====
-- src/remote.rs: the names of paired machines, and what is written to them in requests. The
-- connections themselves are not here.
pub mod Address
pub mod Names
pub mod Reordered
mod Tests
use sessionhub.Base.{
  ℕ, zero, suc, ◌+◌, ◌-◌, ◌*◌, ◌/◌, ◌%◌, Bool, not, ◌||◌, List, [], ◌∷◌, ◌++◌, Option, none, some,
  length, any, all, same, ltb, ◌==◌, within, if◌then◌else◌, codes,
}
use sessionhub.Base.Result.{Result, err, ok}
use sessionhub.Strings.{decimal}
use sessionhub.Utf8.{Text, as_bytes, is_alphanumeric, is_digit}

pub record Remote : Type 0 where
  pub name : Text
  pub addr : Text
  pub token : Text
  pub version : Text
  pub access_id : Text
  pub access_secret : Text

abbrev pub is_unreserved : ℕ → Bool
is_unreserved b = is_alphanumeric b || (b == b'-' || (b == b'_' || (b == b'.' || b == b'~')))

-- A digit of `{:X}`.
abbrev pub hex_upper : ℕ → ℕ
hex_upper n = if ltb n 10 then b'0' + n else b'A' + (n - 10)

abbrev pub encode_byte : ℕ → Text
encode_byte b =
    if is_unreserved b then b ∷ [] else b'%' ∷ hex_upper (b / 16) ∷ hex_upper (b % 16) ∷ []

unfoldable pub encode_all : List ℕ → Text
encode_all [] = []
encode_all (b ∷ bs) = encode_byte b ++ encode_all bs

unfoldable pub percent_encode : Text → Text
unfolding encode_all as_bytes
percent_encode raw = encode_all (as_bytes raw)

unfoldable pub find : List Remote → Text → Option Remote
find [] name = none
find (r ∷ rs) name = if same r.name name then some r else find rs name

abbrev pub candidate : Text → ℕ → Text
candidate base n = base ++ b'-' ∷ decimal n

-- The loop from `n` on, with the numbers left to try.
unfoldable pub first_free : List Remote → Text → ℕ → ℕ → Text
unfolding find decimal
first_free remotes base n zero = base ++ codes "-x"
first_free remotes base n (suc left) =
    let rest = first_free remotes base (suc n) left in
    elim (find remotes (candidate base n)) [ none ↦ candidate base n | some r ↦ rest ]

-- The name to start from.
abbrev pub base_name : Text → Text
base_name wanted = if same wanted [] then codes "remote" else wanted

unfoldable pub unique_name : List Remote → Text → Text
unfolding find first_free
unique_name remotes wanted = elim (find remotes (base_name wanted)) [
  | none ↦ base_name wanted
  | some r ↦ first_free remotes (base_name wanted) 2 998
]

-- Why a name is refused.
pub data NameError : Type 0 where
  empty_name long_name odd_name : NameError

abbrev pub is_name_char : ℕ → Bool
is_name_char c = within b'a' b'z' c || (is_digit c || (c == b'-' || (c == b'_' || c == b'.')))

unfoldable pub check_name : Text → Result NameError (Unit {0})
check_name name =
    if same name []
    then err empty_name
    else if ltb 24 (length name)
    then err long_name
    else if not (all is_name_char name)
    then err odd_name
    else ok tt

-- The alphabet of `base64`.
abbrev pub base64_char : ℕ → ℕ
base64_char n =
    if ltb n 26
    then b'A' + n
    else if ltb n 52
    then b'a' + (n - 26)
    else if ltb n 62
    then b'0' + (n - 52)
    else if n == 62
    then b'+'
    else b'/'

-- A chunk of three, two or one bytes.
abbrev pub chunk3 : ℕ → ℕ → ℕ → Text → Text
chunk3 b0 b1 b2 rest =
    let n = b0 * 65536 + b1 * 256 + b2 in
    base64_char (n / 262144 % 64)
    ∷ base64_char (n / 4096 % 64)
    ∷ base64_char (n / 64 % 64)
    ∷ base64_char (n % 64)
    ∷ rest

unfoldable pub base64 : List ℕ → Text
base64 [] = []
base64 (b0 ∷ []) =
    base64_char (b0 * 65536 / 262144 % 64) ∷ base64_char (b0 * 65536 / 4096 % 64) ∷ b'=' ∷ b'=' ∷ []
base64 (b0 ∷ b1 ∷ []) =
    base64_char ((b0 * 65536 + b1 * 256) / 262144 % 64)
    ∷ base64_char ((b0 * 65536 + b1 * 256) / 4096 % 64)
    ∷ base64_char ((b0 * 65536 + b1 * 256) / 64 % 64)
    ∷ b'='
    ∷ []
base64 (b0 ∷ b1 ∷ b2 ∷ rest) = chunk3 b0 b1 b2 (base64 rest)

-- `reordered` of src/state.rs: the machines that are named, then the others.
abbrev pub has_name : List Remote → Text → Bool
has_name out n = any (λ r. same r.name n) out

abbrev pub push_named : List Remote → List Remote → Text → List Remote
push_named remotes out n =
    if has_name out n then out else elim (find remotes n) [ none ↦ out | some r ↦ out ++ r ∷ [] ]

unfoldable pub take_named : List Remote → List Text → List Remote → List Remote
unfolding find
take_named remotes [] out = out
take_named remotes (n ∷ names) out = take_named remotes names (push_named remotes out n)

unfoldable pub add_rest : List Remote → List Remote → List Remote
add_rest [] out = out
add_rest (r ∷ rs) out = add_rest rs (if has_name out r.name then out else out ++ r ∷ [])

unfoldable pub reordered : List Remote → List Text → List Remote
unfolding take_named add_rest
reordered remotes names = add_rest remotes (take_named remotes names [])
