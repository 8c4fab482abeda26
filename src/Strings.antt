-- ===== src/Strings.antt =====
-- What the source uses of the standard library's `str`, besides its encoding.
pub mod Laws
pub mod Numbers
use mathlib.Core.Option
use sessionhub.Base.{
  ℕ, zero, suc, ◌+◌, ◌-◌, ◌*◌, ◌/◌, ◌%◌, Bool, true, false, ◌||◌, ◌&&◌, List, [], ◌∷◌, ◌++◌, map,
  Option, none, some, ltb, ◌==◌, within, if◌then◌else◌, same,
}
use sessionhub.Utf8.{Text, split}

-- `str::split_once`, at a character.
unfoldable pub split_once : ℕ → Text → Option (Text × Text)
split_once at [] = none
split_once at (c ∷ cs) =
    let rest = split_once at cs in
    if c == at then some ([], cs) else Option.map (λ p. (c ∷ p.0, p.1)) rest

-- `str::rsplit_once`.
unfoldable pub rsplit_once : ℕ → Text → Option (Text × Text)
rsplit_once at [] = none
rsplit_once at (c ∷ cs) = elim (rsplit_once at cs) [
  | some p ↦ some (c ∷ p.0, p.1)
  | none ↦ if c == at then some ([], cs) else none
]

-- `str::strip_prefix` and `str::starts_with`.
unfoldable pub strip_start : Text → Text → Option Text
strip_start [] cs = some cs
strip_start (p ∷ ps) [] = none
strip_start (p ∷ ps) (c ∷ cs) = if p == c then strip_start ps cs else none

unfoldable pub starts_with : Text → Text → Bool
starts_with [] cs = true
starts_with (p ∷ ps) [] = false
starts_with (p ∷ ps) (c ∷ cs) = p == c && starts_with ps cs

-- `str::contains`.
unfoldable pub contains : Text → Text → Bool
unfolding starts_with
contains p [] = starts_with p []
contains p (c ∷ cs) = starts_with p (c ∷ cs) || contains p cs

-- `slice::join`, of texts.
unfoldable pub join : Text → List Text → Text
join sep [] = []
join sep (part ∷ []) = part
join sep (part ∷ next ∷ parts) = part ++ (sep ++ join sep (next ∷ parts))

-- `char::to_ascii_lowercase`, and the same on `str`.
abbrev pub to_lower : ℕ → ℕ
to_lower c = if within b'A' b'Z' c then c + 32 else c

abbrev pub to_ascii_lowercase : Text → Text
to_ascii_lowercase = map to_lower

-- `iter().filter` and `iter().filter_map`.
unfoldable pub filter {ℓ} : {A : Type ℓ} → (A → Bool) → List A → List A
filter p [] = []
filter p (x ∷ xs) = let rest = filter p xs in if p x then x ∷ rest else rest

unfoldable pub filter_map {κ ℓ} : {A : Type κ} {B : Type ℓ} → (A → Option B) → List A → List B
filter_map f [] = []
filter_map f (x ∷ xs) = elim (f x) [ none ↦ filter_map f xs | some y ↦ y ∷ filter_map f xs ]

-- The value of the first entry of a name, `find` and `map` over pairs.
unfoldable pub value_of {ℓ} : {A : Type ℓ} → Text → List (Text × A) → Option A
value_of name [] = none
value_of name ((k, v) ∷ entries) = if same k name then some v else value_of name entries

-- The digits of a decimal number, and its value, that runs on from what was read before.
unfoldable pub digits_from : ℕ → Text → Option ℕ
digits_from n [] = some n
digits_from n (c ∷ cs) = if within b'0' b'9' c then digits_from (n * 10 + (c - b'0')) cs else none

abbrev pub unsigned : Text → Option ℕ
unsigned [] = none
unsigned (c ∷ cs) = digits_from 0 (c ∷ cs)

abbrev pub below : ℕ → Option ℕ → Option ℕ
below bound none = none
below bound (some n) = if ltb n bound then some n else none

-- `str::parse`, for an unsigned integer below a bound: a `+` may stand in front.
unfoldable pub parse_below : ℕ → Text → Option ℕ
unfolding digits_from
parse_below bound [] = none
parse_below bound (c ∷ cs) = below bound (if c == b'+' then unsigned cs else unsigned (c ∷ cs))

-- `{}` of a number, its digits put in front of what follows; it has no more digits than `turns`.
unfoldable pub digits_before : ℕ → ℕ → Text → Text
digits_before zero n rest = rest
digits_before (suc turns) n rest =
    let more = digits_before turns (n / 10) ((b'0' + n % 10) ∷ rest) in
    if ltb n 10 then (b'0' + n) ∷ rest else more

unfoldable pub decimal : ℕ → Text
unfolding digits_before
decimal n = digits_before (suc n) n []

-- `str::strip_prefix`, of one character.
abbrev pub strip_char : ℕ → Text → Option Text
strip_char at [] = none
strip_char at (c ∷ cs) = if c == at then some cs else none

-- The first part of a `split`.
unfoldable pub first_part : ℕ → Text → Text
unfolding split
first_part at cs = elim (split (λ c. c == at) cs) [ [] ↦ [] | part ∷ parts ↦ part ]
