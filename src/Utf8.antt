-- ===== src/Utf8.antt =====
-- What the source uses of the standard library's text: `str::from_utf8`, `String::from_utf8_lossy`,
-- `str::trim` and the classes of characters. A text is the list of its code points.
pub mod Laws
pub mod Ascii
pub mod Encoding
use mathlib.Core.Option
use sessionhub.Base.{
  ℕ, zero, suc, ◌+◌, ◌-◌, ◌*◌, ◌/◌, ◌%◌, Bool, true, false, ◌||◌, ◌&&◌, List, [], ◌∷◌, ◌++◌, Option,
  none, some, ltb, leb, ◌==◌, within, if◌then◌else◌, length, drop,
}

-- A Rust `String`, as its characters.
abbrev pub Text : Type 0
Text = List ℕ

-- The front of a byte string: a character with its length, or an ill-formed stretch.
pub data Front : Type 0 where
  char : ℕ → ℕ → Front
  bad : ℕ → Front

abbrev cont : ℕ → Bool
cont b = within 0x80 0xbf b

-- A byte past the end reads as 0, which continues nothing.
abbrev byte_at : ℕ → List ℕ → ℕ
byte_at i [] = 0
byte_at zero (b ∷ bs) = b
byte_at (suc i) (b ∷ bs) = byte_at i bs

-- Which second byte may follow a first one of three or four bytes.
unfoldable second3 : ℕ → ℕ → Bool
second3 b0 b1 =
    if b0 == 0xe0 then within 0xa0 0xbf b1 else if b0 == 0xed then within 0x80 0x9f b1 else cont b1

unfoldable second4 : ℕ → ℕ → Bool
second4 b0 b1 =
    if b0 == 0xf0 then within 0x90 0xbf b1 else if b0 == 0xf4 then within 0x80 0x8f b1 else cont b1

unfoldable pub front : ℕ → List ℕ → Front
unfolding second3 second4
front b0 bs =
    let b1 : ℕ = byte_at 0 bs in
    let b2 : ℕ = byte_at 1 bs in
    let b3 : ℕ = byte_at 2 bs in
    if ltb b0 0x80
    then char b0 1
    else if within 0xc2 0xdf b0
    then (if cont b1 then char ((b0 - 0xc0) * 64 + (b1 - 0x80)) 2 else bad 1)
    else if within 0xe0 0xef b0
    then (if second3 b0 b1
        then (if cont b2
            then char ((b0 - 0xe0) * 4096 + (b1 - 0x80) * 64 + (b2 - 0x80)) 3
            else bad 2)
        else bad 1)
    else if within 0xf0 0xf4 b0
    then (if second4 b0 b1
        then (if cont b2
            then (if cont b3
                then char
                    ((b0 - 0xf0) * 262144 + (b1 - 0x80) * 4096 + (b2 - 0x80) * 64 + (b3 - 0x80)) 4
                else bad 3)
            else bad 2)
        else bad 1)
    else bad 1

-- `char::REPLACEMENT_CHARACTER`.
abbrev pub replacement : ℕ
replacement = 0xfffd

-- The loop of `from_utf8_lossy`; each turn takes at least one byte, so as many turns as bytes do.
unfoldable pub lossy_from : ℕ → List ℕ → List ℕ
lossy_from zero bs = []
lossy_from (suc f) [] = []
lossy_from (suc f) (b ∷ bs) = elim (front b bs) [
  | char c n ↦ c ∷ lossy_from f (drop (n - 1) bs)
  | bad n ↦ replacement ∷ lossy_from f (drop (n - 1) bs)
]

-- `String::from_utf8_lossy`.
unfoldable pub from_utf8_lossy : List ℕ → List ℕ
unfolding lossy_from
from_utf8_lossy bs = lossy_from (length bs) bs

-- The bytes of one character, `char::encode_utf8`.
unfoldable pub encode_char : ℕ → List ℕ
encode_char c =
    if ltb c 0x80
    then c ∷ []
    else if ltb c 0x800
    then (0xc0 + c / 64) ∷ (0x80 + c % 64) ∷ []
    else if ltb c 0x10000
    then (0xe0 + c / 4096) ∷ (0x80 + c / 64 % 64) ∷ (0x80 + c % 64) ∷ []
    else (0xf0 + c / 262144) ∷ (0x80 + c / 4096 % 64) ∷ (0x80 + c / 64 % 64) ∷ (0x80 + c % 64) ∷ []

-- `str::as_bytes`.
unfoldable pub as_bytes : List ℕ → List ℕ
as_bytes [] = []
as_bytes (c ∷ cs) = encode_char c ++ as_bytes cs

-- `char::is_whitespace`.
unfoldable pub is_whitespace : ℕ → Bool
is_whitespace c =
    within 0x09 0x0d c
    || (c == 0x20
        || (c == 0x85
            || (c == 0xa0
                || (c == 0x1680
                    || (within 0x2000 0x200a c
                        || (c == 0x2028
                            || (c == 0x2029 || (c == 0x202f || (c == 0x205f || c == 0x3000)))))))))

-- `char::is_control`: the general category Cc.
unfoldable pub is_control : ℕ → Bool
is_control c = ltb c 0x20 || within 0x7f 0x9f c

-- `str::trim_start` and `str::trim`.
unfoldable pub trim_start : List ℕ → List ℕ
trim_start [] = []
trim_start (c ∷ cs) = let rest = trim_start cs in if is_whitespace c then rest else c ∷ cs

unfoldable pub trim_end : List ℕ → List ℕ
trim_end [] = []
trim_end (c ∷ cs) = elim (trim_end cs) [
  | [] ↦ if is_whitespace c then [] else c ∷ []
  | d ∷ ds ↦ c ∷ d ∷ ds
]

unfoldable pub trim : List ℕ → List ℕ
unfolding trim_start trim_end
trim cs = trim_end (trim_start cs)

-- `str::from_utf8`, with as many turns as bytes.
unfoldable pub utf8_from : ℕ → List ℕ → Option Text
unfolding front
utf8_from f [] = some []
utf8_from zero (b ∷ bs) = none
utf8_from (suc f) (b ∷ bs) = elim (front b bs) [
  | bad n ↦ none
  | char c n ↦ Option.map (λ cs. c ∷ cs) (utf8_from f (drop (n - 1) bs))
]

unfoldable pub from_utf8 : List ℕ → Option Text
unfolding utf8_from
from_utf8 bs = utf8_from (length bs) bs

-- `str::split`, at each character of a class.
unfoldable pub split : (ℕ → Bool) → Text → List Text
split p [] = [] ∷ []
split p (c ∷ cs) = elim (split p cs) [
  | [] ↦ []
  | part ∷ parts ↦ if p c then [] ∷ part ∷ parts else (c ∷ part) ∷ parts
]

-- `char::is_ascii_digit`, `is_ascii_alphabetic` and `is_ascii_alphanumeric`.
abbrev pub is_digit : ℕ → Bool
is_digit c = within b'0' b'9' c

abbrev pub is_letter : ℕ → Bool
is_letter c = within b'a' b'z' c || within b'A' b'Z' c

abbrev pub is_alphanumeric : ℕ → Bool
is_alphanumeric c = is_letter c || is_digit c
