-- ===== src/Http/Percent.antt =====
-- `percent_encode` of src/remote.rs under `percent_decode` of src/http.rs.
use sessionhub.Base.{
  ℕ, ◌+◌, ◌*◌, ◌/◌, ◌%◌, ◌<◌, ◌≡◌, refl, sym, ap, ◌∙◌, inl, inr, false, List, [], ◌∷◌, ◌++◌, some,
  any, ◌==◌, All, All-append, arith, Bool-cases,
}
use sessionhub.Utf8.{Text, as_bytes, from_utf8_lossy}
use sessionhub.Utf8.Ascii.{IsAscii, as_bytes-IsAscii}
use sessionhub.Utf8.Laws.{from_utf8_lossy-ascii}
use sessionhub.Utf8.Encoding.{IsScalar, from_utf8_lossy-as_bytes, as_bytes-small}
use sessionhub.Remote.{is_unreserved, hex_upper, encode_byte, encode_all, percent_encode}
use sessionhub.Http.{hex_digit, hex_pair, decoded, decode_bytes, percent_decode}

hex_digit-hex_upper : (n : ℕ) → n < 16 → hex_digit (hex_upper n) ≡ some n
hex_digit-hex_upper n h = ground arith

hex_pair-hex_upper : (b : ℕ) → b < 256 → hex_pair (hex_upper (b / 16)) (hex_upper (b % 16)) ≡ some b
unfolding hex_pair
hex_pair-hex_upper b h =
    let high = hex_digit-hex_upper (b / 16) (omega arith) in
    let low = hex_digit-hex_upper (b % 16) (omega arith) in
    let no_plus : (hex_upper (b / 16) == b'+') ≡ false = ground arith in
    let whole : b / 16 * 16 + b % 16 ≡ b = omega arith in rw (hex_pair, low, no_plus, high, whole)

decoded-plain : (b : ℕ) (bs : List ℕ) → (b == b'%') ≡ false → decoded b bs ≡ (b, 0)
unfolding decoded
decoded-plain b [] e = refl
decoded-plain b (h ∷ []) e = refl
decoded-plain b (h ∷ l ∷ rest) e = rw e

decode_bytes-encode_byte :
    (b : ℕ) (rest : List ℕ)
    → b < 256
    → decode_bytes 0 (encode_byte b ++ rest) ≡ b ∷ decode_bytes 0 rest
unfolding decode_bytes decoded
decode_bytes-encode_byte b rest h = elim (Bool-cases (is_unreserved b)) [
  | inl y ↦ rw (y, decode_bytes, decoded-plain b rest (ground arith))
  | inr n ↦ rw (n, decode_bytes, hex_pair-hex_upper b h)
]

decode_bytes-encode_all :
    (bs : List ℕ) → All (λ b. b < 256) bs → decode_bytes 0 (encode_all bs) ≡ bs
unfolding encode_all decode_bytes
decode_bytes-encode_all [] h = refl
decode_bytes-encode_all (b ∷ bs) (hb, hs) =
    decode_bytes-encode_byte b (encode_all bs) hb ∙ ap (λ t. b ∷ t) (decode_bytes-encode_all bs hs)

encode_byte-IsAscii : (b : ℕ) → b < 256 → IsAscii (encode_byte b)
encode_byte-IsAscii b h = ground arith

encode_all-IsAscii : (bs : List ℕ) → All (λ b. b < 256) bs → IsAscii (encode_all bs)
unfolding encode_all
encode_all-IsAscii [] h = tt
encode_all-IsAscii (b ∷ bs) (hb, hs) =
    All-append (λ c. c < 0x80) (encode_byte b) (encode_all bs) (encode_byte-IsAscii b hb)
      (encode_all-IsAscii bs hs)

-- Without a `%` there is nothing to decode.
decode_bytes-plain : (raw : List ℕ) → any (λ c. c == b'%') raw ≡ false → decode_bytes 0 raw ≡ raw
unfolding decode_bytes
decode_bytes-plain [] e = refl
decode_bytes-plain (c ∷ cs) e = elim (Bool-cases (c == b'%')) [
  | inl y ↦ cc (rw y at e)
  | inr n ↦
      rw (decode_bytes, decoded-plain c cs n) (ap (λ t. c ∷ t) (decode_bytes-plain cs (rw n at e)))
]

percent_decode-IsAscii :
    (raw : Text) → IsAscii raw → percent_decode raw ≡ from_utf8_lossy (decode_bytes 0 raw)
unfolding percent_decode
percent_decode-IsAscii raw h = elim (Bool-cases (any (λ c. c == b'%') raw)) [
  | inl y ↦ rw (percent_decode, y, as_bytes-IsAscii raw h)
  | inr n ↦ rw (percent_decode, n, decode_bytes-plain raw n) (sym (from_utf8_lossy-ascii raw h))
]

-- Every text of Unicode scalar values is read back by `percent_decode` from what `percent_encode`
-- makes of it.
pub percent_decode-percent_encode :
    (text : Text) → All IsScalar text → percent_decode (percent_encode text) ≡ text
unfolding percent_encode
percent_decode-percent_encode text h =
    let small = as_bytes-small text h in
    percent_decode-IsAscii (encode_all (as_bytes text)) (encode_all-IsAscii (as_bytes text) small)
    ∙ ap from_utf8_lossy (decode_bytes-encode_all (as_bytes text) small)
    ∙ from_utf8_lossy-as_bytes text h
