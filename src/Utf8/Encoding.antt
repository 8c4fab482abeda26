-- ===== src/Utf8/Encoding.antt =====
-- One character, encoded and decoded.
use sessionhub.Base.{
  ℕ, zero, suc, ◌+◌, ◌-◌, ◌/◌, ◌%◌, ◌≤◌, ◌<◌, ◌≡◌, ◌⊎◌, refl, ap, subst, inl, inr, List, [], ◌∷◌,
  ◌++◌, length, ltb, arith, Bool-cases, All, All-append, drop, length-drop, ltb→lt,
}
use sessionhub.Utf8.{
  char, front, second3, second4, encode_char, as_bytes, lossy_from, from_utf8_lossy,
}
use sessionhub.Utf8.Laws.{front-ascii}

-- A Unicode scalar value: what a `char` can be.
abbrev pub IsScalar : ℕ → Type 0
IsScalar c = (c < 0xd800) ⊎ ((0xdfff < c) × (c < 0x110000))

pub front2 :
    (c : ℕ) (rest : List ℕ)
    → 0x80 ≤ c
    → c < 0x800
    → front (0xc0 + c / 64) ((0x80 + c % 64) ∷ rest) ≡ char c 2
unfolding front
front2 c rest h k = ground arith

pub front3 :
    (c : ℕ) (rest : List ℕ)
    → 0x800 ≤ c
    → c < 0x10000
    → (c < 0xd800) ⊎ (0xdfff < c)
    → front (0xe0 + c / 4096) ((0x80 + c / 64 % 64) ∷ (0x80 + c % 64) ∷ rest) ≡ char c 3
unfolding front second3
front3 c rest h k s = ground arith

pub front4 :
    (c : ℕ) (rest : List ℕ)
    → 0x10000 ≤ c
    → c < 0x110000
    → front
        (0xf0 + c / 262144)
        ((0x80 + c / 4096 % 64) ∷ (0x80 + c / 64 % 64) ∷ (0x80 + c % 64) ∷ rest)
      ≡ char c 4
unfolding front second4
front4 c rest h k = ground arith

pub front-high : (b : ℕ) (bs : List ℕ) (c n : ℕ) → 0x80 ≤ b → front b bs ≡ char c n → 0x80 ≤ c
unfolding front second3 second4
front-high b bs c n h e = ground arith

-- What `front` finds at the bytes of a character, and how many there are.
abbrev Decodes : ℕ → Type 0
Decodes c =
    (rest : List ℕ)
    → (b : ℕ) × (bs : List ℕ) × (n : ℕ) × (encode_char c ++ rest ≡ b ∷ bs)
      × (front b bs ≡ char c n)
      × (drop (n - 1) bs ≡ rest)

pub encode_char-Decodes : (c : ℕ) → IsScalar c → Decodes c
unfolding encode_char
encode_char-Decodes c scalar rest = elim (Bool-cases (ltb c 0x80)) [
  | inl one ↦ (c, rest, 1, rw one, front-ascii c rest (ltb→lt c 0x80 one), refl)
  | inr more ↦ elim (Bool-cases (ltb c 0x800)) [
    | inl two ↦ (
      0xc0 + c / 64,
      (0x80 + c % 64) ∷ rest,
      2,
      rw (more, two),
      front2 c rest (ground arith) (ground arith),
      refl,
    )
    | inr more' ↦ elim (Bool-cases (ltb c 0x10000)) [
      | inl three ↦ (
        0xe0 + c / 4096,
        (0x80 + c / 64 % 64) ∷ (0x80 + c % 64) ∷ rest,
        3,
        rw (more, more', three),
        front3 c rest (ground arith) (ground arith) (ground arith),
        refl,
      )
      | inr four ↦ (
        0xf0 + c / 262144,
        (0x80 + c / 4096 % 64) ∷ (0x80 + c / 64 % 64) ∷ (0x80 + c % 64) ∷ rest,
        4,
        rw (more, more', four),
        front4 c rest (ground arith) (ground arith),
        refl,
      )
    ]
  ]
]

lossy_from-char :
    (c : ℕ) (cs : List ℕ) (b : ℕ) (bs : List ℕ) (n f : ℕ)
    → encode_char c ++ as_bytes cs ≡ b ∷ bs
    → front b bs ≡ char c n
    → drop (n - 1) bs ≡ as_bytes cs
    → length (encode_char c ++ as_bytes cs) ≤ f
    → ((g : ℕ) → length (as_bytes cs) ≤ g → lossy_from g (as_bytes cs) ≡ cs)
    → lossy_from f (encode_char c ++ as_bytes cs) ≡ c ∷ cs
unfolding lossy_from
lossy_from-char c cs b bs n zero e d t h more = absurd (omega (arith, h, ap length e))
lossy_from-char c cs b bs n (suc f) e d t h more =
    let fewer : length (as_bytes cs) ≤ length bs =
      subst (λ x. length x ≤ length bs) t (omega (arith, length-drop (n - 1) bs)) in
    rw (e, lossy_from, d, t) (ap (λ x. c ∷ x) (more f (omega (arith, h, fewer, ap length e))))

lossy_from-as_bytes :
    (cs : List ℕ) (f : ℕ)
    → length (as_bytes cs) ≤ f
    → All IsScalar cs
    → lossy_from f (as_bytes cs) ≡ cs
unfolding as_bytes lossy_from
lossy_from-as_bytes [] zero h a = refl
lossy_from-as_bytes [] (suc f) h a = refl
lossy_from-as_bytes (c ∷ cs) f h (hc, hs) =
    let d = encode_char-Decodes c hc (as_bytes cs) in
    lossy_from-char c cs d.0 d.1 d.2 f d.3 d.4 d.5 h (λ g k. lossy_from-as_bytes cs g k hs)

-- A text of Unicode scalar values is read back from its bytes.
pub from_utf8_lossy-as_bytes : (cs : List ℕ) → All IsScalar cs → from_utf8_lossy (as_bytes cs) ≡ cs
unfolding from_utf8_lossy
from_utf8_lossy-as_bytes cs h = lossy_from-as_bytes cs (length (as_bytes cs)) (omega arith) h

encode_char-small : (c : ℕ) → IsScalar c → All (λ b. b < 256) (encode_char c)
unfolding encode_char
encode_char-small c h = ground arith

pub as_bytes-small : (cs : List ℕ) → All IsScalar cs → All (λ b. b < 256) (as_bytes cs)
unfolding as_bytes
as_bytes-small [] h = tt
as_bytes-small (c ∷ cs) (hc, hs) =
    All-append (λ b. b < 256) (encode_char c) (as_bytes cs) (encode_char-small c hc)
      (as_bytes-small cs hs)
