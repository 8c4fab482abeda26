-- ===== src/Ansi/Rendering.antt =====
-- A stream put together from characters and control sequences, and what is shown of it.
use sessionhub.Base.{
  ℕ, zero, suc, ◌+◌, ◌-◌, ◌/◌, ◌%◌, ◌≤◌, ◌≡◌, refl, ap, subst, ◌∙◌, inl, inr, Bool, true, false,
  not, ◌||◌, ◌&&◌, List, [], ◌∷◌, ◌++◌, some, length, drop, take, ◌==◌, ltb, ltb→lt, within, All,
  arith, Bool-cases, append_assoc,
}
use sessionhub.Utf8.Laws.{front-ascii}
use sessionhub.Utf8.Encoding.{IsScalar, front2, front3, front4}
use sessionhub.Utf8.{Text, char, front, encode_char}
use sessionhub.Ansi.Readable.{IsReadable}
use sessionhub.Ansi.Termination.{length-turn}
use sessionhub.Ansi.{
  skip_while, is_parameter, is_intermediate, skip_csi, skip_string_sequence, next_char, pop,
  is_string_start, escape, is_dropped, turn, strip_from, strip_ansi,
}

pub data Piece : Type 0 where
  glyph : ℕ → Piece
  erase : Piece
  control : ℕ → Piece
  two_byte : ℕ → Piece
  csi : List ℕ → List ℕ → ℕ → Piece
  belled : ℕ → List ℕ → Piece
  terminated : ℕ → List ℕ → Piece

-- A byte that does not end a string sequence.
abbrev pub is_body : ℕ → Bool
is_body b = not (b == 0x07) && not (b == 0x1b)

abbrev pub is_opener : ℕ → Bool
is_opener b = b == b']' || is_string_start b

abbrev pub IsWellFormed : Piece → Type 0
IsWellFormed (glyph c) = IsScalar c × IsReadable c
IsWellFormed erase = Unit
IsWellFormed (control b) = is_dropped b ≡ true
IsWellFormed (two_byte b) = (b == b'[' || is_opener b) ≡ false
IsWellFormed (csi params inters last) =
    All (λ b. is_parameter b ≡ true) params
    × All (λ b. is_intermediate b ≡ true) inters
    × (within 0x40 0x7e last ≡ true)
IsWellFormed (belled s body) = (is_opener s ≡ true) × All (λ b. is_body b ≡ true) body
IsWellFormed (terminated s body) = (is_opener s ≡ true) × All (λ b. is_body b ≡ true) body

abbrev pub bytes_of : Piece → List ℕ
bytes_of (glyph c) = encode_char c
bytes_of erase = 0x08 ∷ []
bytes_of (control b) = b ∷ []
bytes_of (two_byte b) = 0x1b ∷ b ∷ []
bytes_of (csi params inters last) = 0x1b ∷ b'[' ∷ (params ++ (inters ++ last ∷ []))
bytes_of (belled s body) = 0x1b ∷ s ∷ (body ++ 0x07 ∷ [])
bytes_of (terminated s body) = 0x1b ∷ s ∷ (body ++ 0x1b ∷ b'\\' ∷ [])

unfoldable pub render : List Piece → List ℕ
render [] = []
render (p ∷ ps) = bytes_of p ++ render ps

-- A character is shown, a backspace takes the last one back, and nothing else is seen.
abbrev pub show : Piece → Text → Text
show (glyph c) out = out ++ c ∷ []
show erase out = pop out
show _ out = out

unfoldable pub show_all : List Piece → Text → Text
show_all [] out = out
show_all (p ∷ ps) out = show_all ps (show p out)

-- One turn at the bytes of a piece.
abbrev TakesOneTurn : Piece → Type 0
TakesOneTurn p =
    (rest : List ℕ) (out : Text)
    → (b : ℕ) × (bs : List ℕ) × (bytes_of p ++ rest ≡ b ∷ bs) × (turn b bs out ≡ (rest, show p out))

skip_while-all :
    (p : ℕ → Bool) (xs rest : List ℕ)
    → All (λ b. p b ≡ true) xs
    → skip_while p (xs ++ rest) ≡ skip_while p rest
unfolding skip_while
skip_while-all p [] rest h = refl
skip_while-all p (x ∷ xs) rest (h, hs) = rw h (skip_while-all p xs rest hs)

skip_while-none :
    (p : ℕ → Bool) (b : ℕ) (rest : List ℕ) → p b ≡ false → skip_while p (b ∷ rest) ≡ b ∷ rest
unfolding skip_while
skip_while-none p b rest h = rw h

skip_csi-csi :
    (params inters rest : List ℕ) (last : ℕ)
    → All (λ b. is_parameter b ≡ true) params
    → All (λ b. is_intermediate b ≡ true) inters
    → within 0x40 0x7e last ≡ true
    → skip_csi (params ++ (inters ++ last ∷ rest)) ≡ rest
unfolding skip_csi
skip_csi-csi params inters rest last hp hi hl =
    rw (skip_while-all is_parameter params (inters ++ last ∷ rest) hp, skip_while-inters inters hi)
      (rw (
        skip_while-all is_intermediate inters (last ∷ rest) hi,
        skip_while-none is_intermediate last rest (ground arith),
      ))
  where
    skip_while-inters :
        (inters : List ℕ)
        → All (λ b. is_intermediate b ≡ true) inters
        → skip_while is_parameter (inters ++ last ∷ rest) ≡ inters ++ last ∷ rest
    skip_while-inters [] h = skip_while-none is_parameter last rest (ground arith)
    skip_while-inters (i ∷ is) (h, hs) =
        skip_while-none is_parameter i (is ++ last ∷ rest) (ground arith)

skip-belled :
    (body rest : List ℕ)
    → All (λ b. is_body b ≡ true) body
    → skip_string_sequence (body ++ 0x07 ∷ rest) ≡ rest
unfolding skip_string_sequence
skip-belled [] rest h = refl
skip-belled (b ∷ body) rest (h, hs) = ground (arith, skip-belled body rest hs)

skip-terminated :
    (body rest : List ℕ)
    → All (λ b. is_body b ≡ true) body
    → skip_string_sequence (body ++ 0x1b ∷ b'\\' ∷ rest) ≡ rest
unfolding skip_string_sequence
skip-terminated [] rest h = refl
skip-terminated (b ∷ body) rest (h, hs) = ground (arith, skip-terminated body rest hs)

shown-turn :
    (b : ℕ) (bs : List ℕ) (out : Text) (c n : ℕ)
    → IsReadable b
    → front b (take 3 bs) ≡ char c n
    → turn b bs out ≡ (drop (n - 1) bs, out ++ c ∷ [])
unfolding turn next_char
shown-turn b bs out c n h e =
    let esc : (b == 0x1b) ≡ false = ground arith in
    let back : (b == 0x08) ≡ false = ground arith in
    let kept : is_dropped b ≡ false = ground arith in rw (turn, esc, back, kept, next_char, e)

glyph-TakesOneTurn : (c : ℕ) → IsScalar c → IsReadable c → TakesOneTurn (glyph c)
unfolding encode_char
glyph-TakesOneTurn c scalar readable rest out = elim (Bool-cases (ltb c 0x80)) [
  | inl one ↦ (
    c,
    rest,
    rw one,
    shown-turn c rest out c 1 readable (front-ascii c (take 3 rest) (ltb→lt c 0x80 one)),
  )
  | inr more ↦ elim (Bool-cases (ltb c 0x800)) [
    | inl two ↦ (
      0xc0 + c / 64,
      (0x80 + c % 64) ∷ rest,
      rw (more, two),
      shown-turn (0xc0 + c / 64) ((0x80 + c % 64) ∷ rest) out c 2 (ground arith)
          (front2 c (take 2 rest) (ground arith) (ground arith)),
    )
    | inr more' ↦ elim (Bool-cases (ltb c 0x10000)) [
      | inl three ↦ (
        0xe0 + c / 4096,
        (0x80 + c / 64 % 64) ∷ (0x80 + c % 64) ∷ rest,
        rw (more, more', three),
        shown-turn (0xe0 + c / 4096) ((0x80 + c / 64 % 64) ∷ (0x80 + c % 64) ∷ rest) out c 3
            (ground arith) (front3 c (take 1 rest) (ground arith) (ground arith) (ground arith)),
      )
      | inr four ↦ (
        0xf0 + c / 262144,
        (0x80 + c / 4096 % 64) ∷ (0x80 + c / 64 % 64) ∷ (0x80 + c % 64) ∷ rest,
        rw (more, more', four),
        shown-turn (0xf0 + c / 262144)
            ((0x80 + c / 4096 % 64) ∷ (0x80 + c / 64 % 64) ∷ (0x80 + c % 64) ∷ rest) out c 4
            (ground arith) (front4 c [] (ground arith) (ground arith)),
      )
    ]
  ]
]

escape-turn : (bs rest : List ℕ) (out : Text) → escape bs ≡ rest → turn 0x1b bs out ≡ (rest, out)
unfolding turn
escape-turn bs rest out e = ap (λ t. (t, out)) e

escape-opener :
    (s : ℕ) (bs rest : List ℕ)
    → is_opener s ≡ true
    → skip_string_sequence bs ≡ rest
    → escape (s ∷ bs) ≡ rest
unfolding escape
escape-opener s bs rest h e = ground (arith, e)

escape-two_byte :
    (b : ℕ) (rest : List ℕ) → (b == b'[' || is_opener b) ≡ false → escape (b ∷ rest) ≡ rest
unfolding escape
escape-two_byte b rest h = ground arith

piece-TakesOneTurn : (p : Piece) → IsWellFormed p → TakesOneTurn p
unfolding turn
piece-TakesOneTurn (glyph c) (scalar, readable) = glyph-TakesOneTurn c scalar readable
piece-TakesOneTurn erase h = λ rest out. (0x08, rest, refl, refl)
piece-TakesOneTurn (control b) h = λ rest out. (b, rest, refl, ground (arith, h))
piece-TakesOneTurn (two_byte b) h =
    λ rest out. (0x1b, b ∷ rest, refl, escape-turn (b ∷ rest) rest out (escape-two_byte b rest h))
piece-TakesOneTurn (csi params inters last) (hp, hi, hl) = λ rest out. (
  0x1b,
  b'[' ∷ (params ++ (inters ++ last ∷ rest)),
  ap (λ t. 0x1b ∷ b'[' ∷ t)
      (append_assoc params (inters ++ last ∷ []) rest
        ∙ ap (λ t. params ++ t) (append_assoc inters (last ∷ []) rest)),
  escape-turn (b'[' ∷ (params ++ (inters ++ last ∷ rest))) rest out
      (skip_csi-csi params inters rest last hp hi hl),
)
piece-TakesOneTurn (belled s body) (hs, hb) = λ rest out. (
  0x1b,
  s ∷ (body ++ 0x07 ∷ rest),
  ap (λ t. 0x1b ∷ s ∷ t) (append_assoc body (0x07 ∷ []) rest),
  escape-turn (s ∷ (body ++ 0x07 ∷ rest)) rest out
      (escape-opener s (body ++ 0x07 ∷ rest) rest hs (skip-belled body rest hb)),
)
piece-TakesOneTurn (terminated s body) (hs, hb) = λ rest out. (
  0x1b,
  s ∷ (body ++ 0x1b ∷ b'\\' ∷ rest),
  ap (λ t. 0x1b ∷ s ∷ t) (append_assoc body (0x1b ∷ b'\\' ∷ []) rest),
  escape-turn (s ∷ (body ++ 0x1b ∷ b'\\' ∷ rest)) rest out
      (escape-opener s (body ++ 0x1b ∷ b'\\' ∷ rest) rest hs (skip-terminated body rest hb)),
)

strip_from-piece :
    (front_bytes rest : List ℕ) (b : ℕ) (bs : List ℕ) (out next : Text) (turns : ℕ) (text : Text)
    → front_bytes ++ rest ≡ b ∷ bs
    → turn b bs out ≡ (rest, next)
    → length (front_bytes ++ rest) ≤ turns
    → ((fewer : ℕ) → length rest ≤ fewer → strip_from fewer rest next ≡ some text)
    → strip_from turns (front_bytes ++ rest) out ≡ some text
unfolding strip_from
strip_from-piece front_bytes rest b bs out next zero text e t h more =
    absurd (omega (arith, h, ap length e))
strip_from-piece front_bytes rest b bs out next (suc turns) text e t h more =
    let fewer : length rest ≤ length bs =
      subst (λ x. length x ≤ length bs) (ap (λ x. x.0) t) (length-turn b bs out) in
    rw (e, strip_from, t) (more turns (omega (arith, h, fewer, ap length e)))

strip_from-render :
    (pieces : List Piece) (turns : ℕ) (out : Text)
    → length (render pieces) ≤ turns
    → All IsWellFormed pieces
    → strip_from turns (render pieces) out ≡ some (show_all pieces out)
unfolding strip_from render show_all
strip_from-render [] turns out h good = refl
strip_from-render (p ∷ ps) turns out h (one, good) =
    let step = piece-TakesOneTurn p one (render ps) out in
    strip_from-piece (bytes_of p) (render ps) step.0 step.1 out (show p out) turns
      (show_all ps (show p out)) step.2 step.3 h
      (λ fewer k. strip_from-render ps fewer (show p out) k good)

-- Of a stream that is put together from characters and control sequences, `strip_ansi` gives what
-- is shown: each character, in any length of UTF-8 (a Unicode scalar value that is none of ESC,
-- backspace and the dropped controls), less those that a backspace takes back; nothing of a dropped
-- control, of ESC with one byte that opens nothing, of a CSI sequence with parameter and
-- intermediate bytes and a final byte, or of an OSC, DCS, PM or APC string (without BEL and ESC in
-- it) that BEL or `ESC \` ends.
pub strip_ansi-render :
    (pieces : List Piece)
    → All IsWellFormed pieces
    → strip_ansi (render pieces) ≡ some (show_all pieces [])
unfolding strip_ansi
strip_ansi-render pieces good =
    strip_from-render pieces (length (render pieces)) [] (omega arith) good
