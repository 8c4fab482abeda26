-- ===== src/Ansi.antt =====
-- src/ansi.rs: terminal bytes without their control sequences.
pub mod Termination
mod Tests
pub mod Readable
pub mod Rendering
use sessionhub.Base.{
  ℕ, zero, suc, ◌+◌, ◌-◌, Bool, true, false, ◌||◌, ◌&&◌, List, [], ◌∷◌, ◌++◌, Option, none, some,
  length, drop, take, ◌==◌, within, if◌then◌else◌,
}
use sessionhub.Utf8.{Text, Front, char, bad, front, replacement}

-- Whether the byte behind is one of a class.
abbrev pub next_is : (ℕ → Bool) → List ℕ → Bool
next_is p [] = false
next_is p (b ∷ bs) = p b

-- The bytes behind a stretch of one class.
unfoldable pub skip_while : (ℕ → Bool) → List ℕ → List ℕ
skip_while p [] = []
skip_while p (b ∷ bs) = let rest = skip_while p bs in if p b then rest else b ∷ bs

abbrev pub is_parameter : ℕ → Bool
is_parameter b = within 0x30 0x3f b

abbrev pub is_intermediate : ℕ → Bool
is_intermediate b = within 0x20 0x2f b

-- What a CSI sequence leaves, from behind its `ESC [`.
unfoldable pub skip_csi : List ℕ → List ℕ
unfolding skip_while
skip_csi bs = drop 1 (skip_while is_intermediate (skip_while is_parameter bs))

unfoldable pub skip_string_sequence : List ℕ → List ℕ
skip_string_sequence [] = []
skip_string_sequence (b ∷ bs) =
    let rest = skip_string_sequence bs in
    if b == 0x07 then bs else if b == 0x1b && next_is (λ c. c == b'\\') bs then drop 1 bs else rest

-- A character at the front, and how many bytes it took; four bytes are looked at.
unfoldable pub next_char : ℕ → List ℕ → ℕ × ℕ
unfolding front
next_char b bs = elim (front b (take 3 bs)) [ char c n ↦ (c, n) | bad n ↦ (replacement, 1) ]

-- `String::pop`, of the text alone.
unfoldable pub pop : Text → Text
pop [] = []
pop (c ∷ []) = []
pop (c ∷ d ∷ cs) = c ∷ pop (d ∷ cs)

abbrev pub is_string_start : ℕ → Bool
is_string_start b = b == b'P' || (b == b'^' || b == b'_')

-- A sequence, from behind its ESC.
unfoldable pub escape : List ℕ → List ℕ
unfolding skip_csi skip_string_sequence
escape bs =
    if next_is (λ b. b == b'[') bs
    then skip_csi (drop 1 bs)
    else if next_is (λ b. b == b']') bs
    then skip_string_sequence (drop 1 bs)
    else if next_is is_string_start bs
    then skip_string_sequence (drop 1 bs)
    else drop 1 bs

-- The control bytes that are dropped by themselves.
abbrev pub is_dropped : ℕ → Bool
is_dropped b = within 0x00 0x06 b || (within 0x0e 0x1a b || (within 0x1c 0x1f b || b == 0x7f))

-- A turn of the loop at a byte: what is left to read, and the text by then.
unfoldable pub turn : ℕ → List ℕ → Text → List ℕ × Text
unfolding escape next_char pop
turn b bs out =
    if b == 0x1b
    then (escape bs, out)
    else if b == 0x08
    then (bs, pop out)
    else if is_dropped b
    then (bs, out)
    else (drop ((next_char b bs).1 - 1) bs, out ++ (next_char b bs).0 ∷ [])

-- The loop, with the turns it may take; `none` where they run out.
unfoldable pub strip_from : ℕ → List ℕ → Text → Option Text
unfolding turn
strip_from turns [] out = some out
strip_from zero (b ∷ bs) out = none
strip_from (suc turns) (b ∷ bs) out = strip_from turns (turn b bs out).0 (turn b bs out).1

-- A turn takes a byte at least, so as many turns as bytes are enough.
unfoldable pub strip_ansi : List ℕ → Option Text
unfolding strip_from
strip_ansi input = strip_from (length input) input []
