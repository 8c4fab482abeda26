-- ===== src/Ansi/Readable.antt =====
-- Which characters are left in what `strip_ansi` gives.
use sessionhub.Base.{
  ℕ, zero, suc, ◌≤◌, ◌≡◌, refl, subst, inl, inr, false, ◌||◌, List, [], ◌∷◌, some, length, take,
  ◌==◌, ltb, ltb→lt, ltb-false, All, All-append, arith, Bool-cases,
}
use sessionhub.Utf8.Laws.{front-ascii}
use sessionhub.Utf8.Encoding.{front-high}
use sessionhub.Utf8.{Text, Front, char, bad, front}
use sessionhub.Ansi.Termination.{strip_ansi-total}
use sessionhub.Ansi.{next_char, pop, is_dropped, turn, strip_from, strip_ansi}

-- A character that is neither ESC, nor a backspace, nor one of the dropped controls.
abbrev pub IsReadable : ℕ → Type 0
IsReadable c = (c == 0x1b || (c == 0x08 || is_dropped c)) ≡ false

pop-Readable : (out : Text) → All IsReadable out → All IsReadable (pop out)
unfolding pop
pop-Readable [] h = tt
pop-Readable (c ∷ []) h = tt
pop-Readable (c ∷ d ∷ cs) (h, hs) = (h, pop-Readable (d ∷ cs) hs)

high-IsReadable : (c : ℕ) → 0x80 ≤ c → IsReadable c
high-IsReadable c h = ground arith

next_char-IsReadable : (b : ℕ) (bs : List ℕ) → IsReadable b → IsReadable (next_char b bs).0
unfolding next_char
next_char-IsReadable b bs h = elim (Bool-cases (ltb b 0x80)) [
  | inl low ↦ rw (next_char, front-ascii b (take 3 bs) (ltb→lt b 0x80 low)) h
  | inr high ↦ go (front b (take 3 bs)) refl (ltb-false b 0x80 high)
]
  where
    go : (f : Front) → front b (take 3 bs) ≡ f → 0x80 ≤ b → IsReadable (next_char b bs).0
    go (char c n) e h = rw (next_char, e) (high-IsReadable c (front-high b (take 3 bs) c n h e))
    go (bad n) e h = rw (next_char, e)

turn-Readable :
    (b : ℕ) (bs : List ℕ) (out : Text) → All IsReadable out → All IsReadable (turn b bs out).1
unfolding turn
turn-Readable b bs out h = elim (Bool-cases (b == 0x1b)) [
  | inl y ↦ rw (turn, y) h
  | inr esc ↦ elim (Bool-cases (b == 0x08)) [
    | inl y ↦ rw (turn, esc, y) (pop-Readable out h)
    | inr back ↦ elim (Bool-cases (is_dropped b)) [
      | inl y ↦ rw (turn, esc, back, y) h
      | inr kept ↦
          rw (turn, esc, back, kept)
            (All-append IsReadable out ((next_char b bs).0 ∷ []) h
              (next_char-IsReadable b bs (rw (esc, back, kept)), tt))
    ]
  ]
]

strip_from-Readable :
    (turns : ℕ) (bs : List ℕ) (out text : Text)
    → All IsReadable out
    → strip_from turns bs out ≡ some text
    → All IsReadable text
unfolding strip_from
strip_from-Readable turns [] out text h e = subst (All IsReadable) (same_text out text e) h
  where
    same_text : (a b : Text) → some a ≡ some b → a ≡ b
    same_text a b e = cc
strip_from-Readable zero (b ∷ bs) out text h e = cc
strip_from-Readable (suc turns) (b ∷ bs) out text h e =
    strip_from-Readable turns (turn b bs out).0 (turn b bs out).1 text (turn-Readable b bs out h) e

-- `strip_ansi` comes to an end on every input, with a text that holds no ESC, no backspace and none
-- of the controls 0x00 to 0x06, 0x0e to 0x1f and 0x7f.
pub strip_ansi-Readable :
    (input : List ℕ) → (text : Text) × (strip_ansi input ≡ some text) × All IsReadable text
unfolding strip_ansi
strip_ansi-Readable input =
    let out = strip_ansi-total input in
    (out.0, out.1, strip_from-Readable (length input) input [] out.0 tt out.1)
