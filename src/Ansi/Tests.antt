-- ===== src/Ansi/Tests.antt =====
-- `strip_ansi` at streams of the kind that terminals get, and the theorems of this folder at them.
use sessionhub.Base.{ℕ, ◌≡◌, refl, inl, List, [], ◌∷◌, ◌++◌, some, codes, All, arith}
use sessionhub.Utf8.{Text}
use sessionhub.Ansi.{strip_ansi}
use sessionhub.Ansi.Readable.{IsReadable, strip_ansi-Readable}
use sessionhub.Ansi.Rendering.{
  Piece, IsWellFormed, render, show_all, strip_ansi-render, glyph, erase, control, two_byte, csi,
  belled, terminated,
}

abbrev red_word : List ℕ
red_word = 0x1b ∷ codes "[31mred" ++ 0x1b ∷ codes "[0m!"

colours_go : strip_ansi red_word ≡ some (codes "red!")
unfolding strip_ansi
colours_go = refl

titles_go : strip_ansi (0x1b ∷ codes "]0;title" ++ 0x07 ∷ codes "$ ") ≡ some (codes "$ ")
unfolding strip_ansi
titles_go = refl

one_bad_byte : strip_ansi (b'a' ∷ 0xff ∷ b'b' ∷ []) ≡ some (b'a' ∷ 0xfffd ∷ b'b' ∷ [])
unfolding strip_ansi
one_bad_byte = refl

-- BEL outside of a sequence is kept, and so is U+009B, written in UTF-8.
bell_is_kept : strip_ansi (0x07 ∷ 0xc2 ∷ 0x9b ∷ []) ≡ some (0x07 ∷ 0x9b ∷ [])
unfolding strip_ansi
bell_is_kept = refl

abbrev pieces : List Piece
pieces =
    csi (codes "1;31") [] b'm'
    ∷ glyph b'x'
    ∷ erase
    ∷ glyph 0x20ac
    ∷ belled b']' (codes "0;t")
    ∷ terminated b'P' (codes "q")
    ∷ two_byte b'='
    ∷ control 0x01
    ∷ []

abbrev pieces-IsWellFormed : All IsWellFormed pieces
pieces-IsWellFormed = (
  ((refl, (refl, (refl, (refl, tt)))), tt, refl),
  (
    (inl (omega arith), refl),
    (
      tt,
      (
        (inl (omega arith), refl),
        ((refl, (refl, (refl, (refl, tt)))), ((refl, (refl, tt)), (refl, (refl, tt)))),
      ),
    ),
  ),
)

strip_ansi-render_example : strip_ansi (render pieces) ≡ some (show_all pieces [])
strip_ansi-render_example = strip_ansi-render pieces pieces-IsWellFormed

strip_ansi-Readable_example :
    (text : Text) × (strip_ansi red_word ≡ some text) × All IsReadable text
strip_ansi-Readable_example = strip_ansi-Readable red_word
