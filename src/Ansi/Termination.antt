-- ===== src/Ansi/Termination.antt =====
-- The fuel of the loop of `strip_ansi` of src/ansi.rs.
use sessionhub.Base.{
  ℕ, zero, suc, ◌-◌, ◌≤◌, ◌≡◌, refl, Bool, List, [], ◌∷◌, some, length, drop, arith, length-drop,
}
use sessionhub.Utf8.{Text}
use sessionhub.Ansi.{
  skip_while, is_parameter, is_intermediate, skip_csi, skip_string_sequence, next_char, escape,
  turn, strip_from, strip_ansi,
}

length-skip_while : (p : ℕ → Bool) (bs : List ℕ) → length (skip_while p bs) ≤ length bs
unfolding skip_while
length-skip_while p [] = omega arith
length-skip_while p (b ∷ bs) = ground (arith, length-skip_while p bs)

length-skip_csi : (bs : List ℕ) → length (skip_csi bs) ≤ length bs
unfolding skip_csi
length-skip_csi bs = omega (
  arith,
  length-drop 1 (skip_while is_intermediate (skip_while is_parameter bs)),
  length-skip_while is_intermediate (skip_while is_parameter bs),
  length-skip_while is_parameter bs,
)

length-skip_string_sequence : (bs : List ℕ) → length (skip_string_sequence bs) ≤ length bs
unfolding skip_string_sequence
length-skip_string_sequence [] = omega arith
length-skip_string_sequence (b ∷ bs) =
    ground (arith, length-skip_string_sequence bs, length-drop 1 bs)

length-escape : (bs : List ℕ) → length (escape bs) ≤ length bs
unfolding escape
length-escape bs =
    ground (
      arith,
      length-skip_csi (drop 1 bs),
      length-skip_string_sequence (drop 1 bs),
      length-drop 1 bs,
    )

pub length-turn : (b : ℕ) (bs : List ℕ) (out : Text) → length (turn b bs out).0 ≤ length bs
unfolding turn
length-turn b bs out = ground (arith, length-escape bs, length-drop ((next_char b bs).1 - 1) bs)

strip_from-total :
    (turns : ℕ) (bs : List ℕ) (out : Text)
    → length bs ≤ turns
    → (text : Text) × (strip_from turns bs out ≡ some text)
unfolding strip_from
strip_from-total turns [] out h = (out, refl)
strip_from-total zero (b ∷ bs) out h = absurd (omega arith)
strip_from-total (suc turns) (b ∷ bs) out h =
    strip_from-total turns (turn b bs out).0 (turn b bs out).1 (omega (arith, length-turn b bs out))

-- `strip_ansi` comes to an end with a text on every input: its loop takes no more turns than there
-- are bytes.
pub strip_ansi-total : (input : List ℕ) → (text : Text) × (strip_ansi input ≡ some text)
unfolding strip_ansi
strip_ansi-total input = strip_from-total (length input) input [] (omega arith)
