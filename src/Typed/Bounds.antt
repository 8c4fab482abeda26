-- ===== src/Typed/Bounds.antt =====
-- Bounds on the line and the commands that the tracker of src/typed.rs holds. Its `seq`, the bytes of
-- a sequence that is still open, has none.
use sessionhub.Base.{
  ℕ, zero, suc, ◌+◌, ◌≤◌, List, [], ◌∷◌, ◌++◌, length, arith, length-append, length-take,
}
use sessionhub.Utf8.{trim, from_utf8_lossy}
use sessionhub.Typed.{
  TypedLine, max_line, max_command, pop, backspace_from, backspace, after_esc, in_sequence,
  end_sequence, in_osc, enter, ordinary, plain, byte, feed,
}

pub record IsBounded (t : TypedLine) : Type 0 where
  pub line_short : length t.line ≤ max_line
  pub last_short : length t.last ≤ max_command
  pub esc_known : t.esc ≤ 4

length-pop : (line : List ℕ) → length (pop line) ≤ length line
unfolding pop
length-pop [] = omega arith
length-pop (b ∷ []) = omega arith
length-pop (b ∷ c ∷ bs) = omega (arith, length-pop (c ∷ bs))

length-backspace_from : (f : ℕ) (line : List ℕ) → length (backspace_from f line) ≤ length line
unfolding backspace_from
length-backspace_from zero line = omega arith
length-backspace_from (suc f) line =
    ground (arith, length-pop line, length-backspace_from f (pop line))

length-backspace : (line : List ℕ) → length (backspace line) ≤ length line
unfolding backspace
length-backspace line = length-backspace_from (length line + 1) line

module _ (t : TypedLine) (v : IsBounded t) where
  after_esc-IsBounded : (b : ℕ) → IsBounded (after_esc t b)
  unfolding after_esc
  after_esc-IsBounded b = ground arith

  end_sequence-IsBounded : IsBounded (end_sequence t)
  unfolding end_sequence
  end_sequence-IsBounded = ground arith

  in_osc-IsBounded : (b : ℕ) → IsBounded (in_osc t b)
  unfolding in_osc
  in_osc-IsBounded b = ground arith

  enter-IsBounded : IsBounded (enter t)
  unfolding enter
  enter-IsBounded = ground (arith, length-take max_command (trim (from_utf8_lossy t.line)))

  ordinary-IsBounded : (b : ℕ) → IsBounded (ordinary t b)
  unfolding ordinary
  ordinary-IsBounded b = ground (arith, length-append t.line (b ∷ []))

in_sequence-IsBounded : (t : TypedLine) (b : ℕ) → IsBounded t → IsBounded (in_sequence t b)
unfolding in_sequence
in_sequence-IsBounded t b v =
    let s : TypedLine = record t { esc = 0; seq = t.seq ++ b ∷ [] } in
    let w : IsBounded s = record {
      line_short = v.line_short;
      last_short = v.last_short;
      esc_known = omega arith;
    } in
    ground (arith, end_sequence-IsBounded s w)

plain-IsBounded : (t : TypedLine) (b : ℕ) → IsBounded t → IsBounded (plain t b)
unfolding plain
plain-IsBounded t b v =
    ground (arith, enter-IsBounded t v, ordinary-IsBounded t v b, length-backspace t.line)

byte-IsBounded : (t : TypedLine) (b : ℕ) → IsBounded t → IsBounded (byte t b)
unfolding byte
byte-IsBounded t b v = ground (
  arith,
  after_esc-IsBounded t v b,
  in_sequence-IsBounded t b v,
  in_osc-IsBounded t v b,
  plain-IsBounded t b v,
)

-- Whatever bytes are fed, the line followed stays within 4096 bytes, the command remembered within
-- 2000 characters, and the parser in one of its five states.
pub feed-IsBounded : (bs : List ℕ) (t : TypedLine) → IsBounded t → IsBounded (feed t bs)
unfolding feed
feed-IsBounded [] t v = v
feed-IsBounded (b ∷ bs) t v = feed-IsBounded bs (byte t b) (byte-IsBounded t b v)
