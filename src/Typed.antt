-- ===== src/Typed.antt =====
-- src/typed.rs, the line being typed at a shell prompt, followed from the bytes that go in.
pub mod Bounds
pub mod Trust
pub mod Command
mod Tests
use sessionhub.Base.{
  ℕ, zero, suc, ◌+◌, Bool, true, false, ◌||◌, ◌&&◌, List, [], ◌∷◌, ◌++◌, Option, none, some, length,
  take, ltb, leb, ◌==◌, within, same, codes, if◌then◌else◌,
}
use sessionhub.Utf8.{from_utf8_lossy, trim, is_control, is_whitespace, trim_start}

abbrev pub max_line : ℕ
max_line = 4096

abbrev pub max_command : ℕ
max_command = 2000

-- `esc`: 0 outside an escape sequence, 1 just after ESC, 2 inside a CSI or SS3, 3 inside an OSC,
-- 4 after an ESC inside an OSC. `seq` holds bytes below 256, each pushed as the character of that
-- code.
pub record TypedLine : Type 0 where
  pub line : List ℕ
  pub last : List ℕ
  pub dirty : Bool
  pub esc : ℕ
  pub seq : List ℕ
  pub pasting : Bool

-- `TypedLine::default()`.
abbrev pub empty : TypedLine
empty = record { line = []; last = []; dirty = false; esc = 0; seq = []; pasting = false }

-- `seq.as_bytes().last()`, of the bytes of the text: a code of 128 or more ends in a byte below
-- 0xc0, which none of the tests below names.
abbrev last_of : List ℕ → Option ℕ
last_of [] = none
last_of (b ∷ []) = some b
last_of (b ∷ c ∷ bs) = last_of (c ∷ bs)

abbrev starts_with : List ℕ → List ℕ → Bool
starts_with s [] = true
starts_with [] (b ∷ p) = false
starts_with (a ∷ s) (b ∷ p) = a == b && starts_with s p

unfoldable pub is_report : List ℕ → Bool
is_report seq =
    if same seq (codes "[I") || same seq (codes "[O") then true else elim (last_of seq) [
      | none ↦ false
      | some b ↦
          if b == b'M' || b == b'm'
          then true
          else if b == b'R'
          then true
          else if b == b'c'
          then starts_with seq (codes "[?") || starts_with seq (codes "[>")
          else false
    ]

-- `b & 0xc0 == 0x80`.
abbrev continues : ℕ → Bool
continues b = within 0x80 0xbf b

-- `self.line.pop()`.
unfoldable pub pop : List ℕ → List ℕ
pop [] = []
pop (b ∷ []) = []
pop (b ∷ c ∷ bs) = b ∷ pop (c ∷ bs)

-- The backspace: the continuation bytes at the end, and then one byte more.
unfoldable pub backspace_from : ℕ → List ℕ → List ℕ
unfolding pop
backspace_from zero line = line
backspace_from (suc f) line =
    let rest = backspace_from f (pop line) in
    elim (last_of line) [ none ↦ pop line | some b ↦ if continues b then rest else pop line ]

-- One turn for each byte, and one more.
unfoldable pub backspace : List ℕ → List ℕ
unfolding backspace_from
backspace line = backspace_from (length line + 1) line

-- `b` after ESC.
unfoldable pub after_esc : TypedLine → ℕ → TypedLine
after_esc t b =
    let s = record t { seq = t.seq ++ b ∷ [] } in
    if b == b'[' || b == b'O'
    then record s { esc = 2 }
    else if b == b']'
    then record s { esc = 3 }
    else record s { esc = 0; dirty = true }

-- The end of a CSI or SS3 sequence.
unfoldable pub end_sequence : TypedLine → TypedLine
unfolding is_report
end_sequence t =
    if same t.seq (codes "[200~")
    then record t { pasting = true }
    else if same t.seq (codes "[201~")
    then record t { pasting = false }
    else if is_report t.seq
    then t
    else record t { dirty = true }

-- `b` inside a CSI or SS3 sequence.
unfoldable pub in_sequence : TypedLine → ℕ → TypedLine
unfolding end_sequence
in_sequence t b =
    let s = record t { seq = t.seq ++ b ∷ [] } in
    if within 0x40 0x7e b then end_sequence (record s { esc = 0 }) else s

-- `b` inside an OSC.
unfoldable pub in_osc : TypedLine → ℕ → TypedLine
in_osc t b =
    if b == 0x07 then record t { esc = 0 } else if b == 0x1b then record t { esc = 4 } else t

-- Enter.
unfoldable pub enter : TypedLine → TypedLine
enter t =
    if t.pasting
    then record t { dirty = true }
    else let line = trim (from_utf8_lossy t.line) in
      let last : List ℕ =
        (if t.dirty then [] else elim line [ [] ↦ t.last | c ∷ cs ↦ take max_command (c ∷ cs) ]) in
      record t { line = []; last = last; dirty = false }

-- Any byte that is no key of its own.
unfoldable pub ordinary : TypedLine → ℕ → TypedLine
ordinary t b =
    if ltb b 0x20
    then record t { dirty = true }
    else if leb max_line (length t.line)
    then record t { line = []; dirty = true }
    else record t { line = t.line ++ b ∷ [] }

-- `b` outside an escape sequence.
unfoldable pub plain : TypedLine → ℕ → TypedLine
unfolding enter backspace ordinary
plain t b =
    if b == 0x1b
    then record t { esc = 1; seq = [] }
    else if b == b'\r' || b == b'\n'
    then enter t
    else if b == 0x08 || b == 0x7f
    then record t { line = backspace t.line }
    else if b == 0x03 || (b == 0x15 || b == 0x17)
    then record t { line = []; dirty = false }
    else if b == b'\t'
    then record t { dirty = true }
    else ordinary t b

unfoldable pub byte : TypedLine → ℕ → TypedLine
unfolding plain after_esc in_sequence in_osc
byte t b =
    if t.esc == 1
    then after_esc t b
    else if t.esc == 2
    then in_sequence t b
    else if t.esc == 3
    then in_osc t b
    else if t.esc == 4
    then record t { esc = 0 }
    else plain t b

unfoldable pub feed : TypedLine → List ℕ → TypedLine
unfolding byte
feed t [] = t
feed t (b ∷ bs) = feed (byte t b) bs

-- `clean_command`.
abbrev printable : List ℕ → List ℕ
printable [] = []
printable (c ∷ cs) = if is_control c then printable cs else c ∷ printable cs

unfoldable pub clean_command : List ℕ → List ℕ
clean_command raw = trim (take max_command (printable raw))

abbrev contains : ℕ → List ℕ → Bool
contains c [] = false
contains c (d ∷ ds) = c == d || contains c ds

-- `split_whitespace().next()` of a text that begins with no white space.
abbrev pub first_word : List ℕ → List ℕ
first_word [] = []
first_word (c ∷ cs) = if is_whitespace c then [] else c ∷ first_word cs

abbrev starts_with_any : List ℕ → List ℕ → Bool
starts_with_any marks [] = false
starts_with_any marks (c ∷ cs) = contains c marks

-- `runnable`: `is_file` says whether the folder holds a file of this name.
unfoldable pub runnable : Bool → (List ℕ → Bool) → List ℕ → List ℕ
runnable windows is_file command =
    let trimmed = trim_start command in
    let first = first_word trimmed in
    if starts_with_any (b'"' ∷ b'\'' ∷ []) trimmed
    then command
    else if same first []
    then command
    else if starts_with_any (codes "./\\~") first
        || (contains b'/' first || (contains b'\\' first || contains b':' first))
    then command
    else if is_file first
    then (if windows then codes ".\\" else codes "./") ++ trimmed
    else command

-- The command of an entry that `SaveTerminal` saves.
abbrev pub saved_command : Bool → (List ℕ → Bool) → List ℕ → List ℕ
saved_command windows is_file command = runnable windows is_file (clean_command command)
