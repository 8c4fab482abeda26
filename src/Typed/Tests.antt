-- ===== src/Typed/Tests.antt =====
-- Unit tests of src/typed.rs, and the theorems of this folder at concrete inputs.
use sessionhub.Base.{
  same, ◌+◌, List, ℕ, ◌≡◌, ◌≤◌, refl, true, false, [], ◌∷◌, ◌++◌, codes, length, All, arith,
}
use sessionhub.Utf8.{
  trim_start, trim_end, is_control, from_utf8_lossy, front, is_whitespace, is_control, trim,
}
use sessionhub.Typed.{TypedLine, empty, feed, clean_command, runnable, saved_command, max_command}
use sessionhub.Typed.Bounds.{IsBounded, feed-IsBounded}
use sessionhub.Typed.Trust.{claimed, feed-untrusted, feed-typed}
use sessionhub.Typed.Command.{saved_command-Clean}

esc : ℕ
esc = 0x1b

a_typed_command_is_remembered : (feed empty (codes "npm run dev\r")).last ≡ codes "npm run dev"
unfolding feed from_utf8_lossy front trim is_whitespace
a_typed_command_is_remembered = refl

a_command_recalled_from_history_is_not_claimed :
    (feed empty (codes "cargo build\r" ++ esc ∷ codes "[A\r")).last ≡ []
unfolding esc feed from_utf8_lossy front trim is_whitespace
a_command_recalled_from_history_is_not_claimed = refl

a_focus_report_does_not_count_as_editing_the_line :
    (feed empty
      (codes "npm " ++ (esc ∷ codes "[O" ++ (esc ∷ codes "[I" ++ codes "run dev\r")))).last
    ≡ codes "npm run dev"
unfolding esc feed from_utf8_lossy front trim is_whitespace
a_focus_report_does_not_count_as_editing_the_line = refl

backspace_removes_a_whole_character :
    (feed empty (codes "echo " ++ 0xc3 ∷ 0xa9 ∷ 0x7f ∷ codes "\r")).last ≡ codes "echo"
unfolding feed from_utf8_lossy front trim is_whitespace
backspace_removes_a_whole_character = refl

feed-IsBounded_example : IsBounded (feed empty (codes "cd ses\t\r"))
feed-IsBounded_example = feed-IsBounded (codes "cd ses\t\r") empty (omega arith)

abbrev tabbed : TypedLine
tabbed = record empty { line = codes "cd ses"; last = codes "ls"; dirty = true }

feed-untrusted_example : (feed tabbed (codes "x y" ++ codes "\r")).last ≡ []
unfolding feed
feed-untrusted_example = feed-untrusted (codes "x y") tabbed (omega arith) refl refl refl

feed-typed_example :
    feed empty (codes " ls -la " ++ codes "\r")
    ≡ record empty { line = []; last = claimed (codes " ls -la ") []; dirty = false }
feed-typed_example =
    feed-typed (codes " ls -la ") empty (omega arith) (omega arith) refl refl refl refl

-- The folder holds a file of this name.
abbrev script : List ℕ
script = codes "run.bat"

script_is_prefixed :
    saved_command false (same script) (codes " run.bat\n --once") ≡ codes "./run.bat --once"
unfolding clean_command runnable trim trim_start trim_end is_whitespace is_control
script_is_prefixed = refl

saved_command-Clean_example :
    All (λ c. is_control c ≡ false) (saved_command false (same script) (codes " run.bat\n --once"))
    × (length (saved_command false (same script) (codes " run.bat\n --once")) ≤ max_command + 2)
saved_command-Clean_example = saved_command-Clean false (same script) (codes " run.bat\n --once")
