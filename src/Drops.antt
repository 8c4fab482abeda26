-- ===== src/Drops.antt =====
-- `safe_name` of src/drops.rs: the part of a stored file's name that is taken from what the client
-- sent. The time in front of it, and the number behind that if the file is there already, are not here.
pub mod Kept
pub mod Safe
mod Tests
use sessionhub.Base.{
  ℕ, Bool, true, false, not, ◌||◌, ◌&&◌, List, [], ◌∷◌, ◌++◌, length, leb, ◌==◌, if◌then◌else◌,
  codes,
}
use sessionhub.Utf8.{Text, split, is_alphanumeric}

-- `rsplit(…).next()`: the last part.
unfoldable pub last_part : List Text → Text
last_part [] = []
last_part (part ∷ []) = part
last_part (part ∷ next ∷ parts) = last_part (next ∷ parts)

unfoldable pub ends_with : ℕ → Text → Bool
ends_with at [] = false
ends_with at (c ∷ []) = c == at
ends_with at (c ∷ d ∷ cs) = ends_with at (d ∷ cs)

abbrev pub is_nothing : Text → Bool
is_nothing [] = true
is_nothing (c ∷ cs) = false

abbrev pub is_kept_char : ℕ → Bool
is_kept_char c = is_alphanumeric c || (c == b'-' || c == b'_')

abbrev pub keeps : Bool → Text → ℕ → Bool
keeps last_dot out c = is_kept_char c || (c == b'.' && (not last_dot && not (is_nothing out)))

abbrev pub dashed : Text → Text
dashed out = if not (ends_with b'-' out) && not (is_nothing out) then out ++ b'-' ∷ [] else out

abbrev pub pushed : Bool → Text → ℕ → Text
pushed last_dot out c = if keeps last_dot out c then out ++ c ∷ [] else dashed out

unfoldable pub safe_from : Bool → Text → Text → Text
unfolding ends_with
safe_from last_dot out [] = out
safe_from last_dot out (c ∷ cs) =
    let rest = safe_from (keeps last_dot out c && c == b'.') (pushed last_dot out c) cs in
    if leb 48 (length (pushed last_dot out c)) then pushed last_dot out c else rest

abbrev pub is_edge : ℕ → Bool
is_edge c = c == b'-' || c == b'.'

-- `trim_matches`.
unfoldable pub trim_front : Text → Text
trim_front [] = []
trim_front (c ∷ cs) = let rest = trim_front cs in if is_edge c then rest else c ∷ cs

unfoldable pub trim_back : Text → Text
trim_back [] = []
trim_back (c ∷ cs) = elim (trim_back cs) [
  | [] ↦ if is_edge c then [] else c ∷ []
  | d ∷ ds ↦ c ∷ d ∷ ds
]

abbrev pub or_drop : Text → Text
or_drop [] = codes "drop"
or_drop (c ∷ cs) = c ∷ cs

unfoldable pub safe_name : Text → Text
unfolding split last_part safe_from trim_front trim_back
safe_name raw = or_drop (
    trim_back
      (trim_front (safe_from false [] (last_part (split (λ c. c == b'/' || c == b'\\') raw)))))
