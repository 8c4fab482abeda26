-- ===== src/Versions.antt =====
-- `parts` and `is_newer` of src/update.rs, and what src/webpack.rs decides by them.
pub mod Order
mod Tests
use sessionhub.Base.{
  ℕ, zero, suc, ◌^◌, Bool, true, false, not, ◌||◌, List, [], ◌∷◌, map, Option, none, some, ltb,
  ◌==◌, if◌then◌else◌,
}
use sessionhub.Utf8.{Text, trim, split, is_digit}
use sessionhub.Strings.{parse_below}

-- `trim_start_matches`.
unfoldable pub trim_v : Text → Text
trim_v [] = []
trim_v (c ∷ cs) = let rest = trim_v cs in if c == b'v' || c == b'V' then rest else c ∷ cs

-- `take_while`.
unfoldable pub leading_digits : Text → Text
leading_digits [] = []
leading_digits (c ∷ cs) = let rest = leading_digits cs in if is_digit c then c ∷ rest else []

abbrev pub or_zero : Option ℕ → ℕ
or_zero none = 0
or_zero (some n) = n

unfoldable pub part_of : Text → ℕ
unfolding leading_digits parse_below
part_of p = or_zero (parse_below (2 ^ 64) (leading_digits p))

unfoldable pub parts : Text → List ℕ
unfolding trim_v trim split part_of
parts v = map part_of (split (λ c. c == b'.') (trim_v (trim v)))

-- The loop over two versions' parts; a part that is not there counts as 0.
unfoldable pub newer : List ℕ → List ℕ → Bool
newer [] [] = false
newer [] (y ∷ ys) = let rest = newer [] ys in if 0 == y then rest else ltb y 0
newer (x ∷ xs) [] = let rest = newer xs [] in if x == 0 then rest else ltb 0 x
newer (x ∷ xs) (y ∷ ys) = let rest = newer xs ys in if x == y then rest else ltb y x

unfoldable pub is_newer : Text → Text → Bool
unfolding parts newer
is_newer latest have = newer (parts latest) (parts have)

unfoldable pub daemon_is_new_enough : Text → Text → Bool
unfolding is_newer
daemon_is_new_enough daemon needs = not (is_newer needs daemon)

unfoldable pub outranks : Text → Text → Bool
unfolding is_newer
outranks installed built_in = is_newer installed built_in
