-- ===== src/Strings/Numbers.antt =====
-- Numbers written and read back.
use sessionhub.Base.{
  ℕ, zero, suc, ◌+◌, ◌-◌, ◌*◌, ◌/◌, ◌%◌, ◌<◌, ◌≡◌, refl, subst, ◌∙◌, inl, inr, true, false, [], ◌∷◌,
  some, ltb, lt→ltb, ◌==◌, within, All, arith, Bool-cases,
}
use sessionhub.Utf8.{Text, is_digit}
use sessionhub.Strings.{digits_from, digits_before, decimal, parse_below}

digits_from-digits_before :
    (turns n : ℕ) (rest : Text)
    → n < turns
    → digits_from 0 (digits_before turns n rest) ≡ digits_from n rest
unfolding digits_from digits_before
digits_from-digits_before zero n rest h = absurd (omega arith)
digits_from-digits_before (suc turns) n rest h = elim (Bool-cases (ltb n 10)) [
  | inl y ↦
      let digit : within b'0' b'9' (b'0' + n) ≡ true = ground arith in
      let value : 0 * 10 + (b'0' + n - b'0') ≡ n = omega arith in rw (y, digits_from, digit, value)
  | inr no' ↦
      let digit : within b'0' b'9' (b'0' + n % 10) ≡ true = ground arith in
      let value : n / 10 * 10 + (b'0' + n % 10 - b'0') ≡ n = omega arith in
      rw no' (
        digits_from-digits_before turns (n / 10) ((b'0' + n % 10) ∷ rest) (ground arith)
        ∙ rw (digits_from, digit, value))
]

digits_before-digits :
    (turns n : ℕ) (rest : Text)
    → n < turns
    → All (λ c. is_digit c ≡ true) rest
    → (c : ℕ) × (cs : Text) × (digits_before turns n rest ≡ c ∷ cs)
      × All (λ c. is_digit c ≡ true) (digits_before turns n rest)
unfolding digits_before
digits_before-digits zero n rest h all_digits = absurd (omega arith)
digits_before-digits (suc turns) n rest h all_digits = elim (Bool-cases (ltb n 10)) [
  | inl y ↦ rw y (b'0' + n, rest, refl, (ground arith, all_digits))
  | inr no' ↦ rw no' (
      digits_before-digits turns (n / 10) ((b'0' + n % 10) ∷ rest) (ground arith)
        (ground arith, all_digits))
]

-- The digits of a number: there is one, and there is nothing else.
pub decimal-digits :
    (n : ℕ)
    → (c : ℕ) × (cs : Text) × (decimal n ≡ c ∷ cs) × All (λ c. is_digit c ≡ true) (decimal n)
unfolding decimal
decimal-digits n = digits_before-digits (suc n) n [] (omega arith) tt

-- A number below the bound is read back from its digits.
pub parse_below-decimal : (bound n : ℕ) → n < bound → parse_below bound (decimal n) ≡ some n
unfolding parse_below decimal digits_from
parse_below-decimal bound n h = let d = decimal-digits n in go d.0 d.1 d.2 d.3 read
  where
    read : digits_from 0 (decimal n) ≡ some n
    read = digits_from-digits_before (suc n) n [] (omega arith)

    go :
        (c : ℕ) (cs : Text)
        → decimal n ≡ c ∷ cs
        → All (λ c. is_digit c ≡ true) (decimal n)
        → digits_from 0 (decimal n) ≡ some n
        → parse_below bound (decimal n) ≡ some n
    go c cs e ds r =
        let first : is_digit c ≡ true = (subst (All (λ c. is_digit c ≡ true)) e ds).0 in
        let no_plus : (c == b'+') ≡ false = ground arith in
        let value : digits_from 0 (c ∷ cs) ≡ some n = subst (λ t. digits_from 0 t ≡ some n) e r in
        rw (e, no_plus, value, lt→ltb n bound h)
