-- ===== src/Base/Bits.antt =====
-- When an exclusive or, or an or, of two numbers is zero.
use Prim.Native.Nat.{digits, bit_or-bitwise, bit_xor-bitwise, differ}
use Prim.Native.Nat.{ℕ, zero, suc, ◌+◌, ◌*◌, ◌/◌, ◌%◌, ◌≤◌, max, bit_or, bit_xor}
use mathlib.Core.Path.{◌≡◌, refl, sym, ap, ◌∙◌}
use native.Mathlib.Omega.{arith}

differ_zero : (x y : ℕ) → differ x y ≡ 0 → x ≡ y
differ_zero zero y e = sym e
differ_zero (suc x) zero e = absurd (omega arith)
differ_zero (suc x) (suc y) e = ap suc (differ_zero x y e)

differ_self : (x : ℕ) → differ x x ≡ 0
differ_self zero = refl
differ_self (suc x) = differ_self x

xor_digits_zero : (n a b : ℕ) → a ≤ n → digits (λ b. b) differ n a b ≡ 0 → a ≡ b
xor_digits_zero zero a b h e = omega arith
xor_digits_zero (suc n) zero b h e = sym e
xor_digits_zero (suc n) (suc a) b h e =
    let q : ℕ = digits (λ b. b) differ n (suc a / 2) (b / 2) in
    let d : ℕ = differ (suc a % 2) (b % 2) in
    let sum : q * 2 + d ≡ 0 = e in
    let halves = xor_digits_zero n (suc a / 2) (b / 2) (omega arith) (omega arith) in
    let lows = differ_zero (suc a % 2) (b % 2) (omega arith) in omega arith

xor_digits_self : (n a : ℕ) → a ≤ n → digits (λ b. b) differ n a a ≡ 0
xor_digits_self zero a h = omega arith
xor_digits_self (suc n) zero h = refl
xor_digits_self (suc n) (suc a) h =
    rw (xor_digits_self n (suc a / 2) (omega arith), differ_self (suc a % 2))

pub bit_xor_zero : (a b : ℕ) → bit_xor a b ≡ 0 → a ≡ b
bit_xor_zero a b e = xor_digits_zero a a b (omega arith) (sym (bit_xor-bitwise a b) ∙ e)

pub bit_xor_self : (a : ℕ) → bit_xor a a ≡ 0
bit_xor_self a = bit_xor-bitwise a a ∙ xor_digits_self a a (omega arith)

or_digits_zero : (n a b : ℕ) → a ≤ n → digits (λ b. b) max n a b ≡ 0 → (a ≡ 0) × (b ≡ 0)
or_digits_zero zero a b h e = (omega arith, e)
or_digits_zero (suc n) zero b h e = (refl, e)
or_digits_zero (suc n) (suc a) b h e =
    let q : ℕ = digits (λ b. b) max n (suc a / 2) (b / 2) in
    let d : ℕ = max (suc a % 2) (b % 2) in
    let sum : q * 2 + d ≡ 0 = e in
    let halves = or_digits_zero n (suc a / 2) (b / 2) (omega arith) (omega arith) in
    let lows : max (suc a % 2) (b % 2) ≡ 0 = omega arith in
    (omega (arith, halves.0, lows), omega (arith, halves.1, lows))

pub bit_or_zero : (a b : ℕ) → bit_or a b ≡ 0 → (a ≡ 0) × (b ≡ 0)
bit_or_zero a b e = or_digits_zero a a b (omega arith) (sym (bit_or-bitwise a b) ∙ e)
