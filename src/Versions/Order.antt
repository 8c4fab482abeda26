-- ===== src/Versions/Order.antt =====
-- The order on versions.
use sessionhub.Base.{
  ℕ, zero, suc, ◌<◌, ◌≡◌, subst, ◌↔◌, ◌∙◌, inl, inr, true, false, List, [], ◌∷◌, ltb, ◌==◌, arith,
  Bool-cases,
}
use sessionhub.Utf8.{Text}
use sessionhub.Versions.{parts, newer, is_newer}

-- One part of a version, 0 where it has none, and what follows it.
abbrev pub part : List ℕ → ℕ → ℕ
part [] i = 0
part (x ∷ xs) zero = x
part (x ∷ xs) (suc i) = part xs i

-- The first difference of two versions is for the one and against the other.
abbrev pub IsAbove : List ℕ → List ℕ → Type 0
IsAbove xs ys = (i : ℕ) × (part ys i < part xs i) × ((j : ℕ) → j < i → part xs j ≡ part ys j)

shift_all :
    (xs ys : List ℕ) (x y i : ℕ)
    → x ≡ y
    → ((j : ℕ) → j < i → part xs j ≡ part ys j)
    → (j : ℕ) → j < suc i
    → part (x ∷ xs) j ≡ part (y ∷ ys) j
shift_all xs ys x y i e h zero k = e
shift_all xs ys x y i e h (suc j) k = h j (omega arith)

newer→IsAbove : (xs ys : List ℕ) → newer xs ys ≡ true → IsAbove xs ys
unfolding newer
newer→IsAbove [] [] e = cc
newer→IsAbove [] (y ∷ ys) e = elim (Bool-cases (0 == y)) [
  | inl q ↦
      let above = newer→IsAbove [] ys (rw q at e) in
      (suc above.0, above.1, pad ys above.0 (ground arith) above.2)
  | inr q ↦ absurd (ground (arith, e))
]
  where
    pad :
        (ys : List ℕ) (i : ℕ)
        → 0 ≡ y
        → ((j : ℕ) → j < i → 0 ≡ part ys j)
        → (j : ℕ) → j < suc i
        → 0 ≡ part (y ∷ ys) j
    pad ys i e h zero k = e
    pad ys i e h (suc j) k = h j (omega arith)
newer→IsAbove (x ∷ xs) [] e = elim (Bool-cases (x == 0)) [
  | inl q ↦
      let above = newer→IsAbove xs [] (rw q at e) in
      (suc above.0, above.1, pad xs above.0 (ground arith) above.2)
  | inr q ↦ (0, ground (arith, e), λ j k. absurd (omega arith))
]
  where
    pad :
        (xs : List ℕ) (i : ℕ)
        → x ≡ 0
        → ((j : ℕ) → j < i → part xs j ≡ 0)
        → (j : ℕ) → j < suc i
        → part (x ∷ xs) j ≡ 0
    pad xs i e h zero k = e
    pad xs i e h (suc j) k = h j (omega arith)
newer→IsAbove (x ∷ xs) (y ∷ ys) e = elim (Bool-cases (x == y)) [
  | inl q ↦
      let above = newer→IsAbove xs ys (rw q at e) in
      (suc above.0, above.1, shift_all xs ys x y above.0 (ground arith) above.2)
  | inr q ↦ (0, ground (arith, e), λ j k. absurd (omega arith))
]

IsAbove→newer : (xs ys : List ℕ) → IsAbove xs ys → newer xs ys ≡ true
unfolding newer
IsAbove→newer [] [] (i, h, before) = absurd (omega arith)
IsAbove→newer [] (y ∷ ys) (i, h, before) = absurd (omega arith)
IsAbove→newer (x ∷ xs) [] (zero, h, before) = ground arith
IsAbove→newer (x ∷ xs) [] (suc i, h, before) =
    let first : x ≡ 0 = before 0 (omega arith) in
    ground (arith, IsAbove→newer xs [] (i, h, λ j k. before (suc j) (omega arith)))
IsAbove→newer (x ∷ xs) (y ∷ ys) (zero, h, before) = ground arith
IsAbove→newer (x ∷ xs) (y ∷ ys) (suc i, h, before) =
    let first : x ≡ y = before 0 (omega arith) in
    ground (arith, IsAbove→newer xs ys (i, h, λ j k. before (suc j) (omega arith)))

IsAbove-trans : (xs ys zs : List ℕ) → IsAbove xs ys → IsAbove ys zs → IsAbove xs zs
IsAbove-trans xs ys zs (i, h, before) (j, k, before') = elim (Bool-cases (ltb i j)) [
  | inl y ↦
      let less : i < j = ground arith in
      (i, omega (arith, h, before' i less), λ n m. before n m ∙ before' n (omega arith))
  | inr n' ↦ elim (Bool-cases (ltb j i)) [
    | inl y ↦
        let less : j < i = ground arith in
        (j, omega (arith, k, before j less), λ n m. before n (omega arith) ∙ before' n m)
    | inr m' ↦
        let e : i ≡ j = ground arith in
        let first : part ys j < part xs j = subst (λ n. part ys n < part xs n) e h in
        (j, omega (arith, k, first), λ n m. before n (omega arith) ∙ before' n m)
  ]
]

-- A version is newer than another exactly if it has the larger number in the first part in which they
-- differ, a part that is not there counting as 0; so none is newer than itself, and of three versions,
-- each newer than the next, the first is newer than the last.
pub is_newer_iff :
    (a b c : Text)
    → (is_newer a b ≡ true ↔ IsAbove (parts a) (parts b))
      × (is_newer a a ≡ false)
      × (is_newer a b ≡ true → is_newer b c ≡ true → is_newer a c ≡ true)
unfolding is_newer
is_newer_iff a b c = (
  (newer→IsAbove (parts a) (parts b), IsAbove→newer (parts a) (parts b)),
  elim (Bool-cases (newer (parts a) (parts a))) [
    | inl y ↦ let above = newer→IsAbove (parts a) (parts a) y in absurd (omega (arith, above.1))
    | inr n' ↦ n'
  ],
  λ e f. IsAbove→newer (parts a) (parts c) (
      IsAbove-trans (parts a) (parts b) (parts c) (newer→IsAbove (parts a) (parts b) e)
        (newer→IsAbove (parts b) (parts c) f)),
)
