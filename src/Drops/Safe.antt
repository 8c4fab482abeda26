-- ===== src/Drops/Safe.antt =====
-- What the name of a dropped file looks like.
use sessionhub.Base.{
  within, codes, ◌⊎◌, ◌≢◌, ℕ, ◌≤◌, ◌≡◌, refl, sym, subst, inl, inr, Bool, true, false, ◌||◌, [],
  ◌∷◌, length, ◌==◌, All, arith,
}
use sessionhub.Utf8.{is_letter, is_digit, is_alphanumeric, Text, split}
use sessionhub.Drops.{
  last_part, is_kept_char, safe_from, is_edge, trim_front, trim_back, or_drop, safe_name,
}
use sessionhub.Drops.Kept.{
  is_safe_char, NoTwoDots, Built, StartsClean, EndsClean, Trimmed, safe_from-Built,
  trim_front-Built, Built-prefix, StartsClean-prefix, trim_back-Trimmed,
}

-- An ASCII letter or digit, `-`, `_` or `.`.
abbrev pub MayStand : ℕ → Type 0
MayStand c =
    ((b'a' ≤ c) × (c ≤ b'z'))
    ⊎ ((b'A' ≤ c) × (c ≤ b'Z'))
    ⊎ ((b'0' ≤ c) × (c ≤ b'9'))
    ⊎ (c ≡ b'-')
    ⊎ (c ≡ b'_')
    ⊎ (c ≡ b'.')

-- Neither `-` nor `.`.
abbrev pub MayEnd : ℕ → Type 0
MayEnd c = (c ≢ b'-') × (c ≢ b'.')

abbrev pub EndsWell : Text → Type 0
EndsWell [] = Unit
EndsWell (c ∷ []) = MayEnd c
EndsWell (c ∷ d ∷ cs) = EndsWell (d ∷ cs)

-- Not empty, at most 48 characters, all of them of the safe ones, no two dots in a row, and no `-`
-- and no `.` at either end.
abbrev pub SafeName : Text → Type 0
SafeName [] = ⊥
SafeName (c ∷ cs) =
    All MayStand (c ∷ cs)
    × NoTwoDots (c ∷ cs)
    × (length (c ∷ cs) ≤ 48)
    × MayEnd c
    × EndsWell (c ∷ cs)

or_true : (a b : Bool) → (a || b) ≡ true → (a ≡ true) ⊎ (b ≡ true)
or_true true b e = inl refl
or_true false b e = inr e

within-le : (low high c : ℕ) → within low high c ≡ true → (low ≤ c) × (c ≤ high)
within-le low high c e = (ground arith, ground arith)

letter-MayStand : (c : ℕ) → is_letter c ≡ true → MayStand c
letter-MayStand c e = elim (or_true (within b'a' b'z' c) (within b'A' b'Z' c) e) [
  | inl low ↦ inl (within-le b'a' b'z' c low)
  | inr up ↦ inr (inl (within-le b'A' b'Z' c up))
]

kept-MayStand : (c : ℕ) → is_kept_char c ≡ true → MayStand c
kept-MayStand c e = elim (or_true (is_alphanumeric c) (c == b'-' || c == b'_') e) [
  | inl word ↦ elim (or_true (is_letter c) (is_digit c) word) [
    | inl letter ↦ letter-MayStand c letter
    | inr digit ↦ inr (inr (inl (within-le b'0' b'9' c digit)))
  ]
  | inr mark ↦ elim (or_true (c == b'-') (c == b'_') mark) [
    | inl dash ↦ inr (inr (inr (inl (ground arith))))
    | inr line ↦ inr (inr (inr (inr (inl (ground arith)))))
  ]
]

safe-MayStand : (c : ℕ) → is_safe_char c ≡ true → MayStand c
safe-MayStand c e = elim (or_true (is_kept_char c) (c == b'.') e) [
  | inl kept ↦ kept-MayStand c kept
  | inr dot ↦ inr (inr (inr (inr (inr (ground arith)))))
]

may_end : (c : ℕ) → is_edge c ≡ false → MayEnd c
may_end c e = ((λ d. ground arith), (λ d. ground arith))

all_stand : (cs : Text) → All (λ c. is_safe_char c ≡ true) cs → All MayStand cs
all_stand [] h = tt
all_stand (c ∷ cs) (h, hs) = (safe-MayStand c h, all_stand cs hs)

ends_well : (cs : Text) → EndsClean cs → EndsWell cs
ends_well [] h = tt
ends_well (c ∷ []) h = may_end c h
ends_well (c ∷ d ∷ cs) h = ends_well (d ∷ cs) h

checked_text :
    (c : ℕ) (cs : Text)
    → Built (c ∷ cs)
    → is_edge c ≡ false
    → EndsClean (c ∷ cs)
    → SafeName (c ∷ cs)
checked_text c cs (safe, dots, short) start end =
    (all_stand (c ∷ cs) safe, dots, short, may_end c start, ends_well (c ∷ cs) end)

or_drop-Safe :
    (cs kept : Text) → Built cs → StartsClean cs → Trimmed cs kept → SafeName (or_drop kept)
or_drop-Safe cs [] b h t =
    checked_text b'd' (codes "rop")
      ((refl, (refl, (refl, (refl, tt)))), (refl, (refl, (refl, tt))), omega arith) refl refl
or_drop-Safe cs (c ∷ kept) b h ((rest, e), clean) =
    checked_text c kept (Built-prefix (c ∷ kept) rest (subst Built (sym e) b))
      (StartsClean-prefix (c ∷ kept) rest (subst StartsClean (sym e) h)) clean

-- What `safe_name` makes of whatever name a client sends is not empty, has at most 48 characters,
-- all of them ASCII letters, digits, `-`, `_` or `.`, with no two dots in a row and no `-` or `.` at
-- its start or its end. A dropped file's name is this behind the time of the drop and a `-`.
pub safe_name-Safe : (raw : Text) → SafeName (safe_name raw)
unfolding safe_name
safe_name-Safe raw =
    let base = last_part (split (λ c. c == b'/' || c == b'\\') raw) in
    let front =
      trim_front-Built (safe_from false [] base)
        (safe_from-Built false [] base (tt, tt, (λ e. e), omega arith)) in
    or_drop-Safe (trim_front (safe_from false [] base))
      (trim_back (trim_front (safe_from false [] base))) (front.0) (front.1)
      (trim_back-Trimmed (trim_front (safe_from false [] base)))
