-- ===== src/Strings/Laws.antt =====
-- Texts put together and taken apart again.
use sessionhub.Base.{
  ℕ, ◌≡◌, refl, ap, ◌∙◌, inl, inr, Bool, true, false, List, [], ◌∷◌, ◌++◌, Option, none, some, any,
  ◌==◌, if◌then◌else◌, All, arith, Bool-cases, Option-cases,
}
use sessionhub.Utf8.{Text, split}
use sessionhub.Strings.{
  split_once, rsplit_once, join, filter, starts_with, first_part, to_lower, to_ascii_lowercase,
}

-- No character of a class.
abbrev pub Without : (ℕ → Bool) → Text → Type 0
Without p = All (λ c. p c ≡ false)

pub split-alone : (p : ℕ → Bool) (part : Text) → Without p part → split p part ≡ part ∷ []
unfolding split
split-alone p [] h = refl
split-alone p (c ∷ cs) (h, hs) = rw (split-alone p cs hs, split, h)

pub split-front :
    (p : ℕ → Bool) (part : Text) (s : ℕ) (rest : Text)
    → Without p part
    → p s ≡ true
    → split p (part ++ s ∷ rest) ≡ part ∷ split p rest
unfolding split
split-front p [] s rest h e = go (split-some rest)
  where
    go :
        (x : Text) × (xs : List Text) × (split p rest ≡ x ∷ xs)
        → split p (s ∷ rest) ≡ [] ∷ split p rest
    go (x, xs, q) = rw (q, split, e)

    split-some : (cs : Text) → (x : Text) × (xs : List Text) × (split p cs ≡ x ∷ xs)
    split-some [] = ([], [], refl)
    split-some (c ∷ cs) =
        let more = split-some cs in
        elim (Bool-cases (p c)) [
          | inl y ↦ ([], more.0 ∷ more.1, rw (more.2, split, y))
          | inr n ↦ (c ∷ more.0, more.1, rw (more.2, split, n))
        ]
split-front p (c ∷ cs) s rest (h, hs) e = rw (split-front p cs s rest hs e, split, h)

-- Parts without a separator come back from their `join`.
pub split-join :
    (at : ℕ) (part : Text) (parts : List Text)
    → All (Without (λ c. c == at)) (part ∷ parts)
    → split (λ c. c == at) (join (at ∷ []) (part ∷ parts)) ≡ part ∷ parts
unfolding join
split-join at part [] (h, hs) = split-alone (λ c. c == at) part h
split-join at part (next ∷ parts) (h, hs) =
    split-front (λ c. c == at) part at (join (at ∷ []) (next ∷ parts)) h (ground arith)
    ∙ ap (λ x. part ∷ x) (split-join at next parts hs)

-- What `split` gives has no separator in it.
pub split-Without : (p : ℕ → Bool) (cs : Text) → All (Without p) (split p cs)
unfolding split
split-Without p [] = (tt, tt)
split-Without p (c ∷ cs) = go (split p cs) (split-Without p cs)
  where
    go :
        (parts : List Text)
        → All (Without p) parts
        → All
            (Without p)
            (elim parts [ [] ↦ [] | x ∷ xs ↦ if p c then [] ∷ x ∷ xs else (c ∷ x) ∷ xs ])
    go [] h = tt
    go (x ∷ xs) (h, hs) = elim (Bool-cases (p c)) [
      | inl y ↦ rw y (tt, (h, hs))
      | inr n ↦ rw n ((n, h), hs)
    ]

pub split_once-front :
    (at : ℕ) (name rest : Text)
    → Without (λ c. c == at) name
    → split_once at (name ++ at ∷ rest) ≡ some (name, rest)
unfolding split_once
split_once-front at [] rest h = ground arith
split_once-front at (c ∷ cs) rest (h, hs) = rw (h, split_once-front at cs rest hs)

pub split_once-none : (at : ℕ) (cs : Text) → Without (λ c. c == at) cs → split_once at cs ≡ none
unfolding split_once
split_once-none at [] h = refl
split_once-none at (c ∷ cs) (h, hs) = rw (h, split_once-none at cs hs)

-- A text that is split once is what the halves make with the separator between them.
pub split_once-append : (at : ℕ) (cs a b : Text) → split_once at cs ≡ some (a, b) → cs ≡ a ++ at ∷ b
unfolding split_once
split_once-append at [] a b e = cc
split_once-append at (c ∷ cs) a b e = elim (Bool-cases (c == at)) [
  | inl y ↦
      let q : ◌≡◌ {A = Option (Text × Text)} (some ([], cs)) (some (a, b)) = rw y at e in
      let same_char : c ≡ at = ground arith in cc (q, same_char)
  | inr n ↦ elim (Option-cases (split_once at cs)) [
    | inl q ↦ cc (rw (n, q) at e)
    | inr ((x, y), q) ↦
        let p : ◌≡◌ {A = Option (Text × Text)} (some (c ∷ x, y)) (some (a, b)) = rw (n, q) at e in
        let rest = split_once-append at cs x y q in cc (p, rest)
  ]
]

pub filter-All {ℓ} :
    {A : Type 0} (P : A → Type ℓ) (p : A → Bool) (xs : List A) → All P xs → All P (filter p xs)
unfolding filter
filter-All P p [] h = tt
filter-All P p (x ∷ xs) (h, hs) = elim (Bool-cases (p x)) [
  | inl y ↦ rw y (h, filter-All P p xs hs)
  | inr n ↦ rw n (filter-All P p xs hs)
]

-- What a filter keeps passes its test.
pub filter-passes {ℓ} :
    {A : Type ℓ} (p : A → Bool) (xs : List A) → All (λ x. p x ≡ true) (filter p xs)
unfolding filter
filter-passes p [] = tt
filter-passes p (x ∷ xs) = elim (Bool-cases (p x)) [
  | inl y ↦ rw y (y, filter-passes p xs)
  | inr n ↦ rw n (filter-passes p xs)
]

pub first_part-front :
    (at : ℕ) (part rest : Text)
    → Without (λ c. c == at) part
    → first_part at (part ++ at ∷ rest) ≡ part
unfolding first_part
first_part-front at part rest h =
    rw (first_part, split-front (λ c. c == at) part at rest h (ground arith))

pub first_part-alone :
    (at : ℕ) (part : Text) → Without (λ c. c == at) part → first_part at part ≡ part
unfolding first_part
first_part-alone at part h = rw (first_part, split-alone (λ c. c == at) part h)

pub rsplit_once-none : (at : ℕ) (cs : Text) → Without (λ c. c == at) cs → rsplit_once at cs ≡ none
unfolding rsplit_once
rsplit_once-none at [] h = refl
rsplit_once-none at (c ∷ cs) (h, hs) = rw (rsplit_once-none at cs hs, rsplit_once, h)

pub rsplit_once-back :
    (at : ℕ) (name rest : Text)
    → Without (λ c. c == at) rest
    → rsplit_once at (name ++ at ∷ rest) ≡ some (name, rest)
unfolding rsplit_once
rsplit_once-back at [] rest h = rw (rsplit_once-none at rest h, rsplit_once) (ground arith)
rsplit_once-back at (c ∷ cs) rest h = rw (rsplit_once-back at cs rest h, rsplit_once)

pub any-Without : (p : ℕ → Bool) (cs : Text) → Without p cs → any p cs ≡ false
any-Without p [] h = refl
any-Without p (c ∷ cs) (h, hs) = rw (h, any-Without p cs hs)

-- A text that does not change in lower case.
abbrev pub IsLower : Text → Type 0
IsLower = All (λ c. to_lower c ≡ c)

pub to_ascii_lowercase-IsLower : (cs : Text) → IsLower cs → to_ascii_lowercase cs ≡ cs
to_ascii_lowercase-IsLower [] h = refl
to_ascii_lowercase-IsLower (c ∷ cs) (h, hs) = rw (h, to_ascii_lowercase-IsLower cs hs)

-- A name, a colon and what is no slash do not start with a scheme.
pub starts_with-scheme :
    (scheme more name : Text) (d : ℕ) (rest : Text)
    → Without (λ c. c == b':') scheme
    → Without (λ c. c == b':') name
    → (d == b'/') ≡ false
    → starts_with (scheme ++ b':' ∷ b'/' ∷ more) (name ++ b':' ∷ d ∷ rest) ≡ false
unfolding starts_with
starts_with-scheme [] more [] d rest hs hn e = ground arith
starts_with-scheme [] more (c ∷ cs) d rest hs (hc, hn) e = ground arith
starts_with-scheme (s ∷ ss) more [] d rest (h, hs) hn e = ground arith
starts_with-scheme (s ∷ ss) more (c ∷ cs) d rest (h, hs) (hc, hn) e =
    ground (arith, starts_with-scheme ss more cs d rest hs hn e)
