-- ===== src/Remote/Names.antt =====
-- The names that `unique_name` gives.
use sessionhub.Base.{
  ℕ, zero, suc, ◌+◌, ◌≤◌, ◌<◌, ◌≡◌, ◌⊎◌, refl, subst, ◌==◌, inl, inr, List, ◌++◌, none, some, codes,
  arith, Bool-cases, Option-cases,
}
use sessionhub.Utf8.{Text}
use sessionhub.Remote.{base_name, Remote, find, candidate, first_free, unique_name}

-- Whether a machine has a name.
abbrev pub IsTaken : List Remote → Text → Type 0
IsTaken remotes name = (r : Remote) × (find remotes name ≡ some r)

extend :
    (P : ℕ → Type 0) (n top : ℕ)
    → P n
    → ((j : ℕ) → suc n ≤ j → j < top → P j)
    → (j : ℕ) → n ≤ j
    → j < top
    → P j
extend P n top first later j low high = elim (Bool-cases (n == j)) [
  | inl y ↦ let e : n ≡ j = ground arith in subst P e first
  | inr other ↦ later j (ground arith) high
]

-- What the search from `n` on gives: the first candidate that is free, or the last resort.
first_free-found :
    (remotes : List Remote) (base : Text) (left n : ℕ)
    → ((k : ℕ) × (n ≤ k)
        × (k < n + left)
        × (first_free remotes base n left ≡ candidate base k)
        × (find remotes (candidate base k) ≡ none)
        × ((j : ℕ) → n ≤ j → j < k → IsTaken remotes (candidate base j)))
      ⊎ ((first_free remotes base n left ≡ base ++ codes "-x")
          × ((j : ℕ) → n ≤ j → j < n + left → IsTaken remotes (candidate base j)))
unfolding first_free
first_free-found remotes base zero n = inr (refl, λ j low high. absurd (omega arith))
first_free-found remotes base (suc left) n = elim (Option-cases (find remotes (candidate base n))) [
  | inl free ↦
      inl (
        n,
        omega arith,
        omega arith,
        rw (first_free, free),
        free,
        λ j low high. absurd (omega arith),
      )
  | inr (r, taken) ↦ elim (first_free-found remotes base left (suc n)) [
    | inl (k, low, high, e, free, before) ↦ inl (
      k,
      omega arith,
      omega arith,
      rw (first_free, taken) e,
      free,
      extend (λ j. IsTaken remotes (candidate base j)) n k (r, taken) before,
    )
    | inr (e, before) ↦ inr (
      rw (first_free, taken) e,
      extend (λ j. IsTaken remotes (candidate base j)) n (n + suc left) (r, taken)
          (λ j a b. before j a (omega arith)),
    )
  ]
]

-- The name that `unique_name` gives is free, and is the wanted one (`remote`, where none is wanted) if
-- that is free, else the first free of that name with -2, -3 up to -999 behind it. Only if all of
-- these are taken it is the name with -x behind it, free or not.
pub unique_name-first :
    (remotes : List Remote) (wanted : Text)
    → ((unique_name remotes wanted ≡ base_name wanted) × (find remotes (base_name wanted) ≡ none))
      ⊎ (IsTaken remotes (base_name wanted)
          × (((k : ℕ) × (2 ≤ k)
                × (k < 1000)
                × (unique_name remotes wanted ≡ candidate (base_name wanted) k)
                × (find remotes (candidate (base_name wanted) k) ≡ none)
                × ((j : ℕ) → 2 ≤ j → j < k → IsTaken remotes (candidate (base_name wanted) j)))
              ⊎ ((unique_name remotes wanted ≡ base_name wanted ++ codes "-x")
                  × ((j : ℕ)
                      → 2 ≤ j
                      → j < 1000
                      → IsTaken remotes (candidate (base_name wanted) j)))))
unfolding unique_name
unique_name-first remotes wanted = elim (Option-cases (find remotes (base_name wanted))) [
  | inl free ↦ inl (rw (unique_name, free), free)
  | inr (r, taken) ↦ inr (
    (r, taken),
    elim (first_free-found remotes (base_name wanted) 998 2) [
      | inl (k, low, high, e, free, before) ↦
          inl (k, low, high, rw (unique_name, taken) e, free, before)
      | inr (e, before) ↦ inr (rw (unique_name, taken) e, before)
    ],
  )
]
