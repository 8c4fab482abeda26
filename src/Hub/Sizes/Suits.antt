-- ===== src/Hub/Sizes/Suits.antt =====
-- `effective_size` of src/state.rs, over the viewers and which of them are on screen.
use sessionhub.Base.{
  ℕ, ◌≡◌, ◌⊎◌, inl, inr, [], ◌∷◌, Option, none, some, Bool-cases, Option-cases, lookup, true, false,
  All,
}
use sessionhub.Hub.Types.{Client, Clients}
use sessionhub.Hub.Sizes.{Viewers, is_hidden, shown, effective_size}
use sessionhub.Hub.Sizes.Smallest.{Within, HasCols, HasRows, IsSmallest, effective_size-IsSmallest}

-- A viewer is on screen unless the actor knows it and its page said that it is not.
abbrev pub OnScreen : Clients → ℕ → Type 0
OnScreen clients id = (c : Client) → lookup id clients ≡ some c → c.hidden ≡ false

-- A viewer on screen of whose size this is true.
abbrev pub SomeShown : Clients → Viewers → (ℕ × ℕ → Type 0) → Type 0
SomeShown clients [] P = ⊥
SomeShown clients ((id, s) ∷ vs) P = (OnScreen clients id × P s) ⊎ SomeShown clients vs P

-- The size that suits the viewers on screen, or none where none of them is.
abbrev pub Suits : Clients → Viewers → Option (ℕ × ℕ) → Type 0
Suits clients viewers none = All (λ v. ¬ OnScreen clients v.0) viewers
Suits clients viewers (some size) =
    All (λ v. OnScreen clients v.0 → Within size v.1) viewers
    × SomeShown clients viewers (λ s. s.0 ≡ size.0)
    × SomeShown clients viewers (λ s. s.1 ≡ size.1)

hidden→not-OnScreen :
    (clients : Clients) (id : ℕ) → is_hidden clients id ≡ true → ¬ OnScreen clients id
unfolding is_hidden
hidden→not-OnScreen clients id e on = elim (Option-cases (lookup id clients)) [
  | inl l ↦ cc (rw (l, is_hidden) at e)
  | inr (c, l) ↦ cc (rw (l, is_hidden) at e, on c l)
]

shown→OnScreen : (clients : Clients) (id : ℕ) → is_hidden clients id ≡ false → OnScreen clients id
unfolding is_hidden
shown→OnScreen clients id e c l = rw (l, is_hidden) at e

shown_bound :
    (clients : Clients) (size : ℕ × ℕ) (vs : Viewers)
    → All (Within size) (shown clients vs)
    → All (λ v. OnScreen clients v.0 → Within size v.1) vs
unfolding shown
shown_bound clients size [] h = tt
shown_bound clients size ((id, s) ∷ vs) h = elim (Bool-cases (is_hidden clients id)) [
  | inl e ↦ (
    (λ on. absurd (hidden→not-OnScreen clients id e on)),
    shown_bound clients size vs (rw e at h),
  )
  | inr e ↦
      let h' : Within size s × All (Within size) (shown clients vs) = rw e at h in
      ((λ on. h'.0), shown_bound clients size vs h'.1)
]

none_shown :
    (clients : Clients) (vs : Viewers)
    → shown clients vs ≡ []
    → All (λ v. ¬ OnScreen clients v.0) vs
unfolding shown
none_shown clients [] h = tt
none_shown clients ((id, s) ∷ vs) h = elim (Bool-cases (is_hidden clients id)) [
  | inl e ↦ (hidden→not-OnScreen clients id e, none_shown clients vs (rw e at h))
  | inr e ↦ cc (rw e at h)
]

shown_cols :
    (clients : Clients) (k : ℕ) (vs : Viewers)
    → HasCols k (shown clients vs)
    → SomeShown clients vs (λ s. s.0 ≡ k)
unfolding shown
shown_cols clients k [] h = h
shown_cols clients k ((id, s) ∷ vs) h = elim (Bool-cases (is_hidden clients id)) [
  | inl e ↦ inr (shown_cols clients k vs (rw e at h))
  | inr e ↦
      let h' : (s.0 ≡ k) ⊎ HasCols k (shown clients vs) = rw e at h in
      elim h' [
        | inl here ↦ inl (shown→OnScreen clients id e, here)
        | inr later ↦ inr (shown_cols clients k vs later)
      ]
]

shown_rows :
    (clients : Clients) (k : ℕ) (vs : Viewers)
    → HasRows k (shown clients vs)
    → SomeShown clients vs (λ s. s.1 ≡ k)
unfolding shown
shown_rows clients k [] h = h
shown_rows clients k ((id, s) ∷ vs) h = elim (Bool-cases (is_hidden clients id)) [
  | inl e ↦ inr (shown_rows clients k vs (rw e at h))
  | inr e ↦
      let h' : (s.1 ≡ k) ⊎ HasRows k (shown clients vs) = rw e at h in
      elim h' [
        | inl here ↦ inl (shown→OnScreen clients id e, here)
        | inr later ↦ inr (shown_rows clients k vs later)
      ]
]

IsSmallest-Suits :
    (clients : Clients) (vs : Viewers) (o : Option (ℕ × ℕ))
    → IsSmallest (shown clients vs) o
    → Suits clients vs o
IsSmallest-Suits clients vs none h = none_shown clients vs h
IsSmallest-Suits clients vs (some size) (within, cols, rows) = (
  shown_bound clients size vs within,
  shown_cols clients size.0 vs cols,
  shown_rows clients size.1 vs rows,
)

-- The effective size is no wider and no higher than any viewer on screen asks for; one of them asks
-- for that width and one for that height. There is none exactly where no viewer is on screen. A
-- viewer is on screen unless it is a client that the actor knows as hidden.
pub effective_size-Suits :
    (viewers : Viewers) (clients : Clients) → Suits clients viewers (effective_size viewers clients)
effective_size-Suits viewers clients =
    IsSmallest-Suits clients viewers (effective_size viewers clients)
      (effective_size-IsSmallest viewers clients)
