-- ===== src/Hub/Sizes/Smallest.antt =====
-- `effective_size` of src/state.rs, over the sizes that it folds.
use mathlib.Core.List.{Permᴰ, Perm}
use mathlib.Core.Logic.{∥∥₁_elim}
use sessionhub.Base.{
  ℕ, ◌≤◌, min, ◌≡◌, ◌⊎◌, ◌∙◌, refl, sym, ap, inl, inr, List, [], ◌∷◌, Option, none, some, arith,
  Bool-cases, All, ap₂, leb, leb→le, if◌then◌else◌,
}
use sessionhub.Hub.Types.{Clients}
use sessionhub.Hub.Sizes.{Viewers, is_hidden, shown, fold_min, smallest, effective_size}

abbrev pub Within : ℕ × ℕ → ℕ × ℕ → Type 0
Within s v = (s.0 ≤ v.0) × (s.1 ≤ v.1)

-- Some viewer asks for this width, and some for this height.
abbrev pub HasCols : ℕ → List (ℕ × ℕ) → Type 0
HasCols c [] = ⊥
HasCols c ((a, b) ∷ ss) = (a ≡ c) ⊎ HasCols c ss

abbrev pub HasRows : ℕ → List (ℕ × ℕ) → Type 0
HasRows r [] = ⊥
HasRows r ((a, b) ∷ ss) = (b ≡ r) ⊎ HasRows r ss

fold_min-le : (first : ℕ × ℕ) (ss : List (ℕ × ℕ)) → Within (fold_min first ss) first
unfolding fold_min
fold_min-le (c, r) [] = (omega arith, omega arith)
fold_min-le (c, r) ((c2, r2) ∷ ss) = omega (arith, fold_min-le (min c c2, min r r2) ss)

fold_min-All : (first : ℕ × ℕ) (ss : List (ℕ × ℕ)) → All (Within (fold_min first ss)) ss
unfolding fold_min
fold_min-All (c, r) [] = tt
fold_min-All (c, r) ((c2, r2) ∷ ss) =
    (omega (arith, fold_min-le (min c c2, min r r2) ss), fold_min-All (min c c2, min r r2) ss)

fold_min-cols : (c r : ℕ) (ss : List (ℕ × ℕ)) → HasCols (fold_min (c, r) ss).0 ((c, r) ∷ ss)
unfolding fold_min
fold_min-cols c r [] = inl refl
fold_min-cols c r ((c2, r2) ∷ ss) = pick (fold_min-cols (min c c2) (min r r2) ss)
  where
    pick : {k : ℕ} → HasCols k ((min c c2, min r r2) ∷ ss) → HasCols k ((c, r) ∷ (c2, r2) ∷ ss)
    pick (inr h) = inr (inr h)
    pick (inl e) = elim (Bool-cases (leb c c2)) [
      | inl le ↦ inl (omega (arith, leb→le c c2 le))
      | inr gt ↦ inr (inl (ground arith))
    ]

fold_min-rows : (c r : ℕ) (ss : List (ℕ × ℕ)) → HasRows (fold_min (c, r) ss).1 ((c, r) ∷ ss)
unfolding fold_min
fold_min-rows c r [] = inl refl
fold_min-rows c r ((c2, r2) ∷ ss) = pick (fold_min-rows (min c c2) (min r r2) ss)
  where
    pick : {k : ℕ} → HasRows k ((min c c2, min r r2) ∷ ss) → HasRows k ((c, r) ∷ (c2, r2) ∷ ss)
    pick (inr h) = inr (inr h)
    pick (inl e) = elim (Bool-cases (leb r r2)) [
      | inl le ↦ inl (omega (arith, leb→le r r2 le))
      | inr gt ↦ inr (inl (ground arith))
    ]

-- What `effective_size` promises about the sizes on screen.
abbrev pub IsSmallest : List (ℕ × ℕ) → Option (ℕ × ℕ) → Type 0
IsSmallest ss none = ss ≡ []
IsSmallest ss (some s) = All (Within s) ss × HasCols s.0 ss × HasRows s.1 ss

smallest-IsSmallest : (ss : List (ℕ × ℕ)) → IsSmallest ss (smallest ss)
unfolding smallest
smallest-IsSmallest [] = refl
smallest-IsSmallest ((c, r) ∷ ss) =
    ((fold_min-le (c, r) ss, fold_min-All (c, r) ss), fold_min-cols c r ss, fold_min-rows c r ss)

pub effective_size-IsSmallest :
    (viewers : Viewers) (clients : Clients)
    → IsSmallest (shown clients viewers) (effective_size viewers clients)
effective_size-IsSmallest viewers clients = smallest-IsSmallest (shown clients viewers)

fold_min-fold :
    (a b : ℕ × ℕ) (ss : List (ℕ × ℕ))
    → fold_min (min a.0 b.0, min a.1 b.1) ss
      ≡ (min a.0 (fold_min b ss).0, min a.1 (fold_min b ss).1)
unfolding fold_min
fold_min-fold (a, a') (b, b') [] = refl
fold_min-fold (a, a') (b, b') ((c, c') ∷ ss) =
    ap₂ (λ x y. fold_min (x, y) ss) (omega arith) (omega arith)
    ∙ fold_min-fold (a, a') (min b c, min b' c') ss

-- The smallest of a list with one more size in front.
min_with : ℕ × ℕ → Option (ℕ × ℕ) → Option (ℕ × ℕ)
min_with a none = some a
min_with a (some b) = some (min a.0 b.0, min a.1 b.1)

smallest-cons : (a : ℕ × ℕ) (ss : List (ℕ × ℕ)) → smallest (a ∷ ss) ≡ min_with a (smallest ss)
unfolding smallest min_with fold_min
smallest-cons (a, a') [] = refl
smallest-cons (a, a') ((b, b') ∷ ss) = ap some (fold_min-fold (a, a') (b, b') ss)

min_with-swap :
    (a b : ℕ × ℕ) (o : Option (ℕ × ℕ)) → min_with a (min_with b o) ≡ min_with b (min_with a o)
unfolding min_with
min_with-swap (a, a') (b, b') none = ap₂ (λ x y. some (x, y)) (omega arith) (omega arith)
min_with-swap (a, a') (b, b') (some (c, c')) = ap₂ (λ x y. some (x, y)) (omega arith) (omega arith)

-- The size that one viewer adds, if it is on screen.
effective_size-cons :
    (clients : Clients) (id : ℕ) (s : ℕ × ℕ) (vs : Viewers)
    → effective_size ((id, s) ∷ vs) clients ≡ (
        if is_hidden clients id
        then effective_size vs clients
        else min_with s (effective_size vs clients))
unfolding shown
effective_size-cons clients id s vs = elim (Bool-cases (is_hidden clients id)) [
  | inl e ↦ rw e
  | inr e ↦ rw e (smallest-cons s (shown clients vs))
]

cons_size :
    (clients : Clients) (a b : ℕ × (ℕ × ℕ)) (us vs : Viewers)
    → a ≡ b
    → effective_size us clients ≡ effective_size vs clients
    → effective_size (a ∷ us) clients ≡ effective_size (b ∷ vs) clients
cons_size clients (i, s) b us vs e h =
    effective_size-cons clients i s us
    ∙ ap (λ o. if is_hidden clients i then o else min_with s o) h
    ∙ sym (effective_size-cons clients i s vs)
    ∙ ap (λ x. effective_size (x ∷ vs) clients) e

swap_size :
    (clients : Clients) (a b : ℕ × (ℕ × ℕ)) (vs : Viewers)
    → effective_size (a ∷ b ∷ vs) clients ≡ effective_size (b ∷ a ∷ vs) clients
swap_size clients (i, s) (j, r) vs =
    simp effective_size-cons (ground (arith, min_with-swap s r (effective_size vs clients)))

same_size :
    (clients : Clients) {us vs : Viewers}
    → Permᴰ us vs
    → effective_size us clients ≡ effective_size vs clients
same_size clients Permᴰ.nil = refl
same_size clients (Permᴰ.cons {a} {b} {l₁ = us} {l₂ = vs} e p) =
    cons_size clients a b us vs e (same_size clients p)
same_size clients (Permᴰ.swap {a} {b} {a'} {b'} {l} e f) =
    swap_size clients a b l ∙ ap₂ (λ x y. effective_size (x ∷ y ∷ l) clients) f e
same_size clients (Permᴰ.trans p q) = same_size clients p ∙ same_size clients q

sizes_set : IsSet (Option (ℕ × ℕ))
sizes_set = hlevel

-- The order in which the map of viewers is gone through makes no difference.
pub effective_size-perm :
    (clients : Clients) (us vs : Viewers)
    → Perm us vs
    → effective_size us clients ≡ effective_size vs clients
effective_size-perm clients us vs p =
    ∥∥₁_elim p (sizes_set (effective_size us clients) (effective_size vs clients))
      (same_size clients)
