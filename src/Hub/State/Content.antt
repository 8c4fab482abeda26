-- ===== src/Hub/State/Content.antt =====
-- The stable sort by a key that `send_state` of src/state.rs uses.
use sessionhub.Base.{
  ℕ, ◌≤◌, ◌≡◌, refl, ap, ◌∙◌, inl, inr, false, List, [], ◌∷◌, leb, ◌==◌, arith, Bool-cases,
  if◌then◌else◌, All, leb→le,
}
use mathlib.Core.List.{Permᴰ}
use sessionhub.Hub.State.{insert_sorted, sort_by_key}

module _ {ℓ} {A : Type ℓ} (key : A → ℕ) where
  -- In the order of their keys.
  abbrev pub Sorted : List A → Type 0
  Sorted [] = Unit
  Sorted (x ∷ xs) = All (λ y. key x ≤ key y) xs × Sorted xs

  -- The items that have one key, in their order.
  abbrev pub with_key : ℕ → List A → List A
  with_key k [] = []
  with_key k (x ∷ xs) = if key x == k then x ∷ with_key k xs else with_key k xs

  All-insert_sorted :
      (P : A → Type 0) (x : A) (ys : List A) → P x → All P ys → All P (insert_sorted key x ys)
  unfolding insert_sorted
  All-insert_sorted P x [] p h = (p, tt)
  All-insert_sorted P x (y ∷ ys) p (q, h) = elim (Bool-cases (leb (key x) (key y))) [
    | inl e ↦ rw e (p, (q, h))
    | inr e ↦ rw e (q, All-insert_sorted P x ys p h)
  ]

  All-weaken : (a b : ℕ) (ys : List A) → a ≤ b → All (λ y. b ≤ key y) ys → All (λ y. a ≤ key y) ys
  All-weaken a b [] le h = tt
  All-weaken a b (y ∷ ys) le (q, h) = (omega (arith, q), All-weaken a b ys le h)

  not_leb : (a b : ℕ) → leb a b ≡ false → b ≤ a
  not_leb a b e = ground arith

  insert_sorted-Sorted : (x : A) (ys : List A) → Sorted ys → Sorted (insert_sorted key x ys)
  unfolding insert_sorted
  insert_sorted-Sorted x [] h = (tt, tt)
  insert_sorted-Sorted x (y ∷ ys) (q, h) = elim (Bool-cases (leb (key x) (key y))) [
    | inl e ↦ rw e (
      (leb→le (key x) (key y) e, All-weaken (key x) (key y) ys (leb→le (key x) (key y) e) q),
      (q, h),
    )
    | inr e ↦ rw e (
      All-insert_sorted (λ z. key y ≤ key z) x ys (not_leb (key x) (key y) e) q,
      insert_sorted-Sorted x ys h,
    )
  ]

  with_key-insert_sorted :
      (k : ℕ) (x : A) (ys : List A) → with_key k (insert_sorted key x ys) ≡ with_key k (x ∷ ys)
  unfolding insert_sorted
  with_key-insert_sorted k x [] = refl
  with_key-insert_sorted k x (y ∷ ys) = ground (arith, with_key-insert_sorted k x ys)

  same_order : (xs : List A) → Permᴰ xs xs
  same_order [] = Permᴰ.nil
  same_order (x ∷ xs) = Permᴰ.cons refl (same_order xs)

  insert_sorted-Permᴰ : (x : A) (ys : List A) → Permᴰ (x ∷ ys) (insert_sorted key x ys)
  unfolding insert_sorted
  insert_sorted-Permᴰ x [] = Permᴰ.cons refl Permᴰ.nil
  insert_sorted-Permᴰ x (y ∷ ys) = elim (Bool-cases (leb (key x) (key y))) [
    | inl e ↦ rw e (same_order (x ∷ y ∷ ys))
    | inr e ↦ rw e (Permᴰ.trans (Permᴰ.swap refl refl) (Permᴰ.cons refl (insert_sorted-Permᴰ x ys)))
  ]

  pub sorted : (xs : List A) → Sorted (sort_by_key key xs)
  unfolding sort_by_key
  sorted [] = tt
  sorted (x ∷ xs) = insert_sorted-Sorted x (sort_by_key key xs) (sorted xs)

  pub stable : (k : ℕ) (xs : List A) → with_key k (sort_by_key key xs) ≡ with_key k xs
  unfolding sort_by_key
  stable k [] = refl
  stable k (x ∷ xs) =
      with_key-insert_sorted k x (sort_by_key key xs)
      ∙ ap (λ ys. if key x == k then x ∷ ys else ys) (stable k xs)

  pub permuted : (xs : List A) → Permᴰ xs (sort_by_key key xs)
  unfolding sort_by_key
  permuted [] = Permᴰ.nil
  permuted (x ∷ xs) =
      Permᴰ.trans (Permᴰ.cons refl (permuted xs)) (insert_sorted-Permᴰ x (sort_by_key key xs))
