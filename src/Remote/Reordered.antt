-- ===== src/Remote/Reordered.antt =====
-- The order that a page gives a list of machines.
use sessionhub.Base.{
  ◌≡◌, ◌⊎◌, refl, sym, ap, ◌∙◌, inl, inr, true, false, ◌||◌, List, [], ◌∷◌, ◌++◌, Option, none,
  some, same, same_self, same→eq, subst, Bool-cases, Option-cases,
}
use sessionhub.Utf8.{Text}
use sessionhub.Remote.{Remote, find, has_name, push_named, take_named, add_rest, reordered}

abbrev or_else : Option Remote → Option Remote → Option Remote
or_else (some r) o = some r
or_else none o = o

-- Each name once.
abbrev pub NamesOnce : List Remote → Type 0
NamesOnce [] = Unit
NamesOnce (r ∷ rs) = (has_name rs r.name ≡ false) × NamesOnce rs

find-append : (xs ys : List Remote) (n : Text) → find (xs ++ ys) n ≡ or_else (find xs n) (find ys n)
unfolding find
find-append [] ys n = refl
find-append (x ∷ xs) ys n = elim (Bool-cases (same x.name n)) [
  | inl y ↦ rw y
  | inr n' ↦ rw n' (find-append xs ys n)
]

find-unnamed : (xs : List Remote) (n : Text) → has_name xs n ≡ false → find xs n ≡ none
unfolding find
find-unnamed [] n e = refl
find-unnamed (x ∷ xs) n e = elim (Bool-cases (same x.name n)) [
  | inl y ↦ cc (rw y at e)
  | inr n' ↦ rw n' (find-unnamed xs n (rw n' at e))
]

find-named :
    (xs : List Remote) (n : Text) → has_name xs n ≡ true → (r : Remote) × (find xs n ≡ some r)
unfolding find
find-named [] n e = cc
find-named (x ∷ xs) n e = elim (Bool-cases (same x.name n)) [
  | inl y ↦ (x, rw y)
  | inr n' ↦ let more = find-named xs n (rw n' at e) in (more.0, rw n' more.1)
]

-- What was found so far is what the whole list has under the name.
abbrev Agrees : List Remote → List Remote → Type 0
Agrees remotes out = (n : Text) → (find out n ≡ none) ⊎ (find out n ≡ find remotes n)

find_name : (remotes : List Remote) (n : Text) (r : Remote) → find remotes n ≡ some r → r.name ≡ n
unfolding find
find_name [] n r e = cc
find_name (x ∷ xs) n r e = elim (Bool-cases (same x.name n)) [
  | inl y ↦
      let q : ◌≡◌ {A = Option Remote} (some x) (some r) = rw y at e in
      let p : x ≡ r = cc in subst (λ t. t.name ≡ n) p (same→eq x.name n y)
  | inr n' ↦ find_name xs n r (rw n' at e)
]

push_named-Agrees :
    (remotes out : List Remote) (name : Text)
    → Agrees remotes out
    → Agrees remotes (push_named remotes out name)
unfolding find
push_named-Agrees remotes out name h = elim (Bool-cases (has_name out name)) [
  | inl y ↦ rw y h
  | inr new ↦ elim (Option-cases (find remotes name)) [
    | inl q ↦ rw (new, q) h
    | inr (r, q) ↦ rw (new, q) (added r q)
  ]
]
  where
    one :
        (r : Remote)
        → find remotes name ≡ some r
        → (n : Text) → (find (r ∷ []) n ≡ none) ⊎ (find (r ∷ []) n ≡ find remotes n)
    one r q n = elim (Bool-cases (same r.name n)) [
      | inl y ↦
          let e : name ≡ n = sym (find_name remotes name r q) ∙ same→eq r.name n y in
          inr (rw (find, y) (sym (subst (λ t. find remotes t ≡ some r) e q)))
      | inr other ↦ inl (rw (find, other))
    ]

    inl_or :
        (r : Remote)
        → find remotes name ≡ some r
        → (n : Text) → find remotes n ≡ none
        → (find (r ∷ []) n ≡ none) ⊎ (find (r ∷ []) n ≡ none)
    inl_or r q n nowhere = elim (one r q n) [ inl e ↦ inl e | inr e ↦ inl (e ∙ nowhere) ]

    added : (r : Remote) → find remotes name ≡ some r → Agrees remotes (out ++ r ∷ [])
    added r q n = rw (find-append out (r ∷ []) n) (elim (h n) [
      | inl none_yet ↦ rw none_yet (one r q n)
      | inr there ↦ elim (Option-cases (find remotes n)) [
        | inl nowhere ↦ rw (there ∙ nowhere, nowhere) (inl_or r q n nowhere)
        | inr (r', found) ↦ inr (rw (there ∙ found, found))
      ]
    ])

take_named-Agrees :
    (remotes : List Remote) (names : List Text) (out : List Remote)
    → Agrees remotes out
    → Agrees remotes (take_named remotes names out)
unfolding take_named
take_named-Agrees remotes [] out h = h
take_named-Agrees remotes (n ∷ names) out h =
    take_named-Agrees remotes names (push_named remotes out n) (push_named-Agrees remotes out n h)

find-add_rest :
    (rs out : List Remote) (n : Text) → find (add_rest rs out) n ≡ or_else (find out n) (find rs n)
unfolding add_rest find
find-add_rest [] out n = elim (Option-cases (find out n)) [ inl e ↦ rw e | inr (r, e) ↦ rw e ]
find-add_rest (r ∷ rs) out n = elim (Bool-cases (has_name out r.name)) [
  | inl y ↦ rw y (find-add_rest rs out n ∙ skipped y)
  | inr new ↦ rw new (
      find-add_rest rs (out ++ r ∷ []) n
      ∙ ap (λ o. or_else o (find rs n)) (find-append out (r ∷ []) n)
      ∙ joined (find out n))
]
  where
    skipped :
        has_name out r.name ≡ true
        → or_else (find out n) (find rs n) ≡ or_else (find out n) (find (r ∷ rs) n)
    skipped y = elim (Bool-cases (same r.name n)) [
      | inl e ↦
          let there =
            find-named out n (subst (λ t. has_name out t ≡ true) (same→eq r.name n e) y) in
          rw there.1
      | inr other ↦ rw (find, other)
    ]

    joined :
        (o : Option Remote)
        → or_else (or_else o (find (r ∷ []) n)) (find rs n) ≡ or_else o (find (r ∷ rs) n)
    joined (some x) = refl
    joined none = elim (Bool-cases (same r.name n)) [
      | inl e ↦ rw (find, e)
      | inr other ↦ rw (find, other)
    ]

has_name-append :
    (xs ys : List Remote) (n : Text) → has_name (xs ++ ys) n ≡ (has_name xs n || has_name ys n)
has_name-append [] ys n = refl
has_name-append (x ∷ xs) ys n = elim (Bool-cases (same x.name n)) [
  | inl e ↦ rw e
  | inr e ↦ rw e (has_name-append xs ys n)
]

NamesOnce-append :
    (out : List Remote) (r : Remote)
    → NamesOnce out
    → has_name out r.name ≡ false
    → NamesOnce (out ++ r ∷ [])
NamesOnce-append [] r h e = (refl, tt)
NamesOnce-append (o ∷ out) r (h, hs) e = elim (Bool-cases (same o.name r.name)) [
  | inl y ↦ cc (rw y at e)
  | inr other ↦ (
    has_name-append out (r ∷ []) o.name ∙ rw (h, same_comm o.name r.name other),
    NamesOnce-append out r hs (rw other at e),
  )
]
  where
    same_comm : (a b : Text) → same a b ≡ false → same b a ≡ false
    same_comm a b e = elim (Bool-cases (same b a)) [
      | inl y ↦ cc (e, subst (λ t. same a t ≡ true) (sym (same→eq b a y)) (same_self a))
      | inr n ↦ n
    ]

push_named-NamesOnce :
    (remotes out : List Remote) (name : Text)
    → NamesOnce out
    → NamesOnce (push_named remotes out name)
push_named-NamesOnce remotes out name h = elim (Bool-cases (has_name out name)) [
  | inl y ↦ rw y h
  | inr new ↦ elim (Option-cases (find remotes name)) [
    | inl q ↦ rw (new, q) h
    | inr (r, q) ↦
        rw (new, q)
          (NamesOnce-append out r h
            (subst (λ t. has_name out t ≡ false) (sym (find_name remotes name r q)) new))
  ]
]

take_named-NamesOnce :
    (remotes : List Remote) (names : List Text) (out : List Remote)
    → NamesOnce out
    → NamesOnce (take_named remotes names out)
unfolding take_named
take_named-NamesOnce remotes [] out h = h
take_named-NamesOnce remotes (n ∷ names) out h =
    take_named-NamesOnce remotes names (push_named remotes out n)
      (push_named-NamesOnce remotes out n h)

add_rest-NamesOnce : (rs out : List Remote) → NamesOnce out → NamesOnce (add_rest rs out)
unfolding add_rest
add_rest-NamesOnce [] out h = h
add_rest-NamesOnce (r ∷ rs) out h = elim (Bool-cases (has_name out r.name)) [
  | inl y ↦ rw y (add_rest-NamesOnce rs out h)
  | inr new ↦ rw new (add_rest-NamesOnce rs (out ++ r ∷ []) (NamesOnce-append out r h new))
]

-- Whatever names a page sends, the list in the new order has under every name the machine that the
-- old list has under it, or none where that has none, and it has no name twice.
pub reordered-NamesOnce :
    (remotes : List Remote) (names : List Text)
    → NamesOnce (reordered remotes names)
      × ((n : Text) → find (reordered remotes names) n ≡ find remotes n)
unfolding reordered
reordered-NamesOnce remotes names =
    let out = take_named remotes names [] in
    (
      add_rest-NamesOnce remotes out (take_named-NamesOnce remotes names [] tt),
      λ n.
          find-add_rest remotes out n
          ∙ same_machine (find out n) (find remotes n)
              (take_named-Agrees remotes names [] (λ n. inl refl) n),
    )
  where
    same_machine : (o p : Option Remote) → (o ≡ none) ⊎ (o ≡ p) → or_else o p ≡ p
    same_machine none p h = refl
    same_machine (some r) p (inl e) = cc
    same_machine (some r) p (inr e) = e
