-- ===== src/Hub/Script/Names.antt =====
-- Which terminal a script's command means by a name.
use sessionhub.Base.{
  ℕ, ◌≡◌, ◌↔◌, refl, ap, subst, ◌∙◌, inl, inr, true, false, List, [], ◌∷◌, ◌++◌, some, All,
  Bool-cases,
}
use sessionhub.Hub.Types.{Text, Terminal, Terminals}
use sessionhub.Hub.State.{is_some_text}
use sessionhub.Hub.Script.{
  name, yes_to, no_for, many_named, named, only_one, resolve_target, taken, is_yes,
}

-- The terminal is called so.
abbrev pub HasName : Text → Terminal → Type 0
HasName n t = is_some_text t.name n ≡ true

abbrev pub NoneNamed : Text → Terminals → Type 0
NoneNamed n = All (λ e. is_some_text e.1.name n ≡ false)

-- One terminal of the map is called so, with this id, and no other.
pub record OnlyNamed (n : Text) (i : ℕ) (ts : Terminals) : Type 0 where
  pub before : Terminals
  pub key : ℕ
  pub it : Terminal
  pub after : Terminals
  pub split : ts ≡ before ++ (key, it) ∷ after
  pub has_name : HasName n it
  pub same_id : it.id ≡ i
  pub none_before : NoneNamed n before
  pub none_after : NoneNamed n after

named-NoneNamed : (n : Text) (ts : Terminals) → NoneNamed n ts → named n ts ≡ []
unfolding named
named-NoneNamed n [] h = refl
named-NoneNamed n ((k, t) ∷ ts) (e, h) = rw e (named-NoneNamed n ts h)

NoneNamed-named : (n : Text) (ts : Terminals) → named n ts ≡ [] → NoneNamed n ts
unfolding named
NoneNamed-named n [] h = tt
NoneNamed-named n ((k, t) ∷ ts) h = elim (Bool-cases (is_some_text t.name n)) [
  | inl e ↦ absurd (cc (rw e at h))
  | inr e ↦ (e, NoneNamed-named n ts (rw e at h))
]

only_one-yes :
    (us : List Terminal) (i : ℕ)
    → only_one us ≡ yes_to i
    → (t : Terminal) × (us ≡ t ∷ []) × (t.id ≡ i)
unfolding only_one
only_one-yes [] i e = cc
only_one-yes (t ∷ []) i e = (t, refl, cc)
only_one-yes (t ∷ u ∷ us) i e = cc

named-only : (n : Text) (ts : Terminals) (t : Terminal) → named n ts ≡ t ∷ [] → OnlyNamed n t.id ts
unfolding named
named-only n [] t e = cc
named-only n ((k, u) ∷ ts) t e = elim (Bool-cases (is_some_text u.name n)) [
  | inl y ↦ record {
    before = [];
    key = k;
    it = u;
    after = ts;
    split = refl;
    has_name = y;
    same_id = ap (λ x. x.id) (head_eq u t (named n ts) [] (rw y at e));
    none_before = tt;
    none_after = NoneNamed-named n ts (tail_eq u t (named n ts) [] (rw y at e));
  }
  | inr other ↦
      let o = named-only n ts t (rw other at e) in
      record {
        before = (k, u) ∷ o.before;
        key = o.key;
        it = o.it;
        after = o.after;
        split = ap (λ x. (k, u) ∷ x) o.split;
        has_name = o.has_name;
        same_id = o.same_id;
        none_before = (other, o.none_before);
        none_after = o.none_after;
      }
]
  where
    head_eq : (a b : Terminal) (xs ys : List Terminal) → a ∷ xs ≡ b ∷ ys → a ≡ b
    head_eq a b xs ys e = cc

    tail_eq : (a b : Terminal) (xs ys : List Terminal) → a ∷ xs ≡ b ∷ ys → xs ≡ ys
    tail_eq a b xs ys e = cc

named-split :
    (n : Text) (us : Terminals) (k : ℕ) (t : Terminal) (vs : Terminals)
    → NoneNamed n us
    → NoneNamed n vs
    → HasName n t
    → named n (us ++ (k, t) ∷ vs) ≡ t ∷ []
unfolding named
named-split n [] k t vs hu hv e = rw e (ap (λ x. t ∷ x) (named-NoneNamed n vs hv))
named-split n ((j, u) ∷ us) k t vs (other, hu) hv e = rw other (named-split n us k t vs hu hv e)

-- A name means a terminal for a script if, and only if, it is the only one called so.
pub resolve_target_iff :
    (ts : Terminals) (n : Text) (i : ℕ) → (resolve_target ts (name n) ≡ yes_to i) ↔ OnlyNamed n i ts
unfolding resolve_target only_one
resolve_target_iff ts n i = (there, back)
  where
    there : only_one (named n ts) ≡ yes_to i → OnlyNamed n i ts
    there e =
        let o = only_one-yes (named n ts) i e in
        subst (λ j. OnlyNamed n j ts) o.2 (named-only n ts o.0 o.1)

    back : OnlyNamed n i ts → only_one (named n ts) ≡ yes_to i
    back o =
        ap (λ us. only_one (named n us)) o.split
        ∙ ap only_one
            (named-split n o.before o.key o.it o.after o.none_before o.none_after o.has_name)
        ∙ ap yes_to o.same_id

named-append : (n : Text) (us vs : Terminals) → named n (us ++ vs) ≡ named n us ++ named n vs
unfolding named
named-append n [] vs = refl
named-append n ((k, t) ∷ us) vs = elim (Bool-cases (is_some_text t.name n)) [
  | inl e ↦ rw e (ap (λ x. t ∷ x) (named-append n us vs))
  | inr e ↦ rw e (named-append n us vs)
]

many_there :
    (us vs ws : List Terminal) (t u : Terminal)
    → only_one (us ++ t ∷ (vs ++ u ∷ ws)) ≡ no_for many_named
unfolding only_one
many_there [] [] ws t u = refl
many_there [] (v ∷ vs) ws t u = refl
many_there (a ∷ []) vs ws t u = refl
many_there (a ∷ b ∷ us) vs ws t u = refl

named-cons :
    (n : Text) (k : ℕ) (t : Terminal) (ts : Terminals)
    → HasName n t
    → named n ((k, t) ∷ ts) ≡ t ∷ named n ts
unfolding named
named-cons n k t ts e = rw e

-- A name that two terminals share is refused as ambiguous by each command that names a terminal by
-- it, but for the start of one more of that name, which it does not stop.
pub resolve_target-shared :
    (n : Text) (us vs ws : Terminals) (j k : ℕ) (t u : Terminal)
    → HasName n t
    → HasName n u
    → (resolve_target (us ++ (j, t) ∷ (vs ++ (k, u) ∷ ws)) (name n) ≡ no_for many_named)
      × (taken (us ++ (j, t) ∷ (vs ++ (k, u) ∷ ws)) (some n) ≡ false)
unfolding taken resolve_target
resolve_target-shared n us vs ws j k t u ht hu = (many, ap is_yes many)
  where
    found :
        named n (us ++ (j, t) ∷ (vs ++ (k, u) ∷ ws))
        ≡ named n us ++ t ∷ (named n vs ++ u ∷ named n ws)
    found =
        named-append n us _
        ∙ ap (λ x. named n us ++ x)
            (named-cons n j t (vs ++ (k, u) ∷ ws) ht
              ∙ ap (λ x. t ∷ x)
                  (named-append n vs ((k, u) ∷ ws)
                    ∙ ap (λ x. named n vs ++ x) (named-cons n k u ws hu)))

    many : only_one (named n (us ++ (j, t) ∷ (vs ++ (k, u) ∷ ws))) ≡ no_for many_named
    many = ap only_one found ∙ many_there (named n us) (named n vs) (named n ws) t u
