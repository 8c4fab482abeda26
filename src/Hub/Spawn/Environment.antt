-- ===== src/Hub/Spawn/Environment.antt =====
-- What a started process finds in its environment.
use sessionhub.Base.{
  ◌≡◌, ◌⊎◌, refl, sym, ap, ◌∙◌, inl, inr, true, false, List, [], ◌∷◌, Option, none, some, same,
  same_self, same→eq, Bool-cases, if◌then◌else◌, subst,
}
use sessionhub.Hub.Types.{Text}
use sessionhub.Hub.Spawn.{put_text, merged_env}

-- The value of a name.
abbrev pub get_text : Text → List (Text × Text) → Option Text
get_text k [] = none
get_text k ((j, x) ∷ m) = if same j k then some x else get_text k m

abbrev pub or_else : Option Text → Option Text → Option Text
or_else (some x) o = some x
or_else none o = o

-- The value that was written last under a name.
abbrev pub last_text : Text → List (Text × Text) → Option Text
last_text k [] = none
last_text k ((j, x) ∷ m) = or_else (last_text k m) (if same j k then some x else none)

or_else_assoc : (a b c : Option Text) → or_else (or_else a b) c ≡ or_else a (or_else b c)
or_else_assoc none b c = refl
or_else_assoc (some x) b c = refl

same-differs : (i j k : Text) → same i j ≡ false → same i k ≡ true → same j k ≡ false
same-differs i j k ne e = elim (Bool-cases (same j k)) [
  | inl y ↦
      absurd
        (cc (ne, subst (λ t. same i t ≡ true) (same→eq i k e ∙ sym (same→eq j k y)) (same_self i)))
  | inr n ↦ n
]

get_text-put_text :
    (k j v : Text) (m : List (Text × Text))
    → get_text k (put_text j v m) ≡ or_else (if same j k then some v else none) (get_text k m)
get_text-put_text k j v [] = elim (Bool-cases (same j k)) [ inl e ↦ rw e | inr e ↦ rw e ]
get_text-put_text k j v ((i, x) ∷ m) = elim (Bool-cases (same i j)) [
  | inl hit ↦ rw hit (replaced (Bool-cases (same j k)) (same→eq i j hit))
  | inr miss ↦ elim (Bool-cases (same i k)) [
    | inl here ↦ rw (miss, here, same-differs i j k miss here)
    | inr there ↦ rw (miss, there) (get_text-put_text k j v m)
  ]
]
  where
    replaced :
        (d : (same j k ≡ true) ⊎ (same j k ≡ false))
        → i ≡ j
        → (if same j k then some v else get_text k m)
          ≡ or_else (if same j k then some v else none) (if same i k then some x else get_text k m)
    replaced (inl e) q = rw e
    replaced (inr e) q = rw (e, ap (λ t. same t k) q ∙ e)

-- In an agent's environment merged with the one given for a terminal, a name has the value that was
-- given for it last, and if none was given, the value that it has first in the agent's own.
pub get_text-merged_env :
    (k : Text) (env extra : List (Text × Text))
    → get_text k (merged_env env extra) ≡ or_else (last_text k extra) (get_text k env)
unfolding merged_env
get_text-merged_env k env [] = refl
get_text-merged_env k env ((j, v) ∷ extra) =
    get_text-merged_env k (put_text j v env) extra
    ∙ ap (or_else (last_text k extra)) (get_text-put_text k j v env)
    ∙ sym (or_else_assoc (last_text k extra) (if same j k then some v else none) (get_text k env))
