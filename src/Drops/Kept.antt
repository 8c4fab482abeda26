-- ===== src/Drops/Kept.antt =====
-- What the loop over the characters and the two trims keep to.
use sessionhub.Base.{
  ℕ, ◌≤◌, ◌<◌, ◌≡◌, refl, sym, ap, subst, ◌∙◌, inl, inr, Bool, true, false, ◌||◌, ◌&&◌, [], ◌∷◌,
  ◌++◌, length, leb, ◌==◌, if◌then◌else◌, All, All-append, arith, Bool-cases, length-append,
}
use sessionhub.Utf8.{Text}
use sessionhub.Drops.{
  ends_with, is_kept_char, keeps, dashed, pushed, safe_from, is_edge, trim_front, trim_back,
}

abbrev pub is_safe_char : ℕ → Bool
is_safe_char c = is_kept_char c || c == b'.'

-- No two dots in a row.
abbrev pub NoTwoDots : Text → Type 0
NoTwoDots [] = Unit
NoTwoDots (c ∷ []) = Unit
NoTwoDots (c ∷ d ∷ cs) = ((c == b'.' && d == b'.') ≡ false) × NoTwoDots (d ∷ cs)

NoTwoDots-append :
    (out : Text) (c : ℕ)
    → NoTwoDots out
    → (ends_with b'.' out && c == b'.') ≡ false
    → NoTwoDots (out ++ c ∷ [])
unfolding ends_with
NoTwoDots-append [] c h e = tt
NoTwoDots-append (a ∷ []) c h e = (e, tt)
NoTwoDots-append (a ∷ b ∷ cs) c (h, hs) e = (h, NoTwoDots-append (b ∷ cs) c hs e)

ends_with-append : (at : ℕ) (out : Text) (c : ℕ) → ends_with at (out ++ c ∷ []) ≡ (c == at)
unfolding ends_with
ends_with-append at [] c = refl
ends_with-append at (a ∷ []) c = refl
ends_with-append at (a ∷ b ∷ cs) c = ends_with-append at (b ∷ cs) c

-- What the loop keeps to: safe characters, dots apart, and at a dot it knows that it is at one.
abbrev Building : Bool → Text → Type 0
Building last_dot out =
    All (λ c. is_safe_char c ≡ true) out
    × NoTwoDots out
    × (ends_with b'.' out ≡ true → last_dot ≡ true)
    × (length out < 48)

abbrev pub Built : Text → Type 0
Built out = All (λ c. is_safe_char c ≡ true) out × NoTwoDots out × (length out ≤ 48)

one_more :
    (out : Text) (c : ℕ)
    → All (λ c. is_safe_char c ≡ true) out
    → is_safe_char c ≡ true
    → All (λ c. is_safe_char c ≡ true) (out ++ c ∷ [])
one_more out c h e = All-append (λ c. is_safe_char c ≡ true) out (c ∷ []) h (e, tt)

pushed-kept :
    (last_dot : Bool) (out : Text) (c : ℕ)
    → Building last_dot out
    → keeps last_dot out c ≡ true
    → All (λ c. is_safe_char c ≡ true) (out ++ c ∷ [])
      × NoTwoDots (out ++ c ∷ [])
      × (ends_with b'.' (out ++ c ∷ []) ≡ true → (c == b'.') ≡ true)
      × (length (out ++ c ∷ []) ≤ 48)
pushed-kept last_dot out c (safe, dots, at_dot, short) k = (
  one_more out c safe (ground arith),
  NoTwoDots-append out c dots (apart (ends_with b'.' out) at_dot),
  (λ e. sym (ends_with-append b'.' out c) ∙ e),
  omega (arith, length-append out (c ∷ [])),
)
  where
    kept_not_dot : last_dot ≡ true → (c == b'.') ≡ false
    kept_not_dot d = ground arith

    apart : (b : Bool) → (b ≡ true → last_dot ≡ true) → (b && c == b'.') ≡ false
    apart false h = refl
    apart true h = kept_not_dot (h refl)

and_false : (b : Bool) → (b && false) ≡ false
and_false true = refl
and_false false = refl

dash_not_dot : (out : Text) → ends_with b'-' out ≡ true → ends_with b'.' out ≡ false
unfolding ends_with
dash_not_dot [] e = refl
dash_not_dot (c ∷ []) e = ground arith
dash_not_dot (c ∷ d ∷ cs) e = dash_not_dot (d ∷ cs) e

abbrev Spaced : Bool → Text → Type 0
Spaced last_dot out =
    All (λ c. is_safe_char c ≡ true) out
    × NoTwoDots out
    × (ends_with b'.' out ≡ true → last_dot ≡ true)
    × (length out ≤ 48)

dashed-kept : (last_dot : Bool) (out : Text) → Building last_dot out → Spaced false (dashed out)
unfolding ends_with
dashed-kept last_dot [] b = (tt, tt, (λ e. e), omega arith)
dashed-kept last_dot (a ∷ cs) (safe, dots, at_dot, short) =
    elim (Bool-cases (ends_with b'-' (a ∷ cs))) [
      | inl e ↦
          subst (Spaced false) {x = a ∷ cs} (sym (rw e))
            (safe, dots, (λ d. sym (dash_not_dot (a ∷ cs) e) ∙ d), omega (arith, short))
      | inr e ↦ subst (Spaced false) {x = (a ∷ cs) ++ b'-' ∷ []} (sym (rw e)) (
        one_more (a ∷ cs) b'-' safe refl,
        NoTwoDots-append (a ∷ cs) b'-' dots (and_false (ends_with b'.' (a ∷ cs))),
        (λ d. sym (ends_with-append b'.' (a ∷ cs) b'-') ∙ d),
        omega (arith, short, length-append (a ∷ cs) (b'-' ∷ [])),
      )
    ]

pushed-Spaced :
    (last_dot : Bool) (out : Text) (c : ℕ)
    → Building last_dot out
    → Spaced (keeps last_dot out c && c == b'.') (pushed last_dot out c)
pushed-Spaced last_dot out c b = by_kept (keeps last_dot out c) refl
  where
    by_kept :
        (k : Bool)
        → keeps last_dot out c ≡ k
        → Spaced (k && c == b'.') (if k then out ++ c ∷ [] else dashed out)
    by_kept true e = pushed-kept last_dot out c b e
    by_kept false e = dashed-kept last_dot out b

stopped-Built :
    (last_dot : Bool) (out rest : Text) (full : Bool)
    → leb 48 (length out) ≡ full
    → Spaced last_dot out
    → (Building last_dot out → Built rest)
    → Built (if full then out else rest)
stopped-Built last_dot out rest true e (safe, dots, at_dot, short) next = (safe, dots, short)
stopped-Built last_dot out rest false e (safe, dots, at_dot, short) next =
    next (safe, dots, at_dot, ground (arith, e))

pub safe_from-Built :
    (last_dot : Bool) (out cs : Text) → Building last_dot out → Built (safe_from last_dot out cs)
unfolding safe_from
safe_from-Built last_dot out [] (safe, dots, at_dot, short) = (safe, dots, omega (arith, short))
safe_from-Built last_dot out (c ∷ cs) b =
    stopped-Built (keeps last_dot out c && c == b'.') (pushed last_dot out c)
      (safe_from (keeps last_dot out c && c == b'.') (pushed last_dot out c) cs)
      (leb 48 (length (pushed last_dot out c))) refl (pushed-Spaced last_dot out c b)
      (safe_from-Built (keeps last_dot out c && c == b'.') (pushed last_dot out c) cs)

NoTwoDots-tail : (c : ℕ) (cs : Text) → NoTwoDots (c ∷ cs) → NoTwoDots cs
NoTwoDots-tail c [] h = tt
NoTwoDots-tail c (d ∷ cs) (h, hs) = hs

Built-tail : (c : ℕ) (cs : Text) → Built (c ∷ cs) → Built cs
Built-tail c cs ((safe, safes), dots, short) =
    (safes, NoTwoDots-tail c cs dots, omega (arith, short))

-- A character on the edge is gone: what is left is empty, or does not start with one.
abbrev pub StartsClean : Text → Type 0
StartsClean [] = Unit
StartsClean (c ∷ cs) = is_edge c ≡ false

abbrev pub EndsClean : Text → Type 0
EndsClean [] = Unit
EndsClean (c ∷ []) = is_edge c ≡ false
EndsClean (c ∷ d ∷ cs) = EndsClean (d ∷ cs)

pub trim_front-Built : (cs : Text) → Built cs → Built (trim_front cs) × StartsClean (trim_front cs)
unfolding trim_front
trim_front-Built [] b = (b, tt)
trim_front-Built (c ∷ cs) b =
    by_edge (trim_front cs) (trim_front-Built cs (Built-tail c cs b)) (is_edge c) refl
  where
    by_edge :
        (rest : Text)
        → Built rest × StartsClean rest
        → (e : Bool) → is_edge c ≡ e
        → Built (if e then rest else c ∷ cs) × StartsClean (if e then rest else c ∷ cs)
    by_edge rest r true e = r
    by_edge rest r false e = (b, e)

NoTwoDots-prefix : (cs ds : Text) → NoTwoDots (cs ++ ds) → NoTwoDots cs
NoTwoDots-prefix [] ds h = tt
NoTwoDots-prefix (c ∷ []) ds h = tt
NoTwoDots-prefix (c ∷ d ∷ cs) ds (h, hs) = (h, NoTwoDots-prefix (d ∷ cs) ds hs)

All-prefix :
    (cs ds : Text)
    → All (λ c. is_safe_char c ≡ true) (cs ++ ds)
    → All (λ c. is_safe_char c ≡ true) cs
All-prefix [] ds h = tt
All-prefix (c ∷ cs) ds (h, hs) = (h, All-prefix cs ds hs)

pub StartsClean-prefix : (cs ds : Text) → StartsClean (cs ++ ds) → StartsClean cs
StartsClean-prefix [] ds h = tt
StartsClean-prefix (c ∷ cs) ds h = h

pub Built-prefix : (cs ds : Text) → Built (cs ++ ds) → Built cs
Built-prefix cs ds (safe, dots, short) =
    (All-prefix cs ds safe, NoTwoDots-prefix cs ds dots, omega (arith, short, length-append cs ds))

-- `trim_back` takes nothing but an end, and an edge is not what it leaves there.
abbrev pub Trimmed : Text → Text → Type 0
Trimmed cs kept = ((rest : Text) × kept ++ rest ≡ cs) × EndsClean kept

pub trim_back-Trimmed : (cs : Text) → Trimmed cs (trim_back cs)
unfolding trim_back
trim_back-Trimmed [] = (([], refl), tt)
trim_back-Trimmed (c ∷ cs) = onto (trim_back cs) (trim_back-Trimmed cs)
  where
    last : (e : Bool) → is_edge c ≡ e → Trimmed (c ∷ cs) (if e then [] else c ∷ [])
    last true e = ((c ∷ cs, refl), tt)
    last false e = ((cs, refl), e)

    onto :
        (kept : Text)
        → Trimmed cs kept
        → Trimmed
            (c ∷ cs)
            (elim kept [ [] ↦ if is_edge c then [] else c ∷ [] | d ∷ ds ↦ c ∷ d ∷ ds ])
    onto [] t = last (is_edge c) refl
    onto (d ∷ ds) ((rest, e), clean) = ((rest, ap (λ xs. c ∷ xs) e), clean)
