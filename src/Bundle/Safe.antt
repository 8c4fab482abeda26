-- ===== src/Bundle/Safe.antt =====
-- The names that `check_name` lets through.
use mathlib.Core.Option
use sessionhub.Base.{
  ℕ, zero, suc, ◌≡◌, ◌≢◌, refl, ap, subst, ◌∙◌, inl, inr, Bool, true, false, not, ◌||◌, List, [],
  ◌∷◌, ◌++◌, Option, none, some, length, all, any, same, ltb, ◌==◌, codes, All, All-append,
  Bool-cases, Option-cases,
}
use sessionhub.Base.Result.{Result, err, ok, unless, or_err, chain_went_well, Result-cases, ok_eq}
use sessionhub.Utf8.{Text, split, as_bytes, from_utf8}
use sessionhub.Bundle.{
  Refusal, Files, is_sep, is_plain, is_dots, check_parts, check_name, starts_at, leaves_folder,
  odd_characters, unusable_name, not_relative, read_entry, read_u16, read_u32, read_bytes,
  cut_in_name, not_utf8, cut_in_length, cut_short, unpack_from, has_file, unpack, finished,
  strip_prefix, max_bundle, magic,
}

-- Neither empty nor `.` nor `..`, and of plain characters alone.
abbrev pub PlainPart : Text → Type 0
PlainPart part = (is_dots part ≡ false) × (all is_plain part ≡ true)

unless-ok : {E : Type 0} (why : E) (b : Bool) {u : Unit {0}} → unless why b ≡ ok u → b ≡ false
unless-ok why true e = cc
unless-ok why false e = refl

not-false : (b : Bool) → not b ≡ false → b ≡ true
not-false true e = refl
not-false false e = cc

check_parts-Plain : (parts : List Text) → check_parts parts ≡ ok tt → All PlainPart parts
unfolding check_parts
check_parts-Plain [] e = tt
check_parts-Plain (part ∷ parts) e =
    let one = chain_went_well _ (unless leaves_folder (is_dots part)) e in
    let two = chain_went_well _ (unless odd_characters (not (all is_plain part))) one.2 in
    (
      (
        unless-ok leaves_folder (is_dots part) one.1,
        not-false (all is_plain part) (unless-ok odd_characters (not (all is_plain part)) two.1),
      ),
      check_parts-Plain parts two.2,
    )

-- A part of a name: what stands between its separators, or before the first or behind the last.
pub data Component (name part : Text) : Type 0 where
  whole : name ≡ part → Component name part
  first : (s : ℕ) (post : Text) → is_sep s ≡ true → name ≡ part ++ s ∷ post → Component name part
  last : (s : ℕ) (pre : Text) → is_sep s ≡ true → name ≡ pre ++ s ∷ part → Component name part
  inner :
      (s t : ℕ) (pre post : Text)
      → is_sep s ≡ true
      → is_sep t ≡ true
      → name ≡ pre ++ s ∷ (part ++ t ∷ post)
      → Component name part

pub split-cons : (c : ℕ) (cs : Text) → (p : Text) × (ps : List Text) × (split is_sep cs ≡ p ∷ ps)
unfolding split
split-cons c [] = ([], [], refl)
split-cons c (d ∷ ds) =
    let rest = split-cons c ds in
    elim (Bool-cases (is_sep d)) [
      | inl e ↦ ([], rest.0 ∷ rest.1, rw (rest.2, split, e))
      | inr e ↦ (d ∷ rest.0, rest.1, rw (rest.2, split, e))
    ]

split-append :
    (xs ys : Text) (s : ℕ)
    → is_sep s ≡ true
    → split is_sep (xs ++ s ∷ ys) ≡ split is_sep xs ++ split is_sep ys
unfolding split
split-append [] ys s e = let rest = split-cons s ys in rw (rest.2, split, e)
split-append (x ∷ xs) ys s e =
    let here = split-cons s xs in
    let ih : split is_sep (xs ++ s ∷ ys) ≡ here.0 ∷ (here.1 ++ split is_sep ys) =
      split-append xs ys s e ∙ ap (λ l. l ++ split is_sep ys) here.2 in
    elim (Bool-cases (is_sep x)) [
      | inl y ↦ rw (ih, here.2, split, y)
      | inr n ↦ rw (ih, here.2, split, n)
    ]

split-alone : (xs : Text) → any is_sep xs ≡ false → split is_sep xs ≡ xs ∷ []
unfolding split
split-alone [] e = refl
split-alone (x ∷ xs) e = elim (Bool-cases (is_sep x)) [
  | inl y ↦ absurd (cc (rw y at e))
  | inr n ↦ rw (split-alone xs (rw n at e), split, n)
]

All-left {ℓ κ} : {A : Type ℓ} (P : A → Type κ) (xs ys : List A) → All P (xs ++ ys) → All P xs
All-left P [] ys h = tt
All-left P (x ∷ xs) ys (p, h) = (p, All-left P xs ys h)

All-right {ℓ κ} : {A : Type ℓ} (P : A → Type κ) (xs ys : List A) → All P (xs ++ ys) → All P ys
All-right P [] ys h = h
All-right P (x ∷ xs) ys (p, h) = All-right P xs ys h

abbrev pub AllParts : Text → Type 0
AllParts name = All PlainPart (split is_sep name)

part-Plain :
    (name part : Text)
    → AllParts name
    → any is_sep part ≡ false
    → Component name part
    → PlainPart part
part-Plain name part h e c = (subst (All PlainPart) (split-alone part e) (parts c)).0
  where
    parts : Component name part → AllParts part
    parts (whole q) = subst AllParts q h
    parts (first s post sep q) =
        All-left PlainPart (split is_sep part) (split is_sep post)
          (subst (All PlainPart) (split-append part post s sep) (subst AllParts q h))
    parts (last s pre sep q) =
        All-right PlainPart (split is_sep pre) (split is_sep part)
          (subst (All PlainPart) (split-append pre part s sep) (subst AllParts q h))
    parts (inner s t pre post sep sep' q) =
        All-left PlainPart (split is_sep part) (split is_sep post) (
          subst (All PlainPart) (split-append part post t sep') (
            All-right PlainPart (split is_sep pre) (split is_sep (part ++ t ∷ post)) (
              subst (All PlainPart) (split-append pre (part ++ t ∷ post) s sep)
                (subst AllParts q h))))

-- A name that stays in its folder: each part of it is a plain file name, which does not go up.
abbrev pub StaysInside : Text → Type 0
StaysInside name =
    (part : Text)
    → any is_sep part ≡ false
    → Component name part
    → (part ≢ []) × (part ≢ codes ".") × (part ≢ codes "..") × (all is_plain part ≡ true)

dots-ne :
    (part : Text) → is_dots part ≡ false → (part ≢ []) × (part ≢ codes ".") × (part ≢ codes "..")
dots-ne part e = (λ q. cc (e, ap is_dots q), λ q. cc (e, ap is_dots q), λ q. cc (e, ap is_dots q))

pub check_name-Plain : (name : Text) → check_name name ≡ ok tt → AllParts name
unfolding check_name
check_name-Plain name e =
    let one =
      chain_went_well _ (unless unusable_name (same name [] || ltb 200 (length (as_bytes name))))
        e in
    let two =
      chain_went_well _ (unless not_relative (starts_at is_sep name || any (λ c. c == b':') name))
        one.2 in
    check_parts-Plain (split is_sep name) two.2

pub check_name-short :
    (name : Text)
    → check_name name ≡ ok tt
    → (same name [] || ltb 200 (length (as_bytes name))) ≡ false
unfolding check_name
check_name-short name e =
    unless-ok unusable_name (same name [] || ltb 200 (length (as_bytes name)))
      (chain_went_well _ (unless unusable_name (same name [] || ltb 200 (length (as_bytes name))))
        e).1

pub check_name-StaysInside : (name : Text) → check_name name ≡ ok tt → StaysInside name
check_name-StaysInside name e part alone c =
    let plain = part-Plain name part (check_name-Plain name e) alone c in
    let ne = dots-ne part plain.0 in (ne.0, ne.1, ne.2, plain.1)

read_entry-check_name :
    (bs : List ℕ) (name : Text) (bytes rest : List ℕ)
    → read_entry bs ≡ ok ((name, bytes), rest)
    → check_name name ≡ ok tt
unfolding read_entry
read_entry-check_name bs name bytes rest e =
    let one = chain_went_well _ (or_err cut_in_name (read_u16 bs)) e in
    let two = chain_went_well _ (or_err cut_in_name (read_bytes one.0.0 one.0.1)) one.2 in
    let three = chain_went_well _ (or_err not_utf8 (from_utf8 two.0.0)) two.2 in
    let four = chain_went_well _ (check_name three.0) three.2 in
    let five = chain_went_well _ (or_err cut_in_length (read_u32 two.0.1)) four.2 in
    let six = chain_went_well _ (or_err cut_short (read_bytes five.0.0 five.0.1)) five.2 in
    let same_name : three.0 ≡ name =
      ap (λ x. x.0.0) (ok_eq ((three.0, six.0.0), six.0.1) ((name, bytes), rest) six.2) in
    subst (λ n. check_name n ≡ ok tt) same_name four.1

abbrev AllInside : Files → Type 0
AllInside = All (λ file. StaysInside file.0)

unpack_from-Inside :
    (turns : ℕ) (bs : List ℕ) (out files : Files)
    → AllInside out
    → unpack_from turns bs out ≡ some (ok files)
    → AllInside files
unfolding unpack_from
unpack_from-Inside turns [] out files h e = subst AllInside (same_files out files e) h
  where
    same_files :
        (a b : Files) → ◌≡◌ {A = Option (Result Refusal Files)} (some (ok a)) (some (ok b)) → a ≡ b
    same_files a b e = cc
unpack_from-Inside zero (b ∷ bs) out files h e = cc
unpack_from-Inside (suc turns) (b ∷ bs) out files h e = elim (Result-cases (read_entry (b ∷ bs))) [
  | inl (why, q) ↦ cc (rw (q, unpack_from) at e)
  | inr (((name, bytes), rest), q) ↦ elim (Bool-cases (has_file name out)) [
    | inl y ↦ cc (rw (q, unpack_from, y) at e)
    | inr n ↦
        unpack_from-Inside turns rest (out ++ (name, bytes) ∷ []) files
          (All-append (λ file. StaysInside file.0) out ((name, bytes) ∷ []) h
            (check_name-StaysInside name (read_entry-check_name (b ∷ bs) name bytes rest q), tt))
          (rw (q, unpack_from, n) at e)
  ]
]

finished-ok : (r : Result Refusal Files) (files : Files) → finished r ≡ ok files → r ≡ ok files
unfolding finished
finished-ok (err why) files e = cc
finished-ok (ok []) files e = cc
finished-ok (ok (f ∷ fs)) files e = e

unpacked :
    (o : Option (Result Refusal Files)) (files : Files)
    → Option.map finished o ≡ some (ok files)
    → o ≡ some (ok files)
unpacked none files e = cc
unpacked (some r) files e = ap some (finished-ok r files (some_eq (finished r) (ok files) e))
  where
    some_eq : (a b : Result Refusal Files) → some a ≡ some b → a ≡ b
    some_eq a b e = cc

-- Every file of a bundle that is unpacked has a name that stays in the folder it is put in: it is
-- made of parts, none of them empty, `.` or `..`, of letters, digits, dots, dashes and underscores
-- alone, whichever system's separators stand between them.
pub unpack-StaysInside :
    (bytes : List ℕ) (files : Files) → unpack bytes ≡ some (ok files) → AllInside files
unfolding unpack
unpack-StaysInside bytes files e = elim (Bool-cases (ltb max_bundle (length bytes))) [
  | inl big ↦ cc (rw big at e)
  | inr fits ↦ elim (Option-cases (strip_prefix magic bytes)) [
    | inl q ↦ cc (rw (fits, q, unpack) at e)
    | inr (rest, q) ↦
        unpack_from-Inside (length rest) rest [] files tt
          (unpacked (unpack_from (length rest) rest []) files (rw (fits, q, unpack) at e))
  ]
]
