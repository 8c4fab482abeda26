-- ===== src/Bundle/RoundTrip.antt =====
-- Bundles that `pack` of src/webpack.rs writes, under `unpack`.
use mathlib.Core.List.{append_assoc, append-nil}
use sessionhub.Base.{
  ℕ, zero, suc, ◌%◌, ◌/◌, ◌≤◌, ◌<◌, ◌^◌, ◌≡◌, ◌≢◌, refl, sym, ap, subst, ◌∙◌, inl, inr, true, false,
  ◌||◌, List, [], ◌∷◌, ◌++◌, some, length, all, same, ltb, All, arith, Bool-cases, length-append,
  take-append_len, drop-append_len, le→ltb-false, same_self, same→eq,
}
use sessionhub.Base.Result.{ok}
use sessionhub.Utf8.{Text, split, as_bytes}
use sessionhub.Utf8.Ascii.{IsAscii, as_bytes-IsAscii, from_utf8-IsAscii}
use sessionhub.Frames.{le16, le32, u16_of, u32_of}
use sessionhub.Bundle.{
  Files, max_bundle, pack_entry, pack_entries, pack, check_name, read_entry, read_bytes, has_file,
  unpack_from, strip_prefix, finished, unpack, is_plain, is_sep,
}
use sessionhub.Bundle.Safe.{PlainPart, check_name-Plain, split-cons, check_name-short}

-- A file that a bundle can hold: a name that is let through, and a size that fits its field.
abbrev pub Packable : Text × List ℕ → Type 0
Packable file = (check_name file.0 ≡ ok tt) × (length file.1 < 2 ^ 32)

-- Each name once.
abbrev pub EachOnce : Files → Type 0
EachOnce [] = Unit
EachOnce (file ∷ files) = (has_file file.0 files ≡ false) × EachOnce files

plain_ascii : (c : ℕ) → is_plain c ≡ true → c < 0x80
plain_ascii c e = ground arith

all-IsAscii : (cs : Text) → all is_plain cs ≡ true → IsAscii cs
all-IsAscii [] e = tt
all-IsAscii (c ∷ cs) e = elim (Bool-cases (is_plain c)) [
  | inl y ↦ (plain_ascii c y, all-IsAscii cs (rw y at e))
  | inr n ↦ absurd (cc (rw n at e))
]

sep_ascii : (c : ℕ) → is_sep c ≡ true → c < 0x80
sep_ascii c e = ground arith

parts-IsAscii :
    (name : Text) (p : Text) (ps : List Text)
    → split is_sep name ≡ p ∷ ps
    → IsAscii p
    → All IsAscii ps
    → IsAscii name
unfolding split
parts-IsAscii [] p ps e h hs = tt
parts-IsAscii (c ∷ cs) p ps e h hs =
    let rest = split-cons c cs in
    elim (Bool-cases (is_sep c)) [
      | inl y ↦
          let q : [] ∷ rest.0 ∷ rest.1 ≡ p ∷ ps = rw (rest.2, split, y) at e in
          let both = subst (All IsAscii) (sym (tail_eq [] p (rest.0 ∷ rest.1) ps q)) hs in
          (sep_ascii c y, parts-IsAscii cs rest.0 rest.1 rest.2 both.0 both.1)
      | inr n ↦
          let q : (c ∷ rest.0) ∷ rest.1 ≡ p ∷ ps = rw (rest.2, split, n) at e in
          let first = subst IsAscii (sym (head_eq (c ∷ rest.0) p rest.1 ps q)) h in
          (
            first.0,
            parts-IsAscii cs rest.0 rest.1 rest.2 first.1
                (subst (All IsAscii) (sym (tail_eq (c ∷ rest.0) p rest.1 ps q)) hs),
          )
    ]
  where
    head_eq : (a b : Text) (xs ys : List Text) → a ∷ xs ≡ b ∷ ys → a ≡ b
    head_eq a b xs ys e = cc

    tail_eq : (a b : Text) (xs ys : List Text) → a ∷ xs ≡ b ∷ ys → xs ≡ ys
    tail_eq a b xs ys e = cc

plain_parts-IsAscii : (ps : List Text) → All PlainPart ps → All IsAscii ps
plain_parts-IsAscii [] h = tt
plain_parts-IsAscii (p ∷ ps) (h, hs) = (all-IsAscii p h.1, plain_parts-IsAscii ps hs)

name-IsAscii : (name : Text) → check_name name ≡ ok tt → IsAscii name
name-IsAscii [] e = tt
name-IsAscii (c ∷ cs) e =
    let s = split-cons c (c ∷ cs) in
    let h =
      plain_parts-IsAscii (s.0 ∷ s.1) (subst (All PlainPart) s.2 (check_name-Plain (c ∷ cs) e)) in
    parts-IsAscii (c ∷ cs) s.0 s.1 s.2 h.0 h.1

u16_of-le16 : (n : ℕ) → n < 2 ^ 16 → u16_of (n % 256) (n / 256 % 256) ≡ n
u16_of-le16 n h = omega arith

u32_of-le32 :
    (n : ℕ)
    → n < 2 ^ 32
    → u32_of (n % 256) (n / 256 % 256) (n / 65536 % 256) (n / 16777216 % 256) ≡ n
u32_of-le32 n h = omega arith

short_name :
    (name : Text)
    → (same name [] || ltb 200 (length (as_bytes name))) ≡ false
    → length (as_bytes name) < 2 ^ 16
short_name name e = ground arith

read_bytes-append : (bs rest : List ℕ) → read_bytes (length bs) (bs ++ rest) ≡ some (bs, rest)
unfolding read_bytes
read_bytes-append bs rest = rw (
  le→ltb-false (length (bs ++ rest)) (length bs) (omega (arith, length-append bs rest)),
  take-append_len bs rest,
  drop-append_len bs rest,
)

read_entry-pack_entry :
    (name : Text) (bytes rest : List ℕ)
    → Packable (name, bytes)
    → read_entry (pack_entry (name, bytes) ++ rest) ≡ ok ((name, bytes), rest)
unfolding read_entry
read_entry-pack_entry name bytes rest (good, fits) =
    let ascii = name-IsAscii name good in
    let raw = as_bytes name in
    let n = length raw in
    let size = length bytes in
    let whole : pack_entry (name, bytes) ++ rest
        ≡ le16 n ++ (raw ++ (le32 size ++ (bytes ++ rest))) =
      ap (λ t. le16 n ++ t) (append_assoc raw (le32 size ++ bytes) rest) in
    ap read_entry whole
    ∙ rw (
      u16_of-le16 n (short_name name (check_name-short name good)),
      read_bytes-append raw (le32 size ++ (bytes ++ rest)),
      as_bytes-IsAscii name ascii,
      from_utf8-IsAscii name ascii,
      good,
      u32_of-le32 size fits,
      read_bytes-append bytes rest,
    )

has_file-append :
    (n : Text) (xs ys : Files) → has_file n (xs ++ ys) ≡ (has_file n xs || has_file n ys)
unfolding has_file
has_file-append n [] ys = refl
has_file-append n ((m, bytes) ∷ xs) ys = elim (Bool-cases (same m n)) [
  | inl e ↦ rw e
  | inr e ↦ rw e (has_file-append n xs ys)
]

-- Of two lists of files, no name of the second is in the first.
abbrev Apart : Files → Files → Type 0
Apart out = All (λ file. has_file file.0 out ≡ false)

Apart-append :
    (name : Text) (bytes : List ℕ) (out files : Files)
    → has_file name files ≡ false
    → Apart out files
    → Apart (out ++ (name, bytes) ∷ []) files
unfolding has_file
Apart-append name bytes out [] e h = tt
Apart-append name bytes out ((m, b) ∷ files) e (h, hs) = elim (Bool-cases (same m name)) [
  | inl y ↦ absurd (cc (rw y at e))
  | inr n ↦ (
    has_file-append m out ((name, bytes) ∷ []) ∙ rw (h, same_comm name m n),
    Apart-append name bytes out files (rw n at e) hs,
  )
]
  where
    same_comm : (a b : Text) → same b a ≡ false → same a b ≡ false
    same_comm a b e = elim (Bool-cases (same a b)) [
      | inl y ↦ absurd (cc (e, subst (λ t. same t a ≡ true) (same→eq a b y) (same_self a)))
      | inr n ↦ n
    ]

length-pack_entry :
    (file : Text × List ℕ) (rest : List ℕ) → length rest < length (pack_entry file ++ rest)
length-pack_entry (name, bytes) rest = omega (
  arith,
  length-append (le16 (length (as_bytes name)) ++ (as_bytes name ++ (le32 (length bytes) ++ bytes)))
      rest,
)

-- A turn that reads a file whose name is new.
unpack_from-new :
    (turns : ℕ) (bs : List ℕ) (out : Files) (file : Text × List ℕ) (rest : List ℕ)
    → length rest < length bs
    → read_entry bs ≡ ok (file, rest)
    → has_file file.0 out ≡ false
    → unpack_from (suc turns) bs out ≡ unpack_from turns rest (out ++ file ∷ [])
unfolding unpack_from
unpack_from-new turns [] out file rest h e new = absurd (omega arith)
unpack_from-new turns (b ∷ bs) out file rest h e new = rw (unpack_from, e, new)

unpack_from-pack_entries :
    (files : Files) (turns : ℕ) (out : Files)
    → length (pack_entries files) ≤ turns
    → All Packable files
    → EachOnce files
    → Apart out files
    → unpack_from turns (pack_entries files) out ≡ some (ok (out ++ files))
unfolding unpack_from pack_entries
unpack_from-pack_entries [] turns out h good once apart =
    ap (λ t. some (ok t)) (sym (append-nil out))
unpack_from-pack_entries (file ∷ files) zero out h good once apart =
    absurd (omega (arith, h, length-pack_entry file (pack_entries files)))
unpack_from-pack_entries ((name, bytes) ∷ files) (suc turns) out h (fits, good) (new, once)
      (apart, others) =
    let fewer : length (pack_entries files) ≤ turns =
      omega (arith, h, length-pack_entry (name, bytes) (pack_entries files)) in
    let file : Text × List ℕ = (name, bytes) in
    unpack_from-new turns (pack_entries (file ∷ files)) out file (pack_entries files)
      (length-pack_entry file (pack_entries files))
      (read_entry-pack_entry name bytes (pack_entries files) fits) apart
    ∙ unpack_from-pack_entries files turns (out ++ file ∷ []) fewer good once
        (Apart-append name bytes out files new others)
    ∙ ap (λ t. some (ok t)) (append_assoc out (file ∷ []) files)

nowhere : (files : Files) → Apart [] files
unfolding has_file
nowhere [] = tt
nowhere (file ∷ files) = (refl, nowhere files)

finished_ok : (files : Files) → files ≢ [] → finished (ok files) ≡ ok files
unfolding finished
finished_ok [] e = absurd (e refl)
finished_ok (file ∷ files) e = refl

-- Files whose names pass `check_name`, each name once and each body shorter than 2 ^ 32 bytes, are
-- unpacked from their bundle as they were packed, where there is a file at all and the bundle is no
-- longer than `MAX_BUNDLE`.
pub unpack-pack :
    (files : Files)
    → files ≢ []
    → All Packable files
    → EachOnce files
    → length (pack files) ≤ max_bundle
    → unpack (pack files) ≡ some (ok files)
unfolding unpack pack strip_prefix
unpack-pack files some_file good once small =
    rw
      (
        le→ltb-false max_bundle (length (pack files)) small,
        unpack_from-pack_entries files (length (pack_entries files)) [] (omega arith) good once
            (nowhere files),
      )
      (ap some (finished_ok files some_file))
