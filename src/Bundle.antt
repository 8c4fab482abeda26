-- ===== src/Bundle.antt =====
-- src/webpack.rs: the frontend as one file, packed and unpacked. `version.json` and the folder that a
-- bundle is installed in are not here.
pub mod RoundTrip
pub mod Safe
pub mod Termination
mod Tests
use mathlib.Core.Option
use sessionhub.Base.{
  ℕ, zero, suc, ◌+◌, ◌*◌, Bool, true, false, not, ◌||◌, ◌&&◌, List, [], ◌∷◌, ◌++◌, Option, none,
  some, length, take, drop, all, any, same, ltb, ◌==◌, if◌then◌else◌, codes,
}
use sessionhub.Base.Result.{Result, err, ok, ◌>>=◌, or_err, unless}
use sessionhub.Utf8.{Text, as_bytes, from_utf8, split, is_alphanumeric}
use sessionhub.Frames.{le16, le32, u16_of, u32_of}

-- Why a bundle is not trusted: the sentences of the source, told apart.
pub data Refusal : Type 0 where
  too_large not_a_bundle cut_in_name not_utf8 cut_in_length cut_short twice no_files : Refusal
  unusable_name not_relative leaves_folder odd_characters : Refusal

-- A `BTreeMap` of files, as a list of its entries: `pack` goes through the list, and `unpack` lists
-- what it inserts.
abbrev pub Files : Type 0
Files = List (Text × List ℕ)

abbrev pub magic : List ℕ
magic = codes "SHWEB1"

abbrev pub max_bundle : ℕ
max_bundle = 32 * 1024 * 1024

abbrev pub pack_entry : Text × List ℕ → List ℕ
pack_entry (name, bytes) =
    le16 (length (as_bytes name)) ++ (as_bytes name ++ (le32 (length bytes) ++ bytes))

unfoldable pub pack_entries : Files → List ℕ
pack_entries [] = []
pack_entries (file ∷ files) = pack_entry file ++ pack_entries files

unfoldable pub pack : Files → List ℕ
unfolding pack_entries
pack files = magic ++ pack_entries files

-- The separators of both systems.
abbrev pub is_sep : ℕ → Bool
is_sep c = c == b'/' || c == b'\\'

abbrev pub is_plain : ℕ → Bool
is_plain c = is_alphanumeric c || (c == b'.' || (c == b'-' || c == b'_'))

abbrev pub starts_at : (ℕ → Bool) → Text → Bool
starts_at p [] = false
starts_at p (c ∷ cs) = p c

abbrev is_dots : Text → Bool
is_dots part = same part [] || (same part (codes ".") || same part (codes ".."))

unfoldable pub check_parts : List Text → Result Refusal (Unit {0})
check_parts [] = ok tt
check_parts (part ∷ parts) = do
  _ ← unless leaves_folder (is_dots part)
  _ ← unless odd_characters (not (all is_plain part))
  check_parts parts

unfoldable pub check_name : Text → Result Refusal (Unit {0})
unfolding check_parts split
check_name name = do
  _ ← unless unusable_name (same name [] || ltb 200 (length (as_bytes name)))
  _ ← unless not_relative (starts_at is_sep name || any (λ c. c == b':') name)
  check_parts (split is_sep name)

-- `read_u16` and `read_u32`, with what follows.
unfoldable pub read_u16 : List ℕ → Option (ℕ × List ℕ)
read_u16 (a ∷ b ∷ rest) = some (u16_of a b, rest)
read_u16 _ = none

unfoldable pub read_u32 : List ℕ → Option (ℕ × List ℕ)
read_u32 (a ∷ b ∷ c ∷ d ∷ rest) = some (u32_of a b c d, rest)
read_u32 _ = none

-- `bytes.get(i..i + n)`, with what follows.
unfoldable pub read_bytes : ℕ → List ℕ → Option (List ℕ × List ℕ)
read_bytes n bs = if ltb (length bs) n then none else some (take n bs, drop n bs)

-- A turn of the loop: an entry, and what follows it.
unfoldable pub read_entry : List ℕ → Result Refusal ((Text × List ℕ) × List ℕ)
unfolding read_u16 read_u32 read_bytes from_utf8 check_name
read_entry bs = do
  n ← or_err cut_in_name (read_u16 bs)
  raw ← or_err cut_in_name (read_bytes n.0 n.1)
  name ← or_err not_utf8 (from_utf8 raw.0)
  _ ← check_name name
  size ← or_err cut_in_length (read_u32 raw.1)
  body ← or_err cut_short (read_bytes size.0 size.1)
  ok ((name, body.0), body.1)

-- Whether `out.insert(name, …)` finds one there.
unfoldable pub has_file : Text → Files → Bool
has_file name [] = false
has_file name ((n, bytes) ∷ files) = same n name || has_file name files

-- The loop, with the turns it may take; `none` where they run out.
unfoldable pub unpack_from : ℕ → List ℕ → Files → Option (Result Refusal Files)
unfolding read_entry has_file
unpack_from turns [] out = some (ok out)
unpack_from zero (b ∷ bs) out = none
unpack_from (suc turns) (b ∷ bs) out = elim (read_entry (b ∷ bs)) [
  | err why ↦ some (err why)
  | ok (file, rest) ↦
      let more = unpack_from turns rest (out ++ file ∷ []) in
      if has_file file.0 out then some (err twice) else more
]

unfoldable pub strip_prefix : List ℕ → List ℕ → Option (List ℕ)
strip_prefix [] bs = some bs
strip_prefix (p ∷ ps) [] = none
strip_prefix (p ∷ ps) (b ∷ bs) = if p == b then strip_prefix ps bs else none

unfoldable pub finished : Result Refusal Files → Result Refusal Files
finished (err why) = err why
finished (ok []) = err no_files
finished (ok (file ∷ files)) = ok (file ∷ files)

-- An entry takes six bytes at least, so as many turns as bytes are enough.
unfoldable pub unpack : List ℕ → Option (Result Refusal Files)
unfolding strip_prefix unpack_from finished
unpack bytes =
    if ltb max_bundle (length bytes)
    then some (err too_large)
    else elim (strip_prefix magic bytes) [
      | none ↦ some (err not_a_bundle)
      | some rest ↦ Option.map finished (unpack_from (length rest) rest [])
    ]
