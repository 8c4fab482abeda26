-- ===== src/Bundle/Tests.antt =====
-- A bundle packed and unpacked, refusals, and the theorems of this folder at it.
use sessionhub.Base.{◌≡◌, ◌≢◌, ◌≤◌, ◌*◌, refl, [], ◌∷◌, ◌++◌, some, length, codes, arith}
use sessionhub.Base.Result.{Result, err, ok}
use sessionhub.Utf8.{as_bytes, encode_char}
use sessionhub.Bundle.{
  Refusal, Files, magic, has_file, pack, pack_entry, unpack, check_name, not_a_bundle, no_files,
  leaves_folder, twice, not_relative,
}
use sessionhub.Bundle.Safe.{unpack-StaysInside, StaysInside}
use sessionhub.Bundle.Termination.{unpack-total}
use sessionhub.Bundle.RoundTrip.{EachOnce, unpack-pack}

abbrev two_files : Files
two_files = (codes "app.js", 104 ∷ 105 ∷ []) ∷ (codes "lib/a_b.css", []) ∷ []

reads_what_was_packed : unpack (pack two_files) ≡ some (ok two_files)
unfolding unpack pack as_bytes encode_char
reads_what_was_packed = refl

wrong_magic : unpack (codes "SHWEB2") ≡ some (err not_a_bundle)
unfolding unpack as_bytes encode_char
wrong_magic = refl

nothing_in_it : unpack magic ≡ some (err no_files)
unfolding unpack as_bytes encode_char
nothing_in_it = refl

goes_up : unpack (magic ++ pack_entry (codes "a/../b", [])) ≡ some (err leaves_folder)
unfolding unpack as_bytes encode_char
goes_up = refl

packed_twice :
    unpack (magic ++ (pack_entry (codes "a", []) ++ pack_entry (codes "a", []))) ≡ some (err twice)
unfolding unpack as_bytes encode_char
packed_twice = refl

absolute : check_name (codes "C:/x") ≡ err not_relative
unfolding check_name as_bytes encode_char
absolute = refl

unpack-pack_example : unpack (pack two_files) ≡ some (ok two_files)
unfolding check_name has_file pack as_bytes encode_char
unpack-pack_example =
    unpack-pack two_files some_file ((good, omega arith), ((good', omega arith), tt)) each_once
      small
  where
    some_file : two_files ≢ []
    some_file e = cc

    good : check_name (codes "app.js") ≡ ok tt
    good = refl

    good' : check_name (codes "lib/a_b.css") ≡ ok tt
    good' = refl

    each_once : EachOnce two_files
    each_once = (refl, (refl, tt))

    small : length (pack two_files) ≤ 32 * 1024 * 1024
    small = omega arith

unpack-StaysInside_example :
    StaysInside (codes "app.js") × (StaysInside (codes "lib/a_b.css") × Unit {0})
unpack-StaysInside_example = unpack-StaysInside (pack two_files) two_files reads_what_was_packed

unpack-total_example : (r : Result Refusal Files) × (unpack (codes "SHWEB1x") ≡ some r)
unpack-total_example = unpack-total (codes "SHWEB1x")
