-- ===== src/Bundle/Termination.antt =====
-- The fuel of the loop of `unpack` of src/webpack.rs.
use sessionhub.Base.{
  ℕ, zero, suc, ◌≤◌, ◌<◌, ◌≡◌, refl, ap, subst, inl, inr, List, [], ◌∷◌, ◌++◌, Option, none, some,
  length, take, drop, length-drop, ltb, arith, Bool-cases, Option-cases,
}
use sessionhub.Base.Result.{Result, err, ok, or_err, chain_went_well, Result-cases, ok_eq}
use sessionhub.Utf8.{Text, from_utf8}
use sessionhub.Bundle.{
  Refusal, Files, magic, max_bundle, check_name, read_entry, read_u16, read_u32, read_bytes,
  has_file, unpack_from, strip_prefix, finished, unpack, cut_in_name, not_utf8, cut_in_length,
  cut_short, twice, too_large, not_a_bundle,
}

or_err-ok {ℓ} :
    {T : Type ℓ} (why : Refusal) (o : Option T) (v : T) → or_err why o ≡ ok v → o ≡ some v
or_err-ok why none v e = cc
or_err-ok why (some w) v e = ap some (ok_eq {E = Refusal} w v e)

read_u16-shorter : (bs : List ℕ) (v : ℕ × List ℕ) → read_u16 bs ≡ some v → length v.1 < length bs
unfolding read_u16
read_u16-shorter [] v e = cc
read_u16-shorter (a ∷ []) v e = cc
read_u16-shorter (a ∷ b ∷ rest) (n, more) e =
    let q : rest ≡ more = cc in subst (λ t. length t < length (a ∷ b ∷ rest)) q (omega arith)

read_u32-shorter : (bs : List ℕ) (v : ℕ × List ℕ) → read_u32 bs ≡ some v → length v.1 < length bs
unfolding read_u32
read_u32-shorter [] v e = cc
read_u32-shorter (a ∷ []) v e = cc
read_u32-shorter (a ∷ b ∷ []) v e = cc
read_u32-shorter (a ∷ b ∷ c ∷ []) v e = cc
read_u32-shorter (a ∷ b ∷ c ∷ d ∷ rest) (n, more) e =
    let q : rest ≡ more = cc in
    subst (λ t. length t < length (a ∷ b ∷ c ∷ d ∷ rest)) q (omega arith)

read_bytes-shorter :
    (n : ℕ) (bs : List ℕ) (v : List ℕ × List ℕ) → read_bytes n bs ≡ some v → length v.1 ≤ length bs
unfolding read_bytes
read_bytes-shorter n bs (raw, more) e = elim (Bool-cases (ltb (length bs) n)) [
  | inl y ↦ cc (rw y at e)
  | inr fits ↦
      let q : ◌≡◌ {A = Option (List ℕ × List ℕ)} (some (take n bs, drop n bs)) (some (raw, more)) =
        rw fits at e in
      let q' : drop n bs ≡ more = cc in
      subst (λ t. length t ≤ length bs) q' (omega (arith, length-drop n bs))
]

read_entry-shorter :
    (bs : List ℕ) (file : Text × List ℕ) (rest : List ℕ)
    → read_entry bs ≡ ok (file, rest)
    → length rest < length bs
unfolding read_entry
read_entry-shorter bs file rest e =
    let one = chain_went_well _ (or_err cut_in_name (read_u16 bs)) e in
    let two = chain_went_well _ (or_err cut_in_name (read_bytes one.0.0 one.0.1)) one.2 in
    let three = chain_went_well _ (or_err not_utf8 (from_utf8 two.0.0)) two.2 in
    let four = chain_went_well _ (check_name three.0) three.2 in
    let five = chain_went_well _ (or_err cut_in_length (read_u32 two.0.1)) four.2 in
    let six = chain_went_well _ (or_err cut_short (read_bytes five.0.0 five.0.1)) five.2 in
    let a = read_u16-shorter bs one.0 (or_err-ok cut_in_name (read_u16 bs) one.0 one.1) in
    let b =
      read_bytes-shorter one.0.0 one.0.1 two.0
        (or_err-ok cut_in_name (read_bytes one.0.0 one.0.1) two.0 two.1) in
    let c =
      read_u32-shorter two.0.1 five.0 (or_err-ok cut_in_length (read_u32 two.0.1) five.0 five.1) in
    let d =
      read_bytes-shorter five.0.0 five.0.1 six.0
        (or_err-ok cut_short (read_bytes five.0.0 five.0.1) six.0 six.1) in
    let same_rest : six.0.1 ≡ rest =
      ap (λ x. x.1) (ok_eq ((three.0, six.0.0), six.0.1) (file, rest) six.2) in
    subst (λ t. length t < length bs) same_rest (omega arith)

unpack_from-total :
    (turns : ℕ) (bs : List ℕ) (out : Files)
    → length bs ≤ turns
    → (r : Result Refusal Files) × (unpack_from turns bs out ≡ some r)
unfolding unpack_from
unpack_from-total turns [] out h = (ok out, refl)
unpack_from-total zero (b ∷ bs) out h = absurd (omega arith)
unpack_from-total (suc turns) (b ∷ bs) out h = elim (Result-cases (read_entry (b ∷ bs))) [
  | inl (why, q) ↦ (err why, rw (unpack_from, q))
  | inr ((file, rest), q) ↦
      let fewer = read_entry-shorter (b ∷ bs) file rest q in
      let more = unpack_from-total turns rest (out ++ file ∷ []) (omega arith) in
      elim (Bool-cases (has_file file.0 out)) [
        | inl y ↦ (err twice, rw (unpack_from, q, y))
        | inr n ↦ (more.0, rw (unpack_from, q, n) more.1)
      ]
]

-- `unpack` comes to an end on every byte string, with files or with a refusal: as many turns of its
-- loop as there are bytes behind the magic are enough.
pub unpack-total : (bytes : List ℕ) → (r : Result Refusal Files) × (unpack bytes ≡ some r)
unfolding unpack
unpack-total bytes = elim (Bool-cases (ltb max_bundle (length bytes))) [
  | inl big ↦ (err too_large, rw big)
  | inr fits ↦ elim (Option-cases (strip_prefix magic bytes)) [
    | inl q ↦ (err not_a_bundle, rw (unpack, fits, q))
    | inr (rest, q) ↦
        let out = unpack_from-total (length rest) rest [] (omega arith) in
        (finished out.0, rw (unpack, fits, q, out.1))
  ]
]
