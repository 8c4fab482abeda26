-- ===== src/Frames/Laws.antt =====
-- The frames of src/proto.rs, written and read back.
use sessionhub.Base.{
  ℕ, ◌/◌, ◌%◌, ◌^◌, ◌<◌, ◌≡◌, refl, ap, ◌⊎◌, inl, inr, List, [], ◌∷◌, ◌++◌, none, some, length, All,
  arith, le→ltb-false, ==-ne, take-append_len, drop-append_len, length-append,
}
use sessionhub.Utf8.{from_utf8_lossy}
use sessionhub.Frames.{
  le32, le16, u32_of, encode_frame, decode_frame, drop_mark, split_name, decode_drop,
}

-- A terminal's frame is read back as its id and its bytes, for every id that is a `u32`.
pub decode_frame-encode_frame :
    (id : ℕ) (bytes : List ℕ)
    → id < 2 ^ 32
    → decode_frame (encode_frame id bytes) ≡ some (id, bytes)
unfolding encode_frame decode_frame
decode_frame-encode_frame id bytes h = ap (λ k. some (k, bytes)) (omega arith)

-- What `decode_frame` reads out of bytes is what `encode_frame` writes as those bytes; it fails on
-- exactly the buffers shorter than the header.
pub encode_frame-decode_frame :
    (buf : List ℕ)
    → All (λ b. b < 256) buf
    → ((decode_frame buf ≡ none) × (length buf < 4))
      ⊎ ((f : ℕ × List ℕ) × (decode_frame buf ≡ some f)
          × (f.0 < 2 ^ 32)
          × (encode_frame f.0 f.1 ≡ buf))
unfolding encode_frame decode_frame
encode_frame-decode_frame [] h = inl (refl, omega arith)
encode_frame-decode_frame (a ∷ []) h = inl (refl, omega arith)
encode_frame-decode_frame (a ∷ b ∷ []) h = inl (refl, omega arith)
encode_frame-decode_frame (a ∷ b ∷ c ∷ []) h = inl (refl, omega arith)
encode_frame-decode_frame (a ∷ b ∷ c ∷ d ∷ rest) h =
    inr ((u32_of a b c d, rest), refl, omega arith, ground arith)

-- The page's side of `decode_drop`, by the layout that its comment gives.
abbrev pub drop_bytes : ℕ → List ℕ → List ℕ → List ℕ
drop_bytes term name bytes =
    le32 drop_mark ++ (le32 term ++ (le16 (length name) ++ (name ++ bytes)))

-- A frame laid out as the comment on `DropFrame` says, with a name of at most 65535 bytes, is read
-- back as its terminal, its name (decoded, ill-formed bytes replaced) and its bytes.
pub decode_drop-drop_bytes :
    (term : ℕ) (name bytes : List ℕ)
    → term < 2 ^ 32
    → length name < 2 ^ 16
    → decode_drop (drop_bytes term name bytes)
      ≡ some (record { term = term; name = from_utf8_lossy name; bytes = bytes })
unfolding decode_drop
decode_drop-drop_bytes term name bytes ht hn = split_eq _ _ (omega arith) (omega arith)
  where
    split_eq :
        (t n : ℕ)
        → t ≡ term
        → n ≡ length name
        → split_name t n (name ++ bytes)
          ≡ some (record { term = term; name = from_utf8_lossy name; bytes = bytes })
    split_eq t n et en = rw (
      et,
      en,
      split_name,
      le→ltb-false (length (name ++ bytes)) (length name) (omega (arith, length-append name bytes)),
      take-append_len name bytes,
      drop-append_len name bytes,
    )

-- No frame of a terminal whose id is not the mark is taken for a dropped file.
pub decode_drop-encode_frame :
    (id : ℕ) (bytes : List ℕ) → id < drop_mark → decode_drop (encode_frame id bytes) ≡ none
unfolding decode_drop encode_frame
decode_drop-encode_frame id (e ∷ f ∷ g ∷ h ∷ i ∷ j ∷ rest) small = rw (
    ==-ne (u32_of (id % 256) (id / 256 % 256) (id / 65536 % 256) (id / 16777216 % 256)) drop_mark
      (λ q. omega arith))
decode_drop-encode_frame id _ small = refl
