-- ===== src/Frames/Tests.antt =====
-- The theorems of this folder at concrete frames.
use sessionhub.Base.{ℕ, ◌≡◌, ◌<◌, ◌^◌, ◌⊎◌, List, [], ◌∷◌, none, some, codes, length, arith}
use sessionhub.Utf8.{from_utf8_lossy}
use sessionhub.Frames.{encode_frame, decode_frame, decode_drop}
use sessionhub.Frames.Laws.{drop_bytes, encode_frame-decode_frame, decode_drop-drop_bytes}

encode_frame-decode_frame_example :
    ((decode_frame (1 ∷ 2 ∷ 3 ∷ 4 ∷ 5 ∷ []) ≡ none) × (length {A = ℕ} (1 ∷ 2 ∷ 3 ∷ 4 ∷ 5 ∷ []) < 4))
    ⊎ ((f : ℕ × List ℕ) × (decode_frame (1 ∷ 2 ∷ 3 ∷ 4 ∷ 5 ∷ []) ≡ some f)
        × (f.0 < 2 ^ 32)
        × (encode_frame f.0 f.1 ≡ 1 ∷ 2 ∷ 3 ∷ 4 ∷ 5 ∷ []))
encode_frame-decode_frame_example = encode_frame-decode_frame (1 ∷ 2 ∷ 3 ∷ 4 ∷ 5 ∷ []) (omega arith)

decode_drop-drop_bytes_example :
    decode_drop (drop_bytes 7 (codes "a.png") (codes "xyz"))
    ≡ some (record { term = 7; name = from_utf8_lossy (codes "a.png"); bytes = codes "xyz" })
decode_drop-drop_bytes_example =
    decode_drop-drop_bytes 7 (codes "a.png") (codes "xyz") (omega arith) (omega arith)
