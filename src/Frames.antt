-- ===== src/Frames.antt =====
-- src/proto.rs, the binary frames: a terminal's bytes, and a dropped file.
pub mod Laws
mod Tests
use sessionhub.Base.{
  ℕ, ◌+◌, ◌-◌, ◌*◌, ◌/◌, ◌%◌, ◌^◌, Bool, ◌||◌, not, List, [], ◌∷◌, ◌++◌, Option, none, some, length,
  take, drop, ltb, ◌==◌, if◌then◌else◌,
}
use sessionhub.Utf8.{from_utf8_lossy}

-- `u32::to_le_bytes` and `u16::to_le_bytes`.
abbrev pub le32 : ℕ → List ℕ
le32 n = n % 256 ∷ n / 256 % 256 ∷ n / 65536 % 256 ∷ n / 16777216 % 256 ∷ []

abbrev pub le16 : ℕ → List ℕ
le16 n = n % 256 ∷ n / 256 % 256 ∷ []

-- `from_le_bytes`.
abbrev pub u32_of : ℕ → ℕ → ℕ → ℕ → ℕ
u32_of a b c d = a + b * 256 + c * 65536 + d * 16777216

abbrev pub u16_of : ℕ → ℕ → ℕ
u16_of a b = a + b * 256

unfoldable pub encode_frame : ℕ → List ℕ → List ℕ
encode_frame id bytes = le32 id ++ bytes

unfoldable pub decode_frame : List ℕ → Option (ℕ × List ℕ)
decode_frame (a ∷ b ∷ c ∷ d ∷ rest) = some (u32_of a b c d, rest)
decode_frame _ = none

-- `u32::MAX`.
abbrev pub drop_mark : ℕ
drop_mark = 2 ^ 32 - 1

pub record DropFrame : Type 0 where
  pub term : ℕ
  pub name : List ℕ
  pub bytes : List ℕ

-- `rest.get(..n)` and `rest.get(n..)` are there only if `rest` has `n` bytes.
unfoldable pub split_name : ℕ → ℕ → List ℕ → Option DropFrame
split_name term n rest =
    if ltb (length rest) n
    then none
    else some (record { term = term; name = from_utf8_lossy (take n rest); bytes = drop n rest })

unfoldable pub decode_drop : List ℕ → Option DropFrame
unfolding split_name
decode_drop (a ∷ b ∷ c ∷ d ∷ e ∷ f ∷ g ∷ h ∷ i ∷ j ∷ rest) =
    if u32_of a b c d == drop_mark then split_name (u32_of e f g h) (u16_of i j) rest else none
decode_drop _ = none
