-- ===== src/Utf8/Ascii.antt =====
-- ASCII texts and their bytes.
use sessionhub.Base.{
  ℕ, zero, suc, ◌≤◌, ◌<◌, ◌≡◌, refl, ap, List, [], ◌∷◌, some, length, All, arith, lt→ltb,
}
use mathlib.Core.Option
use sessionhub.Utf8.{encode_char, as_bytes, utf8_from, from_utf8}
use sessionhub.Utf8.Laws.{front-ascii}

abbrev pub IsAscii : List ℕ → Type 0
IsAscii = All (λ c. c < 0x80)

pub as_bytes-IsAscii : (cs : List ℕ) → IsAscii cs → as_bytes cs ≡ cs
unfolding as_bytes encode_char
as_bytes-IsAscii [] h = refl
as_bytes-IsAscii (c ∷ cs) (hc, hs) =
    rw (lt→ltb c 0x80 hc) (ap (λ t. c ∷ t) (as_bytes-IsAscii cs hs))

utf8_from-IsAscii : (bs : List ℕ) (f : ℕ) → length bs ≤ f → IsAscii bs → utf8_from f bs ≡ some bs
unfolding utf8_from
utf8_from-IsAscii [] f h a = refl
utf8_from-IsAscii (b ∷ bs) zero h a = absurd (omega arith)
utf8_from-IsAscii (b ∷ bs) (suc f) h (hb, hs) =
    rw (front-ascii b bs hb, utf8_from)
      (ap (Option.map (λ cs. b ∷ cs)) (utf8_from-IsAscii bs f (omega arith) hs))

pub from_utf8-IsAscii : (bs : List ℕ) → IsAscii bs → from_utf8 bs ≡ some bs
unfolding from_utf8
from_utf8-IsAscii bs h = utf8_from-IsAscii bs (length bs) (omega arith) h
