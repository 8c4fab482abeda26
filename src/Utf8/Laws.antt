-- ===== src/Utf8/Laws.antt =====
-- ASCII through the decoder, and what trimming leaves alone.
use sessionhub.Base.{
  ℕ, zero, suc, ◌≤◌, ◌<◌, ◌≡◌, refl, ap, ◌∙◌, false, List, [], ◌∷◌, length, All, arith, lt→ltb,
}
use sessionhub.Utf8.{
  char, front, lossy_from, from_utf8_lossy, trim_start, trim_end, trim, is_whitespace,
}

pub front-ascii : (b : ℕ) (bs : List ℕ) → b < 0x80 → front b bs ≡ char b 1
unfolding front
front-ascii b bs h = rw (lt→ltb b 0x80 h)

lossy_from-ascii :
    (bs : List ℕ) (f : ℕ) → length bs ≤ f → All (λ b. b < 0x80) bs → lossy_from f bs ≡ bs
unfolding lossy_from
lossy_from-ascii [] zero h a = refl
lossy_from-ascii [] (suc f) h a = refl
lossy_from-ascii (b ∷ bs) zero h a = absurd (omega arith)
lossy_from-ascii (b ∷ bs) (suc f) h (hb, hs) =
    rw (front-ascii b bs hb, lossy_from) (ap (λ t. b ∷ t) (lossy_from-ascii bs f (omega arith) hs))

-- ASCII bytes are their own code points.
pub from_utf8_lossy-ascii : (bs : List ℕ) → All (λ b. b < 0x80) bs → from_utf8_lossy bs ≡ bs
unfolding from_utf8_lossy
from_utf8_lossy-ascii bs h = lossy_from-ascii bs (length bs) (omega arith) h

pub length-trim_start : (cs : List ℕ) → length (trim_start cs) ≤ length cs
unfolding trim_start
length-trim_start [] = omega arith
length-trim_start (c ∷ cs) = ground (arith, length-trim_start cs)

pub length-trim_end : (cs : List ℕ) → length (trim_end cs) ≤ length cs
unfolding trim_end
length-trim_end [] = omega arith
length-trim_end (c ∷ cs) = ground (arith, length-trim_end cs)

-- Trimming makes a text no longer.
pub length-trim : (cs : List ℕ) → length (trim cs) ≤ length cs
unfolding trim
length-trim cs = omega (arith, length-trim_end (trim_start cs), length-trim_start cs)

-- No white space.
abbrev pub Solid : List ℕ → Type 0
Solid = All (λ c. is_whitespace c ≡ false)

trim_start-Solid : (cs : List ℕ) → Solid cs → trim_start cs ≡ cs
unfolding trim_start
trim_start-Solid [] h = refl
trim_start-Solid (c ∷ cs) (h, hs) = rw h

trim_end-Solid : (cs : List ℕ) → Solid cs → trim_end cs ≡ cs
unfolding trim_end
trim_end-Solid [] h = refl
trim_end-Solid (c ∷ []) (h, hs) = rw h
trim_end-Solid (c ∷ d ∷ cs) (h, hs) = rw (trim_end-Solid (d ∷ cs) hs, trim_end)

pub trim-Solid : (cs : List ℕ) → Solid cs → trim cs ≡ cs
unfolding trim
trim-Solid cs h = ap trim_end (trim_start-Solid cs h) ∙ trim_end-Solid cs h
