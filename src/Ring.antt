-- ===== src/Ring.antt =====
-- src/ring.rs, the output ring buffer of a terminal. A `u64` keeps its wrap-around; the length of
-- a `VecDeque` stays below 2^63, so a sum of two lengths does not wrap.
pub mod History
pub mod Replay
mod Tests
use sessionhub.Base.{
  ℕ, ◌+◌, ◌-◌, ◌*◌, ◌%◌, ◌^◌, min, bit_xor, Bool, List, [], ◌∷◌, ◌++◌, Option, none, some, length,
  take, drop, ltb, ◌==◌, if◌then◌else◌,
}

pub record Ring : Type 0 where
  pub buf : List ℕ
  pub cap : ℕ
  pub total : ℕ

-- `u64` arithmetic.
abbrev pub add64 : ℕ → ℕ → ℕ
add64 a b = (a + b) % 2 ^ 64

abbrev pub sub64 : ℕ → ℕ → ℕ
sub64 a b = (a + 2 ^ 64 - b) % 2 ^ 64

abbrev pub resume_tail : ℕ
resume_tail = 256

fnv_from : ℕ → List ℕ → ℕ
fnv_from h [] = h
fnv_from h (b ∷ bs) = fnv_from (bit_xor h b * 0x01000193 % 2 ^ 32) bs

unfoldable pub fnv1a : List ℕ → ℕ
unfolding fnv_from
fnv1a bs = fnv_from 0x811c9dc5 bs

unfoldable pub new : ℕ → Ring
new cap = record { buf = []; cap = cap; total = 0 }

abbrev pub end : Ring → ℕ
end r = r.total

-- `buf.range(from..to)`, for bounds that are in range.
abbrev pub range : ℕ → ℕ → List ℕ → List ℕ
range from to xs = take (to - from) (drop from xs)

unfoldable pub resume : Ring → ℕ → ℕ → Option (List ℕ)
resume r since tail =
    if ltb r.total since
    then none
    else let n : ℕ = min since resume_tail in
      let start : ℕ = sub64 r.total (length r.buf) in
      if ltb (since - n) start
      then none
      else let from : ℕ = since - start in
        if fnv1a (range (from - n) from r.buf) == tail then some (drop from r.buf) else none

-- The part of a chunk that fits: its tail, if it is larger than the whole buffer.
abbrev kept_of : ℕ → List ℕ → List ℕ
kept_of cap bytes = if ltb cap (length bytes) then drop (length bytes - cap) bytes else bytes

unfoldable pub push : Ring → List ℕ → Ring
push r bytes =
    if r.cap == 0
    then r
    else let kept = kept_of r.cap bytes in
      let overflow : ℕ = length r.buf + length kept - r.cap in
      record r {
        total = add64 r.total (length bytes);
        buf = (if ltb 0 overflow then drop overflow r.buf else r.buf) ++ kept;
      }

abbrev pub snapshot : Ring → List ℕ
snapshot r = r.buf

unfoldable pub pushes : List (List ℕ) → Ring → Ring
pushes [] r = r
pushes (c ∷ cs) r = pushes cs (push r c)
