-- ===== src/Ring/History.antt =====
-- The ring against the whole stream that was pushed into it.
use sessionhub.Base.{
  ℕ, ◌+◌, ◌-◌, ◌<◌, ◌^◌, ◌≡◌, ◌≢◌, refl, sym, ap, ap₂, ◌∙◌, inl, inr, List, [], ◌∷◌, ◌++◌,
  append_assoc, append-nil, length, drop, concat, ltb, if◌then◌else◌, arith, length-append,
  length-drop, drop-append_le, drop-append_ge, drop-drop, drop-all, drop-zero, Bool-cases, ==-ne,
  ltb→lt, ltb-false,
}
use sessionhub.Ring.{Ring, new, push, pushes, kept_of}

-- The ring holds the last `cap` bytes of the stream `h`, and has counted all of it.
pub record Holds (r : Ring) (h : List ℕ) : Type 0 where
  pub room : r.cap ≢ 0
  pub kept : r.buf ≡ drop (length h - r.cap) h
  pub counted : r.total ≡ length h

pub length-buf : (r : Ring) (h : List ℕ) → Holds r h → length r.buf ≡ length h - (length h - r.cap)
length-buf r h v = ap length v.kept ∙ length-drop (length h - r.cap) h

-- Dropping the overflow is dropping, also when there is none.
drop_overflow : (k : ℕ) (xs : List ℕ) → (if ltb 0 k then drop k xs else xs) ≡ drop k xs
drop_overflow k xs = elim (Bool-cases (ltb 0 k)) [
  | inl e ↦ rw e
  | inr e ↦ rw e (sym (drop-zero k xs (omega (arith, ltb-false 0 k e))))
]

buf-push :
    (cap : ℕ) (h d buf : List ℕ)
    → buf ≡ drop (length h - cap) h
    → drop (length buf + length (kept_of cap d) - cap) buf ++ kept_of cap d
      ≡ drop (length (h ++ d) - cap) (h ++ d)
buf-push cap h d buf e = elim (Bool-cases (ltb cap (length d))) [
  | inl big ↦ rw big (
      ap₂ ◌++◌
        (drop-all _ buf (omega (arith, length-drop (length d - cap) d, ltb→lt cap (length d) big)))
        refl
      ∙ sym (
          drop-append_ge (length (h ++ d) - cap) h d
            (omega (arith, length-append h d, ltb→lt cap (length d) big))
          ∙ ap (λ k. drop k d) (omega (arith, length-append h d, ltb→lt cap (length d) big))))
  | inr small ↦ rw small (
      ap₂ ◌++◌
        (ap (drop (length buf + length d - cap)) e
          ∙ drop-drop (length buf + length d - cap) (length h - cap) h
          ∙ ap (λ k. drop k h)
              (omega (
                arith,
                length-append h d,
                ap length e ∙ length-drop (length h - cap) h,
                ltb-false cap (length d) small,
              )))
        refl
      ∙ sym (
          drop-append_le (length (h ++ d) - cap) h d
            (omega (arith, length-append h d, ltb-false cap (length d) small))))
]

push-Holds :
    (r : Ring) (h d : List ℕ) → length (h ++ d) < 2 ^ 64 → Holds r h → Holds (push r d) (h ++ d)
unfolding push
push-Holds r h d small v = rw (==-ne r.cap 0 v.room) record {
  room = v.room;
  kept = rw drop_overflow (buf-push r.cap h d r.buf v.kept);
  counted = omega (arith, length-append h d, v.counted);
}

pushes-Holds :
    (cs : List (List ℕ)) (r : Ring) (h : List ℕ)
    → length (h ++ concat cs) < 2 ^ 64
    → Holds r h
    → Holds (pushes cs r) (h ++ concat cs)
unfolding pushes
pushes-Holds [] r h small v = rw (append-nil h) v
pushes-Holds (c ∷ cs) r h small v = rw (← append_assoc h c (concat cs)) (
    pushes-Holds cs (push r c) (h ++ c) (omega (arith, ap length (append_assoc h c (concat cs)))) (
      push-Holds r h c
        (omega
          (arith, length-append (h ++ c) (concat cs), ap length (append_assoc h c (concat cs))))
        v))

-- However the output of a terminal is cut into chunks, a new ring of capacity `cap > 0` that is
-- pushed all of them holds the last `cap` bytes of the output and has counted every byte, as long
-- as fewer than 2^64 bytes were pushed.
pub pushes-new-Holds :
    (cap : ℕ) (cs : List (List ℕ))
    → cap ≢ 0
    → length (concat cs) < 2 ^ 64
    → Holds (pushes cs (new cap)) (concat cs)
unfolding new
pushes-new-Holds cap cs room small =
    pushes-Holds cs (new cap) [] small
      (record { room = room; kept = sym (drop-all (0 - cap) [] (omega arith)); counted = refl })
