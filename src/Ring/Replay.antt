-- ===== src/Ring/Replay.antt =====
-- What a client gets back from `resume` and from the whole buffer, against the stream pushed.
use sessionhub.Base.{
  ℕ, ◌-◌, ◌≤◌, ◌<◌, ◌^◌, min, ◌≡◌, sym, ap, ap₂, ◌∙◌, inl, inr, List, Option, none, some, length,
  take, drop, ltb, ◌==◌, if◌then◌else◌, arith, drop-drop, Bool-cases, ltb-false,
}
use sessionhub.Ring.{Ring, resume, fnv1a, resume_tail, sub64, range}
use sessionhub.Ring.History.{Holds, length-buf}

-- The answer in terms of the stream: the position is one of the stream's, the bytes that vouch for
-- it are still kept, and their hash is the client's.
abbrev pub resume_of : List ℕ → ℕ → ℕ → ℕ → Option (List ℕ)
resume_of h cap since tail =
    if ltb (length h) since
    then none
    else let n : ℕ = min since resume_tail in
      if ltb (since - n) (length h - cap)
      then none
      else if fnv1a (range (since - n) since h) == tail
      then some (drop since h)
      else none

start_eq :
    (r : Ring) (h : List ℕ)
    → length h < 2 ^ 64
    → Holds r h
    → sub64 r.total (length r.buf) ≡ length h - r.cap
start_eq r h small v = omega (arith, v.counted, length-buf r h v)

drop-buf :
    (r : Ring) (h : List ℕ) (i : ℕ)
    → Holds r h
    → length h - r.cap ≤ i
    → drop (i - (length h - r.cap)) r.buf ≡ drop i h
drop-buf r h i v le =
    ap (drop (i - (length h - r.cap))) v.kept
    ∙ drop-drop (i - (length h - r.cap)) (length h - r.cap) h
    ∙ ap (λ k. drop k h) (omega arith)

range-buf :
    (r : Ring) (h : List ℕ) (since n : ℕ)
    → Holds r h
    → length h - r.cap ≤ since - n
    → n ≤ since
    → range (since - (length h - r.cap) - n) (since - (length h - r.cap)) r.buf
      ≡ range (since - n) since h
range-buf r h since n v le fit =
    ap₂ take (omega arith) (ap (λ k. drop k r.buf) (omega arith) ∙ drop-buf r h (since - n) v le)

resume-history_at :
    (r : Ring) (h : List ℕ) (since tail n start : ℕ)
    → Holds r h
    → start ≡ length h - r.cap
    → n ≤ since
    → (if ltb (since - n) start
        then none
        else if fnv1a (range (since - start - n) (since - start) r.buf) == tail
        then some (drop (since - start) r.buf)
        else none)
      ≡ (if ltb (since - n) (length h - r.cap)
          then none
          else if fnv1a (range (since - n) since h) == tail
          then some (drop since h)
          else none)
resume-history_at r h since tail n start v e fit =
    rw e (elim (Bool-cases (ltb (since - n) (length h - r.cap))) [
      | inl gone ↦ rw gone
      | inr there ↦
          let le = ltb-false (since - n) (length h - r.cap) there in
          rw (there, range-buf r h since n v le fit, drop-buf r h since v (omega arith))
    ])

-- For a ring that holds a stream shorter than 2^64, `resume` answers as the stream decides: nothing
-- for a position past the end, for one whose
-- vouching bytes (the 256 before it, or all there are) are no longer kept, or for a hash that is
-- not theirs; otherwise exactly what came after the position.
pub resume-history :
    (r : Ring) (h : List ℕ) (since tail : ℕ)
    → length h < 2 ^ 64
    → Holds r h
    → resume r since tail ≡ resume_of h r.cap since tail
unfolding resume
resume-history r h since tail small v = rw (v.counted) (elim (Bool-cases (ltb (length h) since)) [
  | inl past ↦ rw past
  | inr inside ↦ rw inside (
      resume-history_at r h since tail (min since resume_tail) (sub64 (length h) (length r.buf)) v
        (ap (λ t. sub64 t (length r.buf)) (sym v.counted) ∙ start_eq r h small v) (omega arith))
])

-- For a ring that holds a stream shorter than 2^64, the whole buffer is the stream from position
-- `end - len` on.
pub snapshot-history :
    (r : Ring) (h : List ℕ)
    → length h < 2 ^ 64
    → Holds r h
    → r.buf ≡ drop (sub64 r.total (length r.buf)) h
snapshot-history r h small v = rw (start_eq r h small v) v.kept
