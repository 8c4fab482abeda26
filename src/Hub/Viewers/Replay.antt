-- ===== src/Hub/Viewers/Replay.antt =====
-- What a client is sent when it attaches, against the stream that the terminal printed.
use sessionhub.Base.{
  ℕ, ◌<◌, ◌^◌, ◌≡◌, sym, ap, ◌∙◌, inl, inr, List, ◌++◌, Option, none, some, length, take, drop,
  arith, Option-cases, take-append-drop,
}
use sessionhub.Ring
use sessionhub.Ring.{Ring, sub64, fnv1a, resume_tail, range}
use sessionhub.Ring.History.{Holds}
use sessionhub.Ring.Replay.{resume_of, resume-history, snapshot-history}
use sessionhub.Hub.Viewers.{replay_of}

-- A resume that the stream allows is what follows its position.
resume_of-drop :
    (h : List ℕ) (cap since tail : ℕ) {rest : List ℕ}
    → resume_of h cap since tail ≡ some rest
    → rest ≡ drop since h
resume_of-drop h cap since tail e = ground arith

-- The bytes that a client is sent when it attaches are exactly what the terminal printed from the
-- position it is told on, whether it resumes or not, for a ring that holds a stream `h` shorter than
-- 2^64: so what it had up to there, and those bytes, are the whole stream.
pub replay_of-history :
    (r : Ring) (h : List ℕ) (since tail : Option ℕ)
    → length h < 2 ^ 64
    → Holds r h
    → take (replay_of r since tail).1 h ++ (replay_of r since tail).0 ≡ h
unfolding replay_of
replay_of-history r h none tail small v =
    ap (λ b. take (sub64 r.total (length r.buf)) h ++ b) (snapshot-history r h small v)
    ∙ take-append-drop (sub64 r.total (length r.buf)) h
replay_of-history r h (some s) none small v =
    ap (λ b. take (sub64 r.total (length r.buf)) h ++ b) (snapshot-history r h small v)
    ∙ take-append-drop (sub64 r.total (length r.buf)) h
replay_of-history r h (some s) (some hash) small v = elim (Option-cases (Ring.resume r s hash)) [
  | inl e ↦
      rw (e, replay_of)
        (ap (λ b. take (sub64 r.total (length r.buf)) h ++ b) (snapshot-history r h small v)
          ∙ take-append-drop (sub64 r.total (length r.buf)) h)
  | inr (rest, e) ↦
      rw (e, replay_of)
        (ap (λ b. take s h ++ b)
            (resume_of-drop h r.cap s hash (sym (resume-history r h s hash small v) ∙ e))
          ∙ take-append-drop s h)
]
