-- ===== src/Hub/Queue/Laws.antt =====
-- What a client that falls behind is left with, and what it is told.
use sessionhub.Base.{
  ℕ, ◌≤◌, ◌<◌, ◌≡◌, ◌∙◌, refl, subst, ap, inl, inr, true, false, List, [], ◌∷◌, ◌++◌, some, length,
  ltb, lookup, insert, arith, length-append, Bool-cases, ltb→lt, ltb-false, ◌==◌, All,
}
use sessionhub.Hub.Types.{Client, Out, resync}
use sessionhub.Hub.Queue.{client_queue, try_send, sent, pushed_out, send}

-- The outcomes of one `send_to`: there was room, and a resync that was owed went along if there was
-- room for it too; or the queue was full, its oldest message was dropped, and a resync is owed.
pub data Sent (c : Client) (out : Out) (d : Client) : Type 0 where
  room :
      c.lost ≡ false
      → length (c.queue ++ out ∷ []) ≤ client_queue
      → d ≡ record c { queue = c.queue ++ out ∷ [] }
      → Sent c out d
  told :
      c.lost ≡ true
      → length ((c.queue ++ out ∷ []) ++ resync ∷ []) ≤ client_queue
      → d ≡ record c { queue = (c.queue ++ out ∷ []) ++ resync ∷ []; lost = false }
      → Sent c out d
  not_yet :
      c.lost ≡ true
      → length (c.queue ++ out ∷ []) ≡ client_queue
      → d ≡ record c { queue = c.queue ++ out ∷ [] }
      → Sent c out d
  dropped :
      (oldest : Out) (rest : List Out)
      → c.queue ≡ oldest ∷ rest
      → length c.queue ≡ client_queue
      → d ≡ record c { queue = rest ++ out ∷ []; lost = true }
      → Sent c out d

sent-Sent :
    (c : Client) (out : Out)
    → length c.queue < client_queue
    → Sent c out (sent c (c.queue ++ out ∷ []))
unfolding sent
sent-Sent c out h = elim (Bool-cases c.lost) [
  | inr calm ↦ room calm (omega (arith, length-append c.queue (out ∷ []))) (ground arith)
  | inl behind ↦ elim (Bool-cases (ltb (length (c.queue ++ out ∷ [])) client_queue)) [
    | inl more ↦
        told behind
          (omega (arith, ltb→lt _ _ more, length-append (c.queue ++ out ∷ []) (resync ∷ [])))
          (ground arith)
    | inr full ↦
        not_yet behind (omega (arith, ltb-false _ _ full, length-append c.queue (out ∷ [])))
          (ground arith)
  ]
]

pushed_out-Sent :
    (c : Client) (q : List Out) (out : Out)
    → c.queue ≡ q
    → client_queue ≤ length q
    → length q ≤ client_queue
    → Sent c out (pushed_out c out)
unfolding pushed_out
pushed_out-Sent c [] out e h k = absurd (omega arith)
pushed_out-Sent c (m ∷ q) out e h k = dropped m q e (ap length e ∙ omega arith) (ground arith)

-- A message to a client whose queue is within its bound has one of these outcomes. So the message
-- always gets in, only the oldest one is ever dropped, and then the client is owed a resync until
-- one is in its queue behind the message that first found room for both.
pub send-Sent : (c : Client) (out : Out) → length c.queue ≤ client_queue → Sent c out (send c out)
unfolding send try_send
send-Sent c out h = elim (Bool-cases (ltb (length c.queue) client_queue)) [
  | inl r ↦ rw (r, send) (sent-Sent c out (ltb→lt _ _ r))
  | inr f ↦ rw (f, send) (pushed_out-Sent c c.queue out refl (ltb-false _ _ f) h)
]

pub All-insert {ℓ κ} :
    {V : Type ℓ} (P : ℕ × V → Type κ) (k : ℕ) (v : V) (m : List (ℕ × V))
    → ((j : ℕ) → P (j, v))
    → All P m
    → All P (insert k v m)
unfolding insert
All-insert P k v [] pv h = (pv k, tt)
All-insert P k v ((j, w) ∷ m) pv (hw, hs) = elim (Bool-cases (j == k)) [
  | inl e ↦ rw e (pv k, hs)
  | inr e ↦ rw e (hw, All-insert P k v m pv hs)
]

some_eq {ℓ} : {V : Type ℓ} (a b : V) → some a ≡ some b → a ≡ b
some_eq a b h = cc

pub All-lookup {ℓ κ} :
    {V : Type ℓ} (P : V → Type κ) (k : ℕ) (m : List (ℕ × V)) {v : V}
    → All (λ e. P e.1) m
    → lookup k m ≡ some v
    → P v
unfolding lookup
All-lookup P k [] h e = cc
All-lookup P k ((j, w) ∷ m) {v} (hw, hs) e = elim (Bool-cases (j == k)) [
  | inl hit ↦ subst P (some_eq w v (rw hit at e)) hw
  | inr miss ↦ All-lookup P k m hs (rw miss at e)
]
