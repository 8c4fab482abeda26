-- ===== src/Hub/Queue.antt =====
-- The queue of one client, and `send_to`. A bounded channel is what waits in it, oldest first: a send
-- fails where it is full, and a receive takes the oldest. The actor keeps the receiving end too, so
-- that the channel never disconnects.
pub mod Laws
use sessionhub.Base.{
  ℕ, ◌+◌, Bool, true, false, List, [], ◌∷◌, ◌++◌, Option, none, some, length, ltb, lookup, insert,
  if◌then◌else◌,
}
use sessionhub.Hub.Types.{Client, Clients, Out, resync}

abbrev pub client_queue : ℕ
client_queue = 256

-- `tx.try_send`.
unfoldable pub try_send : List Out → Out → Option (List Out)
try_send q out = if ltb (length q) client_queue then some (q ++ out ∷ []) else none

-- `rx.try_recv`, its effect on the queue.
abbrev pub try_recv : List Out → List Out
try_recv [] = []
try_recv (m ∷ q) = q

-- The branch `Ok(())`.
unfoldable pub sent : Client → List Out → Client
unfolding try_send
sent c q =
    if c.lost
    then elim (try_send q resync) [
      | some q' ↦ record c { queue = q'; lost = false }
      | none ↦ record c { queue = q }
    ]
    else record c { queue = q }

-- The branch `Err(TrySendError::Full(out))`.
unfoldable pub pushed_out : Client → Out → Client
unfolding try_send
pushed_out c out =
    let q = try_recv c.queue in
    elim (try_send q out) [
      | some q' ↦ record c { queue = q'; lost = true }
      | none ↦ record c { queue = q; lost = true }
    ]

unfoldable pub send : Client → Out → Client
unfolding sent pushed_out
send c out = elim (try_send c.queue out) [ some q ↦ sent c q | none ↦ pushed_out c out ]

unfoldable pub send_to : Clients → ℕ → Out → Clients
send_to clients id out = elim (lookup id clients) [
  | none ↦ clients
  | some c ↦ insert id (send c out) clients
]
