-- ===== src/Hub/Sizes.antt =====
-- `effective_size` of src/state.rs and the negotiation of a terminal's size among its viewers.
pub mod Smallest
pub mod Suits
use sessionhub.Base.{
  ℕ, ◌+◌, min, max, Bool, true, false, not, ◌||◌, ◌&&◌, List, [], ◌∷◌, ◌++◌, Option, none, some,
  ltb, ◌==◌, lookup, if◌then◌else◌,
}
use sessionhub.Hub.Types.{Client, Clients, Terminal, Pty, Out, size}
use sessionhub.Hub.Queue.{send_to}

abbrev pub Viewers : Type 0
Viewers = List (ℕ × (ℕ × ℕ))

-- A viewer that is no client, or whose page never said otherwise, is on screen.
unfoldable pub is_hidden : Clients → ℕ → Bool
is_hidden clients id = elim (lookup id clients) [ none ↦ false | some c ↦ c.hidden ]

-- The sizes of the viewers that are on screen.
unfoldable pub shown : Clients → Viewers → List (ℕ × ℕ)
unfolding is_hidden
shown clients [] = []
shown clients ((id, s) ∷ vs) =
    let rest = shown clients vs in if is_hidden clients id then rest else s ∷ rest

unfoldable pub fold_min : ℕ × ℕ → List (ℕ × ℕ) → ℕ × ℕ
fold_min (c, r) [] = (c, r)
fold_min (c, r) ((c2, r2) ∷ ss) = fold_min (min c c2, min r r2) ss

unfoldable pub smallest : List (ℕ × ℕ) → Option (ℕ × ℕ)
unfolding fold_min
smallest [] = none
smallest (first ∷ rest) = some (fold_min first rest)

abbrev pub effective_size : Viewers → Clients → Option (ℕ × ℕ)
effective_size viewers clients = smallest (shown clients viewers)

-- Milliseconds; `GROW_GRACE`.
abbrev pub grow_grace : ℕ
grow_grace = 30000

abbrev pub Resizes : Type 0
Resizes = ℕ → ℕ → ℕ → Bool

-- `pty.resize` of the child, if there is one; `resizes id cols rows` is what the backend answers.
unfoldable pub apply_size : Resizes → Terminal → ℕ → ℕ → Option Pty → Terminal × Bool
apply_size resizes t cols rows none = (t, false)
apply_size resizes t cols rows (some p) =
    if resizes t.id cols rows
    then (
      record t { cols = cols; rows = rows; pty = some (record p { size = (cols, rows) }) },
      true,
    )
    else (t, false)

unfoldable pub renegotiate_to : Resizes → Terminal → ℕ × ℕ → Terminal × Bool
unfolding apply_size
renegotiate_to resizes t (cols, rows) =
    if cols == t.cols && rows == t.rows then (t, false) else apply_size resizes t cols rows t.pty

-- With nobody on screen the size stays.
unfoldable pub renegotiate_by : Resizes → Terminal → Option (ℕ × ℕ) → Terminal × Bool
unfolding renegotiate_to
renegotiate_by resizes t none = (t, false)
renegotiate_by resizes t (some wanted) = renegotiate_to resizes t wanted

unfoldable pub renegotiate : Resizes → Terminal → Clients → Terminal × Bool
unfolding renegotiate_by
renegotiate resizes t clients =
    renegotiate_by resizes (record t { grow_at = none }) (effective_size t.viewers clients)

-- `grow_at.get_or_insert(at)`.
abbrev get_or_insert : Option ℕ → ℕ → Option ℕ
get_or_insert none at = some at
get_or_insert (some t) at = some t

unfoldable pub renegotiate_after_leave : Resizes → Terminal → ℕ → Clients → Terminal × Bool
unfolding renegotiate
renegotiate_after_leave resizes t now clients = elim (effective_size t.viewers clients) [
  | none ↦ (t, false)
  | some (cols, rows) ↦
      if ltb t.cols cols || ltb t.rows rows
      then (record t { grow_at = get_or_insert t.grow_at (now + grow_grace) }, false)
      else renegotiate resizes t clients
]

unfoldable pub sane_size : ℕ → ℕ → ℕ × ℕ
sane_size cols rows = (max cols 1, max rows 1)

-- One message to each of a list of viewers.
unfoldable pub send_all : Clients → Viewers → Out → Clients
send_all clients [] out = clients
send_all clients ((cid, s) ∷ vs) out = send_all (send_to clients cid out) vs out

unfoldable pub broadcast_size : Clients → Terminal → Clients
unfolding send_all
broadcast_size clients t = send_all clients t.viewers (size t.id t.cols t.rows)
