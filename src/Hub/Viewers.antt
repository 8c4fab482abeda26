-- ===== src/Hub/Viewers.antt =====
-- The commands by which clients come and go, look at terminals and size them.
pub mod Views
pub mod Keeps
pub mod Fits
pub mod Commands
pub mod Gone
pub mod Replay
pub mod Ghost
use sessionhub.Base.{
  ℕ, ◌+◌, ◌-◌, Bool, true, false, not, ◌||◌, ◌&&◌, List, [], ◌∷◌, ◌++◌, Option, none, some, length,
  ltb, leb, ◌==◌, same, lookup, insert, remove, has_key, if◌then◌else◌,
}
use sessionhub.Frames.{encode_frame}
use sessionhub.Ring
use sessionhub.Ring.{Ring, sub64}
use sessionhub.Hub.Types.{
  Text, Terminal, Terminals, Client, Clients, Out, load, replay, attached, error, binary,
  no_such_terminal, pong, last_command,
}
use sessionhub.Hub.Queue.{send_to}
use sessionhub.Hub.Sizes.{
  Resizes, renegotiate, renegotiate_after_leave, sane_size, broadcast_size, send_all,
}
use sessionhub.Hub.State.{World, Hub, is_some_text, send_state_to, broadcast_state}

-- A terminal after a negotiation, and the clients after the news of it if the size changed.
abbrev pub announce : Clients → Terminal × Bool → Terminal × Clients
announce clients (t, resized) = (t, if resized then broadcast_size clients t else clients)

-- `t.viewers.remove(&id).is_some() && renegotiate_after_leave(…)`, and the broadcast.
unfoldable pub viewer_leaves : World → ℕ → Clients → Terminal → Terminal × Clients
unfolding broadcast_size
viewer_leaves w id clients t =
    if has_key id t.viewers
    then announce clients (
        renegotiate_after_leave w.resizes (record t { viewers = remove id t.viewers }) w.now
          clients)
    else (t, clients)

-- A loop over `terminals.values_mut()` in which each turn may send.
unfoldable pub each_terminal :
    (Clients → Terminal → Terminal × Clients) → Terminals → Clients → Terminals × Clients
each_terminal f [] clients = ([], clients)
each_terminal f ((k, t) ∷ ts) clients =
    let (t', clients') = f clients t in
    let (ts', clients'') = each_terminal f ts clients' in ((k, t') ∷ ts', clients'')

abbrev pub with_terminals : Hub → Terminals × Clients → Hub
with_terminals h (ts, cs) = record h { terminals = ts; clients = cs }

unfoldable pub drop_client : World → ℕ → Hub → Hub
unfolding each_terminal viewer_leaves
drop_client w id h =
    with_terminals h (each_terminal (viewer_leaves w id) h.terminals (remove id h.clients))

-- The clients of a page.
unfoldable pub of_page : Text → Clients → List ℕ
of_page p [] = []
of_page p ((k, c) ∷ cs) = if is_some_text c.page p then k ∷ of_page p cs else of_page p cs

unfoldable pub drop_clients : World → List ℕ → Hub → Hub
unfolding drop_client
drop_clients w [] h = h
drop_clients w (k ∷ ks) h = drop_clients w ks (drop_client w k h)

-- `Client::new`.
abbrev pub new_client : Option Text → Client
new_client page = record { queue = []; lost = false; hidden = false; page = page }

-- `if let Some(load) = &last_load { send_to(…) }`.
unfoldable pub send_last_load : ℕ → Hub → Hub
send_last_load id h = elim h.last_load [
  | none ↦ h
  | some l ↦ record h { clients = send_to h.clients id (load l) }
]

unfoldable pub without_page : World → Option Text → Hub → Hub
unfolding of_page drop_clients
without_page w none h = h
without_page w (some p) h = drop_clients w (of_page p h.clients) h

-- `Cmd::ClientUp`.
unfoldable pub client_up : World → ℕ → Option Text → Hub → Hub
unfolding without_page send_last_load send_state_to
client_up w id page h =
    let h' = without_page w page h in
    let h'' = record h' { clients = insert id (new_client page) h'.clients } in
    send_last_load id (send_state_to w h'' id)

-- `Cmd::ClientDown`.
unfoldable pub client_down : World → ℕ → Hub → Hub
unfolding drop_client
client_down w id h = if has_key id h.clients then drop_client w id h else h

-- The turn of `ClientMsg::Visibility` for one terminal.
unfoldable pub view_changed : World → ℕ → Bool → Clients → Terminal → Terminal × Clients
unfolding broadcast_size
view_changed w id visible clients t =
    if has_key id t.viewers
    then announce clients (
        if visible
        then renegotiate w.resizes t clients
        else renegotiate_after_leave w.resizes t w.now clients)
    else (t, clients)

-- The message that goes back to a page that came back on screen.
unfoldable pub welcome_back : World → ℕ → Hub → Hub
unfolding send_last_load send_state_to
welcome_back w id h = send_last_load id (send_state_to w h id)

-- `c.hidden.replace(!visible)`.
unfoldable pub mark : ℕ → Bool → Client → Hub → Hub
mark id visible c h = record h { clients = insert id (record c { hidden = not visible }) h.clients }

unfoldable pub look_again : World → ℕ → Bool → Hub → Hub
unfolding each_terminal view_changed
look_again w id visible h =
    with_terminals h (each_terminal (view_changed w id visible) h.terminals h.clients)

-- The third argument is whether the page is on screen now, the fourth whether it was hidden.
unfoldable pub set_visible : World → ℕ → Bool → Bool → Client → Hub → Hub
unfolding mark welcome_back look_again
set_visible w id true true c h = look_again w id true (welcome_back w id (mark id true c h))
set_visible w id true false c h = mark id true c h
set_visible w id false true c h = mark id false c h
set_visible w id false false c h = look_again w id false (mark id false c h)

-- `ClientMsg::Visibility`.
unfoldable pub visibility : World → ℕ → Bool → Hub → Hub
unfolding set_visible
visibility w id visible h = elim (lookup id h.clients) [
  | none ↦ h
  | some c ↦ set_visible w id visible c.hidden c h
]

-- What a client that attaches is sent: the bytes, and the position of the first.
unfoldable pub replay_of : Ring → Option ℕ → Option ℕ → List ℕ × ℕ
replay_of r (some s) (some hash) = elim (Ring.resume r s hash) [
  | some rest ↦ (rest, s)
  | none ↦ (Ring.snapshot r, sub64 (Ring.end r) (length r.buf))
]
replay_of r (some s) none = (Ring.snapshot r, sub64 (Ring.end r) (length r.buf))
replay_of r none tail = (Ring.snapshot r, sub64 (Ring.end r) (length r.buf))

-- The messages of an attach, in their order: where the bytes start, the bytes if there are any, and
-- `attached`.
unfoldable pub send_replay : Clients → ℕ → ℕ → Terminal → List ℕ × ℕ → Clients
send_replay clients id tid t (bytes, from) =
    let first = send_to clients id (replay tid from) in
    let second : Clients = elim bytes [
      | [] ↦ first
      | b ∷ bs ↦ send_to first id (binary (encode_frame tid (b ∷ bs)))
    ] in
    send_to second id (attached tid t.cols t.rows (Ring.end t.ring))

-- A viewer is there, at the size it asks for.
unfoldable pub join : World → ℕ → ℕ → ℕ → Clients → Terminal → Terminal × Bool
join w id cols rows clients t =
    renegotiate w.resizes (record t { viewers = insert id (cols, rows) t.viewers }) clients

-- `ClientMsg::Attach` to a terminal that is there. `since` and `tail` are the position and the hash
-- of a client that resumes.
unfoldable pub attach_to : World → ℕ → ℕ → ℕ × ℕ → Option ℕ → Option ℕ → Terminal → Hub → Hub
unfolding join replay_of send_replay broadcast_size
attach_to w id tid (cols, rows) since tail t h =
    let (t', resized) = join w id cols rows h.clients t in
    let told = send_replay h.clients id tid t' (replay_of t'.ring since tail) in
    record h {
      terminals = insert tid t' h.terminals;
      clients = if resized then broadcast_size told t' else told;
    }

-- `ClientMsg::Attach`.
unfoldable pub attach : World → ℕ → ℕ → ℕ → ℕ → Option ℕ → Option ℕ → Hub → Hub
unfolding attach_to sane_size
attach w id tid cols rows since tail h = elim (lookup tid h.terminals) [
  | some t ↦ attach_to w id tid (sane_size cols rows) since tail t h
  | none ↦ record h { clients = send_to h.clients id (error no_such_terminal) }
]

-- One terminal of the map handled by a turn of a loop body, if it is there.
unfoldable pub at_terminal : ℕ → (Clients → Terminal → Terminal × Clients) → Hub → Hub
at_terminal tid f h = elim (lookup tid h.terminals) [
  | none ↦ h
  | some t ↦
      let (t', clients') = f h.clients t in
      record h { terminals = insert tid t' h.terminals; clients = clients' }
]

-- `ClientMsg::Detach`.
unfoldable pub detach : World → ℕ → ℕ → Hub → Hub
unfolding at_terminal viewer_leaves
detach w id tid h = at_terminal tid (viewer_leaves w id) h

-- The body of `ClientMsg::Resize`.
unfoldable pub viewer_resizes : World → ℕ → ℕ × ℕ → Clients → Terminal → Terminal × Clients
unfolding join broadcast_size
viewer_resizes w id (cols, rows) clients t =
    if has_key id t.viewers then announce clients (join w id cols rows clients t) else (t, clients)

-- `ClientMsg::Resize`.
unfoldable pub resize : World → ℕ → ℕ → ℕ → ℕ → Hub → Hub
unfolding at_terminal viewer_resizes sane_size
resize w id tid cols rows h = at_terminal tid (viewer_resizes w id (sane_size cols rows)) h
