-- ===== src/Hub/State.antt =====
-- The state of the actor as one record, and `send_state`: what every page is told of it, and when.
pub mod Gate
pub mod Content
pub mod Order
use sessionhub.Base.{
  ℕ, zero, suc, ◌+◌, ◌-◌, Bool, true, false, not, ◌||◌, ◌&&◌, List, [], ◌∷◌, ◌++◌, map, Option,
  none, some, length, ltb, leb, ◌==◌, same, any, if◌then◌else◌, Option-cases,
}
use sessionhub.Utf8.{as_bytes}
use sessionhub.Hub.Types.{
  Text, Pty, Terminal, Terminals, TerminalInfo, SessionInfo, ProjectInfo, AgentBrief, SavedInfo,
  StateMsg, SavedTerminal, Config, Client, Clients, LoadMsg, Out, state, terminals,
}
use sessionhub.Hub.Queue.{send_to}
use sessionhub.Hub.Sizes.{Resizes}

-- What `Pty::spawn` is asked to start.
pub record Launch : Type 0 where
  pub command : Text
  pub args : List Text
  pub cwd : Text
  pub cols : ℕ
  pub rows : ℕ
  pub env : List (Text × Text)

-- `Pty::spawn`: the child, or the code of the error.
pub data Launched : Type 0 where
  started : Pty → Launched
  failed : Text → Launched

-- What the actor reads of the world outside while it handles one command: the two clocks in
-- milliseconds, the answers of the terminal backend, the system it was built for, Unicode's lower
-- case, which files a folder holds, and which bytes a text takes.
pub record World : Type 0 where
  pub now : ℕ
  pub clock_ms : ℕ
  pub resizes : Resizes
  pub launch : Launch → Launched
  pub windows : Bool
  pub macos : Bool
  pub lowercase : Text → Text
  pub is_file : Text → Text → Bool

-- Work handed to other threads.
pub data Handed : Type 0 where
  type_later : (term : ℕ) (bytes : List ℕ) → Handed
  track_changes : Text → Handed
  release_changes : Text → Handed
  save_changes : Handed

pub record Hub : Type 0 where
  pub cfg : Config
  pub clients : Clients
  pub terminals : Terminals
  pub dismissed : List ℕ
  pub next_term : ℕ
  pub next_run : ℕ
  pub projects : List ProjectInfo
  pub agent_names : List AgentBrief
  pub scanned : Bool
  pub last_load : Option LoadMsg
  pub gate : Option ℕ × Bool
  pub handed : List Handed

-- `STATE_EVERY`, in milliseconds.
abbrev pub state_every : ℕ
state_every = 1000

-- `state_gate_open`: the answer, and the gate after it.
unfoldable pub gate_open : Option ℕ × Bool → ℕ → Bool × (Option ℕ × Bool)
gate_open (none, owed) now = (true, (some now, false))
gate_open (some t, owed) now =
    if ltb (now - t) state_every then (false, (some t, true)) else (true, (some now, false))

-- `state_due`.
unfoldable pub state_due : Option ℕ × Bool → Option ℕ
state_due (some last, true) = some (last + state_every)
state_due (some last, false) = none
state_due (none, owed) = none

-- `Terminal::working`.
unfoldable pub working : Terminal → Bool
working t = ltb 0 t.resting && ltb t.resting t.procs

unfoldable pub terminal_info : Terminal → TerminalInfo
unfolding working
terminal_info t = record {
  id = t.id;
  project = t.project;
  agent = t.agent;
  alive = t.alive;
  cols = t.cols;
  rows = t.rows;
  session_id = t.session_id;
  name = t.name;
  color = t.color;
  working = working t;
  jobs = t.jobs;
}

-- `registry::path_key`.
abbrev replace_char : ℕ → ℕ → Text → Text
replace_char a b [] = []
replace_char a b (c ∷ cs) = (if c == a then b else c) ∷ replace_char a b cs

abbrev ends_with : ℕ → Text → Bool
ends_with sep [] = false
ends_with sep (c ∷ []) = c == sep
ends_with sep (c ∷ d ∷ cs) = ends_with sep (d ∷ cs)

abbrev pop : Text → Text
pop [] = []
pop (c ∷ []) = []
pop (c ∷ d ∷ cs) = c ∷ pop (d ∷ cs)

-- One turn for each character at most.
unfoldable pub trim_seps : ℕ → ℕ → ℕ → Text → Text
trim_seps zero root sep s = s
trim_seps (suc f) root sep s =
    let rest = trim_seps f root sep (pop s) in
    if ltb root (length (as_bytes s)) && ends_with sep s then rest else s

unfoldable pub path_key : World → Text → Text
unfolding trim_seps
path_key w p =
    let sep : ℕ = (if w.windows then b'\\' else b'/') in
    let s = (if w.windows then replace_char b'/' b'\\' p else p) in
    let root : ℕ = (if w.windows then 3 else 1) in
    let cut = trim_seps (length s) root sep s in
    if w.windows || w.macos then w.lowercase cut else cut

abbrev pub same_path : World → Text → Text → Bool
same_path w a b = same (path_key w a) (path_key w b)

-- `a.as_deref() == Some(b)`.
abbrev pub is_some_text : Option Text → Text → Bool
is_some_text none b = false
is_some_text (some a) b = same a b

unfoldable pub project_rank : World → Text → List Text → List Text → ℕ
project_rank w path running named =
    if any (λ p. same_path w p path) running
    then 0
    else if any (λ p. same_path w p path) named
    then 1
    else 2

-- A stable sort by a key.
module _ {ℓ} {A : Type ℓ} (key : A → ℕ) where
  unfoldable pub insert_sorted : A → List A → List A
  insert_sorted x [] = x ∷ []
  insert_sorted x (y ∷ ys) = if leb (key x) (key y) then x ∷ y ∷ ys else y ∷ insert_sorted x ys

  unfoldable pub sort_by_key : List A → List A
  unfolding insert_sorted
  sort_by_key [] = []
  sort_by_key (x ∷ xs) = insert_sorted x (sort_by_key xs)

-- The terminal that runs a session: of several the last one of the map.
unfoldable pub live_session : Terminals → Text → Option ℕ
live_session [] sid = none
live_session ((k, t) ∷ ts) sid = elim (live_session ts sid) [
  | some id ↦ some id
  | none ↦ if t.alive && is_some_text t.session_id sid then some t.id else none
]

abbrev pub running_projects : Terminals → List Text
running_projects [] = []
running_projects ((k, t) ∷ ts) =
    if t.alive then t.project ∷ running_projects ts else running_projects ts

unfoldable pub live_saved : World → Terminals → SavedTerminal → Option ℕ
live_saved w [] s = none
live_saved w ((k, t) ∷ ts) s =
    if t.alive && (is_some_text t.name s.name && same_path w t.project s.project)
    then some t.id
    else live_saved w ts s

unfoldable pub terminal_list : Terminals → List TerminalInfo
unfolding terminal_info sort_by_key
terminal_list ts = sort_by_key (λ t. t.id) (map (λ e. terminal_info e.1) ts)

unfoldable pub with_live : Terminals → ProjectInfo → ProjectInfo
unfolding live_session
with_live ts p = record p { sessions = map mark p.sessions }
  where
    mark : SessionInfo → SessionInfo
    mark s = record s { live_terminal_id = live_session ts s.session_id }

unfoldable pub saved_info : World → Terminals → SavedTerminal → SavedInfo
unfolding live_saved
saved_info w ts s = record {
  name = s.name;
  project = s.project;
  agent = s.agent;
  command = s.command;
  color = s.color;
  live_terminal_id = live_saved w ts s;
  autostart = s.autostart;
}

abbrev pub saved_projects : List SavedTerminal → List Text
saved_projects [] = []
saved_projects (s ∷ ss) = s.project ∷ saved_projects ss

abbrev pub rank_of : World → Hub → ProjectInfo → ℕ
rank_of w h p = project_rank w p.path (running_projects h.terminals) (saved_projects h.cfg.saved)

unfoldable pub state_msg : World → Hub → StateMsg
unfolding with_live sort_by_key project_rank terminal_list saved_info
state_msg w h = record {
  projects = sort_by_key (rank_of w h) (map (with_live h.terminals) h.projects);
  terminals = terminal_list h.terminals;
  agents = h.agent_names;
  saved = map (saved_info w h.terminals) h.cfg.saved;
  scanning = not h.scanned;
  hidden_sessions = h.cfg.hidden_sessions;
  dismissed_terminals = sort_by_key (λ d. d) h.dismissed;
}

-- A page off screen is sent the terminals alone.
unfoldable pub send_views : Clients → List (ℕ × Client) → Out → Out → Clients
send_views clients [] full brief = clients
send_views clients ((id, c) ∷ cs) full brief =
    send_views (send_to clients id (if c.hidden then brief else full)) cs full brief

-- `send_state` to one client, which never waits.
unfoldable pub send_state_to : World → Hub → ℕ → Hub
unfolding state_msg
send_state_to w h id = record h { clients = send_to h.clients id (state (state_msg w h)) }

-- `send_state` to all, now or when it is due.
unfoldable pub broadcast_state : World → Hub → Hub
unfolding gate_open state_msg terminal_list send_views
broadcast_state w h =
    let (now, gate) = gate_open h.gate w.now in
    if now
    then record h {
      gate = gate;
      clients =
          send_views h.clients h.clients (state (state_msg w h))
            (terminals (terminal_list h.terminals));
    }
    else record h { gate = gate }

-- The top of the loop: a broadcast that is due goes.
unfoldable pub send_due : World → Hub → Hub
unfolding state_due broadcast_state
send_due w h = elim (state_due h.gate) [
  | none ↦ h
  | some d ↦ if leb d w.now then broadcast_state w h else h
]
