-- ===== src/Hub/Process.antt =====
-- The commands that come from the processes under the terminals and from the samplers, and input.
pub mod Background
use sessionhub.Base.{
  ℕ, ◌+◌, Bool, true, false, not, ◌||◌, ◌&&◌, List, [], ◌∷◌, ◌++◌, Option, none, some, ltb, leb,
  ◌==◌, same, lookup, insert, codes, any, if◌then◌else◌,
}
use sessionhub.Utf8.{as_bytes}
use sessionhub.Frames.{encode_frame}
use sessionhub.Ring
use sessionhub.Typed
use sessionhub.Hub.Types.{
  Text, Pty, Terminal, Terminals, BgJob, Client, Clients, LoadMsg, Out, binary, exit, load,
}
use sessionhub.Hub.Queue.{send_to}
use sessionhub.Hub.Sizes.{renegotiate, broadcast_size, send_all}
use sessionhub.Hub.State.{
  World, Hub, Handed, type_later, release_changes, save_changes, working, same_path,
  broadcast_state,
}
use sessionhub.Hub.Viewers.{announce, each_terminal, with_terminals}

-- `Pty::write_input` on the child that a terminal has.
abbrev pub written : Option Pty → List ℕ → Option Pty
written none bytes = none
written (some p) bytes = some (record p { input = p.input ++ bytes })

-- `config::TERMINAL_AGENT`.
abbrev pub terminal_agent : Text
terminal_agent = codes "terminal"

unfoldable pub deliver_input : Terminal → List ℕ → Terminal
unfolding Typed.feed
deliver_input t bytes =
    let t' = record t { pty = written t.pty bytes } in
    if same t.agent terminal_agent then record t' { typed = Typed.feed t.typed bytes } else t'

-- `Cmd::ClientInput`.
unfoldable pub client_input : ℕ → List ℕ → Hub → Hub
unfolding deliver_input
client_input term bytes h = elim (lookup term h.terminals) [
  | none ↦ h
  | some t ↦ record h { terminals = insert term (deliver_input t bytes) h.terminals }
]

-- The command held until the shell first speaks, typed by another thread a moment later.
abbrev type_pending : ℕ → Option Text → List Handed
type_pending term none = []
type_pending term (some cmd) = type_later term (as_bytes cmd ++ b'\r' ∷ []) ∷ []

unfoldable pub output_to : ℕ → List ℕ → Terminal → Hub → Hub
unfolding Ring.push send_all
output_to term bytes t h = record h {
  terminals =
      insert term (record t { ring = Ring.push t.ring bytes; pending_run = none }) h.terminals;
  clients = send_all h.clients t.viewers (binary (encode_frame term bytes));
  handed = h.handed ++ type_pending term t.pending_run;
}

-- `PtyEvent::Output` of the process `run`.
unfoldable pub pty_output : ℕ → ℕ → List ℕ → Hub → Hub
unfolding output_to
pty_output term run bytes h = elim (lookup term h.terminals) [
  | none ↦ h
  | some t ↦ if t.run == run then output_to term bytes t h else h
]

-- `terminals.values().any(|o| o.alive && same_path(&o.project, project))`.
unfoldable pub project_alive : World → Terminals → Text → Bool
project_alive w [] project = false
project_alive w ((k, t) ∷ ts) project =
    (t.alive && same_path w t.project project) || project_alive w ts project

abbrev release_of : World → Terminals → Text → List Handed
release_of w ts project = if project_alive w ts project then [] else release_changes project ∷ []

-- The terminal is marked ended, its viewers are told, and the project is released with its last one.
unfoldable pub ended : World → ℕ → ℕ → Terminal → Hub → Hub
unfolding send_all project_alive
ended w term code t h =
    let ts = insert term (record t { alive = false; pty = none }) h.terminals in
    record h {
      terminals = ts;
      clients = send_all h.clients t.viewers (exit term code);
      handed = h.handed ++ release_of w ts t.project;
    }

unfoldable pub terminal_ends : World → ℕ → ℕ → Terminal → Hub → Hub
unfolding ended broadcast_state
terminal_ends w term code t h = broadcast_state w (ended w term code t h)

-- `PtyEvent::Eof` of the process `run`.
unfoldable pub pty_eof : World → ℕ → ℕ → ℕ → Hub → Hub
unfolding terminal_ends broadcast_state
pty_eof w term run code h = elim (lookup term h.terminals) [
  | none ↦ broadcast_state w h
  | some t ↦ if t.run == run then terminal_ends w term code t h else h
]

-- Equality of what a terminal's jobs are called.
abbrev same_jobs : List BgJob → List BgJob → Bool
same_jobs [] [] = true
same_jobs [] (k ∷ ks) = false
same_jobs (j ∷ js) [] = false
same_jobs (j ∷ js) (k ∷ ks) =
    (same j.label k.label && (same j.kind k.kind && j.since_ms == k.since_ms)) && same_jobs js ks

-- The fewest processes ever counted, a count of zero left aside.
unfoldable pub resting_of : ℕ → ℕ → ℕ
resting_of resting procs =
    if leb 1 procs && (resting == 0 || ltb procs resting) then procs else resting

abbrev same_bool : Bool → Bool → Bool
same_bool true b = b
same_bool false b = not b

-- One row of `Cmd::Background`: the terminal after it, and whether what pages show of it changed.
unfoldable pub background_row : ℕ → List BgJob → Terminal → Terminal × Bool
unfolding working resting_of
background_row procs jobs t =
    let rested = record t { resting = resting_of t.resting procs } in
    let counted = record rested { procs = procs } in
    let fresh : List BgJob = (if working counted then jobs else []) in
    if same_bool (working counted) (working rested) && same_jobs t.jobs fresh
    then (counted, false)
    else (record counted { jobs = fresh }, true)

unfoldable pub background_rows : List (ℕ × ℕ × List BgJob) → Terminals → Bool → Terminals × Bool
unfolding background_row
background_rows [] ts changed = (ts, changed)
background_rows ((id, procs, jobs) ∷ rows) ts changed = elim (lookup id ts) [
  | none ↦ background_rows rows ts changed
  | some t ↦
      let (t', c) = background_row procs jobs t in
      background_rows rows (insert id t' ts) (changed || c)
]

-- `Cmd::Background`.
unfoldable pub background : World → List (ℕ × ℕ × List BgJob) → Hub → Hub
unfolding background_rows broadcast_state
background w rows h =
    let (ts, changed) = background_rows rows h.terminals false in
    let h' = record h { terminals = ts } in if changed then broadcast_state w h' else h'

-- The turn of `Cmd::Load` for one terminal: it may grow back once its wait is over.
unfoldable pub grows_back : World → Clients → Terminal → Terminal × Clients
unfolding broadcast_size
grows_back w clients t = elim t.grow_at [
  | none ↦ (t, clients)
  | some at ↦
      if leb at w.now then announce clients (renegotiate w.resizes t clients) else (t, clients)
]

-- A message to each client that is on screen.
unfoldable pub send_shown : Clients → Clients → Out → Clients
send_shown clients [] out = clients
send_shown clients ((id, c) ∷ cs) out =
    send_shown (if c.hidden then clients else send_to clients id out) cs out

-- `Cmd::Load`, but for the sampling thread that it starts.
unfoldable pub machine_load : World → LoadMsg → Hub → Hub
unfolding each_terminal grows_back send_shown
machine_load w l h =
    let h' = with_terminals h (each_terminal (grows_back w) h.terminals h.clients) in
    record h' { last_load = some l; clients = send_shown h'.clients h'.clients (load l) }

-- `p.kill()`.
abbrev pub killed : Option Pty → Option Pty
killed none = none
killed (some p) = some (record p { killed = true })

-- `ClientMsg::Kill`.
unfoldable pub kill : ℕ → Hub → Hub
kill tid h = elim (lookup tid h.terminals) [
  | none ↦ h
  | some t ↦ record h { terminals = insert tid (record t { pty = killed t.pty }) h.terminals }
]

-- `Cmd::Shutdown`, before the loop ends.
unfoldable pub kill_all : Terminals → Terminals
kill_all [] = []
kill_all ((k, t) ∷ ts) = (k, record t { pty = killed t.pty }) ∷ kill_all ts

unfoldable pub shutdown : Hub → Hub
unfolding kill_all
shutdown h = record h { terminals = kill_all h.terminals; handed = h.handed ++ save_changes ∷ [] }
