-- ===== src/Hub/Step.antt =====
-- The loop of the actor over the commands that are modelled.
pub mod Starts
pub mod Changes
pub mod Fits
pub mod Gates
pub mod Owed
pub mod Opens
pub mod Told
use sessionhub.Base.{
  ℕ, Bool, true, false, ◌||◌, List, [], ◌∷◌, ◌++◌, Option, none, some, lookup, ◌==◌, if◌then◌else◌,
}
use sessionhub.Typed
use sessionhub.Hub.Types.{Text, Clients, Terminals, BgJob, LoadMsg, Out, pong, last_command}
use sessionhub.Hub.Queue.{send_to}
use sessionhub.Hub.State.{World, Hub, send_state_to, broadcast_state, send_due}
use sessionhub.Hub.Viewers.{client_up, client_down, visibility, attach, detach, resize}
use sessionhub.Hub.Spawn.{spawn, fork, relaunch}
use sessionhub.Hub.Opened.{open_saved}
use sessionhub.Hub.Process.{client_input, pty_output, pty_eof, background, machine_load, kill}
use sessionhub.Hub.Script.{Target, term_spawn, term_send, show_to_all}

-- `Cmd`, with the `ClientMsg` of a `Cmd::ClientMsg` beside it. Commands that only answer and change
-- nothing (`TermList`, `TermCapture`, `Stats`, `Remote`) are functions of their own; `UpdateAgentCli`,
-- `Registry` and those that edit the configuration are not among these.
pub data Cmd : Type 0 where
  up : ℕ → Option Text → Cmd
  down : ℕ → Cmd
  list : ℕ → Cmd
  visible : ℕ → Bool → Cmd
  spawns : ℕ → Text → Text → Option Text → Bool → ℕ → ℕ → Cmd
  forks : ℕ → Text → Text → Text → Text → ℕ → ℕ → Cmd
  attaches : ℕ → ℕ → ℕ → ℕ → Option ℕ → Option ℕ → Cmd
  detaches : ℕ → ℕ → Cmd
  resizes : ℕ → ℕ → ℕ → ℕ → Cmd
  relaunches : ℕ → ℕ → ℕ → ℕ → Cmd
  opens_saved : ℕ → Text → Text → ℕ → ℕ → Cmd
  kills : ℕ → Cmd
  ping : ℕ → Cmd
  asks_last : ℕ → ℕ → Cmd
  dismisses : ℕ → Bool → Cmd
  input : ℕ → List ℕ → Cmd
  output : ℕ → ℕ → List ℕ → Cmd
  eof : ℕ → ℕ → ℕ → Cmd
  samples : List (ℕ × ℕ × List BgJob) → Cmd
  loads : LoadMsg → Cmd
  script_spawn : Text → Text → Option Text → Option Text → List (Text × Text) → Cmd
  script_send : Target → List ℕ → Cmd
  script_show : Text → Bool → Option ℕ → Cmd

-- `terminals.get(&tid).map(|t| t.typed.last()).unwrap_or_default()`.
abbrev last_of : Terminals → ℕ → Text
last_of ts tid = elim (lookup tid ts) [ none ↦ [] | some t ↦ t.typed.last ]

abbrev pub holds : ℕ → List ℕ → Bool
holds k [] = false
holds k (d ∷ ds) = d == k || holds k ds

abbrev pub without : ℕ → List ℕ → List ℕ
without k [] = []
without k (d ∷ ds) = if d == k then without k ds else d ∷ without k ds

-- `ClientMsg::SetDismissed`.
unfoldable pub dismiss : World → ℕ → Bool → Hub → Hub
unfolding broadcast_state
dismiss w tid true h =
    if holds tid h.dismissed
    then h
    else broadcast_state w (record h { dismissed = tid ∷ h.dismissed })
dismiss w tid false h =
    if holds tid h.dismissed
    then broadcast_state w (record h { dismissed = without tid h.dismissed })
    else h

-- One command. `none` where the actor's thread panics.
unfoldable pub handle : World → Cmd → Hub → Option Hub
handle w (up id page) h = some (client_up w id page h)
handle w (down id) h = some (client_down w id h)
handle w (list id) h = some (send_state_to w h id)
handle w (visible id on) h = some (visibility w id on h)
handle w (spawns id project agent resume pick cols rows) h =
    some (spawn w id project agent resume pick cols rows h)
handle w (forks id project agent session name cols rows) h =
    fork w id project agent session name cols rows h
handle w (attaches id tid cols rows since tail) h = some (attach w id tid cols rows since tail h)
handle w (detaches id tid) h = some (detach w id tid h)
handle w (resizes id tid cols rows) h = some (resize w id tid cols rows h)
handle w (relaunches id tid cols rows) h = some (relaunch w id tid cols rows h)
handle w (opens_saved id project name cols rows) h = some (open_saved w id project name cols rows h)
handle w (kills tid) h = some (kill tid h)
handle w (ping id) h = some (record h { clients = send_to h.clients id pong })
handle w (asks_last id tid) h =
    some (record h { clients = send_to h.clients id (last_command tid (last_of h.terminals tid)) })
handle w (dismisses tid on) h = some (dismiss w tid on h)
handle w (input term bytes) h = some (client_input term bytes h)
handle w (output term run bytes) h = some (pty_output term run bytes h)
handle w (eof term run code) h = some (pty_eof w term run code h)
handle w (samples rows) h = some (background w rows h)
handle w (loads l) h = some (machine_load w l h)
handle w (script_spawn project agent resume nm env) h =
    some (term_spawn w project agent resume nm env h).0
handle w (script_send target bytes) h = some (term_send target bytes h).0
handle w (script_show path dir terminal) h = some (show_to_all path dir terminal h).0

-- One turn of the loop: what is due goes first.
unfoldable pub turn : World → Cmd → Hub → Option Hub
unfolding handle send_due
turn w cmd h = handle w cmd (send_due w h)
