-- ===== src/Hub/Tests.antt =====
-- The theorems about the actor at a small hub: two pages that look at one shell.
use sessionhub.Base.{
  ℕ, ◌≡◌, ◌↔◌, refl, true, false, List, [], ◌∷◌, ◌++◌, none, some, codes, arith, take, map, lookup,
  has_key,
}
use mathlib.Core.List.{Perm}
use mathlib.Core.Option
use sessionhub.Ring
use sessionhub.Typed
use sessionhub.Ring.{Ring, fnv1a}
use sessionhub.Utf8.{is_whitespace, as_bytes, encode_char}
use sessionhub.Hub.Types.{
  Text, Clients, ProjectInfo, state, terminals, Pty, Terminal, Terminals, Client, Agent,
  SavedTerminal, pong, error, bad_color, config_write_failed,
}
use sessionhub.Hub.Saved.{set_color, forget_terminal, check_saved_name}
use sessionhub.Hub.Saved.Forgotten.{NotSaved, NotWorn, forget_terminal-NotSaved}
use sessionhub.Hub.Queue.{send_to}
use sessionhub.Hub.State.{path_key}
use sessionhub.Hub.Queue.{send}
use sessionhub.Hub.Queue.Laws.{Sent, send-Sent}
use sessionhub.Hub.Sizes.{Viewers, sane_size, effective_size, is_hidden, shown, fold_min, smallest}
use sessionhub.Hub.Opened.{open_saved}
use sessionhub.Hub.Opened.Once.{AtMostOne, open_saved-AtMostOne}
use sessionhub.Hub.Sizes.Suits.{Suits, effective_size-Suits}
use sessionhub.Hub.State.{
  World, Hub, started, send_due, broadcast_state, gate_open, send_state_to, send_views,
  terminal_list,
}
use sessionhub.Hub.State.Gate.{let_through, Apart, let_through-Apart}
use sessionhub.Hub.State.Content.{Sorted, with_key}
use sessionhub.Hub.State.Order.{InOrder, state_msg-InOrder}
use sessionhub.Hub.Viewers.{attach, client_down, resize, replay_of}
use sessionhub.Hub.Viewers.Keeps.{HubFits}
use sessionhub.Hub.Viewers.Gone.{NotViewed, client_down-NotViewed}
use sessionhub.Hub.Viewers.Ghost.{Ghost, attach-Ghost}
use sessionhub.Hub.Viewers.Replay.{replay_of-history}
use sessionhub.Hub.Spawn.{
  relaunch, fresh_terminal, spawn_terminal, check_spawn, find_agent, build_terminal, ok,
}
use sessionhub.Hub.Spawn.Runs.{Again, wanted_again, relaunch-Again, relaunch-old_process}
use sessionhub.Hub.Process.{pty_output, pty_eof}
use sessionhub.Hub.State.{state_msg, terminal_info, rank_of, with_live}
use sessionhub.Hub.Script.{resolve_target, name, yes_to}
use sessionhub.Hub.Script.Names.{OnlyNamed, resolve_target_iff}
use sessionhub.Hub.Step.Told.{run, broadcast_state-told}
use sessionhub.Hub.Step.{Cmd, eof, list, resizes, turn, handle}
use sessionhub.Hub.Step.Fits.{turn-HubFits}

abbrev child : Pty
child = record { pid = some 41; input = []; size = (80, 24); killed = false }

abbrev there : World
there = record {
  now = 5000;
  clock_ms = 100000;
  resizes = λ id cols rows. true;
  launch = λ l. started child;
  windows = false;
  macos = false;
  lowercase = λ s. s;
  is_file = λ dir file. false;
}

abbrev page : Client
page = record { queue = []; lost = false; hidden = false; page = none }

abbrev shell : Terminal
shell = record {
  id = 1;
  project = codes "/home/me";
  agent = codes "sh";
  cols = 80;
  rows = 24;
  alive = true;
  session_id = none;
  started_ms = 90000;
  viewers = (7, (80, 24)) ∷ (8, (120, 40)) ∷ [];
  grow_at = none;
  ring = Ring.new 8;
  pty = some child;
  run = 1;
  name = some (codes "build");
  color = none;
  procs = 0;
  resting = 0;
  jobs = [];
  typed = Typed.empty;
  pending_run = none;
}

abbrev sh : Agent
sh = record {
  command = codes "sh";
  args = [];
  resume_args = [];
  env = [];
  enabled = true;
  fork_args = none;
  picker_args = none;
}

abbrev hub : Hub
hub = record {
  cfg = record { agents = (codes "sh", sh) ∷ []; saved = []; hidden_sessions = [] };
  clients = (7, page) ∷ (8, page) ∷ [];
  terminals = (1, shell) ∷ [];
  dismissed = [];
  next_term = 2;
  next_run = 2;
  projects = [];
  agent_names = [];
  scanned = true;
  last_load = none;
  gate = (some 4500, false);
  handed = [];
}

abbrev resized : Hub
resized = resize there 7 1 100 50 (send_due there hub)

hub-HubFits : HubFits hub
unfolding shown is_hidden lookup
hub-HubFits = ground arith

turn-HubFits_example : HubFits resized
unfolding turn handle
turn-HubFits_example =
    turn-HubFits there (resizes 7 1 100 50) hub resized (λ id cols rows. refl) tt hub-HubFits refl

send-Sent_example : Sent page pong (send page pong)
send-Sent_example = send-Sent page pong (omega arith)

abbrev printed_on : Hub
printed_on = pty_output 1 1 (codes "hi") (send_due there hub)

-- Client 8 is off screen, and 9 is a viewer that the actor does not know.
abbrev looking : Clients
looking = (7, page) ∷ (8, record page { hidden = true }) ∷ []

abbrev all_viewers : Viewers
all_viewers = (7, (80, 24)) ∷ (8, (20, 10)) ∷ (9, (100, 20)) ∷ []

smallest_on_screen : effective_size all_viewers looking ≡ some (80, 20)
unfolding shown is_hidden lookup fold_min smallest
smallest_on_screen = refl

effective_size-Suits_example : Suits looking all_viewers (effective_size all_viewers looking)
effective_size-Suits_example = effective_size-Suits all_viewers looking

let_through-Apart_example : Apart none (let_through (none, false) (0 ∷ 400 ∷ 900 ∷ 1000 ∷ []))
let_through-Apart_example = let_through-Apart (none, false) (0 ∷ 400 ∷ 900 ∷ 1000 ∷ [])

-- The broadcast is asked for at 5000 and held back. Two turns come before it is due at 5500, the
-- second of which lists the state to one page and the first of which ends the terminal.
abbrev later : ℕ → World
later now = record there { now = now }

abbrev two_turns : List (World × Cmd)
two_turns = (later 5100, eof 1 1 0) ∷ (later 5400, list 7) ∷ []

abbrev ended_hub : Hub
ended_hub = send_state_to (later 5400) (pty_eof (later 5100) 1 1 0 (broadcast_state there hub)) 7

broadcast_state-told_example :
    ((broadcast_state there hub).clients ≡ hub.clients)
    × ((send_due (later 5600) ended_hub).clients
        ≡ send_views ended_hub.clients ended_hub.clients
            (state (state_msg (later 5600) ended_hub))
            (terminals (terminal_list ended_hub.terminals)))
unfolding gate_open Option.bind turn pty_eof lookup
broadcast_state-told_example =
    broadcast_state-told there (later 5600) 4500 false two_turns hub ended_hub refl (omega arith)
      (omega arith, (omega arith, tt)) ran (omega arith)
  where
    ran : run two_turns (broadcast_state there hub) ≡ some ended_hub
    ran = refl

abbrev project_at : Text → ProjectInfo
project_at path = record { path = path; name = path; exists = true; sessions = []; icon = none }

-- The scan found a folder with nothing in it, one with a saved terminal, and one that is running.
abbrev with_projects : Hub
with_projects = record hub {
  cfg = record hub.cfg {
    saved =
        record {
          name = codes "web";
          project = codes "/srv";
          agent = codes "sh";
          command = [];
          color = [];
          autostart = false;
        }
        ∷ [];
  };
  projects =
      project_at (codes "/old") ∷ project_at (codes "/srv") ∷ project_at (codes "/home/me") ∷ [];
}

abbrev opened_web : Hub
opened_web = open_saved there 7 (codes "/srv") (codes "web") 80 24 with_projects

one_is_started : opened_web.next_term ≡ 3
unfolding open_saved path_key as_bytes encode_char
one_is_started = refl

open_saved-AtMostOne_example :
    AtMostOne with_projects opened_web
      (open_saved (later 9000) 8 (codes "/srv") (codes "web") 100 30 opened_web)
unfolding path_key
open_saved-AtMostOne_example =
    open_saved-AtMostOne there (later 9000) 7 8 80 24 100 30 (codes "/srv") (codes "web")
      with_projects (λ p. refl)

state_msg-InOrder_example :
    Sorted (λ t. t.id) (state_msg there with_projects).terminals
    × Perm
        (map (λ e. terminal_info e.1) with_projects.terminals)
        (state_msg there with_projects).terminals
    × InOrder there with_projects (state_msg there with_projects).projects
    × Perm
        (map (with_live with_projects.terminals) with_projects.projects)
        (state_msg there with_projects).projects
    × ((k : ℕ)
        → with_key (rank_of there with_projects) k (state_msg there with_projects).projects
          ≡ with_key
              (rank_of there with_projects)
              k
              (map (with_live with_projects.terminals) with_projects.projects))
state_msg-InOrder_example = state_msg-InOrder there with_projects

client_down-NotViewed_example : NotViewed 7 (client_down there 7 hub).terminals
unfolding has_key
client_down-NotViewed_example = client_down-NotViewed there 7 hub refl

attach-Ghost_example :
    Ghost 9 (40, 20) 1 (client_down there 9 (attach there 9 1 40 20 none none hub))
unfolding has_key lookup sane_size
attach-Ghost_example = attach-Ghost there there 9 1 40 20 none none shell hub refl refl

abbrev printed : Ring
printed = record { buf = codes "cdefghij"; cap = 8; total = 10 }

replay_of-history_example :
    take (replay_of printed (some 4) (some 0)).1 (codes "abcdefghij")
      ++ (replay_of printed (some 4) (some 0)).0
    ≡ codes "abcdefghij"
replay_of-history_example =
    replay_of-history printed (codes "abcdefghij") (some 4) (some 0) (omega arith)
      (record { room = λ e. cc; kept = refl; counted = refl })

abbrev new_shell : Terminal
new_shell = fresh_terminal there 1 2 (codes "/home/me") (codes "sh") none (100, 30) child

started_again : spawn_terminal there hub 1 2 (wanted_again shell 100 30) false ≡ ok new_shell
unfolding spawn_terminal check_spawn find_agent build_terminal sane_size
started_again = refl

shell_found : lookup 1 hub.terminals ≡ some shell
unfolding lookup
shell_found = refl

relaunch-Again_example :
    (now : Terminal) × (lookup 1 (relaunch there 7 1 100 30 hub).terminals ≡ some now)
    × Again hub 1 100 30 shell now
relaunch-Again_example =
    relaunch-Again there hub 7 1 100 30 shell new_shell shell_found started_again

relaunch-old_process_example :
    (pty_output 1 1 (codes "bye") (relaunch there 7 1 100 30 hub) ≡ relaunch there 7 1 100 30 hub)
    × (pty_eof there 1 1 0 (relaunch there 7 1 100 30 hub) ≡ relaunch there 7 1 100 30 hub)
relaunch-old_process_example =
    relaunch-old_process there hub 7 1 100 30 shell new_shell (codes "bye") 0 shell_found
      started_again (omega arith)

resolve_target_iff_example :
    (resolve_target hub.terminals (name (codes "build")) ≡ yes_to 1)
    ↔ OnlyNamed (codes "build") 1 hub.terminals
resolve_target_iff_example = resolve_target_iff hub.terminals (codes "build") 1

abbrev both : Terminals
both = (1, shell) ∷ (2, record shell { id = 2 }) ∷ []

abbrev noted : SavedTerminal
noted = record {
  name = codes "build";
  project = codes "/home/me";
  agent = codes "sh";
  command = codes "make";
  color = [];
  autostart = false;
}

abbrev saved_hub : Hub
saved_hub = record hub { cfg = record hub.cfg { saved = noted ∷ [] } }

tags_a_saved_terminal :
    (set_color there 7 1 (codes "red") saved_hub).cfg.saved
    ≡ record noted { color = codes "red" } ∷ []
unfolding set_color path_key lookup as_bytes encode_char
tags_a_saved_terminal = refl

refuses_a_colour :
    set_color there 7 1 (codes "pink") hub
    ≡ record hub { clients = send_to hub.clients 7 (error bad_color) }
unfolding set_color
refuses_a_colour = refl

refuses_a_name : check_saved_name (codes " ") ≡ false
unfolding check_saved_name is_whitespace
refuses_a_name = refl

forget_terminal-NotSaved_example :
    NotSaved there
      (codes "/home/me")
      (codes "build")
      (forget_terminal there false 7 (codes "/home/me") (codes "build") saved_hub).cfg.saved
    × (false ≡ true
        → NotWorn there
            (codes "/home/me")
            (codes "build")
            (forget_terminal there false 7 (codes "/home/me") (codes "build") saved_hub).terminals)
    × (false ≡ false
        → ((forget_terminal there false 7 (codes "/home/me") (codes "build") saved_hub).terminals
            ≡ saved_hub.terminals)
          × ((forget_terminal there false 7 (codes "/home/me") (codes "build") saved_hub).clients
              ≡ send_to saved_hub.clients 7 (error config_write_failed)))
unfolding path_key as_bytes encode_char
forget_terminal-NotSaved_example =
    forget_terminal-NotSaved there false 7 (codes "/home/me") (codes "build") saved_hub refl
