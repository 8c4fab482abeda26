-- ===== src/Hub/Opened.antt =====
-- `ClientMsg::OpenSaved` of src/state.rs: a saved terminal is shown if it is running, and started if
-- it is not.
pub mod Once
use sessionhub.Base.{ℕ, false, List, [], ◌∷◌, Option, none, some, lookup, if◌then◌else◌}
use sessionhub.Typed
use sessionhub.Hub.Types.{Text, Terminal, SavedTerminal, error, no_such_saved}
use sessionhub.Hub.Queue.{send_to}
use sessionhub.Hub.Sizes.{sane_size}
use sessionhub.Hub.State.{World, Hub, live_saved}
use sessionhub.Hub.Saved.{is_saved_as}
use sessionhub.Hub.Viewers.{attach_to}
use sessionhub.Hub.Spawn.{Result, ok, err, Wanted, is_empty, spawn_terminal, tracked, spawned}

unfoldable pub find_saved : World → Text → Text → List SavedTerminal → Option SavedTerminal
find_saved w project name [] = none
find_saved w project name (s ∷ ss) =
    let rest = find_saved w project name ss in if is_saved_as w project name s then some s else rest

-- The new terminal, with the name, the tag and the command of the entry.
abbrev pub as_saved : World → SavedTerminal → Terminal → Terminal
as_saved w s t = record t {
  name = some s.name;
  color = if is_empty s.color then t.color else some s.color;
  pending_run =
      if is_empty s.command
      then t.pending_run
      else some (Typed.runnable w.windows (w.is_file s.project) s.command);
}

abbrev pub started_as : World → SavedTerminal → Result Terminal → Result Terminal
started_as w s (ok t) = ok (as_saved w s t)
started_as w s (err e) = err e

abbrev pub wanted_saved : SavedTerminal → ℕ × ℕ → Wanted
wanted_saved s size = record {
  project = s.project;
  agent = s.agent;
  session = none;
  size = size;
  env = [];
}

unfoldable pub start_saved : World → ℕ → ℕ × ℕ → SavedTerminal → Hub → Hub
unfolding spawn_terminal tracked spawned
start_saved w id size s h =
    spawned w id size
      (started_as w s (spawn_terminal w h h.next_term h.next_run (wanted_saved s size) false))
      (tracked h (wanted_saved s size) false)

-- The terminal that is there is attached to from the start of its buffer.
unfoldable pub show_saved : World → ℕ → ℕ × ℕ → ℕ → Hub → Hub
unfolding attach_to
show_saved w id size tid h = elim (lookup tid h.terminals) [
  | none ↦ h
  | some t ↦ attach_to w id tid size none none t h
]

unfoldable pub opened : World → ℕ → ℕ × ℕ → SavedTerminal → Hub → Hub
unfolding live_saved show_saved start_saved
opened w id size s h = elim (live_saved w h.terminals s) [
  | some tid ↦ show_saved w id size tid h
  | none ↦ start_saved w id size s h
]

unfoldable pub open_saved : World → ℕ → Text → Text → ℕ → ℕ → Hub → Hub
unfolding find_saved opened sane_size
open_saved w id project name cols rows h = elim (find_saved w project name h.cfg.saved) [
  | none ↦ record h { clients = send_to h.clients id (error no_such_saved) }
  | some s ↦ opened w id (sane_size cols rows) s h
]
