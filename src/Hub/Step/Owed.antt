-- ===== src/Hub/Step/Owed.antt =====
-- The gate of the broadcasts under the commands that tell all pages the state, before one is due.
use sessionhub.Base.{
  ℕ, ◌+◌, ◌<◌, ◌≡◌, ◌∙◌, ap, sym, subst, Bool, true, false, List, [], ◌∷◌, Option, none, some,
  lookup, Bool-cases, Option-cases, inl, inr, ◌==◌, arith, insert,
}
use mathlib.Core.Option
use sessionhub.Hub.Types.{Text, Terminal, BgJob}
use sessionhub.Hub.Sizes.{sane_size}
use sessionhub.Hub.State.{World, Hub, state_every, gate_open, broadcast_state}
use sessionhub.Hub.Spawn.{
  Result, ok, err, Wanted, spawn_terminal, tracked, add_terminal, spawned, replaced, relaunched,
  spawn, fork, relaunch,
}
use sessionhub.Hub.Spawn.Runs.{wanted_again}
use sessionhub.Hub.Process.{ended, terminal_ends, pty_eof, background_rows, background}
use sessionhub.Hub.Script.{validate_env, taken, script_spawned, term_spawn}
use sessionhub.Hub.Step.{holds, without, dismiss}
use sessionhub.Hub.Step.Gates.{gate-tracked}

-- A broadcast is owed since one that was let through at `last`.
abbrev pub Owed : ℕ → Hub → Type 0
Owed last h = h.gate ≡ (some last, true)

pub held_back :
    (last now : ℕ) (owed : Bool)
    → now < last + state_every
    → gate_open (some last, owed) now ≡ (false, (some last, true))
unfolding gate_open
held_back last now owed early = ground arith

-- What tells the pages the state tells them nothing while a broadcast is owed, and leaves it owed.
module _ (last : ℕ) (w : World) (early : w.now < last + state_every) where
  pub broadcast_state-held : (h : Hub) → Owed last h → broadcast_state w h ≡ h
  unfolding broadcast_state
  broadcast_state-held h o =
      let closed = ap (λ g. gate_open g w.now) o ∙ held_back last w.now true early in
      rw (closed, broadcast_state) (ap (λ g. record h { gate = g }) (sym o))

  broadcast_state-Owed : (h : Hub) → Owed last h → Owed last (broadcast_state w h)
  broadcast_state-Owed h o = subst (Owed last) (sym (broadcast_state-held h o)) o

  pub spawned-Owed :
      (id : ℕ) (size : ℕ × ℕ) (r : Result Terminal) (h : Hub)
      → Owed last h
      → Owed last (spawned w id size r h)
  unfolding spawned
  spawned-Owed id size (ok t) h o =
      broadcast_state-Owed (add_terminal h (record t { viewers = insert id size t.viewers })) o
  spawned-Owed id size (err e) h o = o

  forked-Owed :
      (id : ℕ) (size : ℕ × ℕ) (h h' : Hub) (r : Option (Result Terminal))
      → Owed last h
      → Option.map (λ r. spawned w id size r h) r ≡ some h'
      → Owed last h'
  forked-Owed id size h h' none o e = cc
  forked-Owed id size h h' (some r) o e =
      subst (Owed last) (some_eq _ h' e) (spawned-Owed id size r h o)
    where
      some_eq : (x y : Hub) → some x ≡ some y → x ≡ y
      some_eq x y e = cc

  pub spawn-Owed :
      (id : ℕ) (project agent : Text) (resume : Option Text) (pick : Bool) (cols rows : ℕ) (h : Hub)
      → Owed last h
      → Owed last (spawn w id project agent resume pick cols rows h)
  unfolding spawn
  spawn-Owed id project agent resume pick cols rows h o =
      spawned-Owed id (sane_size cols rows) _ (tracked h q pick) (gate-tracked h q pick ∙ o)
    where
      q : Wanted
      q = record {
        project = project;
        agent = agent;
        session = resume;
        size = sane_size cols rows;
        env = [];
      }

  pub fork-Owed :
      (id : ℕ) (project agent session name : Text) (cols rows : ℕ) (h h' : Hub)
      → Owed last h
      → fork w id project agent session name cols rows h ≡ some h'
      → Owed last h'
  unfolding fork
  fork-Owed id project agent session name cols rows h h' o e =
      forked-Owed id (sane_size cols rows) h h' _ o e

  relaunched-Owed :
      (id tid : ℕ) (old : Terminal) (r : Result Terminal) (h : Hub)
      → Owed last h
      → Owed last (relaunched w id tid old r h)
  unfolding relaunched replaced
  relaunched-Owed id tid old (ok t) h o = broadcast_state-Owed (replaced w tid old t h) o
  relaunched-Owed id tid old (err e) h o = o

  pub relaunch-Owed :
      (id tid cols rows : ℕ) (h : Hub) → Owed last h → Owed last (relaunch w id tid cols rows h)
  unfolding relaunch
  relaunch-Owed id tid cols rows h o = elim (Option-cases (lookup tid h.terminals)) [
    | inl e ↦ rw (e, relaunch) o
    | inr (old, e) ↦
        rw (e, relaunch)
          (relaunched-Owed id tid old
            (spawn_terminal w h tid h.next_run (wanted_again old cols rows) false)
            (tracked h (wanted_again old cols rows) false)
            (gate-tracked h (wanted_again old cols rows) false ∙ o))
  ]

  pub pty_eof-Owed :
      (term run code : ℕ) (h : Hub) → Owed last h → Owed last (pty_eof w term run code h)
  unfolding pty_eof terminal_ends ended
  pty_eof-Owed term run code h o = elim (Option-cases (lookup term h.terminals)) [
    | inl e ↦ rw (e, pty_eof) (broadcast_state-Owed h o)
    | inr (t, e) ↦ elim (Bool-cases (t.run == run)) [
      | inl now ↦ rw (e, pty_eof, now) (broadcast_state-Owed (ended w term code t h) o)
      | inr old ↦ rw (e, pty_eof, old) o
    ]
  ]

  pub background-Owed :
      (rows : List (ℕ × ℕ × List BgJob)) (h : Hub) → Owed last h → Owed last (background w rows h)
  unfolding background
  background-Owed rows h o = elim (Bool-cases (background_rows rows h.terminals false).1) [
    | inl e ↦
        rw (e, background)
          (broadcast_state-Owed
            (record h { terminals = (background_rows rows h.terminals false).0 }) o)
    | inr e ↦ rw (e, background) o
  ]

  pub dismiss-Owed : (tid : ℕ) (on : Bool) (h : Hub) → Owed last h → Owed last (dismiss w tid on h)
  unfolding dismiss
  dismiss-Owed tid true h o = elim (Bool-cases (holds tid h.dismissed)) [
    | inl e ↦ rw e o
    | inr e ↦ rw e (broadcast_state-Owed (record h { dismissed = tid ∷ h.dismissed }) o)
  ]
  dismiss-Owed tid false h o = elim (Bool-cases (holds tid h.dismissed)) [
    | inl e ↦ rw e (broadcast_state-Owed (record h { dismissed = without tid h.dismissed }) o)
    | inr e ↦ rw e o
  ]

  script_spawned-Owed :
      (nm : Option Text) (r : Result Terminal) (h : Hub)
      → Owed last h
      → Owed last (script_spawned w nm r h).0
  unfolding script_spawned
  script_spawned-Owed nm (err e) h o = o
  script_spawned-Owed nm (ok t) h o =
      broadcast_state-Owed (add_terminal h (record t { name = nm })) o

  pub term_spawn-Owed :
      (project agent : Text) (resume nm : Option Text) (env : List (Text × Text)) (h : Hub)
      → Owed last h
      → Owed last (term_spawn w project agent resume nm env h).0
  unfolding term_spawn
  term_spawn-Owed project agent resume nm env h o = elim (Bool-cases (validate_env env)) [
    | inr bad ↦ rw bad o
    | inl good ↦ elim (Bool-cases (taken h.terminals nm)) [
      | inl used ↦ rw (good, used) o
      | inr free ↦
          rw (good, free)
            (script_spawned-Owed nm (spawn_terminal w h h.next_term h.next_run q false)
              (tracked h q false) (gate-tracked h q false ∙ o))
    ]
  ]
    where
      q : Wanted
      q = record {
        project = project;
        agent = agent;
        session = resume;
        size = sane_size 80 24;
        env = env;
      }
