-- ===== src/Hub/Spawn/Runs.antt =====
-- A terminal started again in place: what it keeps, and what its old process may still say.
use sessionhub.Base.{
  ℕ, ◌<◌, max, ◌≡◌, refl, ap, ◌∙◌, inl, inr, true, false, List, [], some, ◌==◌, lookup, arith,
  ==-ne, ==-self, lookup-insert, Bool-cases,
}
use sessionhub.Ring
use sessionhub.Hub.Types.{Terminal}
use sessionhub.Hub.Sizes.{sane_size}
use sessionhub.Hub.State.{World, Hub, broadcast_state, gate_open}
use sessionhub.Hub.Spawn.{
  ok, Wanted, ring_cap, spawn_terminal, tracked, relaunched, relaunch, carried_over, replaced,
}
use sessionhub.Hub.Spawn.Made.{spawn_terminal-IsNew}
use sessionhub.Hub.Process.{pty_output, pty_eof}

-- What a relaunch asks to be started.
abbrev pub wanted_again : Terminal → ℕ → ℕ → Wanted
wanted_again old cols rows = record {
  project = old.project;
  agent = old.agent;
  session = old.session_id;
  size = sane_size cols rows;
  env = [];
}

-- The terminal after a relaunch: only the process, its buffer and its size are new.
pub record Again (h : Hub) (tid cols rows : ℕ) (old now : Terminal) : Type 0 where
  pub same_id : now.id ≡ tid
  pub new_run : now.run ≡ h.next_run
  pub same_viewers : now.viewers ≡ old.viewers
  pub same_name : now.name ≡ old.name
  pub same_color : now.color ≡ old.color
  pub silent : now.ring ≡ Ring.new ring_cap
  pub living : now.alive ≡ true
  pub wide : now.cols ≡ max cols 1
  pub high : now.rows ≡ max rows 1

broadcast-terminals : (w : World) (h : Hub) → (broadcast_state w h).terminals ≡ h.terminals
unfolding broadcast_state
broadcast-terminals w h = elim (Bool-cases (gate_open h.gate w.now).0) [
  | inl e ↦ rw (e, broadcast_state)
  | inr e ↦ rw (e, broadcast_state)
]

lookup-replaced :
    (w : World) (tid : ℕ) (old t : Terminal) (g : Hub)
    → lookup tid (broadcast_state w (replaced w tid old t g)).terminals
      ≡ some (carried_over w g.cfg old t)
unfolding replaced
lookup-replaced w tid old t g =
    ap (lookup tid) (broadcast-terminals w (replaced w tid old t g))
    ∙ lookup-insert tid tid (carried_over w g.cfg old t) g.terminals
    ∙ rw (==-self tid)

module _ (w : World) (h : Hub) (id tid cols rows : ℕ) (old t : Terminal) where
  lookup-relaunch :
      lookup tid h.terminals ≡ some old
      → spawn_terminal w h tid h.next_run (wanted_again old cols rows) false ≡ ok t
      → lookup tid (relaunch w id tid cols rows h).terminals
        ≡ some (carried_over w (tracked h (wanted_again old cols rows) false).cfg old t)
  unfolding relaunch relaunched
  lookup-relaunch e s =
      rw (e, relaunch, s)
        (lookup-replaced w tid old t (tracked h (wanted_again old cols rows) false))

  -- Where a relaunch starts its process, the terminal under the id is the one started again: under
  -- the next run number, with the viewers, the name and the colour of the old one and an empty
  -- buffer, and of the size that was asked for, whatever the viewers asked for before.
  pub relaunch-Again :
      lookup tid h.terminals ≡ some old
      → spawn_terminal w h tid h.next_run (wanted_again old cols rows) false ≡ ok t
      → (now : Terminal) × (lookup tid (relaunch w id tid cols rows h).terminals ≡ some now)
        × Again h tid cols rows old now
  unfolding sane_size
  relaunch-Again e s =
      let new = spawn_terminal-IsNew w h tid h.next_run (wanted_again old cols rows) false s in
      (
        carried_over w (tracked h (wanted_again old cols rows) false).cfg old t,
        lookup-relaunch e s,
        record {
          same_id = new.same_id;
          new_run = new.same_run;
          same_viewers = refl;
          same_name = refl;
          same_color = refl;
          silent = new.silent;
          living = new.living;
          wide = new.wide;
          high = new.high;
        },
      )

  -- After a relaunch that started its process, what the process it replaced still prints, and its
  -- end, change nothing, if run numbers were given out in turn.
  pub relaunch-old_process :
      (bytes : List ℕ) (code : ℕ)
      → lookup tid h.terminals ≡ some old
      → spawn_terminal w h tid h.next_run (wanted_again old cols rows) false ≡ ok t
      → old.run < h.next_run
      → (pty_output tid old.run bytes (relaunch w id tid cols rows h)
          ≡ relaunch w id tid cols rows h)
        × (pty_eof w tid old.run code (relaunch w id tid cols rows h)
            ≡ relaunch w id tid cols rows h)
  unfolding pty_output pty_eof
  relaunch-old_process bytes code e s lt =
      let again = relaunch-Again e s in
      let other : (again.0.run == old.run) ≡ false =
        ==-ne again.0.run old.run (λ q. omega (arith, again.2.new_run)) in
      (rw (again.1, pty_output, other), rw (again.1, pty_eof, other))
