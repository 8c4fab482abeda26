-- ===== src/Hub/Step/Starts.antt =====
-- The sizes of terminals under the commands that start them.
use sessionhub.Base.{
  ℕ, ◌≡◌, refl, sym, ap, subst, subst₂, inl, inr, Bool, false, List, [], Option, none, some, insert,
  arith, Bool-cases, All,
}
use sessionhub.Hub.Types.{Text, Clients, Terminal, Pty}
use sessionhub.Hub.Queue.Laws.{All-insert}
use sessionhub.Hub.Sizes.{Viewers, shown, sane_size}
use sessionhub.Hub.Sizes.Smallest.{Within}
use sessionhub.Hub.State.{World, Hub, broadcast_state, gate_open}
use sessionhub.Hub.Viewers.Views.{send_to-SameView, send_views-SameView}
use sessionhub.Hub.Viewers.Fits.{FitsAt, Fits}
use sessionhub.Hub.Viewers.Keeps.{AllFit, HubFits, AllFit-SameView}
use sessionhub.Hub.Spawn.{Result, ok, err, Wanted, tracked, add_terminal, spawned, spawn, fork}
use sessionhub.Hub.Script.{term_spawn, script_spawned, validate_env, taken}
use mathlib.Core.Option
use sessionhub.Hub.Spawn.Made.{IsNew, spawn_terminal-IsNew, fork_terminal-IsNew}

pub broadcast_state-HubFits : (w : World) (h : Hub) → HubFits h → HubFits (broadcast_state w h)
unfolding broadcast_state
broadcast_state-HubFits w h v = elim (Bool-cases (gate_open h.gate w.now).0) [
  | inl e ↦
      rw (e, broadcast_state)
        (AllFit-SameView h.clients _ h.terminals (send_views-SameView h.clients h.clients _ _) v)
  | inr e ↦ rw (e, broadcast_state) v
]

-- A terminal is put into the map, or handed back to it.
pub put-HubFits :
    (h : Hub) (k : ℕ) (t : Terminal)
    → Fits h.clients t
    → HubFits h
    → AllFit h.clients (insert k t h.terminals)
put-HubFits h k t f v = All-insert (λ x. Fits h.clients x.1) k t h.terminals (λ j. f) v

-- A start that went well has made a new terminal.
abbrev pub Made : ℕ → ℕ → Wanted → Result Terminal → Type 0
Made id run q r = (t : Terminal) → r ≡ ok t → IsNew id run q t

-- A viewer of exactly the terminal's size, or none at all.
fits_alone :
    (cs : Clients) (p : Option Pty) (c r : ℕ) (vs : Viewers) (id : ℕ)
    → vs ≡ []
    → FitsAt cs p c r (insert id (c, r) vs)
unfolding shown insert
fits_alone cs none c r vs id e = tt
fits_alone cs (some p) c r vs id e =
    subst (λ us. All (Within (c, r)) (shown cs (insert id (c, r) us))) (sym e) (ground arith)

fits_empty : (cs : Clients) (p : Option Pty) (c r : ℕ) (vs : Viewers) → vs ≡ [] → FitsAt cs p c r vs
unfolding shown
fits_empty cs none c r vs e = tt
fits_empty cs (some p) c r vs e = subst (λ us. All (Within (c, r)) (shown cs us)) (sym e) tt

tracked-same :
    (h : Hub) (q : Wanted) (pick : Bool)
    → ((tracked h q pick).clients ≡ h.clients) × ((tracked h q pick).terminals ≡ h.terminals)
unfolding tracked
tracked-same h q pick = ground arith

pub tracked-HubFits : (h : Hub) (q : Wanted) (pick : Bool) → HubFits h → HubFits (tracked h q pick)
tracked-HubFits h q pick v =
    let same = tracked-same h q pick in subst₂ AllFit (sym same.0) (sym same.1) v

pub spawned-HubFits :
    (w : World) (id k run : ℕ) (q : Wanted) (r : Result Terminal) (h : Hub)
    → Made k run q r
    → HubFits h
    → HubFits (spawned w id q.size r h)
unfolding spawned
spawned-HubFits w id k run q (ok t) h m v =
    AllFit-SameView told.clients _ told.terminals (send_to-SameView told.clients id _) (
      broadcast_state-HubFits w put (
        put-HubFits h t.id seen
          (subst₂ (λ c r. FitsAt h.clients t.pty c r seen.viewers) (sym new.wide) (sym new.high)
            (fits_alone h.clients t.pty q.size.0 q.size.1 t.viewers id new.unseen))
          v))
  where
    new : IsNew k run q t
    new = m t refl

    seen : Terminal
    seen = record t { viewers = insert id q.size t.viewers }

    put : Hub
    put = add_terminal h seen

    told : Hub
    told = broadcast_state w put
spawned-HubFits w id k run q (err e) h m v =
    AllFit-SameView h.clients _ h.terminals (send_to-SameView h.clients id _) v

pub spawn-HubFits :
    (w : World) (id : ℕ) (project agent : Text) (resume : Option Text) (pick : Bool) (cols rows : ℕ)
    (h : Hub)
    → HubFits h
    → HubFits (spawn w id project agent resume pick cols rows h)
unfolding spawn sane_size
spawn-HubFits w id project agent resume pick cols rows h v =
    spawned-HubFits w id h.next_term h.next_run q _ (tracked h q pick)
      (λ t e. spawn_terminal-IsNew w h h.next_term h.next_run q pick e) (tracked-HubFits h q pick v)
  where
    q : Wanted
    q = record {
      project = project;
      agent = agent;
      session = resume;
      size = sane_size cols rows;
      env = [];
    }

fork_from :
    (w : World) (id k run : ℕ) (q : Wanted) (h h' : Hub) (o : Option (Result Terminal))
    → ((t : Terminal) → o ≡ some (ok t) → IsNew k run q t)
    → HubFits h
    → Option.map (λ r. spawned w id q.size r h) o ≡ some h'
    → HubFits h'
fork_from w id k run q h h' none m v e = cc
fork_from w id k run q h h' (some r) m v e =
    subst HubFits (some_eq _ _ e) (spawned-HubFits w id k run q r h (λ t d. m t (ap some d)) v)
  where
    some_eq : (x y : Hub) → some x ≡ some y → x ≡ y
    some_eq x y e = cc

pub fork-HubFits :
    (w : World) (id : ℕ) (project agent session name : Text) (cols rows : ℕ) (h h' : Hub)
    → HubFits h
    → fork w id project agent session name cols rows h ≡ some h'
    → HubFits h'
unfolding fork sane_size
fork-HubFits w id project agent session name cols rows h h' v e =
    fork_from w id h.next_term h.next_run q h h' _
      (λ t d. fork_terminal-IsNew w h h.next_term h.next_run q session name d) v e
  where
    q : Wanted
    q = record {
      project = project;
      agent = agent;
      session = none;
      size = sane_size cols rows;
      env = [];
    }

script_spawned-HubFits :
    (w : World) (nm : Option Text) (k run : ℕ) (q : Wanted) (r : Result Terminal) (h : Hub)
    → Made k run q r
    → HubFits h
    → HubFits (script_spawned w nm r h).0
unfolding script_spawned
script_spawned-HubFits w nm k run q (err e) h m v = v
script_spawned-HubFits w nm k run q (ok t) h m v =
    broadcast_state-HubFits w (add_terminal h (record t { name = nm })) (
      put-HubFits h t.id (record t { name = nm })
        (fits_empty h.clients t.pty t.cols t.rows t.viewers (m t refl).unseen) v)

pub term_spawn-HubFits :
    (w : World) (project agent : Text) (resume nm : Option Text) (env : List (Text × Text))
    (h : Hub)
    → HubFits h
    → HubFits (term_spawn w project agent resume nm env h).0
unfolding term_spawn sane_size
term_spawn-HubFits w project agent resume nm env h v = elim (Bool-cases (validate_env env)) [
  | inr bad ↦ rw bad v
  | inl good ↦ elim (Bool-cases (taken h.terminals nm)) [
    | inl used ↦ rw (good, used) v
    | inr free ↦
        rw (good, free)
          (script_spawned-HubFits w nm h.next_term h.next_run q _ (tracked h q false)
            (λ t e. spawn_terminal-IsNew w h h.next_term h.next_run q false e)
            (tracked-HubFits h q false v))
  ]
]
  where
    q : Wanted
    q = record {
      project = project;
      agent = agent;
      session = resume;
      size = sane_size 80 24;
      env = env;
    }
