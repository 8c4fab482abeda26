-- ===== src/Hub/Opened/Once.antt =====
-- A saved terminal that is opened twice in a row.
use sessionhub.Base.{
  ℕ, ◌≡◌, ◌⊎◌, ◌∙◌, refl, sym, ap, subst, inl, inr, Bool, true, false, ◌&&◌, List, [], ◌∷◌, some,
  lookup, insert, ◌==◌, Bool-cases, Option-cases, arith, same_self,
}
use sessionhub.Hub.Types.{Text, Terminal, Terminals, SavedTerminal}
use sessionhub.Hub.Sizes.{Viewers, sane_size}
use sessionhub.Hub.State.{
  World, Hub, live_saved, is_some_text, same_path, path_key, broadcast_state, gate_open,
}
use sessionhub.Hub.Viewers.{attach_to}
use sessionhub.Hub.Spawn.{Result, ok, err, Wanted, spawn_terminal, tracked, spawned, add_terminal}
use sessionhub.Hub.Spawn.Made.{IsNew, spawn_terminal-IsNew}
use sessionhub.Hub.Step.Starts.{Made}
use sessionhub.Hub.Opened.{
  find_saved, as_saved, started_as, wanted_saved, start_saved, show_saved, opened, open_saved,
}

-- The two worlds have one rule for when two paths are the same.
abbrev pub SamePaths : World → World → Type 0
SamePaths w w2 = (p : Text) → path_key w2 p ≡ path_key w p

abbrev runs_as : World → SavedTerminal → Terminal → Bool
runs_as w s t = t.alive && (is_some_text t.name s.name && same_path w t.project s.project)

live_saved-insert :
    (w : World) (s : SavedTerminal) (k : ℕ) (t : Terminal) (ts : Terminals)
    → runs_as w s t ≡ true
    → (tid : ℕ) × (live_saved w (insert k t ts) s ≡ some tid)
unfolding live_saved insert
live_saved-insert w s k t [] e = (t.id, rw e)
live_saved-insert w s k t ((j, x) ∷ ts) e = elim (Bool-cases (j == k)) [
  | inl hit ↦ (t.id, rw (hit, live_saved, e))
  | inr miss ↦ elim (Bool-cases (runs_as w s x)) [
    | inl y ↦ (x.id, rw (miss, live_saved, y))
    | inr n ↦
        let more = live_saved-insert w s k t ts e in (more.0, rw (miss, live_saved, n) (more.1))
  ]
]

find_saved-SamePaths :
    (w w2 : World) (project name : Text) (ss : List SavedTerminal)
    → SamePaths w w2
    → find_saved w2 project name ss ≡ find_saved w project name ss
unfolding find_saved
find_saved-SamePaths w w2 project name [] p = refl
find_saved-SamePaths w w2 project name (s ∷ ss) p =
    rw (p s.project, p project, find_saved-SamePaths w w2 project name ss p)

terminals-broadcast_state : (w : World) (h : Hub) → (broadcast_state w h).terminals ≡ h.terminals
unfolding broadcast_state
terminals-broadcast_state w h = elim (Bool-cases (gate_open h.gate w.now).0) [
  | inl e ↦ rw (e, broadcast_state)
  | inr e ↦ rw (e, broadcast_state)
]

cfg-broadcast_state : (w : World) (h : Hub) → (broadcast_state w h).cfg ≡ h.cfg
unfolding broadcast_state
cfg-broadcast_state w h = elim (Bool-cases (gate_open h.gate w.now).0) [
  | inl e ↦ rw (e, broadcast_state)
  | inr e ↦ rw (e, broadcast_state)
]

next_term-show_saved :
    (w : World) (id : ℕ) (size : ℕ × ℕ) (tid : ℕ) (h : Hub)
    → (show_saved w id size tid h).next_term ≡ h.next_term
unfolding show_saved attach_to
next_term-show_saved w id size tid h = elim (Option-cases (lookup tid h.terminals)) [
  | inl e ↦ rw (e, show_saved)
  | inr (t, e) ↦ rw (e, show_saved)
]

next_term-tracked :
    (h : Hub) (q : Wanted) (pick : Bool) → (tracked h q pick).next_term ≡ h.next_term
unfolding tracked
next_term-tracked h q pick = ground arith

cfg-tracked : (h : Hub) (q : Wanted) (pick : Bool) → (tracked h q pick).cfg ≡ h.cfg
unfolding tracked
cfg-tracked h q pick = ground arith

-- Where the saved terminal is running, opening it starts none.
running-next_term :
    (w : World) (id : ℕ) (project name : Text) (cols rows : ℕ) (h : Hub) (s : SavedTerminal)
    (tid : ℕ)
    → find_saved w project name h.cfg.saved ≡ some s
    → live_saved w h.terminals s ≡ some tid
    → (open_saved w id project name cols rows h).next_term ≡ h.next_term
unfolding open_saved opened sane_size
running-next_term w id project name cols rows h s tid e l =
    rw (e, open_saved, l, opened) (next_term-show_saved w id (sane_size cols rows) tid h)

-- After a start the terminal runs under the name of the entry.
runs_as-new :
    (w w2 : World) (s : SavedTerminal) (id run : ℕ) (size : ℕ × ℕ) (viewers : Viewers)
    (t : Terminal)
    → IsNew id run (wanted_saved s size) t
    → runs_as w2 s (record (as_saved w s t) { viewers = viewers }) ≡ true
runs_as-new w w2 s id run size viewers t new =
    rw (new.living, new.at_home, same_self s.name, same_self (path_key w2 s.project))

-- At most one of the two starts a terminal.
abbrev pub AtMostOne : Hub → Hub → Hub → Type 0
AtMostOne h first second = (first.next_term ≡ h.next_term) ⊎ (second.next_term ≡ first.next_term)

module _ (w w2 : World) (id id2 cols rows k run : ℕ) (size : ℕ × ℕ) (project name : Text)
    (s : SavedTerminal) (h : Hub) (e : find_saved w2 project name h.cfg.saved ≡ some s) where
  spawned-AtMostOne :
      (r : Result Terminal)
      → Made k run (wanted_saved s size) r
      → AtMostOne h
          (spawned w id size (started_as w s r) h)
          (open_saved w2 id2 project name cols rows (spawned w id size (started_as w s r) h))
  unfolding spawned
  spawned-AtMostOne (err x) new = inl refl
  spawned-AtMostOne (ok t) new = inr (
      running-next_term w2 id2 project name cols rows _ s live.0
        (ap (λ c. find_saved w2 project name c.saved) (cfg-broadcast_state w put) ∙ e)
        (ap (λ ts. live_saved w2 ts s) (terminals-broadcast_state w put) ∙ live.1))
    where
      seen : Terminal
      seen = record (as_saved w s t) { viewers = insert id size t.viewers }

      put : Hub
      put = add_terminal h seen

      live : (tid : ℕ) × (live_saved w2 put.terminals s ≡ some tid)
      live =
          live_saved-insert w2 s t.id seen h.terminals
            (runs_as-new w w2 s k run size (insert id size t.viewers) t (new t refl))

start_saved-AtMostOne :
    (w w2 : World) (id id2 cols rows : ℕ) (size : ℕ × ℕ) (project name : Text) (s : SavedTerminal)
    (h : Hub)
    → find_saved w2 project name h.cfg.saved ≡ some s
    → AtMostOne h
        (start_saved w id size s h)
        (open_saved w2 id2 project name cols rows (start_saved w id size s h))
unfolding start_saved
start_saved-AtMostOne w w2 id id2 cols rows size project name s h e =
    elim (spawned-AtMostOne w w2 id id2 cols rows h.next_term h.next_run size project name s
      (tracked h q false) (ap (λ c. find_saved w2 project name c.saved) (cfg-tracked h q false) ∙ e)
      (spawn_terminal w h h.next_term h.next_run q false)
      (λ t made. spawn_terminal-IsNew w h h.next_term h.next_run q false made)) [
        | inl none_started ↦ inl (none_started ∙ next_term-tracked h q false)
        | inr once ↦ inr once
      ]
  where
    q : Wanted
    q = wanted_saved s size

-- Of two openings of a saved terminal in a row, by whatever clients and at whatever sizes, at most
-- one starts a terminal, that is, moves the counter of terminal ids, if the rule for equal paths is
-- the same for both.
pub open_saved-AtMostOne :
    (w w2 : World) (id id2 cols rows cols2 rows2 : ℕ) (project name : Text) (h : Hub)
    → SamePaths w w2
    → AtMostOne h
        (open_saved w id project name cols rows h)
        (open_saved w2 id2 project name cols2 rows2 (open_saved w id project name cols rows h))
unfolding open_saved opened
open_saved-AtMostOne w w2 id id2 cols rows cols2 rows2 project name h paths =
    elim (Option-cases (find_saved w project name h.cfg.saved)) [
      | inl n ↦ inl (rw (n, open_saved))
      | inr (s, e) ↦ elim (Option-cases (live_saved w h.terminals s)) [
        | inr (tid, l) ↦ inl (running-next_term w id project name cols rows h s tid e l)
        | inl l ↦
            let starts : open_saved w id project name cols rows h
                ≡ start_saved w id (sane_size cols rows) s h =
              rw (e, open_saved, l, opened) in
            subst (λ x. AtMostOne h x (open_saved w2 id2 project name cols2 rows2 x)) (sym starts)
              (start_saved-AtMostOne w w2 id id2 cols2 rows2 (sane_size cols rows) project name s h
                (find_saved-SamePaths w w2 project name h.cfg.saved paths ∙ e))
      ]
    ]
