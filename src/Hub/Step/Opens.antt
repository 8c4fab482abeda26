-- ===== src/Hub/Step/Opens.antt =====
-- The sizes of terminals, and the gate of the broadcasts, under `OpenSaved`.
use sessionhub.Base.{
  ℕ, ◌+◌, ◌<◌, ◌≡◌, ◌∙◌, refl, subst, none, lookup, Option-cases, inl, inr, false,
}
use sessionhub.Hub.Types.{Text, Terminal, SavedTerminal}
use sessionhub.Hub.Sizes.{sane_size}
use sessionhub.Hub.State.{World, Hub, state_every, live_saved}
use sessionhub.Hub.Viewers.{attach_to}
use sessionhub.Hub.Viewers.Fits.{TakesSizes}
use sessionhub.Hub.Viewers.Views.{send_to-SameView}
use sessionhub.Hub.Viewers.Keeps.{HubFits, AllFit-SameView}
use sessionhub.Hub.Viewers.Commands.{attach_to-HubFits}
use sessionhub.Hub.Spawn.{Result, ok, err, Wanted, spawn_terminal, tracked}
use sessionhub.Hub.Spawn.Made.{IsNew, spawn_terminal-IsNew}
use sessionhub.Hub.Opened.{
  find_saved, as_saved, started_as, wanted_saved, start_saved, show_saved, opened, open_saved,
}
use sessionhub.Hub.Step.Starts.{Made, spawned-HubFits, tracked-HubFits}
use sessionhub.Hub.Step.Gates.{gate-tracked}
use sessionhub.Hub.Step.Owed.{Owed, spawned-Owed}

as_saved-IsNew :
    (w : World) (s : SavedTerminal) (id run : ℕ) (q : Wanted) (t : Terminal)
    → IsNew id run q t
    → IsNew id run q (as_saved w s t)
as_saved-IsNew w s id run q t new = record {
  same_id = new.same_id;
  same_run = new.same_run;
  unseen = new.unseen;
  wide = new.wide;
  high = new.high;
  silent = new.silent;
  living = new.living;
  at_home = new.at_home;
}

started_as-Made :
    (w : World) (s : SavedTerminal) (id run : ℕ) (q : Wanted) (r : Result Terminal)
    → Made id run q r
    → Made id run q (started_as w s r)
started_as-Made w s id run q (err e) m t d = cc
started_as-Made w s id run q (ok t0) m t d =
    subst (IsNew id run q) (ok_eq (as_saved w s t0) t d)
      (as_saved-IsNew w s id run q t0 (m t0 refl))
  where
    ok_eq : (x y : Terminal) → ok x ≡ ok y → x ≡ y
    ok_eq x y e = cc

start_saved-HubFits :
    (w : World) (id : ℕ) (size : ℕ × ℕ) (s : SavedTerminal) (h : Hub)
    → HubFits h
    → HubFits (start_saved w id size s h)
unfolding start_saved
start_saved-HubFits w id size s h v =
    spawned-HubFits w id h.next_term h.next_run q _ (tracked h q false)
      (started_as-Made w s h.next_term h.next_run q
        (spawn_terminal w h h.next_term h.next_run q false)
        (λ t e. spawn_terminal-IsNew w h h.next_term h.next_run q false e))
      (tracked-HubFits h q false v)
  where
    q : Wanted
    q = wanted_saved s size

pub open_saved-HubFits :
    (w : World) (takes : TakesSizes w.resizes) (id : ℕ) (project name : Text) (cols rows : ℕ)
    (h : Hub)
    → HubFits h
    → HubFits (open_saved w id project name cols rows h)
unfolding open_saved opened show_saved sane_size
open_saved-HubFits w takes id project name cols rows h v =
    elim (Option-cases (find_saved w project name h.cfg.saved)) [
      | inl e ↦
          rw (e, open_saved)
            (AllFit-SameView h.clients _ h.terminals (send_to-SameView h.clients id _) v)
      | inr (s, e) ↦ elim (Option-cases (live_saved w h.terminals s)) [
        | inl l ↦
            rw (e, open_saved, l, opened) (start_saved-HubFits w id (sane_size cols rows) s h v)
        | inr (tid, l) ↦ elim (Option-cases (lookup tid h.terminals)) [
          | inl n ↦ rw (e, open_saved, l, opened, n, show_saved) v
          | inr (t, n) ↦
              rw (e, open_saved, l, opened, n, show_saved)
                (attach_to-HubFits w takes id tid (sane_size cols rows).0 (sane_size cols rows).1
                  none none t h v)
        ]
      ]
    ]

pub open_saved-Owed :
    (last : ℕ) (w : World) (early : w.now < last + state_every) (id : ℕ) (project name : Text)
    (cols rows : ℕ) (h : Hub)
    → Owed last h
    → Owed last (open_saved w id project name cols rows h)
unfolding open_saved opened show_saved sane_size attach_to start_saved
open_saved-Owed last w early id project name cols rows h o =
    elim (Option-cases (find_saved w project name h.cfg.saved)) [
      | inl e ↦ rw (e, open_saved) o
      | inr (s, e) ↦ elim (Option-cases (live_saved w h.terminals s)) [
        | inl l ↦
            rw (e, open_saved, l, opened)
              (spawned-Owed last w early id (sane_size cols rows) _ (tracked h (q s) false)
                (gate-tracked h (q s) false ∙ o))
        | inr (tid, l) ↦ elim (Option-cases (lookup tid h.terminals)) [
          | inl n ↦ rw (e, open_saved, l, opened, n, show_saved) o
          | inr (t, n) ↦ rw (e, open_saved, l, opened, n, show_saved) o
        ]
      ]
    ]
  where
    q : SavedTerminal → Wanted
    q s = wanted_saved s (sane_size cols rows)
