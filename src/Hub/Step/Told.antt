-- ===== src/Hub/Step/Told.antt =====
-- What a broadcast that the gate held back comes to.
use sessionhub.Base.{
  ℕ, ◌+◌, ◌<◌, ◌≤◌, ◌≡◌, ◌∙◌, ap, subst, Bool, true, false, List, [], ◌∷◌, Option, none, some,
  Bool-cases, Option-cases, inl, inr, leb, leb→le, le→leb, All, arith,
}
use mathlib.Core.Option
use sessionhub.Hub.Types.{state, terminals}
use sessionhub.Hub.State.{
  World, Hub, state_every, gate_open, state_due, broadcast_state, send_due, send_state_to,
  send_views, state_msg, terminal_list,
}
use sessionhub.Hub.Process.{machine_load}
use sessionhub.Hub.Script.{term_send, resolve_target, show_to_all}
use sessionhub.Hub.Step.Opens.{open_saved-Owed}
use sessionhub.Hub.Step.{
  Cmd, up, down, list, visible, spawns, forks, attaches, detaches, resizes, relaunches, opens_saved,
  kills, ping, asks_last, dismisses, input, output, eof, samples, loads, script_spawn, script_send,
  script_show, handle, turn,
}
use sessionhub.Hub.State.Gate.{opens_late}
use sessionhub.Hub.Step.Gates.{
  gate-client_up, gate-client_down, gate-visibility, gate-attach, gate-detach, gate-resize,
  gate-client_input, gate-pty_output, gate-kill, gate-sent_to_target,
}
use sessionhub.Hub.Step.Owed.{
  Owed, held_back, spawn-Owed, fork-Owed, relaunch-Owed, pty_eof-Owed, background-Owed,
  dismiss-Owed, term_spawn-Owed,
}

same_Owed : (last : ℕ) (x h' : Hub) → Owed last x → some x ≡ some h' → Owed last h'
same_Owed last x h' o e = subst (Owed last) (some_eq x h' e) o
  where
    some_eq : (x y : Hub) → some x ≡ some y → x ≡ y
    some_eq x y e = cc

module _ (last : ℕ) (w : World) (early : w.now < last + state_every) (h h' : Hub)
    (o : Owed last h) where
  handle-Owed : (c : Cmd) → handle w c h ≡ some h' → Owed last h'
  unfolding handle send_state_to show_to_all term_send machine_load
  handle-Owed (up id page) e = same_Owed last _ h' (gate-client_up w id page h ∙ o) e
  handle-Owed (down id) e = same_Owed last _ h' (gate-client_down w id h ∙ o) e
  handle-Owed (list id) e = same_Owed last _ h' o e
  handle-Owed (visible id on) e = same_Owed last _ h' (gate-visibility w id on h ∙ o) e
  handle-Owed (spawns id project agent resume pick cols rows) e =
      same_Owed last _ h' (spawn-Owed last w early id project agent resume pick cols rows h o) e
  handle-Owed (forks id project agent session name cols rows) e =
      fork-Owed last w early id project agent session name cols rows h h' o e
  handle-Owed (attaches id tid cols rows since tail) e =
      same_Owed last _ h' (gate-attach w id tid cols rows since tail h ∙ o) e
  handle-Owed (detaches id tid) e = same_Owed last _ h' (gate-detach w id tid h ∙ o) e
  handle-Owed (resizes id tid cols rows) e =
      same_Owed last _ h' (gate-resize w id tid cols rows h ∙ o) e
  handle-Owed (relaunches id tid cols rows) e =
      same_Owed last _ h' (relaunch-Owed last w early id tid cols rows h o) e
  handle-Owed (opens_saved id project name cols rows) e =
      same_Owed last _ h' (open_saved-Owed last w early id project name cols rows h o) e
  handle-Owed (kills tid) e = same_Owed last _ h' (gate-kill tid h ∙ o) e
  handle-Owed (ping id) e = same_Owed last _ h' o e
  handle-Owed (asks_last id tid) e = same_Owed last _ h' o e
  handle-Owed (dismisses tid on) e = same_Owed last _ h' (dismiss-Owed last w early tid on h o) e
  handle-Owed (input term bytes) e = same_Owed last _ h' (gate-client_input term bytes h ∙ o) e
  handle-Owed (output term run bytes) e =
      same_Owed last _ h' (gate-pty_output term run bytes h ∙ o) e
  handle-Owed (eof term run code) e =
      same_Owed last _ h' (pty_eof-Owed last w early term run code h o) e
  handle-Owed (samples rows) e = same_Owed last _ h' (background-Owed last w early rows h o) e
  handle-Owed (loads l) e = same_Owed last _ h' o e
  handle-Owed (script_spawn project agent resume nm env) e =
      same_Owed last _ h' (term_spawn-Owed last w early project agent resume nm env h o) e
  handle-Owed (script_send target bytes) e =
      same_Owed last _ h' (gate-sent_to_target bytes h (resolve_target h.terminals target) ∙ o) e
  handle-Owed (script_show path dir terminal) e = same_Owed last _ h' o e

send_due-waits :
    (last : ℕ) (w : World) (h : Hub) → w.now < last + state_every → Owed last h → send_due w h ≡ h
unfolding send_due state_due
send_due-waits last w h early o =
    let e = ap state_due o in
    elim (Bool-cases (leb (last + state_every) w.now)) [
      | inl due ↦ absurd (omega (arith, leb→le (last + state_every) w.now due))
      | inr wait ↦ rw (e, send_due, wait)
    ]

-- Turns of the loop, one after the other, each with what it reads of the world.
abbrev pub run : List (World × Cmd) → Hub → Option Hub
run [] h = some h
run ((w, c) ∷ turns) h = Option.bind (turn w c h) (run turns)

panicked : (h : Hub) → ¬ (none ≡ some h)
panicked h e = cc

run-Owed :
    (last : ℕ) (turns : List (World × Cmd)) (h h' : Hub)
    → All (λ t. t.0.now < last + state_every) turns
    → Owed last h
    → run turns h ≡ some h'
    → Owed last h'
unfolding turn Option.bind
run-Owed last [] h h' early o e = same_Owed last h h' o e
run-Owed last ((w, c) ∷ turns) h h' (early, rest) o e =
    elim (Option-cases (handle w c (send_due w h))) [
      | inl p ↦ absurd (panicked h' (rw p at e))
      | inr (h1, p) ↦
          let p' : handle w c h ≡ some h1 = rw (send_due-waits last w h early o) at p in
          run-Owed last turns h1 h' rest (handle-Owed last w early h h1 o c p') (rw p at e)
    ]

due_now :
    (last : ℕ) (w : World) (h : Hub)
    → last + state_every ≤ w.now
    → Owed last h
    → (send_due w h).clients
      ≡ send_views h.clients h.clients
          (state (state_msg w h))
          (terminals (terminal_list h.terminals))
unfolding send_due broadcast_state state_due
due_now last w h late o =
    let e = ap state_due o in
    let opens = ap (λ g. gate_open g w.now) o ∙ opens_late last w.now late in
    rw (e, send_due, le→leb (last + state_every) w.now late, opens, broadcast_state)

-- A broadcast that is asked for less than a second after the last one tells no one anything. It is
-- not lost: after any turns of the loop before that second is over, whatever their commands of those
-- that Hub/Step has, the first turn once it is over sends every page the state as it is by then, or
-- the terminals alone where the page is off screen.
pub broadcast_state-told :
    (w w2 : World) (last : ℕ) (owed : Bool) (turns : List (World × Cmd)) (h h' : Hub)
    → h.gate ≡ (some last, owed)
    → w.now < last + state_every
    → All (λ t. t.0.now < last + state_every) turns
    → run turns (broadcast_state w h) ≡ some h'
    → last + state_every ≤ w2.now
    → ((broadcast_state w h).clients ≡ h.clients)
      × ((send_due w2 h').clients
          ≡ send_views h'.clients h'.clients
              (state (state_msg w2 h'))
              (terminals (terminal_list h'.terminals)))
unfolding broadcast_state
broadcast_state-told w w2 last owed turns h h' g early waits ran late =
    let closed : gate_open h.gate w.now ≡ (false, (some last, true)) =
      ap (λ g. gate_open g w.now) g ∙ held_back last w.now owed early in
    (
      rw (closed, broadcast_state),
      due_now last w2 h' late
          (run-Owed last turns (broadcast_state w h) h' waits (rw (closed, broadcast_state)) ran),
    )
