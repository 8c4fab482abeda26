-- ===== src/Hub/Step/Gates.antt =====
-- The gate of the broadcasts under the commands that do not tell all pages the state.
use sessionhub.Base.{
  ℕ, ◌≡◌, ◌∙◌, refl, Bool, true, false, List, [], ◌∷◌, Option, none, some, lookup, has_key,
  Bool-cases, Option-cases, inl, inr, ◌==◌, arith,
}
use sessionhub.Hub.Types.{Text, Client, Terminal}
use sessionhub.Hub.Sizes.{sane_size}
use sessionhub.Hub.State.{World, Hub, send_state_to}
use sessionhub.Hub.Viewers.{
  viewer_leaves, viewer_resizes, detach, resize, client_up, client_down, drop_client, drop_clients,
  of_page, without_page, send_last_load, mark, welcome_back, look_again, set_visible, visibility,
  attach_to, attach, at_terminal,
}
use sessionhub.Hub.Spawn.{Wanted, tracked}
use sessionhub.Hub.Process.{client_input, output_to, pty_output, kill}
use sessionhub.Hub.Script.{Reply, yes_to, no_for, send_at, sent_to_target}

pub gate-tracked : (h : Hub) (q : Wanted) (pick : Bool) → (tracked h q pick).gate ≡ h.gate
unfolding tracked
gate-tracked h q pick = ground arith

pub gate-send_last_load : (id : ℕ) (h : Hub) → (send_last_load id h).gate ≡ h.gate
unfolding send_last_load
gate-send_last_load id h = elim (Option-cases h.last_load) [
  | inl e ↦ rw (e, send_last_load)
  | inr (l, e) ↦ rw (e, send_last_load)
]

pub gate-drop_clients : (w : World) (ks : List ℕ) (h : Hub) → (drop_clients w ks h).gate ≡ h.gate
unfolding drop_clients drop_client
gate-drop_clients w [] h = refl
gate-drop_clients w (k ∷ ks) h = gate-drop_clients w ks (drop_client w k h)

pub gate-client_up :
    (w : World) (id : ℕ) (page : Option Text) (h : Hub) → (client_up w id page h).gate ≡ h.gate
unfolding client_up send_state_to without_page
gate-client_up w id none h = gate-send_last_load id _
gate-client_up w id (some p) h =
    gate-send_last_load id _ ∙ gate-drop_clients w (of_page p h.clients) h

pub gate-client_down : (w : World) (id : ℕ) (h : Hub) → (client_down w id h).gate ≡ h.gate
unfolding client_down drop_client
gate-client_down w id h = elim (Bool-cases (has_key id h.clients)) [ inl e ↦ rw e | inr e ↦ rw e ]

pub gate-set_visible :
    (w : World) (id : ℕ) (on was : Bool) (c : Client) (h : Hub)
    → (set_visible w id on was c h).gate ≡ h.gate
unfolding set_visible look_again welcome_back mark send_state_to
gate-set_visible w id true true c h = gate-send_last_load id _
gate-set_visible w id true false c h = refl
gate-set_visible w id false true c h = refl
gate-set_visible w id false false c h = refl

pub gate-visibility :
    (w : World) (id : ℕ) (on : Bool) (h : Hub) → (visibility w id on h).gate ≡ h.gate
unfolding visibility
gate-visibility w id on h = elim (Option-cases (lookup id h.clients)) [
  | inl e ↦ rw (e, visibility)
  | inr (c, e) ↦ rw (e, visibility) (gate-set_visible w id on c.hidden c h)
]

pub gate-attach :
    (w : World) (id tid cols rows : ℕ) (since tail : Option ℕ) (h : Hub)
    → (attach w id tid cols rows since tail h).gate ≡ h.gate
unfolding attach sane_size attach_to
gate-attach w id tid cols rows since tail h = elim (Option-cases (lookup tid h.terminals)) [
  | inl e ↦ rw (e, attach)
  | inr (t, e) ↦ rw (e, attach)
]

pub gate-at_terminal : (tid : ℕ) (f : _) (h : Hub) → (at_terminal tid f h).gate ≡ h.gate
unfolding at_terminal
gate-at_terminal tid f h = elim (Option-cases (lookup tid h.terminals)) [
  | inl e ↦ rw (e, at_terminal)
  | inr (t, e) ↦ rw (e, at_terminal)
]

pub gate-client_input :
    (term : ℕ) (bytes : List ℕ) (h : Hub) → (client_input term bytes h).gate ≡ h.gate
unfolding client_input
gate-client_input term bytes h = elim (Option-cases (lookup term h.terminals)) [
  | inl e ↦ rw (e, client_input)
  | inr (t, e) ↦ rw (e, client_input)
]

pub gate-pty_output :
    (term run : ℕ) (bytes : List ℕ) (h : Hub) → (pty_output term run bytes h).gate ≡ h.gate
unfolding pty_output output_to
gate-pty_output term run bytes h = elim (Option-cases (lookup term h.terminals)) [
  | inl e ↦ rw (e, pty_output)
  | inr (t, e) ↦ elim (Bool-cases (t.run == run)) [
    | inl now ↦ rw (e, pty_output, now)
    | inr old ↦ rw (e, pty_output, old)
  ]
]

pub gate-kill : (tid : ℕ) (h : Hub) → (kill tid h).gate ≡ h.gate
unfolding kill
gate-kill tid h = elim (Option-cases (lookup tid h.terminals)) [
  | inl e ↦ rw (e, kill)
  | inr (t, e) ↦ rw (e, kill)
]

pub gate-send_at :
    (tid : ℕ) (bytes : List ℕ) (o : Option Terminal) (h : Hub)
    → (send_at tid bytes o h).0.gate ≡ h.gate
unfolding send_at
gate-send_at tid bytes none h = refl
gate-send_at tid bytes (some t) h = elim (Bool-cases t.alive) [ inl e ↦ rw e | inr e ↦ rw e ]

pub gate-sent_to_target :
    (bytes : List ℕ) (h : Hub) (r : Reply ℕ) → (sent_to_target bytes h r).0.gate ≡ h.gate
unfolding sent_to_target
gate-sent_to_target bytes h (no_for r) = refl
gate-sent_to_target bytes h (yes_to tid) = gate-send_at tid bytes (lookup tid h.terminals) h

pub gate-detach : (w : World) (id tid : ℕ) (h : Hub) → (detach w id tid h).gate ≡ h.gate
unfolding detach
gate-detach w id tid h = gate-at_terminal tid (viewer_leaves w id) h

pub gate-resize :
    (w : World) (id tid cols rows : ℕ) (h : Hub) → (resize w id tid cols rows h).gate ≡ h.gate
unfolding resize
gate-resize w id tid cols rows h =
    gate-at_terminal tid (viewer_resizes w id (sane_size cols rows)) h
