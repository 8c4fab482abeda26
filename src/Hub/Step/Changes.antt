-- ===== src/Hub/Step/Changes.antt =====
-- The sizes of terminals under the commands about what runs in them.
use sessionhub.Base.{
  ℕ, ◌≡◌, ◌∙◌, refl, same, inl, inr, Bool, true, false, List, [], ◌∷◌, Option, none, some, leb,
  ◌==◌, lookup, insert, arith, Bool-cases, Option-cases, if◌then◌else◌,
}
use sessionhub.Hub.Types.{Text, Clients, Terminal, Terminals, Pty, Out, BgJob, LoadMsg}
use sessionhub.Hub.Queue.{send_to}
use sessionhub.Hub.Queue.Laws.{All-insert, All-lookup}
use sessionhub.Hub.Sizes.{Viewers, renegotiate}
use sessionhub.Hub.State.{World, Hub, send_due, state_due}
use sessionhub.Hub.Viewers.Views.{
  SameView, SameView-refl, SameView-trans, send_to-SameView, send_all-SameView, each_terminal-All,
}
use sessionhub.Hub.Viewers.Fits.{FitsAt, Fits, TakesSizes, renegotiate-Fits}
use sessionhub.Hub.Viewers.Keeps.{AllFit, HubFits, AllFit-SameView, announced}
use sessionhub.Hub.Viewers.{each_terminal}
use sessionhub.Hub.Process.{
  terminal_agent, written, deliver_input, client_input, output_to, pty_output, terminal_ends, ended,
  pty_eof, background_row, background_rows, background, grows_back, send_shown, machine_load,
  killed, kill,
}
use sessionhub.Hub.Script.{
  Target, send_at, sent_to_target, term_send, Reply, yes_to, no_for, resolve_target, send_every,
  show_to_all,
}
use sessionhub.Hub.Step.{dismiss, holds, without}
use sessionhub.Hub.Step.Starts.{broadcast_state-HubFits, put-HubFits}

-- Commands that change a terminal in place but not its size, nor who views it: its child may end.
changes-HubFits :
    (h : Hub) (k : ℕ) (t u : Terminal)
    → lookup k h.terminals ≡ some t
    → (Fits h.clients t → Fits h.clients u)
    → HubFits h
    → AllFit h.clients (insert k u h.terminals)
changes-HubFits h k t u e f v =
    put-HubFits h k u (f (All-lookup (Fits h.clients) k h.terminals v e)) v

FitsAt-written :
    (cs : Clients) (p : Option Pty) (bytes : List ℕ) (c r : ℕ) (vs : Viewers)
    → FitsAt cs p c r vs
    → FitsAt cs (written p bytes) c r vs
FitsAt-written cs none bytes c r vs h = tt
FitsAt-written cs (some p) bytes c r vs h = h

deliver_input-Fits :
    (cs : Clients) (t : Terminal) (bytes : List ℕ) → Fits cs t → Fits cs (deliver_input t bytes)
unfolding deliver_input
deliver_input-Fits cs t bytes h = elim (Bool-cases (same t.agent terminal_agent)) [
  | inl e ↦ rw e (FitsAt-written cs t.pty bytes t.cols t.rows t.viewers h)
  | inr e ↦ rw e (FitsAt-written cs t.pty bytes t.cols t.rows t.viewers h)
]

pub client_input-HubFits :
    (term : ℕ) (bytes : List ℕ) (h : Hub) → HubFits h → HubFits (client_input term bytes h)
unfolding client_input
client_input-HubFits term bytes h v = elim (Option-cases (lookup term h.terminals)) [
  | inl e ↦ rw (e, client_input) v
  | inr (t, e) ↦
      rw (e, client_input)
        (changes-HubFits h term t (deliver_input t bytes) e (deliver_input-Fits h.clients t bytes)
          v)
]

pub pty_output-HubFits :
    (term run : ℕ) (bytes : List ℕ) (h : Hub) → HubFits h → HubFits (pty_output term run bytes h)
unfolding pty_output output_to
pty_output-HubFits term run bytes h v = elim (Option-cases (lookup term h.terminals)) [
  | inl e ↦ rw (e, pty_output) v
  | inr (t, e) ↦ elim (Bool-cases (t.run == run)) [
    | inl old ↦
        rw (e, pty_output, old)
          (AllFit-SameView h.clients _ _ (send_all-SameView t.viewers h.clients _)
            (changes-HubFits h term t _ e (λ f. f) v))
    | inr new ↦ rw (e, pty_output, new) v
  ]
]

-- A terminal whose child ended fits.
FitsAt-none : (cs : Clients) (c r : ℕ) (vs : Viewers) → FitsAt cs none c r vs
FitsAt-none cs c r vs = tt

pub pty_eof-HubFits :
    (w : World) (term run code : ℕ) (h : Hub) → HubFits h → HubFits (pty_eof w term run code h)
unfolding pty_eof terminal_ends ended
pty_eof-HubFits w term run code h v = elim (Option-cases (lookup term h.terminals)) [
  | inl e ↦ rw (e, pty_eof) (broadcast_state-HubFits w h v)
  | inr (t, e) ↦ elim (Bool-cases (t.run == run)) [
    | inl old ↦
        rw (e, pty_eof, old)
          (broadcast_state-HubFits w (ended w term code t h) (
            AllFit-SameView h.clients _ _ (send_all-SameView t.viewers h.clients _) (
              put-HubFits h term (record t { alive = false; pty = none })
                (FitsAt-none h.clients t.cols t.rows t.viewers) v)))
    | inr new ↦ rw (e, pty_eof, new) v
  ]
]

FitsAt-killed :
    (cs : Clients) (p : Option Pty) (c r : ℕ) (vs : Viewers)
    → FitsAt cs p c r vs
    → FitsAt cs (killed p) c r vs
FitsAt-killed cs none c r vs h = tt
FitsAt-killed cs (some p) c r vs h = h

pub kill-HubFits : (tid : ℕ) (h : Hub) → HubFits h → HubFits (kill tid h)
unfolding kill
kill-HubFits tid h v = elim (Option-cases (lookup tid h.terminals)) [
  | inl e ↦ rw (e, kill) v
  | inr (t, e) ↦
      rw (e, kill)
        (changes-HubFits h tid t (record t { pty = killed t.pty }) e
          (FitsAt-killed h.clients t.pty t.cols t.rows t.viewers) v)
]

-- What a row of the sampler leaves of the terminal.
background_row-Fits :
    (cs : Clients) (procs : ℕ) (jobs : List BgJob) (t : Terminal)
    → Fits cs t
    → Fits cs (background_row procs jobs t).0
unfolding background_row
background_row-Fits cs procs jobs t h = ground arith

background_rows-AllFit :
    (cs : Clients) (rows : List (ℕ × ℕ × List BgJob)) (ts : Terminals) (changed : Bool)
    → AllFit cs ts
    → AllFit cs (background_rows rows ts changed).0
unfolding background_rows
background_rows-AllFit cs [] ts changed v = v
background_rows-AllFit cs ((id, procs, jobs) ∷ rows) ts changed v =
    elim (Option-cases (lookup id ts)) [
      | inl e ↦ rw (e, background_rows) (background_rows-AllFit cs rows ts changed v)
      | inr (t, e) ↦
          rw (e, background_rows)
            (background_rows-AllFit cs rows _ _ (
              All-insert (λ x. Fits cs x.1) id (background_row procs jobs t).0 ts
                (λ j. background_row-Fits cs procs jobs t (All-lookup (Fits cs) id ts v e)) v))
    ]

pub background-HubFits :
    (w : World) (rows : List (ℕ × ℕ × List BgJob)) (h : Hub)
    → HubFits h
    → HubFits (background w rows h)
unfolding background
background-HubFits w rows h v = elim (Bool-cases (background_rows rows h.terminals false).1) [
  | inl e ↦
      rw (e, background)
        (broadcast_state-HubFits w
          (record h { terminals = (background_rows rows h.terminals false).0 })
          (background_rows-AllFit h.clients rows h.terminals false v))
  | inr e ↦ rw (e, background) (background_rows-AllFit h.clients rows h.terminals false v)
]

-- A terminal that waited to grow does so by a negotiation.
grows_back-Fits :
    (w : World) (base cs : Clients) (t : Terminal)
    → TakesSizes w.resizes
    → SameView base cs
    → Fits base t
    → Fits base (grows_back w cs t).0 × SameView base (grows_back w cs t).1
unfolding grows_back
grows_back-Fits w base cs t takes v h = elim (Option-cases t.grow_at) [
  | inl e ↦ rw (e, grows_back) (h, v)
  | inr (at', e) ↦ elim (Bool-cases (leb at' w.now)) [
    | inl due ↦
        rw (e, grows_back, due)
          (announced base cs (renegotiate w.resizes t cs) v (renegotiate-Fits w.resizes takes cs t))
    | inr waits ↦ rw (e, grows_back, waits) (h, v)
  ]
]

send_shown-SameView : (cs es : Clients) (out : Out) → SameView cs (send_shown cs es out)
unfolding send_shown
send_shown-SameView cs [] out k = refl
send_shown-SameView cs ((i, c) ∷ es) out k = elim (Bool-cases c.hidden) [
  | inl e ↦ rw e (send_shown-SameView cs es out k)
  | inr e ↦ rw e (send_shown-SameView (send_to cs i out) es out k ∙ send_to-SameView cs i out k)
]

pub machine_load-HubFits :
    (w : World) (l : LoadMsg) (h : Hub)
    → TakesSizes w.resizes
    → HubFits h
    → HubFits (machine_load w l h)
unfolding machine_load
machine_load-HubFits w l h takes v =
    AllFit-SameView h.clients _ grown.0
      (SameView-trans h.clients grown.1 _ all.1 (send_shown-SameView grown.1 grown.1 _)) all.0
  where
    grown : Terminals × Clients
    grown = each_terminal (grows_back w) h.terminals h.clients

    all : AllFit h.clients grown.0 × SameView h.clients grown.1
    all =
        each_terminal-All (Fits h.clients) (Fits h.clients) h.clients (grows_back w)
          (λ cs t s f. grows_back-Fits w h.clients cs t takes s f) h.terminals h.clients
          (SameView-refl h.clients) v

pub dismiss-HubFits :
    (w : World) (tid : ℕ) (on : Bool) (h : Hub) → HubFits h → HubFits (dismiss w tid on h)
unfolding dismiss
dismiss-HubFits w tid true h v = elim (Bool-cases (holds tid h.dismissed)) [
  | inl e ↦ rw e v
  | inr e ↦ rw e (broadcast_state-HubFits w (record h { dismissed = tid ∷ h.dismissed }) v)
]
dismiss-HubFits w tid false h v = elim (Bool-cases (holds tid h.dismissed)) [
  | inl e ↦ rw e (broadcast_state-HubFits w (record h { dismissed = without tid h.dismissed }) v)
  | inr e ↦ rw e v
]

send_at-HubFits :
    (tid : ℕ) (bytes : List ℕ) (o : Option Terminal) (h : Hub)
    → lookup tid h.terminals ≡ o
    → HubFits h
    → HubFits (send_at tid bytes o h).0
unfolding send_at
send_at-HubFits tid bytes none h e v = v
send_at-HubFits tid bytes (some t) h e v =
    either t.alive (record h { terminals = insert tid (deliver_input t bytes) h.terminals }, _)
      (h, _)
      (changes-HubFits h tid t (deliver_input t bytes) e (deliver_input-Fits h.clients t bytes) v) v
  where
    either :
        (b : Bool) (x y : Hub × Reply ℕ)
        → HubFits x.0
        → HubFits y.0
        → HubFits (if b then x else y).0
    either true x y p q = p
    either false x y p q = q

sent_to_target-HubFits :
    (bytes : List ℕ) (h : Hub) (r : Reply ℕ) → HubFits h → HubFits (sent_to_target bytes h r).0
unfolding sent_to_target
sent_to_target-HubFits bytes h (no_for r) v = v
sent_to_target-HubFits bytes h (yes_to tid) v =
    send_at-HubFits tid bytes (lookup tid h.terminals) h refl v

pub term_send-HubFits :
    (target : Target) (bytes : List ℕ) (h : Hub) → HubFits h → HubFits (term_send target bytes h).0
unfolding term_send
term_send-HubFits target bytes h v =
    sent_to_target-HubFits bytes h (resolve_target h.terminals target) v

send_every-SameView : (cs es : Clients) (out : Out) → SameView cs (send_every cs es out)
send_every-SameView cs [] out k = refl
send_every-SameView cs ((i, c) ∷ es) out k =
    send_every-SameView (send_to cs i out) es out k ∙ send_to-SameView cs i out k

pub show_to_all-HubFits :
    (path : Text) (dir : Bool) (terminal : Option ℕ) (h : Hub)
    → HubFits h
    → HubFits (show_to_all path dir terminal h).0
unfolding show_to_all
show_to_all-HubFits path dir terminal h v =
    AllFit-SameView h.clients _ h.terminals (send_every-SameView h.clients h.clients _) v

pub send_due-HubFits : (w : World) (h : Hub) → HubFits h → HubFits (send_due w h)
unfolding send_due
send_due-HubFits w h v = elim (Option-cases (state_due h.gate)) [
  | inl e ↦ rw (e, send_due) v
  | inr (d, e) ↦ elim (Bool-cases (leb d w.now)) [
    | inl due ↦ rw (e, send_due, due) (broadcast_state-HubFits w h v)
    | inr waits ↦ rw (e, send_due, waits) v
  ]
]
