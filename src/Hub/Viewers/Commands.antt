-- ===== src/Hub/Viewers/Commands.antt =====
-- The sizes of terminals under the commands of src/state.rs about viewers.
use sessionhub.Base.{
  ℕ, ◌≡◌, ◌∙◌, refl, sym, ap, subst, inl, inr, Bool, true, false, not, List, [], ◌∷◌, Option, some,
  ◌==◌, lookup, insert, has_key, arith, Bool-cases, Option-cases, if◌then◌else◌, ==_iff,
}
use sessionhub.Hub.Types.{Text, Client, Clients, Terminal}
use sessionhub.Hub.Queue.{send_to}
use sessionhub.Hub.Queue.Laws.{All-insert, All-lookup}
use sessionhub.Hub.Sizes.{
  is_hidden, renegotiate, renegotiate_after_leave, broadcast_size, sane_size,
}
use sessionhub.Hub.State.{World, Hub, send_state_to}
use sessionhub.Hub.Viewers.Views.{
  SameView, SameView-refl, SameView-trans, send_to-SameView, broadcast_size-SameView,
  each_terminal-All, is_hidden-insert,
}
use sessionhub.Hub.Viewers.Fits.{
  Fits, TakesSizes, Fits-SameView, renegotiate-Fits, renegotiate_after_leave-Fits,
}
use sessionhub.Hub.Viewers.Keeps.{
  AllFit, HubFits, AllFit-SameView, Away, Fewer, FitsAt-Away, FitsAt-Fewer, Away-SameView,
  announced, viewer_leaves-Fits, drop_client-HubFits, without_page-HubFits, send_last_load-HubFits,
  send_state_to-HubFits,
}
use sessionhub.Hub.Viewers.{
  viewer_leaves, each_terminal, with_terminals, without_page, new_client, send_last_load, client_up,
  client_down, view_changed, welcome_back, mark, set_visible, visibility, replay_of, send_replay,
  join, attach_to, attach, at_terminal, detach, viewer_resizes, resize,
}

send_replay-SameView :
    (cs : Clients) (id tid : ℕ) (t : Terminal) (bytes : List ℕ) (from : ℕ)
    → SameView cs (send_replay cs id tid t (bytes, from))
unfolding send_replay
send_replay-SameView cs id tid t [] from k =
    send_to-SameView (send_to cs id _) id _ k ∙ send_to-SameView cs id _ k
send_replay-SameView cs id tid t (b ∷ bs) from k =
    send_to-SameView (send_to (send_to cs id _) id _) id _ k
    ∙ send_to-SameView (send_to cs id _) id _ k
    ∙ send_to-SameView cs id _ k

module _ (w : World) (takes : TakesSizes w.resizes) where
  pub client_up-HubFits :
      (id : ℕ) (page : Option Text) (h : Hub)
      → is_hidden h.clients id ≡ false
      → HubFits h
      → HubFits (client_up w id page h)
  unfolding client_up
  client_up-HubFits id page h fresh f =
      send_last_load-HubFits id (send_state_to w up id) (send_state_to-HubFits w up id shown_up)
    where
      there : Hub
      there = without_page w page h

      up : Hub
      up = record there { clients = insert id (new_client page) there.clients }

      kept : HubFits there × (is_hidden there.clients id ≡ false)
      kept = without_page-HubFits w takes page id h f fresh

      view : SameView there.clients up.clients
      view k = is_hidden-insert there.clients id (new_client page) k ∙ elim (Bool-cases (id == k)) [
        | inl e ↦ rw e (sym kept.1 ∙ ap (is_hidden there.clients) ((==_iff id k).0 e))
        | inr e ↦ rw e
      ]

      shown_up : HubFits up
      shown_up = AllFit-SameView there.clients up.clients there.terminals view kept.0

  pub client_down-HubFits : (id : ℕ) (h : Hub) → HubFits h → HubFits (client_down w id h)
  unfolding client_down
  client_down-HubFits id h f = elim (Bool-cases (has_key id h.clients)) [
    | inl e ↦ rw e (drop_client-HubFits w takes id h f)
    | inr e ↦ rw e f
  ]

  at_terminal-HubFits :
      (tid : ℕ) (f : Clients → Terminal → Terminal × Clients) (h : Hub)
      → ((t : Terminal)
          → Fits h.clients t
          → Fits h.clients (f h.clients t).0 × SameView h.clients (f h.clients t).1)
      → HubFits h
      → HubFits (at_terminal tid f h)
  unfolding at_terminal
  at_terminal-HubFits tid f h step v = elim (Option-cases (lookup tid h.terminals)) [
    | inl e ↦ rw (e, at_terminal) v
    | inr (t, e) ↦
        let one = step t (All-lookup (Fits h.clients) tid h.terminals v e) in
        rw (e, at_terminal)
          (AllFit-SameView h.clients (f h.clients t).1 _ one.1
            (All-insert (λ x. Fits h.clients x.1) tid (f h.clients t).0 h.terminals (λ j. one.0) v))
  ]

  pub detach-HubFits : (id tid : ℕ) (h : Hub) → HubFits h → HubFits (detach w id tid h)
  unfolding detach
  detach-HubFits id tid h v =
      at_terminal-HubFits tid (viewer_leaves w id) h
        (λ t.
          viewer_leaves-Fits w takes id h.clients h.clients h.clients t (λ k e. refl)
            (SameView-refl h.clients))
        v

  viewer_resizes-Fits :
      (id cols rows : ℕ) (cs : Clients) (t : Terminal)
      → Fits cs t
      → Fits cs (viewer_resizes w id (cols, rows) cs t).0
        × SameView cs (viewer_resizes w id (cols, rows) cs t).1
  unfolding viewer_resizes join
  viewer_resizes-Fits id cols rows cs t h = elim (Bool-cases (has_key id t.viewers)) [
    | inl e ↦ rw e (
        announced cs cs (join w id cols rows cs t) (SameView-refl cs) (
          renegotiate-Fits w.resizes takes cs
            (record t { viewers = insert id (cols, rows) t.viewers })))
    | inr e ↦ rw e (h, SameView-refl cs)
  ]

  pub resize-HubFits :
      (id tid cols rows : ℕ) (h : Hub) → HubFits h → HubFits (resize w id tid cols rows h)
  unfolding resize sane_size
  resize-HubFits id tid cols rows h v =
      at_terminal-HubFits tid (viewer_resizes w id (sane_size cols rows)) h
        (λ t. viewer_resizes-Fits id (sane_size cols rows).0 (sane_size cols rows).1 h.clients t) v

  pub attach_to-HubFits :
      (id tid cols rows : ℕ) (since tail : Option ℕ) (t : Terminal) (h : Hub)
      → HubFits h
      → HubFits (attach_to w id tid (cols, rows) since tail t h)
  unfolding attach_to join
  attach_to-HubFits id tid cols rows since tail t h v =
      AllFit-SameView h.clients _ _ (news (join w id cols rows h.clients t).1) (
        All-insert (λ x. Fits h.clients x.1) tid joined h.terminals
          (λ j.
            renegotiate-Fits w.resizes takes h.clients
              (record t { viewers = insert id (cols, rows) t.viewers }))
          v)
    where
      joined : Terminal
      joined = (join w id cols rows h.clients t).0

      told : Clients
      told = send_replay h.clients id tid joined (replay_of joined.ring since tail)

      told_view : SameView h.clients told
      told_view =
          send_replay-SameView h.clients id tid joined (replay_of joined.ring since tail).0
            (replay_of joined.ring since tail).1

      news : (b : Bool) → SameView h.clients (if b then broadcast_size told joined else told)
      news true = SameView-trans h.clients told _ told_view (broadcast_size-SameView told joined)
      news false = told_view

  pub attach-HubFits :
      (id tid cols rows : ℕ) (since tail : Option ℕ) (h : Hub)
      → HubFits h
      → HubFits (attach w id tid cols rows since tail h)
  unfolding attach sane_size
  attach-HubFits id tid cols rows since tail h v = elim (Option-cases (lookup tid h.terminals)) [
    | inl e ↦
        rw (e, attach) (AllFit-SameView h.clients _ h.terminals (send_to-SameView h.clients id _) v)
    | inr (t, e) ↦
        rw (e, attach)
          (attach_to-HubFits id tid (sane_size cols rows).0 (sane_size cols rows).1 since tail t h
            v)
  ]

  -- A page that comes on screen, or goes off it: what its terminals are seen to be.
  view_changed-shows :
      (id : ℕ) (old base cs : Clients) (t : Terminal)
      → Away id old base
      → SameView base cs
      → Fits old t
      → Fits base (view_changed w id true cs t).0 × SameView base (view_changed w id true cs t).1
  unfolding view_changed
  view_changed-shows id old base cs t a v h = elim (Bool-cases (has_key id t.viewers)) [
    | inl e ↦
        rw e
          (announced base cs (renegotiate w.resizes t cs) v (renegotiate-Fits w.resizes takes cs t))
    | inr e ↦ rw e (FitsAt-Away id old base t.pty t.cols t.rows t.viewers a e h, v)
  ]

  view_changed-hides :
      (id : ℕ) (old base cs : Clients) (t : Terminal)
      → Fewer old base
      → SameView base cs
      → Fits old t
      → Fits base (view_changed w id false cs t).0 × SameView base (view_changed w id false cs t).1
  unfolding view_changed
  view_changed-hides id old base cs t a v h =
      let here : Fits base t = FitsAt-Fewer old base t.pty t.cols t.rows t.viewers a h in
      elim (Bool-cases (has_key id t.viewers)) [
        | inl e ↦ rw e (
            announced base cs (renegotiate_after_leave w.resizes t w.now cs) v (
              renegotiate_after_leave-Fits w.resizes takes cs t w.now
                (Fits-SameView base cs t.pty t.cols t.rows t.viewers v here)))
        | inr e ↦ rw e (here, v)
      ]

  -- A loop over the terminals, from a view to a view.
  looped-HubFits :
      (old : Clients) (h : Hub) (f : Clients → Terminal → Terminal × Clients)
      → ((cs : Clients) (t : Terminal)
          → SameView h.clients cs
          → Fits old t
          → Fits h.clients (f cs t).0 × SameView h.clients (f cs t).1)
      → AllFit old h.terminals
      → HubFits (with_terminals h (each_terminal f h.terminals h.clients))
  looped-HubFits old h f step v =
      let r =
        each_terminal-All (Fits old) (Fits h.clients) h.clients f step h.terminals h.clients
          (SameView-refl h.clients) v in
      AllFit-SameView h.clients _ _ r.1 r.0

  welcome_back-view :
      (id : ℕ) (h : Hub)
      → SameView h.clients (welcome_back w id h).clients
        × ((welcome_back w id h).terminals ≡ h.terminals)
  unfolding welcome_back send_state_to send_last_load
  welcome_back-view id h = elim (Option-cases h.last_load) [
    | inl e ↦ rw (e, send_last_load) (send_to-SameView h.clients id _, refl)
    | inr (l, e) ↦
        rw (e, send_last_load)
          (
            SameView-trans h.clients (send_to h.clients id _) _ (send_to-SameView h.clients id _)
                (send_to-SameView (send_to h.clients id _) id _),
            refl,
          )
  ]

  mark-Away :
      (id : ℕ) (on : Bool) (c : Client) (h : Hub) → Away id h.clients (mark id on c h).clients
  unfolding mark
  mark-Away id on c h k e = is_hidden-insert h.clients id _ k ∙ rw e

  mark-same :
      (id : ℕ) (on : Bool) (c : Client) (h : Hub)
      → lookup id h.clients ≡ some c
      → c.hidden ≡ not on
      → SameView h.clients (mark id on c h).clients
  unfolding mark is_hidden
  mark-same id on c h l e k =
      is_hidden-insert h.clients id (record c { hidden = not on }) k ∙ elim (Bool-cases (id == k)) [
        | inl hit ↦ rw hit (ground (arith, ap (λ j. lookup j h.clients) ((==_iff id k).0 hit)))
        | inr miss ↦ rw miss
      ]

  mark-Fewer : (id : ℕ) (c : Client) (h : Hub) → Fewer h.clients (mark id false c h).clients
  unfolding mark
  mark-Fewer id c h k = elim (Bool-cases (id == k)) [
    | inl e ↦ inl (is_hidden-insert h.clients id _ k ∙ rw e)
    | inr e ↦ inr (is_hidden-insert h.clients id _ k ∙ rw e)
  ]

  set_visible-HubFits :
      (id : ℕ) (on was : Bool) (c : Client) (h : Hub)
      → c.hidden ≡ was
      → lookup id h.clients ≡ some c
      → HubFits h
      → HubFits (set_visible w id on was c h)
  unfolding set_visible
  set_visible-HubFits id true true c h e l v =
      looped-HubFits h.clients back (view_changed w id true)
        (λ cs t s.
          view_changed-shows id h.clients back.clients cs t
            (Away-SameView id h.clients (mark id true c h).clients back.clients
              (mark-Away id true c h) (welcome_back-view id (mark id true c h)).0)
            s)
        (subst (AllFit h.clients) (sym (welcome_back-view id (mark id true c h)).1) v)
    where
      back : Hub
      back = welcome_back w id (mark id true c h)
  set_visible-HubFits id true false c h e l v =
      AllFit-SameView h.clients _ h.terminals (mark-same id true c h l e) v
  set_visible-HubFits id false true c h e l v =
      AllFit-SameView h.clients _ h.terminals (mark-same id false c h l e) v
  set_visible-HubFits id false false c h e l v =
      looped-HubFits h.clients (mark id false c h) (view_changed w id false)
        (λ cs t s.
          view_changed-hides id h.clients (mark id false c h).clients cs t (mark-Fewer id c h) s)
        v

  pub visibility-HubFits :
      (id : ℕ) (on : Bool) (h : Hub) → HubFits h → HubFits (visibility w id on h)
  unfolding visibility
  visibility-HubFits id on h v = elim (Option-cases (lookup id h.clients)) [
    | inl e ↦ rw (e, visibility) v
    | inr (c, e) ↦ rw (e, visibility) (set_visible-HubFits id on c.hidden c h refl e v)
  ]
