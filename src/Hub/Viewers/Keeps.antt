-- ===== src/Hub/Viewers/Keeps.antt =====
-- The sizes of all terminals under the steps that the commands about clients and viewers share.
use sessionhub.Base.{
  ℕ, ◌≡◌, ◌⊎◌, ◌∙◌, sym, inl, inr, Bool, true, false, List, [], ◌∷◌, Option, none, some, ◌==◌,
  remove, has_key, arith, Bool-cases, Option-cases, All,
}
use sessionhub.Hub.Types.{Text, Clients, Terminal, Terminals, Pty}
use sessionhub.Hub.Sizes.{Viewers, is_hidden, shown, renegotiate_after_leave}
use sessionhub.Hub.Sizes.Smallest.{Within}
use sessionhub.Hub.State.{World, Hub, send_state_to}
use sessionhub.Hub.Viewers.Views.{
  SameView, SameView-refl, SameView-trans, send_to-SameView, broadcast_size-SameView,
  each_terminal-All, is_hidden-remove,
}
use sessionhub.Hub.Viewers.Fits.{
  FitsAt, Fits, TakesSizes, Fits-SameView, renegotiate_after_leave-Fits,
}
use sessionhub.Hub.Viewers.{
  announce, viewer_leaves, each_terminal, drop_client, drop_clients, of_page, without_page,
  send_last_load,
}

-- Every terminal of the map fits its viewers.
abbrev pub AllFit : Clients → Terminals → Type 0
AllFit clients = All (λ e. Fits clients e.1)

abbrev pub HubFits : Hub → Type 0
HubFits h = AllFit h.clients h.terminals

pub AllFit-SameView :
    (cs ds : Clients) (ts : Terminals) → SameView cs ds → AllFit cs ts → AllFit ds ts
AllFit-SameView cs ds [] v h = tt
AllFit-SameView cs ds ((k, t) ∷ ts) v (ht, hs) =
    (Fits-SameView cs ds t.pty t.cols t.rows t.viewers v ht, AllFit-SameView cs ds ts v hs)

pub SameView-sym : (cs ds : Clients) → SameView cs ds → SameView ds cs
SameView-sym cs ds f k = sym (f k)

-- Seen from `ds`, a client is off screen or where it was in `cs`.
abbrev pub Fewer : Clients → Clients → Type 0
Fewer cs ds = (k : ℕ) → (is_hidden ds k ≡ true) ⊎ (is_hidden ds k ≡ is_hidden cs k)

-- The same for all clients but one.
abbrev pub Away : ℕ → Clients → Clients → Type 0
Away id cs ds = (k : ℕ) → (id == k) ≡ false → is_hidden ds k ≡ is_hidden cs k

module _ (P : ℕ × ℕ → Type 0) where
  shown-Fewer :
      (cs ds : Clients) (vs : Viewers) → Fewer cs ds → All P (shown cs vs) → All P (shown ds vs)
  unfolding shown
  shown-Fewer cs ds [] f h = tt
  shown-Fewer cs ds ((i, s) ∷ vs) f h = ground (arith, f i, shown-Fewer cs ds vs f)

  shown-remove :
      (id : ℕ) (cs ds : Clients) (vs : Viewers)
      → Away id cs ds
      → All P (shown cs vs)
      → All P (shown ds (remove id vs))
  unfolding shown remove
  shown-remove id cs ds [] f h = tt
  shown-remove id cs ds ((i, s) ∷ vs) f h = ground (arith, f i, shown-remove id cs ds vs f)

  shown-Away :
      (id : ℕ) (cs ds : Clients) (vs : Viewers)
      → Away id cs ds
      → has_key id vs ≡ false
      → All P (shown cs vs)
      → All P (shown ds vs)
  unfolding shown has_key
  shown-Away id cs ds [] f e h = tt
  shown-Away id cs ds ((i, s) ∷ vs) f e h = ground (arith, f i, shown-Away id cs ds vs f)

-- The three facts for a terminal, whose child may have ended.
FitsAt-remove :
    (id : ℕ) (cs ds : Clients) (p : Option Pty) (c r : ℕ) (vs : Viewers)
    → Away id cs ds
    → FitsAt cs p c r vs
    → FitsAt ds p c r (remove id vs)
FitsAt-remove id cs ds none c r vs f h = tt
FitsAt-remove id cs ds (some p) c r vs f h = shown-remove (Within (c, r)) id cs ds vs f h

pub FitsAt-Away :
    (id : ℕ) (cs ds : Clients) (p : Option Pty) (c r : ℕ) (vs : Viewers)
    → Away id cs ds
    → has_key id vs ≡ false
    → FitsAt cs p c r vs
    → FitsAt ds p c r vs
FitsAt-Away id cs ds none c r vs f e h = tt
FitsAt-Away id cs ds (some p) c r vs f e h = shown-Away (Within (c, r)) id cs ds vs f e h

pub FitsAt-Fewer :
    (cs ds : Clients) (p : Option Pty) (c r : ℕ) (vs : Viewers)
    → Fewer cs ds
    → FitsAt cs p c r vs
    → FitsAt ds p c r vs
FitsAt-Fewer cs ds none c r vs f h = tt
FitsAt-Fewer cs ds (some p) c r vs f h = shown-Fewer (Within (c, r)) cs ds vs f h

pub Away-SameView : (id : ℕ) (cs ds es : Clients) → Away id cs ds → SameView ds es → Away id cs es
Away-SameView id cs ds es f v k e = v k ∙ f k e

-- A turn of a loop over the terminals that ends in a negotiation.
module _ (base cs : Clients) (r : Terminal × Bool) where
  pub announced :
      SameView base cs → Fits cs r.0 → Fits base (announce cs r).0 × SameView base (announce cs r).1
  announced v h = (
    Fits-SameView cs base r.0.pty r.0.cols r.0.rows r.0.viewers (SameView-sym base cs v) h,
    SameView-trans base cs _ v (told r),
  )
    where
      told : (q : Terminal × Bool) → SameView cs (announce cs q).1
      told (t, true) = broadcast_size-SameView cs t
      told (t, false) = SameView-refl cs

module _ (w : World) (takes : TakesSizes w.resizes) where
  pub viewer_leaves-Fits :
      (id : ℕ) (old base cs : Clients) (t : Terminal)
      → Away id old base
      → SameView base cs
      → Fits old t
      → Fits base (viewer_leaves w id cs t).0 × SameView base (viewer_leaves w id cs t).1
  unfolding viewer_leaves
  viewer_leaves-Fits id old base cs t a v h = elim (Bool-cases (has_key id t.viewers)) [
    | inl there ↦ rw there (
        announced base cs
          (renegotiate_after_leave w.resizes (record t { viewers = remove id t.viewers }) w.now cs)
          v
          (renegotiate_after_leave-Fits w.resizes takes cs
            (record t { viewers = remove id t.viewers }) w.now
            (FitsAt-remove id old cs t.pty t.cols t.rows t.viewers
              (Away-SameView id old base cs a v) h)))
    | inr gone ↦ rw gone (FitsAt-Away id old base t.pty t.cols t.rows t.viewers a gone h, v)
  ]

  pub drop_client-HubFits : (id : ℕ) (h : Hub) → HubFits h → HubFits (drop_client w id h)
  unfolding drop_client
  drop_client-HubFits id h f = AllFit-SameView base (looped.1) looped.0 (kept.1) (kept.0)
    where
      base : Clients
      base = remove id h.clients

      looped : Terminals × Clients
      looped = each_terminal (viewer_leaves w id) h.terminals base

      away : Away id h.clients base
      away k e = is_hidden-remove h.clients id k ∙ rw e

      kept : AllFit base looped.0 × SameView base looped.1
      kept =
          each_terminal-All (Fits h.clients) (Fits base) base (viewer_leaves w id)
            (λ cs t v. viewer_leaves-Fits id h.clients base cs t away v) h.terminals base
            (SameView-refl base) f

  -- A client that is no one's page off screen stays so when others are dropped.
  drop_client-shown :
      (id k : ℕ) (h : Hub)
      → HubFits h
      → is_hidden h.clients id ≡ false
      → is_hidden (drop_client w k h).clients id ≡ false
  unfolding drop_client
  drop_client-shown id k h f e =
      (each_terminal-All (Fits h.clients) (Fits (remove k h.clients)) (remove k h.clients)
          (viewer_leaves w k)
          (λ cs t v.
            viewer_leaves-Fits k h.clients (remove k h.clients) cs t
              (λ j d. is_hidden-remove h.clients k j ∙ rw d) v)
          h.terminals (remove k h.clients) (SameView-refl (remove k h.clients)) f).1
        id
      ∙ is_hidden-remove h.clients k id
      ∙ rw e (ground arith)

  drop_clients-HubFits :
      (ks : List ℕ) (id : ℕ) (h : Hub)
      → HubFits h
      → is_hidden h.clients id ≡ false
      → HubFits (drop_clients w ks h) × (is_hidden (drop_clients w ks h).clients id ≡ false)
  unfolding drop_clients
  drop_clients-HubFits [] id h f e = (f, e)
  drop_clients-HubFits (k ∷ ks) id h f e =
      drop_clients-HubFits ks id (drop_client w k h) (drop_client-HubFits k h f)
        (drop_client-shown id k h f e)

  pub without_page-HubFits :
      (page : Option Text) (id : ℕ) (h : Hub)
      → HubFits h
      → is_hidden h.clients id ≡ false
      → HubFits (without_page w page h) × (is_hidden (without_page w page h).clients id ≡ false)
  unfolding without_page
  without_page-HubFits none id h f e = (f, e)
  without_page-HubFits (some p) id h f e = drop_clients-HubFits (of_page p h.clients) id h f e

-- News that is sent to some of the clients.
pub send_last_load-HubFits : (id : ℕ) (h : Hub) → HubFits h → HubFits (send_last_load id h)
unfolding send_last_load
send_last_load-HubFits id h f = elim (Option-cases h.last_load) [
  | inl e ↦ rw (e, send_last_load) f
  | inr (l, e) ↦
      rw (e, send_last_load)
        (AllFit-SameView h.clients _ h.terminals (send_to-SameView h.clients id _) f)
]

pub send_state_to-HubFits :
    (w : World) (h : Hub) (id : ℕ) → HubFits h → HubFits (send_state_to w h id)
unfolding send_state_to
send_state_to-HubFits w h id f =
    AllFit-SameView h.clients _ h.terminals (send_to-SameView h.clients id _) f
