-- ===== src/Hub/Viewers/Gone.antt =====
-- Who views the terminals after a client's connection went down.
use sessionhub.Base.{
  ℕ, ◌≡◌, refl, ap, ◌∙◌, inl, inr, true, false, List, [], ◌∷◌, Option, none, some, ◌==◌, remove,
  has_key, arith, Bool-cases, Option-cases, All, ltb, ◌||◌, ◌&&◌,
}
use sessionhub.Hub.Types.{Clients, Terminal, Terminals, Pty}
use sessionhub.Hub.Sizes.{
  Resizes, apply_size, renegotiate_to, renegotiate_by, renegotiate, renegotiate_after_leave,
  effective_size,
}
use sessionhub.Hub.State.{World, Hub}
use sessionhub.Hub.Viewers.{viewer_leaves, each_terminal, drop_client, client_down}

module _ (resizes : Resizes) where
  viewers-apply_size :
      (t : Terminal) (c r : ℕ) (p : Option Pty) → (apply_size resizes t c r p).0.viewers ≡ t.viewers
  unfolding apply_size
  viewers-apply_size t c r none = refl
  viewers-apply_size t c r (some p) = elim (Bool-cases (resizes t.id c r)) [
    | inl e ↦ rw e
    | inr e ↦ rw e
  ]

  viewers-renegotiate_to :
      (t : Terminal) (s : ℕ × ℕ) → (renegotiate_to resizes t s).0.viewers ≡ t.viewers
  unfolding renegotiate_to
  viewers-renegotiate_to t (c, r) = elim (Bool-cases (c == t.cols && r == t.rows)) [
    | inl e ↦ rw e
    | inr e ↦ rw e (viewers-apply_size t c r t.pty)
  ]

  viewers-renegotiate_by :
      (t : Terminal) (o : Option (ℕ × ℕ)) → (renegotiate_by resizes t o).0.viewers ≡ t.viewers
  unfolding renegotiate_by
  viewers-renegotiate_by t none = refl
  viewers-renegotiate_by t (some s) = viewers-renegotiate_to t s

  -- No negotiation changes who views a terminal.
  pub viewers-renegotiate :
      (t : Terminal) (clients : Clients) → (renegotiate resizes t clients).0.viewers ≡ t.viewers
  unfolding renegotiate
  viewers-renegotiate t clients =
      viewers-renegotiate_by (record t { grow_at = none }) (effective_size t.viewers clients)

  pub viewers-renegotiate_after_leave :
      (t : Terminal) (now : ℕ) (clients : Clients)
      → (renegotiate_after_leave resizes t now clients).0.viewers ≡ t.viewers
  unfolding renegotiate_after_leave
  viewers-renegotiate_after_leave t now clients =
      elim (Option-cases (effective_size t.viewers clients)) [
        | inl e ↦ rw (e, renegotiate_after_leave)
        | inr ((c, r), e) ↦ elim (Bool-cases (ltb t.cols c || ltb t.rows r)) [
          | inl grows ↦ rw (e, renegotiate_after_leave, grows)
          | inr fits ↦ rw (e, renegotiate_after_leave, fits) (viewers-renegotiate t clients)
        ]
      ]

has_key-remove {ℓ} : {V : Type ℓ} (k : ℕ) (m : List (ℕ × V)) → has_key k (remove k m) ≡ false
unfolding has_key remove
has_key-remove k [] = refl
has_key-remove k ((j, v) ∷ m) = ground (arith, has_key-remove k m)

-- No terminal has the client among its viewers.
abbrev pub NotViewed : ℕ → Terminals → Type 0
NotViewed id = All (λ e. has_key id e.1.viewers ≡ false)

viewer_leaves-gone :
    (w : World) (id : ℕ) (cs : Clients) (t : Terminal)
    → has_key id (viewer_leaves w id cs t).0.viewers ≡ false
unfolding viewer_leaves
viewer_leaves-gone w id cs t = elim (Bool-cases (has_key id t.viewers)) [
  | inl e ↦ rw e (
      ap (has_key id) (
        viewers-renegotiate_after_leave w.resizes (record t { viewers = remove id t.viewers }) w.now
          cs)
      ∙ has_key-remove id t.viewers)
  | inr e ↦ rw e e
]

each_terminal-NotViewed :
    (w : World) (id : ℕ) (ts : Terminals) (cs : Clients)
    → NotViewed id (each_terminal (viewer_leaves w id) ts cs).0
unfolding each_terminal
each_terminal-NotViewed w id [] cs = tt
each_terminal-NotViewed w id ((k, t) ∷ ts) cs =
    (viewer_leaves-gone w id cs t, each_terminal-NotViewed w id ts (viewer_leaves w id cs t).1)

-- When the connection of a client that the actor knows goes down, it is a viewer of no terminal.
pub client_down-NotViewed :
    (w : World) (id : ℕ) (h : Hub)
    → has_key id h.clients ≡ true
    → NotViewed id (client_down w id h).terminals
unfolding client_down drop_client
client_down-NotViewed w id h e = rw e (each_terminal-NotViewed w id h.terminals _)
