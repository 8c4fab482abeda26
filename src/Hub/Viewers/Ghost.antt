-- ===== src/Hub/Viewers/Ghost.antt =====
-- A client that attaches after the actor forgot it.
use sessionhub.Base.{
  has_key-lookup-none, ap₂, Bool-cases, ◌==◌, refl, All, subst, ℕ, ◌≡◌, ap, ◌∙◌, inl, inr, Bool,
  true, false, List, [], ◌∷◌, Option, none, some, lookup, insert, has_key, arith, Option-cases,
  if◌then◌else◌, ==-self, lookup-insert,
}
use sessionhub.Hub.Types.{Clients, Terminal, Out}
use sessionhub.Hub.Queue.{send, send_to}
use sessionhub.Hub.Sizes.{Viewers, effective_size, broadcast_size, send_all, sane_size}
use sessionhub.Hub.State.{World, Hub}
use sessionhub.Hub.Viewers.{client_down, join, replay_of, send_replay, attach_to, attach}
use sessionhub.Hub.Viewers.Gone.{viewers-renegotiate}
use sessionhub.Hub.Sizes.Smallest.{Within}
use sessionhub.Hub.Sizes.Suits.{OnScreen, Suits, effective_size-Suits}

insert-absent {ℓ} :
    {V : Type ℓ} (k j : ℕ) (v w : V) (m : List (ℕ × V))
    → lookup j m ≡ some w
    → has_key k m ≡ false
    → has_key k (insert j v m) ≡ false
unfolding lookup insert has_key
insert-absent k j v w [] e h = cc
insert-absent k j v w ((i, x) ∷ m) e h = ground (arith, insert-absent k j v w m)

send_to-absent :
    (k : ℕ) (cs : Clients) (id : ℕ) (out : Out)
    → has_key k cs ≡ false
    → has_key k (send_to cs id out) ≡ false
unfolding send_to
send_to-absent k cs id out h = elim (Option-cases (lookup id cs)) [
  | inl e ↦ rw (e, send_to) h
  | inr (c, e) ↦ rw (e, send_to) (insert-absent k id (send c out) c cs e h)
]

send_all-absent :
    (k : ℕ) (vs : Viewers) (cs : Clients) (out : Out)
    → has_key k cs ≡ false
    → has_key k (send_all cs vs out) ≡ false
unfolding send_all
send_all-absent k [] cs out h = h
send_all-absent k ((i, s) ∷ vs) cs out h =
    send_all-absent k vs (send_to cs i out) out (send_to-absent k cs i out h)

send_replay-absent :
    (k : ℕ) (cs : Clients) (id tid : ℕ) (t : Terminal) (bytes : List ℕ) (from : ℕ)
    → has_key k cs ≡ false
    → has_key k (send_replay cs id tid t (bytes, from)) ≡ false
unfolding send_replay
send_replay-absent k cs id tid t [] from h = send_to-absent k _ id _ (send_to-absent k cs id _ h)
send_replay-absent k cs id tid t (b ∷ bs) from h =
    send_to-absent k _ id _ (send_to-absent k _ id _ (send_to-absent k cs id _ h))

All-at {ℓ} :
    {V : Type ℓ} (P : ℕ × V → Type 0) (k : ℕ) (m : List (ℕ × V)) {v : V}
    → All P m
    → lookup k m ≡ some v
    → P (k, v)
unfolding lookup
All-at P k [] h e = cc
All-at P k ((j, w) ∷ m) {v} (hw, hs) e = elim (Bool-cases (j == k)) [
  | inl hit ↦
      let j_is : j ≡ k = ground arith in
      let w_is : w ≡ v = cc (rw hit at e) in subst P (ap₂ (λ x y. (x, y)) j_is w_is) hw
  | inr miss ↦ All-at P k m hs (rw miss at e)
]

-- Among the viewers is one of this size, and the size negotiated among them is within it.
abbrev pub Counts : Clients → Viewers → ℕ → ℕ × ℕ → Type 0
Counts clients viewers id wanted =
    (lookup id viewers ≡ some wanted)
    × (size : ℕ × ℕ) × (effective_size viewers clients ≡ some size)
    × Within size wanted

unknown-Counts :
    (clients : Clients) (viewers : Viewers) (id : ℕ) (wanted : ℕ × ℕ)
    → has_key id clients ≡ false
    → lookup id viewers ≡ some wanted
    → Counts clients viewers id wanted
unknown-Counts clients viewers id wanted gone l =
    let fits =
      by_size (effective_size viewers clients) refl (effective_size-Suits viewers clients) in
    (l, fits.0, fits.1, fits.2)
  where
    on : OnScreen clients id
    on c e = cc (has_key-lookup-none id clients gone, e)

    by_size :
        (o : Option (ℕ × ℕ))
        → effective_size viewers clients ≡ o
        → Suits clients viewers o
        → (size : ℕ × ℕ) × (effective_size viewers clients ≡ some size) × Within size wanted
    by_size none e none_on = absurd (All-at (λ v. ¬ OnScreen clients v.0) id viewers none_on l on)
    by_size (some size) e (within, rest, more) =
        (size, e, All-at (λ v. OnScreen clients v.0 → Within size v.1) id viewers within l on)

-- The actor does not know the client, yet it is a viewer of the terminal whose size counts.
abbrev pub Ghost : ℕ → ℕ × ℕ → ℕ → Hub → Type 0
Ghost id wanted tid h =
    (has_key id h.clients ≡ false)
    × (t : Terminal) × (lookup tid h.terminals ≡ some t)
    × Counts h.clients t.viewers id wanted

attach_to-Ghost :
    (w : World) (id tid cols rows : ℕ) (since tail : Option ℕ) (t : Terminal) (h : Hub)
    → has_key id h.clients ≡ false
    → Ghost id (cols, rows) tid (attach_to w id tid (cols, rows) since tail t h)
unfolding attach_to broadcast_size join
attach_to-Ghost w id tid cols rows since tail t h e = (
  told (join w id cols rows h.clients t).1,
  joined,
  found,
  unknown-Counts _ joined.viewers id (cols, rows) (told (join w id cols rows h.clients t).1) viewed,
)
  where
    joined : Terminal
    joined = (join w id cols rows h.clients t).0

    found : lookup tid (insert tid joined h.terminals) ≡ some joined
    found = lookup-insert tid tid joined h.terminals ∙ rw (==-self tid)

    viewed : lookup id joined.viewers ≡ some (cols, rows)
    viewed =
        ap (lookup id) (
          viewers-renegotiate w.resizes (record t { viewers = insert id (cols, rows) t.viewers })
            h.clients)
        ∙ lookup-insert id id (cols, rows) t.viewers
        ∙ rw (==-self id)

    replayed : Clients
    replayed = send_replay h.clients id tid joined (replay_of joined.ring since tail)

    absent : has_key id replayed ≡ false
    absent =
        send_replay-absent id h.clients id tid joined (replay_of joined.ring since tail).0
          (replay_of joined.ring since tail).1 e

    told : (b : Bool) → has_key id (if b then broadcast_size replayed joined else replayed) ≡ false
    told true = send_all-absent id joined.viewers replayed _ absent
    told false = absent

-- When a client that the actor has forgotten attaches to a terminal, it is a viewer of it, and the
-- size negotiated for the terminal is within the size it asked for, with 1 for a 0; it is so still
-- after its connection goes down.
pub attach-Ghost :
    (w w2 : World) (id tid cols rows : ℕ) (since tail : Option ℕ) (t : Terminal) (h : Hub)
    → has_key id h.clients ≡ false
    → lookup tid h.terminals ≡ some t
    → Ghost id
        (sane_size cols rows)
        tid
        (client_down w2 id (attach w id tid cols rows since tail h))
unfolding attach client_down
attach-Ghost w w2 id tid cols rows since tail t h e l = rw (l, attach, (ghost).0) ghost
  where
    ghost :
        Ghost id (sane_size cols rows) tid (attach_to w id tid (sane_size cols rows) since tail t h)
    ghost =
        attach_to-Ghost w id tid (sane_size cols rows).0 (sane_size cols rows).1 since tail t h e
