-- ===== src/Hub/Viewers/Views.antt =====
-- Who is on screen, before and after messages are sent.
use sessionhub.Base.{
  ℕ, ◌≡◌, ◌∙◌, refl, inl, inr, true, false, [], ◌∷◌, some, ◌==◌, lookup, insert, remove, arith,
  Option-cases, lookup-insert, lookup-remove, if◌then◌else◌, All,
}
use sessionhub.Hub.Types.{Client, Clients, Terminal, Terminals, Out}
use sessionhub.Hub.Queue.{sent, pushed_out, send, send_to}
use sessionhub.Hub.Sizes.{Viewers, is_hidden, shown, send_all, broadcast_size}
use sessionhub.Hub.State.{send_views}
use sessionhub.Hub.Viewers.{each_terminal}

-- The same clients are on screen.
abbrev pub SameView : Clients → Clients → Type 0
SameView cs ds = (k : ℕ) → is_hidden ds k ≡ is_hidden cs k

pub SameView-refl : (cs : Clients) → SameView cs cs
SameView-refl cs k = refl

pub SameView-trans : (cs ds es : Clients) → SameView cs ds → SameView ds es → SameView cs es
SameView-trans cs ds es f g k = g k ∙ f k

hidden-send : (c : Client) (out : Out) → (send c out).hidden ≡ c.hidden
unfolding send sent pushed_out
hidden-send c out = ground arith

pub is_hidden-insert :
    (cs : Clients) (id : ℕ) (c : Client) (k : ℕ)
    → is_hidden (insert id c cs) k ≡ (if id == k then c.hidden else is_hidden cs k)
unfolding is_hidden
is_hidden-insert cs id c k = rw (is_hidden, lookup-insert k id c cs) (ground arith)

pub is_hidden-remove :
    (cs : Clients) (id k : ℕ)
    → is_hidden (remove id cs) k ≡ (if id == k then false else is_hidden cs k)
unfolding is_hidden
is_hidden-remove cs id k = rw (is_hidden, lookup-remove k id cs) (ground arith)

is_hidden-some :
    (cs : Clients) (id k : ℕ) {c : Client}
    → lookup id cs ≡ some c
    → (id == k) ≡ true
    → is_hidden cs k ≡ c.hidden
unfolding is_hidden
is_hidden-some cs id k e h = ground arith

pub send_to-SameView : (cs : Clients) (id : ℕ) (out : Out) → SameView cs (send_to cs id out)
unfolding send_to
send_to-SameView cs id out k = elim (Option-cases (lookup id cs)) [
  | inl e ↦ rw (e, send_to)
  | inr (c, e) ↦
      rw (e, send_to)
        (is_hidden-insert cs id (send c out) k
          ∙ ground (arith, is_hidden-some cs id k e, hidden-send c out))
]

pub send_all-SameView : (vs : Viewers) (cs : Clients) (out : Out) → SameView cs (send_all cs vs out)
unfolding send_all
send_all-SameView [] cs out k = refl
send_all-SameView ((i, s) ∷ vs) cs out k =
    send_all-SameView vs (send_to cs i out) out k ∙ send_to-SameView cs i out k

pub broadcast_size-SameView : (cs : Clients) (t : Terminal) → SameView cs (broadcast_size cs t)
unfolding broadcast_size
broadcast_size-SameView cs t = send_all-SameView t.viewers cs _

pub send_views-SameView :
    (es cs : Clients) (full brief : Out) → SameView cs (send_views cs es full brief)
unfolding send_views
send_views-SameView [] cs full brief k = refl
send_views-SameView ((i, c) ∷ es) cs full brief k =
    send_views-SameView es _ full brief k ∙ send_to-SameView cs i _ k

pub shown-SameView : (cs ds : Clients) (vs : Viewers) → SameView cs ds → shown ds vs ≡ shown cs vs
unfolding shown
shown-SameView cs ds [] f = refl
shown-SameView cs ds ((i, s) ∷ vs) f = rw (f i, shown-SameView cs ds vs f)

-- A loop over the terminals whose turns keep the view and take `P` to `Q`.
pub each_terminal-All {ℓ κ} :
    (P : Terminal → Type ℓ) (Q : Terminal → Type κ) (base : Clients)
    (f : Clients → Terminal → Terminal × Clients)
    → ((cs : Clients) (t : Terminal)
        → SameView base cs
        → P t
        → Q (f cs t).0 × SameView base (f cs t).1)
    → (ts : Terminals) (cs : Clients) → SameView base cs
    → All (λ e. P e.1) ts
    → All (λ e. Q e.1) (each_terminal f ts cs).0 × SameView base (each_terminal f ts cs).1
unfolding each_terminal
each_terminal-All P Q base f step [] cs v h = (tt, v)
each_terminal-All P Q base f step ((k, t) ∷ ts) cs v (ht, hs) =
    let one = step cs t v ht in
    let rest = each_terminal-All P Q base f step ts (f cs t).1 one.1 hs in ((one.0, rest.0), rest.1)
