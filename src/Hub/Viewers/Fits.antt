-- ===== src/Hub/Viewers/Fits.antt =====
-- What a negotiation of src/state.rs leaves a terminal's size at, if the terminal backend takes the
-- sizes that it is given. `Relaunch`, which starts at the size it is sent, is not here.
use sessionhub.Base.{
  ℕ, ◌≡◌, refl, sym, subst, subst₂, inl, inr, Bool, true, false, ◌||◌, ◌&&◌, Option, none, some,
  ltb, ◌==◌, arith, Bool-cases, Option-cases, All,
}
use sessionhub.Hub.Types.{Clients, Terminal, Pty}
use sessionhub.Hub.Sizes.{
  Viewers, Resizes, shown, effective_size, apply_size, renegotiate_to, renegotiate_by, renegotiate,
  renegotiate_after_leave,
}
use sessionhub.Hub.Sizes.Smallest.{Within, IsSmallest, effective_size-IsSmallest}
use sessionhub.Hub.Viewers.Views.{SameView, shown-SameView, broadcast_size-SameView, SameView-trans}
use sessionhub.Hub.Viewers.{announce}

-- A terminal with a child running is no wider and no higher than any of its viewers on screen.
abbrev pub FitsAt : Clients → Option Pty → ℕ → ℕ → Viewers → Type 0
FitsAt clients none cols rows viewers = Unit
FitsAt clients (some p) cols rows viewers = All (Within (cols, rows)) (shown clients viewers)

abbrev pub Fits : Clients → Terminal → Type 0
Fits clients t = FitsAt clients t.pty t.cols t.rows t.viewers

-- The terminal backend takes every size that it is given.
abbrev pub TakesSizes : Resizes → Type 0
TakesSizes resizes = (id cols rows : ℕ) → resizes id cols rows ≡ true

FitsAt-All :
    (clients : Clients) (p : Option Pty) (c r : ℕ) (vs : Viewers)
    → All (Within (c, r)) (shown clients vs)
    → FitsAt clients p c r vs
FitsAt-All clients none c r vs h = tt
FitsAt-All clients (some p) c r vs h = h

pub Fits-SameView :
    (cs ds : Clients) (p : Option Pty) (c r : ℕ) (vs : Viewers)
    → SameView cs ds
    → FitsAt cs p c r vs
    → FitsAt ds p c r vs
Fits-SameView cs ds none c r vs f h = tt
Fits-SameView cs ds (some p) c r vs f h =
    subst (All (Within (c, r))) (sym (shown-SameView cs ds vs f)) h

module _ (resizes : Resizes) (takes : TakesSizes resizes) (clients : Clients) where
  apply_size-Fits :
      (t : Terminal) (cols rows : ℕ) (p : Option Pty)
      → t.pty ≡ p
      → All (Within (cols, rows)) (shown clients t.viewers)
      → Fits clients (apply_size resizes t cols rows p).0
  unfolding apply_size
  apply_size-Fits t cols rows none e h =
      subst (λ q. FitsAt clients q t.cols t.rows t.viewers) (sym e) tt
  apply_size-Fits t cols rows (some p) e h = rw (takes t.id cols rows) h

  renegotiate_to-Fits :
      (t : Terminal) (cols rows : ℕ)
      → All (Within (cols, rows)) (shown clients t.viewers)
      → Fits clients (renegotiate_to resizes t (cols, rows)).0
  unfolding renegotiate_to
  renegotiate_to-Fits t cols rows h = elim (Bool-cases (cols == t.cols && rows == t.rows)) [
    | inl e ↦ rw e (
        FitsAt-All clients t.pty t.cols t.rows t.viewers (
          subst₂ (λ c r. All (Within (c, r)) (shown clients t.viewers)) (ground arith)
            (ground arith) h))
    | inr e ↦ rw e (apply_size-Fits t cols rows t.pty refl h)
  ]

  renegotiate_by-Fits :
      (t : Terminal) (o : Option (ℕ × ℕ))
      → IsSmallest (shown clients t.viewers) o
      → Fits clients (renegotiate_by resizes t o).0
  unfolding renegotiate_by
  renegotiate_by-Fits t none h =
      FitsAt-All clients t.pty t.cols t.rows t.viewers
        (subst (All (Within (t.cols, t.rows))) (sym h) tt)
  renegotiate_by-Fits t (some (c, r)) h = renegotiate_to-Fits t c r h.0

  -- A negotiation makes the terminal fit, whatever its size was.
  pub renegotiate-Fits : (t : Terminal) → Fits clients (renegotiate resizes t clients).0
  unfolding renegotiate
  renegotiate-Fits t =
      renegotiate_by-Fits (record t { grow_at = none }) (effective_size t.viewers clients)
        (effective_size-IsSmallest t.viewers clients)

  -- After a viewer left, a terminal that fitted fits, grown or waiting to grow.
  pub renegotiate_after_leave-Fits :
      (t : Terminal) (now : ℕ)
      → Fits clients t
      → Fits clients (renegotiate_after_leave resizes t now clients).0
  unfolding renegotiate_after_leave
  renegotiate_after_leave-Fits t now h = elim (Option-cases (effective_size t.viewers clients)) [
    | inl e ↦ rw (e, renegotiate_after_leave) h
    | inr ((c, r), e) ↦ elim (Bool-cases (ltb t.cols c || ltb t.rows r)) [
      | inl grows ↦ rw (e, renegotiate_after_leave, grows) h
      | inr fits ↦ rw (e, renegotiate_after_leave, fits) (renegotiate-Fits t)
    ]
  ]

  pub announce-SameView :
      (cs : Clients) (r : Terminal × Bool)
      → SameView clients cs
      → SameView clients (announce cs r).1
  announce-SameView cs (t, true) v = SameView-trans clients cs _ v (broadcast_size-SameView cs t)
  announce-SameView cs (t, false) v = v
