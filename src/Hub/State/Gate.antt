-- ===== src/Hub/State/Gate.antt =====
-- How often all pages are told the state.
use sessionhub.Base.{
  ℕ, ◌+◌, ◌-◌, ◌≤◌, ◌≡◌, inl, inr, Bool, true, false, List, [], ◌∷◌, Option, none, some, ltb, arith,
  Bool-cases, ltb-false, le→ltb-false, if◌then◌else◌,
}
use sessionhub.Hub.State.{state_every, gate_open}

abbrev Gate : Type 0
Gate = Option ℕ × Bool

-- The times, of those at which a broadcast is asked for, at which the gate lets it through.
abbrev pub let_through : Gate → List ℕ → List ℕ
let_through g [] = []
let_through g (t ∷ ts) =
    let rest = let_through (gate_open g t).1 ts in if (gate_open g t).0 then t ∷ rest else rest

-- Each time is at least a second after the one before it, the first after `last`.
abbrev pub Apart : Option ℕ → List ℕ → Type 0
Apart last [] = Unit
Apart none (t ∷ ts) = Apart (some t) ts
Apart (some last) (t ∷ ts) = (last + state_every ≤ t) × Apart (some t) ts

-- Whenever broadcasts are asked for, those that the gate lets through are a second apart, the first
-- of them a second after the last one before.
pub let_through-Apart : (g : Gate) (times : List ℕ) → Apart g.0 (let_through g times)
unfolding gate_open
let_through-Apart (last, owed) [] = tt
let_through-Apart (none, owed) (t ∷ ts) = let_through-Apart (some t, false) ts
let_through-Apart (some last, owed) (t ∷ ts) = elim (Bool-cases (ltb (t - last) state_every)) [
  | inl early ↦ rw early (let_through-Apart (some last, true) ts)
  | inr late ↦
      rw late
        (omega (arith, ltb-false (t - last) state_every late), let_through-Apart (some t, false) ts)
]

pub opens_late :
    (last now : ℕ)
    → last + state_every ≤ now
    → gate_open (some last, true) now ≡ (true, (some now, false))
unfolding gate_open
opens_late last now le = rw (le→ltb-false (now - last) state_every (omega arith))
