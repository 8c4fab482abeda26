-- ===== src/Hub/Saved/Forgotten.antt =====
-- What is left of a name that was forgotten.
use sessionhub.Base.{
  ℕ, ◌≤◌, ◌<◌, ◌≡◌, refl, inl, inr, Bool, true, false, not, any, arith, List, [], ◌∷◌, none, length,
  ◌==◌, if◌then◌else◌, All, Bool-cases,
}
use sessionhub.Strings.{filter}
use sessionhub.Strings.Laws.{filter-passes}
use sessionhub.Hub.Types.{Text, Terminals, SavedTerminal, error, config_write_failed}
use sessionhub.Hub.Queue.{send_to}
use sessionhub.Hub.State.{World, Hub, broadcast_state, gate_open}
use sessionhub.Hub.Saved.{is_saved_as, wears, unnamed, forget_terminal}

-- Neither an entry of the configuration nor a terminal has the name in the project.
abbrev pub NotSaved : World → Text → Text → List SavedTerminal → Type 0
NotSaved w project name = All (λ s. is_saved_as w project name s ≡ false)

abbrev pub NotWorn : World → Text → Text → Terminals → Type 0
NotWorn w project name = All (λ kt. wears w project name kt.1 ≡ false)

unnamed-NotWorn :
    (w : World) (project name : Text) (ts : Terminals)
    → NotWorn w project name (unnamed w project name ts)
unfolding unnamed
unnamed-NotWorn w project name [] = tt
unnamed-NotWorn w project name ((k, t) ∷ ts) =
    (one (wears w project name t) refl, unnamed-NotWorn w project name ts)
  where
    one :
        (b : Bool)
        → wears w project name t ≡ b
        → wears w project name (if wears w project name t then record t { name = none } else t)
          ≡ false
    one true e = rw e
    one false e = rw (e, e)

length-filter :
    (p : SavedTerminal → Bool) (ss : List SavedTerminal) → length (filter p ss) ≤ length ss
unfolding filter
length-filter p [] = omega arith
length-filter p (s ∷ ss) = ground (arith, length-filter p ss)

length-filter-any :
    (p : SavedTerminal → Bool) (ss : List SavedTerminal)
    → any p ss ≡ true
    → length (filter (λ s. not (p s)) ss) < length ss
unfolding filter
length-filter-any p [] e = cc
length-filter-any p (s ∷ ss) e = elim (Bool-cases (p s)) [
  | inl y ↦ rw y (omega (arith, length-filter (λ s. not (p s)) ss))
  | inr n ↦ rw n (omega (arith, length-filter-any p ss (rw n at e)))
]

All-not :
    (p : SavedTerminal → Bool) (ss : List SavedTerminal)
    → All (λ s. not (p s) ≡ true) ss
    → All (λ s. p s ≡ false) ss
All-not p [] h = tt
All-not p (s ∷ ss) (h, hs) = (one (p s) h, All-not p ss hs)
  where
    one : (b : Bool) → not b ≡ true → b ≡ false
    one true e = cc
    one false e = refl

broadcast_state-keeps :
    (w : World) (h : Hub)
    → ((broadcast_state w h).cfg ≡ h.cfg) × ((broadcast_state w h).terminals ≡ h.terminals)
unfolding broadcast_state
broadcast_state-keeps w h = elim (Bool-cases (gate_open h.gate w.now).0) [
  | inl y ↦ (rw (broadcast_state, y), rw (broadcast_state, y))
  | inr n ↦ (rw (broadcast_state, n), rw (broadcast_state, n))
]

-- Where an entry of the configuration has the name in the project, `ForgetTerminal` leaves none that
-- has it. If the file could be written, no terminal wears the name there any more. If not, the page is
-- told so and the terminals keep their names, but the entry is gone from the actor's configuration
-- all the same.
pub forget_terminal-NotSaved :
    (w : World) (saves : Bool) (id : ℕ) (project name : Text) (h : Hub)
    → any (is_saved_as w project name) h.cfg.saved ≡ true
    → let h' = forget_terminal w saves id project name h in
      NotSaved w project name h'.cfg.saved
      × (saves ≡ true → NotWorn w project name h'.terminals)
      × (saves ≡ false
          → (h'.terminals ≡ h.terminals)
            × (h'.clients ≡ send_to h.clients id (error config_write_failed)))
unfolding forget_terminal
forget_terminal-NotSaved w saves id project name h e =
    let kept = filter (λ s. not (is_saved_as w project name s)) h.cfg.saved in
    let clean : NotSaved w project name kept =
      All-not (is_saved_as w project name) kept
        (filter-passes (λ s. not (is_saved_as w project name s)) h.cfg.saved) in
    let fewer = length-filter-any (is_saved_as w project name) h.cfg.saved e in
    let changed : (length kept == length h.cfg.saved) ≡ false = ground (arith, fewer) in
    elim (Bool-cases saves) [
      | inr fails ↦ rw (forget_terminal, changed, fails) (clean, (λ q. cc), (λ q. (refl, refl)))
      | inl works ↦
          let keeps = broadcast_state-keeps w (record h {
            cfg = record h.cfg { saved = kept };
            terminals = unnamed w project name h.terminals;
          }) in
          rw (forget_terminal, changed, works, keeps.0, keeps.1)
            (clean, (λ q. unnamed-NotWorn w project name h.terminals), (λ q. cc))
    ]
