-- ===== src/Hub/State/Order.antt =====
-- The order of what the pages are told.
use sessionhub.Base.{
  ℕ, ◌≤◌, ◌≡◌, ◌⊎◌, refl, inl, inr, Bool, true, false, List, [], ◌∷◌, arith, Bool-cases,
  if◌then◌else◌, map, All, same_self, same→eq, any,
}
use mathlib.Core.List.{Perm}
use sessionhub.Hub.Types.{ProjectInfo, Terminals, SavedTerminal}
use sessionhub.Hub.State.{
  World, Hub, state_msg, rank_of, with_live, terminal_list, terminal_info, path_key, same_path,
  project_rank, running_projects, saved_projects,
}
use sessionhub.Hub.State.Content.{Sorted, with_key, sorted, stable, permuted}

abbrev pub Some {ℓ} : {A : Type ℓ} → (A → Type 0) → List A → Type 0
Some P [] = ⊥
Some P (x ∷ xs) = P x ⊎ Some P xs

-- Some terminal that is alive runs in the project's folder; some saved terminal is of it.
abbrev pub IsRunning : World → Terminals → ProjectInfo → Type 0
IsRunning w ts p = Some (λ e. (e.1.alive ≡ true) × (path_key w e.1.project ≡ path_key w p.path)) ts

abbrev pub IsNamed : World → List SavedTerminal → ProjectInfo → Type 0
IsNamed w ss p = Some (λ s. path_key w s.project ≡ path_key w p.path) ss

-- One project may stand in front of another: if that one is running, so is this one, and if that one
-- has a saved terminal, this one has one too or is running.
abbrev pub MayPrecede : World → Hub → ProjectInfo → ProjectInfo → Type 0
MayPrecede w h p q =
    (IsRunning w h.terminals q → IsRunning w h.terminals p)
    × (IsNamed w h.cfg.saved q → IsRunning w h.terminals p ⊎ IsNamed w h.cfg.saved p)

abbrev pub InOrder : World → Hub → List ProjectInfo → Type 0
InOrder w h [] = Unit
InOrder w h (p ∷ ps) = All (MayPrecede w h p) ps × InOrder w h ps

module _ (w : World) (p : ProjectInfo) where
  any→IsRunning :
      (ts : Terminals)
      → any (λ q. same_path w q p.path) (running_projects ts) ≡ true
      → IsRunning w ts p
  any→IsRunning [] e = cc
  any→IsRunning ((k, t) ∷ ts) e = elim (Bool-cases t.alive) [
    | inr dead ↦ inr (any→IsRunning ts (rw dead at e))
    | inl on ↦ elim (Bool-cases (same_path w t.project p.path)) [
      | inl y ↦ inl (on, same→eq (path_key w t.project) (path_key w p.path) y)
      | inr n ↦ inr (any→IsRunning ts (rw (on, n) at e))
    ]
  ]

  IsRunning→any :
      (ts : Terminals)
      → IsRunning w ts p
      → any (λ q. same_path w q p.path) (running_projects ts) ≡ true
  IsRunning→any [] x = elim x [ ]
  IsRunning→any ((k, t) ∷ ts) (inl (on, e)) = rw (on, e, same_self (path_key w p.path))
  IsRunning→any ((k, t) ∷ ts) (inr later) = ground (arith, IsRunning→any ts later)

  any→IsNamed :
      (ss : List SavedTerminal)
      → any (λ q. same_path w q p.path) (saved_projects ss) ≡ true
      → IsNamed w ss p
  any→IsNamed [] e = cc
  any→IsNamed (s ∷ ss) e = elim (Bool-cases (same_path w s.project p.path)) [
    | inl y ↦ inl (same→eq (path_key w s.project) (path_key w p.path) y)
    | inr n ↦ inr (any→IsNamed ss (rw n at e))
  ]

  IsNamed→any :
      (ss : List SavedTerminal)
      → IsNamed w ss p
      → any (λ q. same_path w q p.path) (saved_projects ss) ≡ true
  IsNamed→any [] x = elim x [ ]
  IsNamed→any (s ∷ ss) (inl e) = rw (e, same_self (path_key w p.path))
  IsNamed→any (s ∷ ss) (inr later) = ground (arith, IsNamed→any ss later)

-- One rank is at most another: what lifts the second lifts the first as high.
rank_le :
    (run named run' named' : Bool)
    → (if run then 0 else if named then 1 else 2) ≤ (if run' then 0 else if named' then 1 else 2)
    → (run' ≡ true → run ≡ true) × (named' ≡ true → (run ≡ true) ⊎ (named ≡ true))
rank_le true named run' named' le = ((λ e. refl), (λ e. inl refl))
rank_le false true true named' le = absurd (omega arith)
rank_le false true false named' le = ((λ e. e), (λ e. inr refl))
rank_le false false true named' le = absurd (omega arith)
rank_le false false false true le = absurd (omega arith)
rank_le false false false false le = ((λ e. e), (λ e. inr e))

may_precede :
    (w : World) (h : Hub) (p q : ProjectInfo) → rank_of w h p ≤ rank_of w h q → MayPrecede w h p q
unfolding project_rank
may_precede w h p q le =
    let lifts =
      rank_le (any (λ x. same_path w x p.path) (running_projects h.terminals))
        (any (λ x. same_path w x p.path) (saved_projects h.cfg.saved))
        (any (λ x. same_path w x q.path) (running_projects h.terminals))
        (any (λ x. same_path w x q.path) (saved_projects h.cfg.saved)) le in
    (
      (λ r. any→IsRunning w p h.terminals (lifts.0 (IsRunning→any w q h.terminals r))),
      (λ n. named (lifts.1 (IsNamed→any w q h.cfg.saved n))),
    )
  where
    named :
        (any (λ x. same_path w x p.path) (running_projects h.terminals) ≡ true)
          ⊎ (any (λ x. same_path w x p.path) (saved_projects h.cfg.saved) ≡ true)
        → IsRunning w h.terminals p ⊎ IsNamed w h.cfg.saved p
    named (inl r) = inl (any→IsRunning w p h.terminals r)
    named (inr n) = inr (any→IsNamed w p h.cfg.saved n)

all_precede :
    (w : World) (h : Hub) (p : ProjectInfo) (ps : List ProjectInfo)
    → All (λ q. rank_of w h p ≤ rank_of w h q) ps
    → All (MayPrecede w h p) ps
all_precede w h p [] les = tt
all_precede w h p (q ∷ ps) (le, les) = (may_precede w h p q le, all_precede w h p ps les)

Sorted-InOrder :
    (w : World) (h : Hub) (ps : List ProjectInfo) → Sorted (rank_of w h) ps → InOrder w h ps
Sorted-InOrder w h [] s = tt
Sorted-InOrder w h (p ∷ ps) (les, s) = (all_precede w h p ps les, Sorted-InOrder w h ps s)

-- The pages are told every terminal once, by rising id; and every project that was scanned once, so
-- that one with a terminal that is alive is never behind one without, one with a saved terminal
-- never behind one that has neither, and those of one rank are in the order of the scan. A terminal
-- is a project's if their paths have one key.
pub state_msg-InOrder :
    (w : World) (h : Hub)
    → Sorted (λ t. t.id) (state_msg w h).terminals
      × Perm (map (λ e. terminal_info e.1) h.terminals) (state_msg w h).terminals
      × InOrder w h (state_msg w h).projects
      × Perm (map (with_live h.terminals) h.projects) (state_msg w h).projects
      × ((k : ℕ)
          → with_key (rank_of w h) k (state_msg w h).projects
            ≡ with_key (rank_of w h) k (map (with_live h.terminals) h.projects))
unfolding state_msg terminal_list
state_msg-InOrder w h = (
  sorted (λ t. t.id) (map (λ e. terminal_info e.1) h.terminals),
  ∣ permuted (λ t. t.id) (map (λ e. terminal_info e.1) h.terminals) ∣₁,
  Sorted-InOrder w h (state_msg w h).projects
      (sorted (rank_of w h) (map (with_live h.terminals) h.projects)),
  ∣ permuted (rank_of w h) (map (with_live h.terminals) h.projects) ∣₁,
  λ k. stable (rank_of w h) k (map (with_live h.terminals) h.projects),
)
