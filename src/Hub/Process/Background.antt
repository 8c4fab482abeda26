-- ===== src/Hub/Process/Background.antt =====
-- When a terminal counts as working, over the counts of processes that were ever sampled.
use sessionhub.Base.{
  ℕ, ◌≤◌, ◌<◌, ◌≡◌, ◌⊎◌, ◌↔◌, refl, sym, subst, ◌∙◌, inl, inr, true, List, [], ◌∷◌, All, arith,
}
use sessionhub.Hub.Types.{Terminal, BgJob}
use sessionhub.Hub.State.{working}
use sessionhub.Hub.Process.{resting_of, background_row}

-- The terminal after a run of the sampler's counts.
abbrev pub sampled : List (ℕ × List BgJob) → Terminal → Terminal
sampled [] t = t
sampled ((procs, jobs) ∷ rows) t = sampled rows (background_row procs jobs t).0

abbrev pub Among : ℕ → List (ℕ × List BgJob) → Type 0
Among r [] = ⊥
Among r ((c, jobs) ∷ rows) = (r ≡ c) ⊎ Among r rows

-- No count other than zero is below `r`.
abbrev pub LeastOf : ℕ → List (ℕ × List BgJob) → Type 0
LeastOf r = All (λ row. (row.0 ≡ 0) ⊎ ((0 < r) × (r ≤ row.0)))

resting-row :
    (procs : ℕ) (jobs : List BgJob) (t : Terminal)
    → ((background_row procs jobs t).0.resting ≡ resting_of t.resting procs)
      × ((background_row procs jobs t).0.procs ≡ procs)
unfolding background_row
resting-row procs jobs t = ground arith

step_least :
    (r c : ℕ)
    → ((r ≡ 0) ⊎ ((0 < resting_of r c) × (resting_of r c ≤ r)))
      × ((c ≡ 0) ⊎ ((0 < resting_of r c) × (resting_of r c ≤ c)))
      × ((resting_of r c ≡ r) ⊎ (resting_of r c ≡ c))
unfolding resting_of
step_least r c = ground arith

lower :
    (r s t : ℕ)
    → (s ≡ 0) ⊎ ((0 < r) × (r ≤ s))
    → (t ≡ 0) ⊎ ((0 < s) × (s ≤ t))
    → (t ≡ 0) ⊎ ((0 < r) × (r ≤ t))
lower r s t p q = ground arith

sampled_least :
    (rows : List (ℕ × List BgJob)) (t : Terminal)
    → ((t.resting ≡ 0) ⊎ ((0 < (sampled rows t).resting) × ((sampled rows t).resting ≤ t.resting)))
      × LeastOf (sampled rows t).resting rows
      × (((sampled rows t).resting ≡ t.resting) ⊎ Among (sampled rows t).resting rows)
sampled_least [] t = (ground arith, tt, inl refl)
sampled_least ((c, jobs) ∷ rows) t =
    let u = (background_row c jobs t).0 in
    let rest = sampled_least rows u in
    let e = (resting-row c jobs t).0 in
    let one = step_least t.resting c in
    (
      lower (sampled rows u).resting u.resting t.resting rest.0
          (subst (λ m. (t.resting ≡ 0) ⊎ ((0 < m) × (m ≤ t.resting))) (sym e) one.0),
      (
        lower (sampled rows u).resting u.resting c rest.0
            (subst (λ m. (c ≡ 0) ⊎ ((0 < m) × (m ≤ c))) (sym e) one.1),
        rest.1,
      ),
      found (sampled rows u).resting u.resting t.resting c (Among (sampled rows u).resting rows)
          rest.2 (subst (λ m. (m ≡ t.resting) ⊎ (m ≡ c)) (sym e) one.2),
    )
  where
    found : (r m s d : ℕ) (A : Type 0) → (r ≡ m) ⊎ A → (m ≡ s) ⊎ (m ≡ d) → (r ≡ s) ⊎ ((r ≡ d) ⊎ A)
    found r m s d A (inl p) (inl q) = inl (p ∙ q)
    found r m s d A (inl p) (inr q) = inr (inl (p ∙ q))
    found r m s d A (inr a) q = inr (inr a)

working_row :
    (procs : ℕ) (jobs : List BgJob) (u : Terminal)
    → (working (background_row procs jobs u).0 ≡ true) ↔ ((0 < u.resting) × (u.resting < procs))
unfolding working background_row resting_of
working_row procs jobs u = ground arith

abbrev pub RestsAt : ℕ → List (ℕ × List BgJob) → Type 0
RestsAt r rows = LeastOf r rows × ((r ≡ 0) ⊎ Among r rows)

rests_at :
    (rows : List (ℕ × List BgJob)) (t : Terminal)
    → t.resting ≡ 0
    → RestsAt (sampled rows t).resting rows
rests_at rows t e =
    let s = sampled_least rows t in
    (s.1, start (sampled rows t).resting t.resting (Among (sampled rows t).resting rows) e s.2)
  where
    start : (r m : ℕ) (A : Type 0) → m ≡ 0 → (r ≡ m) ⊎ A → (r ≡ 0) ⊎ A
    start r m A z (inl p) = inl (p ∙ z)
    start r m A z (inr a) = inr a

-- After the samples `rows` of a terminal that had none, its rest is the least count of processes
-- above zero among them, or zero if there is none; and the next sample shows it as working exactly
-- when it counts more processes than that rest, which is above zero.
pub working-sampled :
    (rows : List (ℕ × List BgJob)) (procs : ℕ) (jobs : List BgJob) (t : Terminal)
    → t.resting ≡ 0
    → RestsAt (sampled rows t).resting rows
      × ((working (background_row procs jobs (sampled rows t)).0 ≡ true)
          ↔ ((0 < (sampled rows t).resting) × ((sampled rows t).resting < procs)))
working-sampled rows procs jobs t e = (rests_at rows t e, working_row procs jobs (sampled rows t))
