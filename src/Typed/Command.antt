-- ===== src/Typed/Command.antt =====
-- What `clean_command` and `runnable` let through.
use sessionhub.Base.{
  ◌+◌, refl, ℕ, zero, suc, ◌≤◌, ◌≡◌, ◌⊎◌, inl, inr, Bool, true, false, List, [], ◌∷◌, ◌++◌, length,
  take, arith, length-take, Bool-cases, if◌then◌else◌, All, codes,
}
use sessionhub.Utf8.{is_control, is_whitespace, trim, trim_start, trim_end}
use sessionhub.Utf8.Laws.{length-trim, length-trim_start}
use sessionhub.Typed.{max_command, printable, clean_command, saved_command, runnable, first_word}

abbrev Clean : ℕ → Type 0
Clean c = is_control c ≡ false

printable-Clean : (cs : List ℕ) → All Clean (printable cs)
printable-Clean [] = tt
printable-Clean (c ∷ cs) = elim (Bool-cases (is_control c)) [
  | inl e ↦ rw e (printable-Clean cs)
  | inr e ↦ rw e (e, printable-Clean cs)
]

module _ (P : ℕ → Type 0) where
  All-take : (n : ℕ) (cs : List ℕ) → All P cs → All P (take n cs)
  All-take zero cs h = tt
  All-take (suc n) [] h = tt
  All-take (suc n) (c ∷ cs) (hc, hs) = (hc, All-take n cs hs)

  All-trim_start : (cs : List ℕ) → All P cs → All P (trim_start cs)
  unfolding trim_start
  All-trim_start [] h = tt
  All-trim_start (c ∷ cs) h = elim (Bool-cases (is_whitespace c)) [
    | inl e ↦ rw e (All-trim_start cs h.1)
    | inr e ↦ rw e h
  ]

  All-trim_end : (cs : List ℕ) → All P cs → All P (trim_end cs)
  unfolding trim_end
  All-trim_end [] h = tt
  All-trim_end (c ∷ cs) (hc, hs) = keep (trim_end cs) (All-trim_end cs hs)
    where
      keep :
          (r : List ℕ)
          → All P r
          → All P (elim r [ [] ↦ if is_whitespace c then [] else c ∷ [] | d ∷ ds ↦ c ∷ d ∷ ds ])
      keep [] hr = elim (Bool-cases (is_whitespace c)) [ inl e ↦ rw e tt | inr e ↦ rw e (hc, tt) ]
      keep (d ∷ ds) hr = (hc, hr)

  All-trim : (cs : List ℕ) → All P cs → All P (trim cs)
  unfolding trim
  All-trim cs h = All-trim_end (trim_start cs) (All-trim_start cs h)

clean_command-Clean :
    (raw : List ℕ)
    → All (λ c. is_control c ≡ false) (clean_command raw)
      × (length (clean_command raw) ≤ max_command)
unfolding clean_command
clean_command-Clean raw = (
  All-trim Clean (take max_command (printable raw))
      (All-take Clean max_command (printable raw) (printable-Clean raw)),
  omega (
    arith,
    length-trim (take max_command (printable raw)),
    length-take max_command (printable raw),
  ),
)

-- `runnable` gives back the command as it was typed, or the same words after the prefix that runs a
-- file of this folder, and the latter only if the folder holds a file named by the first word.
pub runnable_cases :
    (windows : Bool) (is_file : List ℕ → Bool) (command : List ℕ)
    → (runnable windows is_file command ≡ command)
      ⊎ ((is_file (first_word (trim_start command)) ≡ true)
          × (runnable windows is_file command
              ≡ (if windows then codes ".\\" else codes "./") ++ trim_start command))
unfolding runnable
runnable_cases windows is_file command =
    elim (Bool-cases (is_file (first_word (trim_start command)))) [
      | inl e ↦ ground arith
      | inr e ↦ inl (rw e (ground arith))
    ]

All-runnable :
    (windows : Bool) (is_file : List ℕ → Bool) (command : List ℕ)
    → All Clean command
    → length command ≤ max_command
    → All Clean (runnable windows is_file command)
      × (length (runnable windows is_file command) ≤ max_command + 2)
unfolding is_control
All-runnable windows is_file command h short = elim (runnable_cases windows is_file command) [
  | inl e ↦ rw e (h, omega (arith, short))
  | inr (there, e) ↦ rw e (prefixed windows)
]
  where
    prefixed :
        (b : Bool)
        → All Clean ((if b then codes ".\\" else codes "./") ++ trim_start command)
          × (length ((if b then codes ".\\" else codes "./") ++ trim_start command)
              ≤ max_command + 2)
    prefixed true = (
      (refl, (refl, All-trim_start Clean command h)),
      omega (arith, length-trim_start command, short),
    )
    prefixed false = (
      (refl, (refl, All-trim_start Clean command h)),
      omega (arith, length-trim_start command, short),
    )

-- The command that `SaveTerminal` saves holds no control character, so no line break, and at most
-- 2002 characters: 2000 of what was sent, and the two in front that run a file of the folder.
pub saved_command-Clean :
    (windows : Bool) (is_file : List ℕ → Bool) (command : List ℕ)
    → All (λ c. is_control c ≡ false) (saved_command windows is_file command)
      × (length (saved_command windows is_file command) ≤ max_command + 2)
saved_command-Clean windows is_file command =
    let clean = clean_command-Clean command in
    All-runnable windows is_file (clean_command command) clean.0 clean.1
