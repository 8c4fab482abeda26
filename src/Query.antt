-- ===== src/Query.antt =====
-- src/pty.rs, `DsrFilter`: the terminal queries that the daemon answers itself.
pub mod Tokens
pub mod Plain
mod Tests
use sessionhub.Base.{
  ℕ, Bool, true, false, List, [], ◌∷◌, ◌++◌, Option, none, some, ◌||◌, ◌&&◌, ◌==◌, any, same,
  if◌then◌else◌,
}

abbrev pub esc : ℕ
esc = 0x1b

-- `ANSWERED`: each query with its reply.
abbrev pub answered : List (List ℕ × List ℕ)
answered =
    (esc ∷ b'[' ∷ b'6' ∷ b'n' ∷ [], esc ∷ b'[' ∷ b'1' ∷ b';' ∷ b'1' ∷ b'R' ∷ [])
    ∷ (esc ∷ b'[' ∷ b'c' ∷ [], esc ∷ b'[' ∷ b'?' ∷ b'1' ∷ b';' ∷ b'2' ∷ b'c' ∷ [])
    ∷ (esc ∷ b'[' ∷ b'0' ∷ b'c' ∷ [], esc ∷ b'[' ∷ b'?' ∷ b'1' ∷ b';' ∷ b'2' ∷ b'c' ∷ [])
    ∷ []

-- `q.starts_with(p)`.
unfoldable pub starts_with : List ℕ → List ℕ → Bool
starts_with q [] = true
starts_with [] (b ∷ p) = false
starts_with (a ∷ q) (b ∷ p) = a == b && starts_with q p

-- `ANSWERED.iter().find(|(q, _)| *q == held)`, its reply.
unfoldable pub reply_to : List (List ℕ × List ℕ) → List ℕ → Option (List ℕ)
reply_to [] held = none
reply_to ((q, r) ∷ qs) held = if same q held then some r else reply_to qs held

unfoldable pub may_start : List ℕ → Bool
unfolding starts_with
may_start held = any (λ e. starts_with e.0 held) answered

pub record Step : Type 0 where
  pub out : List ℕ
  pub replies : List (List ℕ)
  pub held : List ℕ

-- The inner `loop`, over the bytes held.
unfoldable pub settle : List ℕ → Step
unfolding reply_to may_start
settle [] = record { out = []; replies = []; held = [] }
settle (b ∷ rest) =
    let later = settle rest in
    elim (reply_to answered (b ∷ rest)) [
      | some r ↦ record { out = []; replies = r ∷ []; held = [] }
      | none ↦
          if may_start (b ∷ rest)
          then record { out = []; replies = []; held = b ∷ rest }
          else record later { out = b ∷ later.out }
    ]

-- The outer `for`, over the bytes fed.
unfoldable pub feed : List ℕ → List ℕ → Step
unfolding settle
feed held [] = record { out = []; replies = []; held = held }
feed held (b ∷ bs) =
    let s = settle (held ++ b ∷ []) in
    let t = feed s.held bs in
    record { out = s.out ++ t.out; replies = s.replies ++ t.replies; held = t.held }
