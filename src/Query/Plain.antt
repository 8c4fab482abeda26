-- ===== src/Query/Plain.antt =====
-- The filter on a stream with no query, on a query, and on a stream that comes in chunks.
use sessionhub.Base.{
  ℕ, ◌≡◌, ◌≢◌, refl, sym, ap, ◌⊎◌, inl, inr, List, [], ◌∷◌, ◌++◌, append_assoc, some, same, same→eq,
  Bool-cases, arith, All,
}
use sessionhub.Query.{Step, esc, answered, reply_to, settle, feed}

-- One step after another.
abbrev pub join : Step → Step → Step
join s t = record { out = s.out ++ t.out; replies = s.replies ++ t.replies; held = t.held }

-- Where the stream is cut into chunks makes no difference to output, replies and what is held.
pub feed-append :
    (xs ys held : List ℕ) → feed held (xs ++ ys) ≡ join (feed held xs) (feed (feed held xs).held ys)
unfolding feed
feed-append [] ys held = refl
feed-append (x ∷ xs) ys held = simp (feed-append xs ys, append_assoc)

settle-plain :
    (b : ℕ) → b ≢ esc → settle (b ∷ []) ≡ record { out = b ∷ []; replies = []; held = [] }
unfolding settle
settle-plain b h = ground arith

-- Output with no ESC in it passes unchanged, and is answered nothing.
pub feed-plain :
    (bs : List ℕ)
    → All (λ b. b ≢ esc) bs
    → feed [] bs ≡ record { out = bs; replies = []; held = [] }
unfolding feed
feed-plain [] h = refl
feed-plain (b ∷ bs) (hb, hs) = rw (settle-plain b hb, feed-plain bs hs)

reply_to-cases :
    (q r : List ℕ)
    → reply_to answered q ≡ some r
    → ((q ≡ esc ∷ b'[' ∷ b'6' ∷ b'n' ∷ []) ⊎ (q ≡ esc ∷ b'[' ∷ b'c' ∷ []))
      ⊎ (q ≡ esc ∷ b'[' ∷ b'0' ∷ b'c' ∷ [])
unfolding reply_to
reply_to-cases q r h = elim (Bool-cases (same (esc ∷ b'[' ∷ b'6' ∷ b'n' ∷ []) q)) [
  | inl e ↦ inl (inl (sym (same→eq _ q e)))
  | inr n1 ↦ elim (Bool-cases (same (esc ∷ b'[' ∷ b'c' ∷ []) q)) [
    | inl e ↦ inl (inr (sym (same→eq _ q e)))
    | inr n2 ↦ elim (Bool-cases (same (esc ∷ b'[' ∷ b'0' ∷ b'c' ∷ []) q)) [
      | inl e ↦ inr (sym (same→eq _ q e))
      | inr n3 ↦ ground arith
    ]
  ]
]

abbrev answering : List ℕ → List ℕ → Step
answering rest r = join (record { out = []; replies = r ∷ []; held = [] }) (feed [] rest)

-- A query that comes whole, where nothing is held, is answered with its own reply and leaves
-- nothing behind: what follows it is treated as a stream of its own.
pub feed-query :
    (q r rest : List ℕ) → reply_to answered q ≡ some r → feed [] (q ++ rest) ≡ answering rest r
unfolding feed settle
feed-query q r rest h = elim (reply_to-cases q r h) [
  | inl (inl e) ↦ rw e (ap (answering rest) (ground arith))
  | inl (inr e) ↦ rw e (ap (answering rest) (ground arith))
  | inr e ↦ rw e (ap (answering rest) (ground arith))
]
