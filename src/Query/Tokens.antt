-- ===== src/Query/Tokens.antt =====
-- What the filter does with a stream: plain bytes, queries and replies.
use sessionhub.Base.{
  ℕ, ◌≡◌, refl, sym, ap, ap₂, ◌∙◌, ◌⊎◌, inl, inr, List, [], ◌∷◌, ◌++◌, append-nil, append_assoc,
  none, some, Option-cases, Bool-cases, arith, ◌≤◌, length, true,
}
use sessionhub.Query.{Step, answered, reply_to, may_start, settle, feed}

-- A piece of the stream: a byte of output, or a query with the reply it is owed.
pub data Token : Type 0 where
  plain : ℕ → Token
  query : (q r : List ℕ) → reply_to answered q ≡ some r → Token

abbrev pub raw : List Token → List ℕ
raw [] = []
raw (plain b ∷ ts) = b ∷ raw ts
raw (query q r _ ∷ ts) = q ++ raw ts

abbrev pub plains : List Token → List ℕ
plains [] = []
plains (plain b ∷ ts) = b ∷ plains ts
plains (query q r _ ∷ ts) = plains ts

abbrev pub owed : List Token → List (List ℕ)
owed [] = []
owed (plain b ∷ ts) = owed ts
owed (query q r _ ∷ ts) = r ∷ owed ts

-- The stream `s` was cut into tokens and what is still held.
pub record Cuts (s : List ℕ) (step : Step) : Type 0 where
  pub tokens : List Token
  pub whole : raw tokens ++ step.held ≡ s
  pub out_eq : step.out ≡ plains tokens
  pub replies_eq : step.replies ≡ owed tokens

raw-append : (ts us : List Token) → raw (ts ++ us) ≡ raw ts ++ raw us
raw-append [] us = refl
raw-append (plain b ∷ ts) us = ap (λ t. b ∷ t) (raw-append ts us)
raw-append (query q r e ∷ ts) us =
    ap (λ t. q ++ t) (raw-append ts us) ∙ sym (append_assoc q (raw ts) (raw us))

plains-append : (ts us : List Token) → plains (ts ++ us) ≡ plains ts ++ plains us
plains-append [] us = refl
plains-append (plain b ∷ ts) us = ap (λ t. b ∷ t) (plains-append ts us)
plains-append (query q r e ∷ ts) us = plains-append ts us

owed-append : (ts us : List Token) → owed (ts ++ us) ≡ owed ts ++ owed us
owed-append [] us = refl
owed-append (plain b ∷ ts) us = owed-append ts us
owed-append (query q r e ∷ ts) us = ap (λ t. r ∷ t) (owed-append ts us)

settle-Cuts : (held : List ℕ) → Cuts held (settle held)
unfolding settle
settle-Cuts [] = record { tokens = []; whole = refl; out_eq = refl; replies_eq = refl }
settle-Cuts (b ∷ rest) = elim (Option-cases (reply_to answered (b ∷ rest))) [
  | inr (r, e) ↦
      rw (e, settle)
        (record {
          tokens = query (b ∷ rest) r e ∷ [];
          whole = simp append-nil;
          out_eq = refl;
          replies_eq = refl;
        })
  | inl e ↦ elim (Bool-cases (may_start (b ∷ rest))) [
    | inl m ↦
        rw (e, settle, m) (record { tokens = []; whole = refl; out_eq = refl; replies_eq = refl })
    | inr m ↦
        let v = settle-Cuts rest in
        rw (e, settle, m)
          (record {
            tokens = plain b ∷ v.tokens;
            whole = ap (λ t. b ∷ t) v.whole;
            out_eq = ap (λ t. b ∷ t) v.out_eq;
            replies_eq = v.replies_eq;
          })
  ]
]

-- What is held after a feed may yet become a query, and is none.
abbrev Pending : List ℕ → Type 0
Pending held = (held ≡ []) ⊎ ((may_start held ≡ true) × (reply_to answered held ≡ none))

settle-Pending : (held : List ℕ) → Pending (settle held).held
unfolding settle
settle-Pending [] = inl refl
settle-Pending (b ∷ rest) = elim (Option-cases (reply_to answered (b ∷ rest))) [
  | inr (r, e) ↦ rw (e, settle) (inl refl)
  | inl e ↦ elim (Bool-cases (may_start (b ∷ rest))) [
    | inl m ↦ rw (e, settle, m) (inr (m, e))
    | inr m ↦ rw (e, settle, m) (settle-Pending rest)
  ]
]

feed-Pending : (bs held : List ℕ) → Pending held → Pending (feed held bs).held
unfolding feed
feed-Pending [] held h = h
feed-Pending (b ∷ bs) held h =
    feed-Pending bs (settle (held ++ b ∷ [])).held (settle-Pending (held ++ b ∷ []))

length-Pending : (held : List ℕ) → Pending held → length held ≤ 3
unfolding may_start reply_to
length-Pending [] h = omega arith
length-Pending (a ∷ []) h = omega arith
length-Pending (a ∷ b ∷ []) h = omega arith
length-Pending (a ∷ b ∷ c ∷ []) h = omega arith
length-Pending (a ∷ b ∷ c ∷ d ∷ []) h = ground arith
length-Pending (a ∷ b ∷ c ∷ d ∷ e ∷ r) h = ground arith

-- Fed from a state in which it holds at most the start of a query, the filter never holds back more
-- than three bytes.
pub length-held-feed : (bs held : List ℕ) → Pending held → length (feed held bs).held ≤ 3
length-held-feed bs held h = length-Pending (feed held bs).held (feed-Pending bs held h)

-- The bytes held and those fed are cut, in order, into single bytes of output, whole queries with
-- the reply each is owed, and what is held now: nothing is lost, added or put in another order, and
-- the replies are those of the queries taken out, one each.
pub feed-Cuts : (bs held : List ℕ) → Cuts (held ++ bs) (feed held bs)
unfolding feed
feed-Cuts [] held = record {
  tokens = [];
  whole = sym (append-nil held);
  out_eq = refl;
  replies_eq = refl;
}
feed-Cuts (b ∷ bs) held =
    let s = settle (held ++ b ∷ []) in
    let v = settle-Cuts (held ++ b ∷ []) in
    let w = feed-Cuts bs s.held in
    record {
      tokens = v.tokens ++ w.tokens;
      whole =
          ap (λ t. t ++ (feed s.held bs).held) (raw-append v.tokens w.tokens)
          ∙ append_assoc (raw v.tokens) (raw w.tokens) (feed s.held bs).held
          ∙ ap (λ t. raw v.tokens ++ t) w.whole
          ∙ sym (append_assoc (raw v.tokens) s.held bs)
          ∙ ap (λ t. t ++ bs) v.whole
          ∙ append_assoc held (b ∷ []) bs;
      out_eq = ap₂ ◌++◌ v.out_eq w.out_eq ∙ sym (plains-append v.tokens w.tokens);
      replies_eq = ap₂ ◌++◌ v.replies_eq w.replies_eq ∙ sym (owed-append v.tokens w.tokens);
    }
