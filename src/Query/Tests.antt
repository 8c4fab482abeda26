-- ===== src/Query/Tests.antt =====
-- Runs of the filter, and the theorems of this folder at concrete streams.
use sessionhub.Base.{ℕ, ◌≡◌, refl, List, [], ◌∷◌, ◌++◌, codes}
use sessionhub.Query.{esc, feed}
use sessionhub.Query.Tokens.{Cuts, feed-Cuts}
use sessionhub.Query.Plain.{join, feed-append}

abbrev ask : List ℕ
ask = esc ∷ codes "[c"

abbrev answer : List ℕ
answer = esc ∷ codes "[?1;2c"

answers_primary_device_attributes :
    feed [] (codes "a" ++ ask ++ codes "b" ++ esc ∷ codes "[0c")
    ≡ record { out = codes "ab"; replies = answer ∷ answer ∷ []; held = [] }
unfolding feed
answers_primary_device_attributes = refl

-- What was taken out can join what stood around it: the output may hold a query after all.
a_query_can_be_left :
    feed [] (esc ∷ b'[' ∷ ask ++ codes "6n")
    ≡ record { out = esc ∷ codes "[6n"; replies = answer ∷ []; held = [] }
unfolding feed
a_query_can_be_left = refl

feed-Cuts_example : Cuts ((esc ∷ []) ++ codes "[cq") (feed (esc ∷ []) (codes "[cq"))
feed-Cuts_example = feed-Cuts (codes "[cq") (esc ∷ [])

feed-append_example :
    feed [] (codes "a" ++ ask) ≡ join (feed [] (codes "a")) (feed (feed [] (codes "a")).held ask)
feed-append_example = feed-append (codes "a") ask []
