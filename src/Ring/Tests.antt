-- ===== src/Ring/Tests.antt =====
-- The unit tests of src/ring.rs, and the theorems of this folder at concrete rings.
use sessionhub.Base.{ℕ, ◌≡◌, refl, List, [], ◌∷◌, none, some, codes, arith}
use sessionhub.Ring.{Ring, new, push, pushes, resume, fnv1a, end}
use sessionhub.Ring.History.{Holds, pushes-new-Holds}
use sessionhub.Ring.Replay.{resume_of, resume-history}

abbrev chunks : List (List ℕ)
chunks = codes "abcdef" ∷ codes "ghij" ∷ []

abbrev eight : Ring
eight = record { buf = codes "cdefghij"; cap = 8; total = 10 }

drops_oldest_bytes_past_capacity : pushes chunks (new 8) ≡ eight
unfolding pushes new push
drops_oldest_bytes_past_capacity = refl

single_push_larger_than_capacity_keeps_tail : (push (new 4) (codes "abcdefghij")).buf ≡ codes "ghij"
unfolding new push
single_push_larger_than_capacity_keeps_tail = refl

the_hash_matches_the_page : fnv1a (codes "sessionhub") ≡ 0x3c24ca7e
unfolding fnv1a
the_hash_matches_the_page = refl

a_resume_whose_bytes_do_not_match_is_refused :
    (resume (push (new 1024) (codes "abcdefgh")) 4 (fnv1a (codes "abce")) ≡ none)
    × (resume (push (new 1024) (codes "abcdefgh")) 4 (fnv1a (codes "abcd")) ≡ some (codes "efgh"))
unfolding new push resume fnv1a
a_resume_whose_bytes_do_not_match_is_refused = (refl, refl)

-- Comment of `total`: every byte ever pushed, kept or not. With no capacity none is counted.
zero_capacity_counts_nothing : end (push (new 0) (codes "apapun")) ≡ 0
unfolding new push
zero_capacity_counts_nothing = refl

pushes-new-Holds_example : Holds (pushes chunks (new 8)) (codes "abcdefghij")
pushes-new-Holds_example = pushes-new-Holds 8 chunks (λ e. cc) (omega arith)

eight-Holds : Holds eight (codes "abcdefghij")
eight-Holds = record { room = λ e. cc; kept = refl; counted = refl }

resume-history_example :
    resume eight 8 (fnv1a (codes "abcdefgh"))
    ≡ resume_of (codes "abcdefghij") 8 8 (fnv1a (codes "abcdefgh"))
resume-history_example =
    resume-history eight (codes "abcdefghij") 8 (fnv1a (codes "abcdefgh")) (omega arith) eight-Holds
