-- ===== src/Hub/Spawn/Made.antt =====
-- What a start that went well has made.
use sessionhub.Base.{ℕ, ◌≡◌, Bool, true, List, [], ◌++◌, Option, none, some, arith}
use sessionhub.Ring
use sessionhub.Hub.Types.{Text, Terminal, Agent}
use sessionhub.Hub.State.{World, Hub}
use sessionhub.Hub.Spawn.{
  Result, ok, err, ◌>>=◌, Wanted, ring_cap, build_terminal, check_spawn, spawn_terminal,
  resume_list, check_fork, byte_prefix, forked, forked_by, fork_terminal,
}

-- A terminal under the ids that it was given, of the size that was asked for, seen by no one and
-- with nothing in its buffer.
pub record IsNew (id run : ℕ) (q : Wanted) (t : Terminal) : Type 0 where
  pub same_id : t.id ≡ id
  pub same_run : t.run ≡ run
  pub unseen : t.viewers ≡ []
  pub wide : t.cols ≡ q.size.0
  pub high : t.rows ≡ q.size.1
  pub silent : t.ring ≡ Ring.new ring_cap
  pub living : t.alive ≡ true
  pub at_home : t.project ≡ q.project

-- A chain that went well went well in its first step, with a value from which the rest did.
ok->>= {κ ℓ} :
    {T : Type κ} {U : Type ℓ} (next : T → Result U) (first : Result T) {last : U}
    → (first >>= next) ≡ ok last
    → (value : T) × (next value ≡ ok last)
ok->>= next (err code) e = cc
ok->>= next (ok value) e = (value, e)

build_terminal-IsNew :
    (w : World) (h : Hub) (id run : ℕ) (q : Wanted) (args : List Text) {t : Terminal}
    → build_terminal w h id run q args ≡ ok t
    → IsNew id run q t
unfolding build_terminal
build_terminal-IsNew w h id run q args e = ground arith

-- So for `spawn_terminal`.
pub spawn_terminal-IsNew :
    (w : World) (h : Hub) (id run : ℕ) (q : Wanted) (pick : Bool) {t : Terminal}
    → spawn_terminal w h id run q pick ≡ ok t
    → IsNew id run q t
unfolding spawn_terminal
spawn_terminal-IsNew w h id run q pick e =
    let found =
      ok->>= (λ a. build_terminal w h id run q (a.args ++ resume_list a q.session pick))
        (check_spawn h.cfg q pick) e in
    build_terminal-IsNew w h id run q (found.0.args ++ resume_list found.0 q.session pick) found.1

forked-IsNew :
    (w : World) (h : Hub) (id run : ℕ) (q : Wanted) (session name : Text) (a : Agent)
    (o : Option Text) {t : Terminal}
    → forked w h id run q session name a o ≡ some (ok t)
    → IsNew id run q t
unfolding forked
forked-IsNew w h id run q session name a none e = cc
forked-IsNew w h id run q session name a (some short) e =
    build_terminal-IsNew w h id run q _ (some_eq _ _ e)
  where
    some_eq : (x y : Result Terminal) → some x ≡ some y → x ≡ y
    some_eq x y e = cc

forked_by-IsNew :
    (w : World) (h : Hub) (id run : ℕ) (q : Wanted) (session name : Text) (r : Result Agent)
    {t : Terminal}
    → forked_by w h id run q session name r ≡ some (ok t)
    → IsNew id run q t
unfolding forked_by
forked_by-IsNew w h id run q session name (err x) e = cc
forked_by-IsNew w h id run q session name (ok a) e =
    forked-IsNew w h id run q session name a (byte_prefix 8 session) e

-- And for `fork_terminal`.
pub fork_terminal-IsNew :
    (w : World) (h : Hub) (id run : ℕ) (q : Wanted) (session name : Text) {t : Terminal}
    → fork_terminal w h id run q session name ≡ some (ok t)
    → IsNew id run q t
unfolding fork_terminal
fork_terminal-IsNew w h id run q session name e =
    forked_by-IsNew w h id run q session name (check_fork h.cfg q.agent) e
