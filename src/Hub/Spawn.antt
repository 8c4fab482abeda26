-- ===== src/Hub/Spawn.antt =====
-- The commands that start terminals, and start them again.
pub mod Made
pub mod Runs
pub mod Environment
use sessionhub.Base.{
  ℕ, zero, suc, ◌+◌, ◌-◌, ◌*◌, ◌/◌, ◌%◌, Bool, true, false, not, ◌||◌, ◌&&◌, List, [], ◌∷◌, ◌++◌,
  map, Option, none, some, length, ltb, leb, ◌==◌, same, lookup, insert, remove, has_key, codes,
  any, take, if◌then◌else◌,
}
use mathlib.Core.Option
use sessionhub.Utf8.{trim, encode_char}
use sessionhub.Frames.{encode_frame}
use sessionhub.Ring
use sessionhub.Typed
use sessionhub.Hub.Types.{
  Text, Pty, Terminal, Terminals, Agent, Config, SavedTerminal, Client, Clients, ErrorCode, Out,
  error, attached, binary, unknown_agent, agent_disabled, no_picker, fork_unsupported, spawn_failed,
  no_such_terminal,
}
use sessionhub.Hub.Queue.{send_to}
use sessionhub.Hub.Sizes.{sane_size, send_all}
use sessionhub.Hub.State.{
  World, Hub, Launch, Launched, started, failed, track_changes, same_path, broadcast_state,
}

-- Rust's `Result` with an error code, and its `?`, which leaves with the first error.
pub data Result {ℓ} (T : Type ℓ) : Type ℓ where
  err : ErrorCode → Result T
  ok : T → Result T

infixl 4 ◌>>=◌
abbrev pub ◌>>=◌ {κ ℓ} : {T : Type κ} {U : Type ℓ} → Result T → (T → Result U) → Result U
err code >>= next = err code
ok value >>= next = next value

-- `RING_CAP`.
abbrev pub ring_cap : ℕ
ring_cap = 2 * 1024 * 1024

unfoldable pub find_agent : Text → List (Text × Agent) → Result Agent
find_agent name [] = err unknown_agent
find_agent name ((n, a) ∷ as') = if same n name then ok a else find_agent name as'

abbrev pub is_empty {ℓ} : {A : Type ℓ} → List A → Bool
is_empty [] = true
is_empty (x ∷ xs) = false

-- `option.is_some_and(|a| !a.is_empty())`, as in `can_fork` and `can_pick`.
abbrev pub has_args : Option (List Text) → Bool
has_args none = false
has_args (some as') = not (is_empty as')

abbrev pub or_empty : Option (List Text) → List Text
or_empty none = []
or_empty (some as') = as'

-- `text.strip_prefix(pattern)`.
abbrev strip : Text → Text → Option Text
strip [] s = some s
strip (p ∷ ps) [] = none
strip (p ∷ ps) (c ∷ cs) = if p == c then strip ps cs else none

-- `text.replace(pattern, with)`, for a pattern that is not empty: a turn for each character.
unfoldable pub replace_from : ℕ → Text → Text → Text → Text
replace_from zero pattern with' s = s
replace_from (suc f) pattern with' [] = []
replace_from (suc f) pattern with' (c ∷ cs) = elim (strip pattern (c ∷ cs)) [
  | some rest ↦ with' ++ replace_from f pattern with' rest
  | none ↦ c ∷ replace_from f pattern with' cs
]

unfoldable pub replace : Text → Text → Text → Text
unfolding replace_from
replace pattern with' s = replace_from (length s) pattern with' s

-- A `BTreeMap` of texts: writing a key again replaces its value. Kept in the order of first writing.
abbrev pub put_text : Text → Text → List (Text × Text) → List (Text × Text)
put_text k v [] = (k, v) ∷ []
put_text k v ((j, x) ∷ m) = if same j k then (k, v) ∷ m else (j, x) ∷ put_text k v m

-- `env.extend(extra)`.
unfoldable pub merged_env : List (Text × Text) → List (Text × Text) → List (Text × Text)
merged_env env [] = env
merged_env env ((k, v) ∷ extra) = merged_env (put_text k v env) extra

-- `id.to_string()`.
abbrev digits_from : ℕ → ℕ → Text
digits_from zero n = []
digits_from (suc f) n =
    let rest = digits_from f (n / 10) in
    if ltb n 10 then (b'0' + n) ∷ [] else rest ++ (b'0' + n % 10) ∷ []

unfoldable pub to_text : ℕ → Text
to_text n = digits_from (n + 1) n

unfoldable pub fresh_terminal : World → ℕ → ℕ → Text → Text → Option Text → ℕ × ℕ → Pty → Terminal
unfolding Ring.new
fresh_terminal w id run project agent session (cols, rows) pty = record {
  id = id;
  project = project;
  agent = agent;
  cols = cols;
  rows = rows;
  alive = true;
  session_id = session;
  started_ms = w.clock_ms;
  viewers = [];
  grow_at = none;
  ring = Ring.new ring_cap;
  pty = some pty;
  run = run;
  name = none;
  color = none;
  procs = 0;
  resting = 0;
  jobs = [];
  typed = Typed.empty;
  pending_run = none;
}

abbrev pub launched : Launched → Result Pty
launched (started p) = ok p
launched (failed code) = err (spawn_failed code)

abbrev pub require : Bool → ErrorCode → Result (Unit {0})
require true e = ok tt
require false e = err e

-- What a caller wants started.
pub record Wanted : Type 0 where
  pub project : Text
  pub agent : Text
  pub session : Option Text
  pub size : ℕ × ℕ
  pub env : List (Text × Text)

unfoldable pub build_terminal : World → Hub → ℕ → ℕ → Wanted → List Text → Result Terminal
unfolding find_agent merged_env to_text fresh_terminal
build_terminal w h id run q args = do
  a ← find_agent q.agent h.cfg.agents
  _ ← require a.enabled agent_disabled
  p ← launched (
      w.launch (record {
        command = a.command;
        args = args;
        cwd = q.project;
        cols = q.size.0;
        rows = q.size.1;
        env = put_text (codes "SESSIONHUB_TERMINAL") (to_text id) (merged_env a.env q.env);
      }))
  ok (fresh_terminal w id run q.project q.agent q.session q.size p)

abbrev pub resume_list : Agent → Option Text → Bool → List Text
resume_list a (some sid) pick = map (replace (codes "{session_id}") sid) a.resume_args
resume_list a none true = or_empty a.picker_args
resume_list a none false = []

abbrev is_none {ℓ} : {A : Type ℓ} → Option A → Bool
is_none none = true
is_none (some a) = false

-- What `spawn_terminal` refuses before it does anything.
unfoldable pub check_spawn : Config → Wanted → Bool → Result Agent
unfolding find_agent
check_spawn cfg q pick = do
  a ← find_agent q.agent cfg.agents
  _ ← require a.enabled agent_disabled
  _ ← require (not (pick && (is_none q.session && not (has_args a.picker_args)))) no_picker
  ok a

-- `spawn_terminal`, without its call of `changes::track`, which `tracked` makes.
unfoldable pub spawn_terminal : World → Hub → ℕ → ℕ → Wanted → Bool → Result Terminal
unfolding check_spawn build_terminal replace
spawn_terminal w h id run q pick = do
  a ← check_spawn h.cfg q pick
  build_terminal w h id run q (a.args ++ resume_list a q.session pick)

-- `changes::track(project)`: reached once nothing was refused, whether or not the child starts.
unfoldable pub tracked : Hub → Wanted → Bool → Hub
unfolding check_spawn
tracked h q pick = elim (check_spawn h.cfg q pick) [
  | ok a ↦ record h { handed = h.handed ++ track_changes q.project ∷ [] }
  | err e ↦ h
]

-- A terminal that was started goes into the map, and both counters go on.
abbrev pub add_terminal : Hub → Terminal → Hub
add_terminal h t = record h {
  terminals = insert t.id t h.terminals;
  next_term = h.next_term + 1;
  next_run = h.next_run + 1;
}

-- The end of `Spawn` and `Fork`: the caller is its first viewer.
unfoldable pub spawned : World → ℕ → ℕ × ℕ → Result Terminal → Hub → Hub
unfolding broadcast_state
spawned w id (cols, rows) (ok t) h =
    let h' = add_terminal h (record t { viewers = insert id (cols, rows) t.viewers }) in
    let h'' = broadcast_state w h' in
    record h'' { clients = send_to h''.clients id (attached t.id cols rows 0) }
spawned w id (cols, rows) (err e) h = record h { clients = send_to h.clients id (error e) }

-- `ClientMsg::Spawn`.
unfoldable pub spawn : World → ℕ → Text → Text → Option Text → Bool → ℕ → ℕ → Hub → Hub
unfolding sane_size spawn_terminal tracked spawned
spawn w id project agent resume pick cols rows h =
    let at : ℕ × ℕ = sane_size cols rows in
    let q : Wanted = record {
      project = project;
      agent = agent;
      session = resume;
      size = at;
      env = [];
    } in
    spawned w id at (spawn_terminal w h h.next_term h.next_run q pick) (tracked h q pick)

-- `&text[..n]` in bytes, for a text of at least `n` bytes or all of a shorter one: `none`, a panic,
-- where the cut falls inside a character.
unfoldable pub byte_prefix : ℕ → Text → Option Text
byte_prefix n [] = some []
byte_prefix n (c ∷ cs) =
    let width : ℕ = length (encode_char c) in
    let rest = byte_prefix (n - width) cs in
    if n == 0 then some [] else if leb width n then Option.map (λ t. c ∷ t) rest else none

unfoldable pub check_fork : Config → Text → Result Agent
unfolding find_agent
check_fork cfg agent = do
  a ← find_agent agent cfg.agents
  _ ← require (has_args a.fork_args) fork_unsupported
  ok a

unfoldable pub fork_args_of : Agent → Text → Text → List Text
unfolding replace
fork_args_of a session label =
    a.args
    ++ map (λ s. replace (codes "{name}") label (replace (codes "{session_id}") session s))
        (or_empty a.fork_args)

-- `fork_terminal` once its agent is found and its session id cut: `none`, a panic, where the cut
-- falls inside a character.
unfoldable pub forked :
    World → Hub → ℕ → ℕ → Wanted → Text → Text → Agent → Option Text → Option (Result Terminal)
unfolding build_terminal fork_args_of
forked w h id run q session name a none = none
forked w h id run q session name a (some short) =
    let label = (if is_empty (trim name) then codes "fork " ++ short else trim name) in
    some (build_terminal w h id run q (fork_args_of a session label))

unfoldable pub forked_by :
    World → Hub → ℕ → ℕ → Wanted → Text → Text → Result Agent → Option (Result Terminal)
unfolding byte_prefix forked
forked_by w h id run q session name (err e) = some (err e)
forked_by w h id run q session name (ok a) =
    forked w h id run q session name a (byte_prefix 8 session)

-- `fork_terminal`; `none` where it panics on the session id, which the name made of it reads first.
unfoldable pub fork_terminal : World → Hub → ℕ → ℕ → Wanted → Text → Text → Option (Result Terminal)
unfolding check_fork forked_by
fork_terminal w h id run q session name =
    forked_by w h id run q session name (check_fork h.cfg q.agent)

-- `ClientMsg::Fork`; `none` where the actor panics.
unfoldable pub fork : World → ℕ → Text → Text → Text → Text → ℕ → ℕ → Hub → Option Hub
unfolding sane_size fork_terminal spawned
fork w id project agent session name cols rows h =
    let at : ℕ × ℕ = sane_size cols rows in
    let q : Wanted = record {
      project = project;
      agent = agent;
      session = none;
      size = at;
      env = [];
    } in
    Option.map (λ r. spawned w id at r h) (fork_terminal w h h.next_term h.next_run q session name)

-- The stored command of a saved terminal, as `Relaunch` runs it again.
unfoldable pub stored_command : World → List SavedTerminal → Text → Text → Option Text
stored_command w [] name project = none
stored_command w (s ∷ ss) name project =
    if same s.name name && same_path w s.project project
    then (if is_empty s.command
        then none
        else some (Typed.runnable w.windows (w.is_file s.project) s.command))
    else stored_command w ss name project

abbrev pub rerun_of : World → Config → Option Text → Text → Option Text
rerun_of w cfg none project = none
rerun_of w cfg (some name) project = stored_command w cfg.saved name project

-- The new terminal, with all that made the old one itself. `p.kill()`, of a process that its
-- terminal no longer holds, leaves nothing to model.
abbrev pub carried_over : World → Config → Terminal → Terminal → Terminal
carried_over w cfg old t = record t {
  viewers = old.viewers;
  name = old.name;
  color = old.color;
  pending_run = rerun_of w cfg old.name old.project;
}

unfoldable pub replaced : World → ℕ → Terminal → Terminal → Hub → Hub
unfolding send_all stored_command
replaced w tid old t h = record h {
  terminals = insert tid (carried_over w h.cfg old t) h.terminals;
  next_run = h.next_run + 1;
  clients = send_all h.clients old.viewers (binary (encode_frame tid (0x1b ∷ b'c' ∷ [])));
}

unfoldable pub relaunched : World → ℕ → ℕ → Terminal → Result Terminal → Hub → Hub
unfolding replaced broadcast_state
relaunched w id tid old (ok t) h = broadcast_state w (replaced w tid old t h)
relaunched w id tid old (err e) h = record h { clients = send_to h.clients id (error e) }

-- `ClientMsg::Relaunch`.
unfoldable pub relaunch : World → ℕ → ℕ → ℕ → ℕ → Hub → Hub
unfolding sane_size spawn_terminal tracked relaunched
relaunch w id tid cols rows h = elim (lookup tid h.terminals) [
  | none ↦ record h { clients = send_to h.clients id (error no_such_terminal) }
  | some old ↦
      let q : Wanted = record {
        project = old.project;
        agent = old.agent;
        session = old.session_id;
        size = sane_size cols rows;
        env = [];
      } in
      relaunched w id tid old (spawn_terminal w h tid h.next_run q false) (tracked h q false)
]
