-- ===== src/Hub/Script.antt =====
-- Control from scripts: `sessionhubd ls`, `spawn`, `send`, `capture` and `show`.
pub mod Names
use sessionhub.Base.{
  ℕ, ◌+◌, Bool, true, false, not, ◌||◌, ◌&&◌, List, [], ◌∷◌, ◌++◌, Option, none, some, ltb, leb,
  ◌==◌, within, length, all, same, lookup, insert, if◌then◌else◌,
}
use sessionhub.Utf8.{as_bytes}
use sessionhub.Ring
use sessionhub.Hub.Types.{
  Text, Terminal, Terminals, TerminalInfo, Client, Clients, Out, show, ErrorCode, bad_env,
  name_taken,
}
use sessionhub.Hub.Queue.{send_to}
use sessionhub.Hub.Sizes.{sane_size}
use sessionhub.Hub.State.{World, Hub, is_some_text, terminal_list, broadcast_state}
use sessionhub.Hub.Spawn.{Result, ok, err, Wanted, spawn_terminal, tracked, add_terminal}
use sessionhub.Hub.Process.{deliver_input}

pub data Target : Type 0 where
  id : ℕ → Target
  name : Text → Target

-- Why a script's command was refused: the sentences of the source, told apart.
pub data Refusal : Type 0 where
  none_named many_named not_found exited : Refusal

pub data Reply {ℓ} (A : Type ℓ) : Type ℓ where
  yes_to : A → Reply A
  no_for : Refusal → Reply A

-- `terminals.values().filter(|t| t.name.as_deref() == Some(name))`.
unfoldable pub named : Text → Terminals → List Terminal
named n [] = []
named n ((k, t) ∷ ts) = let rest = named n ts in if is_some_text t.name n then t ∷ rest else rest

unfoldable pub only_one : List Terminal → Reply ℕ
only_one [] = no_for none_named
only_one (t ∷ []) = yes_to t.id
only_one (t ∷ u ∷ ts) = no_for many_named

unfoldable pub resolve_target : Terminals → Target → Reply ℕ
unfolding named only_one
resolve_target ts (id n) = yes_to n
resolve_target ts (name n) = only_one (named n ts)

abbrev pub max_env_vars : ℕ
max_env_vars = 32

abbrev pub max_env_value_len : ℕ
max_env_value_len = 4096

abbrev pub is_letter : ℕ → Bool
is_letter c = within b'a' b'z' c || within b'A' b'Z' c

abbrev pub is_name_start : ℕ → Bool
is_name_start c = is_letter c || c == b'_'

abbrev pub is_name_rest : ℕ → Bool
is_name_rest c = is_letter c || (within b'0' b'9' c || c == b'_')

unfoldable pub valid_name : Text → Bool
valid_name [] = false
valid_name (c ∷ cs) = is_name_start c && all is_name_rest cs

-- `value.contains('\0')`, denied.
unfoldable pub no_nul : Text → Bool
no_nul v = all (λ c. not (c == 0)) v

unfoldable pub valid_entry : Text × Text → Bool
unfolding valid_name no_nul
valid_entry (n, v) = valid_name n && (leb (length (as_bytes v)) max_env_value_len && no_nul v)

-- `validate_env(env).is_ok()`: the loop refuses at the first entry that fails a test.
unfoldable pub validate_env : List (Text × Text) → Bool
unfolding valid_entry
validate_env env = if ltb max_env_vars (length env) then false else all valid_entry env

-- `Cmd::TermList`.
abbrev pub term_list : Hub → List TerminalInfo
term_list h = terminal_list h.terminals

abbrev pub is_yes {ℓ} : {A : Type ℓ} → Reply A → Bool
is_yes (yes_to a) = true
is_yes (no_for r) = false

-- Whether the name that a script wants is refused as taken.
unfoldable pub taken : Terminals → Option Text → Bool
unfolding resolve_target
taken ts none = false
taken ts (some n) = is_yes (resolve_target ts (name n))

unfoldable pub script_spawned : World → Option Text → Result Terminal → Hub → Hub × Result ℕ
unfolding broadcast_state
script_spawned w nm (ok t) h =
    (broadcast_state w (add_terminal h (record t { name = nm })), ok t.id)
script_spawned w nm (err e) h = (h, err e)

-- `Cmd::TermSpawn`.
unfoldable pub term_spawn :
    World → Text → Text → Option Text → Option Text → List (Text × Text) → Hub → Hub × Result ℕ
unfolding validate_env taken sane_size spawn_terminal tracked script_spawned
term_spawn w project agent resume nm env h =
    let q : Wanted = record {
      project = project;
      agent = agent;
      session = resume;
      size = sane_size 80 24;
      env = env;
    } in
    if not (validate_env env)
    then (h, err bad_env)
    else if taken h.terminals nm
    then (h, err name_taken)
    else script_spawned w nm (spawn_terminal w h h.next_term h.next_run q false) (tracked h q false)

unfoldable pub send_at : ℕ → List ℕ → Option Terminal → Hub → Hub × Reply ℕ
unfolding deliver_input
send_at tid bytes none h = (h, no_for not_found)
send_at tid bytes (some t) h =
    if t.alive
    then (record h { terminals = insert tid (deliver_input t bytes) h.terminals }, yes_to tid)
    else (h, no_for exited)

unfoldable pub sent_to_target : List ℕ → Hub → Reply ℕ → Hub × Reply ℕ
unfolding send_at
sent_to_target bytes h (no_for r) = (h, no_for r)
sent_to_target bytes h (yes_to tid) = send_at tid bytes (lookup tid h.terminals) h

-- `Cmd::TermSend`.
unfoldable pub term_send : Target → List ℕ → Hub → Hub × Reply ℕ
unfolding resolve_target sent_to_target
term_send target bytes h = sent_to_target bytes h (resolve_target h.terminals target)

-- `Cmd::TermCapture`.
unfoldable pub term_capture : Target → Hub → Reply (List ℕ)
unfolding resolve_target
term_capture target h = elim (resolve_target h.terminals target) [
  | no_for r ↦ no_for r
  | yes_to tid ↦ elim (lookup tid h.terminals) [
    | none ↦ no_for not_found
    | some t ↦ yes_to (Ring.snapshot t.ring)
  ]
]

abbrev pub send_every : Clients → Clients → Out → Clients
send_every clients [] out = clients
send_every clients ((k, c) ∷ cs) out = send_every (send_to clients k out) cs out

-- `Cmd::Show`: the clients are told, and how many.
unfoldable pub show_to_all : Text → Bool → Option ℕ → Hub → Hub × ℕ
show_to_all path dir terminal h = (
  record h { clients = send_every h.clients h.clients (show path dir terminal) },
  length h.clients,
)

-- `Cmd::Stats`: the live terminals, and all.
abbrev count_alive : Terminals → ℕ
count_alive [] = 0
count_alive ((k, t) ∷ ts) = if t.alive then 1 + count_alive ts else count_alive ts

unfoldable pub stats : Hub → ℕ × ℕ
stats h = (count_alive h.terminals, length h.terminals)
