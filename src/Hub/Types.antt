-- ===== src/Hub/Types.antt =====
-- The state of the actor, the messages that it sends, and what it asks of the world outside.
use sessionhub.Base.{ℕ, Bool, List, Option}
pub use sessionhub.Utf8.{Text}
use sessionhub.Ring.{Ring}
use sessionhub.Typed.{TypedLine}

-- A running child, as far as the actor knows it: what was written to its input, the size that the
-- backend last took, and whether it was told to die.
pub record Pty : Type 0 where
  pub pid : Option ℕ
  pub input : List ℕ
  pub size : ℕ × ℕ
  pub killed : Bool

pub record BgJob : Type 0 where
  pub label : Text
  pub kind : Text
  pub since_ms : ℕ

pub record Terminal : Type 0 where
  pub id : ℕ
  pub project : Text
  pub agent : Text
  pub cols : ℕ
  pub rows : ℕ
  pub alive : Bool
  pub session_id : Option Text
  pub started_ms : ℕ
  pub viewers : List (ℕ × (ℕ × ℕ))
  pub grow_at : Option ℕ
  pub ring : Ring
  pub pty : Option Pty
  pub run : ℕ
  pub name : Option Text
  pub color : Option Text
  pub procs : ℕ
  pub resting : ℕ
  pub jobs : List BgJob
  pub typed : TypedLine
  pub pending_run : Option Text

pub record TerminalInfo : Type 0 where
  pub id : ℕ
  pub project : Text
  pub agent : Text
  pub alive : Bool
  pub cols : ℕ
  pub rows : ℕ
  pub session_id : Option Text
  pub name : Option Text
  pub color : Option Text
  pub working : Bool
  pub jobs : List BgJob

pub record SessionInfo : Type 0 where
  pub agent : Text
  pub session_id : Text
  pub title : Text
  pub updated_at : Text
  pub live_terminal_id : Option ℕ

pub record ProjectInfo : Type 0 where
  pub path : Text
  pub name : Text
  pub exists : Bool
  pub sessions : List SessionInfo
  pub icon : Option (Text × ℕ)

pub record AgentBrief : Type 0 where
  pub name : Text
  pub can_fork : Bool
  pub can_pick : Bool
  pub fork_takes_name : Bool
  pub tracked : Bool
  pub found : Bool

pub record SavedInfo : Type 0 where
  pub name : Text
  pub project : Text
  pub agent : Text
  pub command : Text
  pub color : Text
  pub live_terminal_id : Option ℕ
  pub autostart : Bool

-- `ServerMsg::State`.
pub record StateMsg : Type 0 where
  pub projects : List ProjectInfo
  pub terminals : List TerminalInfo
  pub agents : List AgentBrief
  pub saved : List SavedInfo
  pub scanning : Bool
  pub hidden_sessions : List Text
  pub dismissed_terminals : List ℕ

-- The part of `Config` that the actor reads here.
pub record SavedTerminal : Type 0 where
  pub name : Text
  pub project : Text
  pub agent : Text
  pub command : Text
  pub color : Text
  pub autostart : Bool

pub record Agent : Type 0 where
  pub command : Text
  pub args : List Text
  pub resume_args : List Text
  pub env : List (Text × Text)
  pub enabled : Bool
  pub fork_args : Option (List Text)
  pub picker_args : Option (List Text)

pub record Config : Type 0 where
  pub agents : List (Text × Agent)
  pub saved : List SavedTerminal
  pub hidden_sessions : List Text

-- The reading of the machine sampler; `cpu_percent` is the bits of an `f32`, which is only passed on.
pub record LoadMsg : Type 0 where
  pub cpu_percent : ℕ
  pub ram_used : ℕ
  pub ram_total : ℕ

-- The codes of `ServerMsg::Error` that these commands send; the sentence beside each is left out.
pub data ErrorCode : Type 0 where
  no_such_terminal unknown_agent agent_disabled no_picker fork_unsupported bad_env name_taken
        bad_color config_write_failed no_such_saved :
      ErrorCode
  spawn_failed : Text → ErrorCode

-- `ServerMsg` before it is made JSON, and the two kinds of frame.
pub data Out : Type 0 where
  state : StateMsg → Out
  terminals : List TerminalInfo → Out
  load : LoadMsg → Out
  replay : (id from : ℕ) → Out
  attached : (id cols rows end : ℕ) → Out
  size : (id cols rows : ℕ) → Out
  exit : (id code : ℕ) → Out
  error : ErrorCode → Out
  last_command : ℕ → Text → Out
  show : Text → Bool → Option ℕ → Out
  pong resync : Out
  binary : List ℕ → Out

-- `queue` is what waits in the channel for the socket's writer.
pub record Client : Type 0 where
  pub queue : List Out
  pub lost : Bool
  pub hidden : Bool
  pub page : Option Text

abbrev pub Clients : Type 0
Clients = List (ℕ × Client)

abbrev pub Terminals : Type 0
Terminals = List (ℕ × Terminal)
