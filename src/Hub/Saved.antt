-- ===== src/Hub/Saved.antt =====
-- The tag of a terminal and the forgetting of its name: the commands of src/state.rs that change
-- `saved` of the configuration, with `check_color` and `check_saved_name` of src/config.rs. Whether the
-- file could be written is an argument.
pub mod Forgotten
use sessionhub.Base.{
  ℕ, Bool, true, false, not, ◌||◌, ◌&&◌, List, [], ◌∷◌, Option, none, some, length, any, same, ltb,
  ◌==◌, lookup, insert, codes, if◌then◌else◌,
}
use sessionhub.Utf8.{is_control, trim}
use sessionhub.Strings.{filter}
use sessionhub.Hub.Types.{
  Text, Terminal, Terminals, SavedTerminal, Config, error, bad_color, config_write_failed,
}
use sessionhub.Hub.Queue.{send_to}
use sessionhub.Hub.State.{World, Hub, same_path, is_some_text, broadcast_state}

abbrev pub tab_colors : List Text
tab_colors =
    codes "red"
    ∷ codes "green"
    ∷ codes "yellow"
    ∷ codes "blue"
    ∷ codes "magenta"
    ∷ codes "cyan"
    ∷ []

abbrev pub check_color : Text → Bool
check_color color = same color [] || any (λ c. same c color) tab_colors

unfoldable pub check_saved_name : Text → Bool
unfolding trim is_control
check_saved_name raw =
    let name : Text = trim raw in
    not (same name []) && (not (ltb 40 (length name)) && not (any is_control name))

-- The entry of a name in a project.
abbrev pub is_saved_as : World → Text → Text → SavedTerminal → Bool
is_saved_as w project name s = same_path w s.project project && same s.name name

-- The first entry of the name gets the colour.
unfoldable pub recolored : World → Text → Text → Text → List SavedTerminal → List SavedTerminal
recolored w project name color [] = []
recolored w project name color (s ∷ ss) =
    let rest = recolored w project name color ss in
    if same s.name name && same_path w s.project project
    then record s { color = color } ∷ ss
    else s ∷ rest

abbrev pub recolored_for : World → Terminal → Text → List SavedTerminal → List SavedTerminal
recolored_for w t color saved = elim t.name [
  | none ↦ saved
  | some name ↦ recolored w t.project name color saved
]

abbrev pub tag_of : Text → Option Text
tag_of color = if same color [] then none else some color

-- `ClientMsg::SetColor`; a write that fails is logged and nothing else.
unfoldable pub set_color : World → ℕ → ℕ → Text → Hub → Hub
unfolding send_to recolored broadcast_state
set_color w id tid color h =
    if not (check_color color)
    then record h { clients = send_to h.clients id (error bad_color) }
    else elim (lookup tid h.terminals) [
      | none ↦ h
      | some t ↦ broadcast_state w (record h {
        terminals = insert tid (record t { color = tag_of color }) h.terminals;
        cfg = record h.cfg { saved = recolored_for w t color h.cfg.saved };
      })
    ]

abbrev pub wears : World → Text → Text → Terminal → Bool
wears w project name t = is_some_text t.name name && same_path w t.project project

unfoldable pub unnamed : World → Text → Text → Terminals → Terminals
unnamed w project name [] = []
unnamed w project name ((k, t) ∷ ts) =
    (k, if wears w project name t then record t { name = none } else t) ∷ unnamed w project name ts

-- `ClientMsg::ForgetTerminal`; `saves` is whether the file could be written.
unfoldable pub forget_terminal : World → Bool → ℕ → Text → Text → Hub → Hub
unfolding filter send_to unnamed broadcast_state
forget_terminal w saves id project name h =
    let kept = filter (λ s. not (is_saved_as w project name s)) h.cfg.saved in
    let h' = record h { cfg = record h.cfg { saved = kept } } in
    if length kept == length h.cfg.saved
    then h'
    else if not saves
    then record h' { clients = send_to h.clients id (error config_write_failed) }
    else broadcast_state w (record h' { terminals = unnamed w project name h.terminals })
