-- ===== src/Hub/Step/Fits.antt =====
-- The sizes of terminals under a turn of the loop, over the commands of Hub/Step but `Relaunch`.
use sessionhub.Base.{◌≡◌, subst, false, some}
use sessionhub.Hub.Sizes.{is_hidden}
use sessionhub.Hub.State.{World, Hub, send_due}
use sessionhub.Hub.Viewers.Views.{send_to-SameView}
use sessionhub.Hub.Viewers.Fits.{TakesSizes}
use sessionhub.Hub.Viewers.Keeps.{HubFits, AllFit-SameView, send_state_to-HubFits}
use sessionhub.Hub.Viewers.Commands.{
  client_up-HubFits, client_down-HubFits, detach-HubFits, resize-HubFits, attach-HubFits,
  visibility-HubFits,
}
use sessionhub.Hub.Step.Starts.{spawn-HubFits, fork-HubFits, term_spawn-HubFits}
use sessionhub.Hub.Step.Changes.{
  client_input-HubFits, pty_output-HubFits, pty_eof-HubFits, kill-HubFits, background-HubFits,
  machine_load-HubFits, dismiss-HubFits, term_send-HubFits, show_to_all-HubFits, send_due-HubFits,
}
use sessionhub.Hub.Step.Opens.{open_saved-HubFits}
use sessionhub.Hub.Step.{
  Cmd, up, down, list, visible, spawns, forks, attaches, detaches, resizes, relaunches, opens_saved,
  kills, ping, asks_last, dismisses, input, output, eof, samples, loads, script_spawn, script_send,
  script_show, handle, turn,
}

-- A command that is not a relaunch, and a client that comes up is not known as one off screen.
abbrev pub Usual : Hub → Cmd → Type 0
Usual h (relaunches id tid cols rows) = ⊥
Usual h (up id page) = is_hidden h.clients id ≡ false
Usual h c = Unit

some_eq : (x y : Hub) → some x ≡ some y → x ≡ y
some_eq x y e = cc

done : (h h' : Hub) → HubFits h → some h ≡ some h' → HubFits h'
done h h' v e = subst HubFits (some_eq h h' e) v

module _ (w : World) (takes : TakesSizes w.resizes) (h h' : Hub) (v : HubFits h) where
  handle-HubFits : (c : Cmd) → Usual h c → handle w c h ≡ some h' → HubFits h'
  unfolding handle
  handle-HubFits (up id page) u e = done _ h' (client_up-HubFits w takes id page h u v) e
  handle-HubFits (down id) u e = done _ h' (client_down-HubFits w takes id h v) e
  handle-HubFits (list id) u e = done _ h' (send_state_to-HubFits w h id v) e
  handle-HubFits (visible id on) u e = done _ h' (visibility-HubFits w takes id on h v) e
  handle-HubFits (spawns id project agent resume pick cols rows) u e =
      done _ h' (spawn-HubFits w id project agent resume pick cols rows h v) e
  handle-HubFits (forks id project agent session name cols rows) u e =
      fork-HubFits w id project agent session name cols rows h h' v e
  handle-HubFits (attaches id tid cols rows since tail) u e =
      done _ h' (attach-HubFits w takes id tid cols rows since tail h v) e
  handle-HubFits (detaches id tid) u e = done _ h' (detach-HubFits w takes id tid h v) e
  handle-HubFits (resizes id tid cols rows) u e =
      done _ h' (resize-HubFits w takes id tid cols rows h v) e
  handle-HubFits (relaunches id tid cols rows) u e = absurd u
  handle-HubFits (opens_saved id project name cols rows) u e =
      done _ h' (open_saved-HubFits w takes id project name cols rows h v) e
  handle-HubFits (kills tid) u e = done _ h' (kill-HubFits tid h v) e
  handle-HubFits (ping id) u e =
      done _ h' (AllFit-SameView h.clients _ h.terminals (send_to-SameView h.clients id _) v) e
  handle-HubFits (asks_last id tid) u e =
      done _ h' (AllFit-SameView h.clients _ h.terminals (send_to-SameView h.clients id _) v) e
  handle-HubFits (dismisses tid on) u e = done _ h' (dismiss-HubFits w tid on h v) e
  handle-HubFits (input term bytes) u e = done _ h' (client_input-HubFits term bytes h v) e
  handle-HubFits (output term run bytes) u e = done _ h' (pty_output-HubFits term run bytes h v) e
  handle-HubFits (eof term run code) u e = done _ h' (pty_eof-HubFits w term run code h v) e
  handle-HubFits (samples rows) u e = done _ h' (background-HubFits w rows h v) e
  handle-HubFits (loads l) u e = done _ h' (machine_load-HubFits w l h takes v) e
  handle-HubFits (script_spawn project agent resume nm env) u e =
      done _ h' (term_spawn-HubFits w project agent resume nm env h v) e
  handle-HubFits (script_send target bytes) u e = done _ h' (term_send-HubFits target bytes h v) e
  handle-HubFits (script_show path dir terminal) u e =
      done _ h' (show_to_all-HubFits path dir terminal h v) e

-- Where every terminal with a child running is no larger than any of its viewers on screen, it is so
-- after a turn of the actor's loop, whatever the command of those that Hub/Step has, so long as the
-- terminal backend takes the sizes that it is given, the command is not a `Relaunch`, and a client
-- that comes up is not already known as one off screen.
pub turn-HubFits :
    (w : World) (c : Cmd) (h h' : Hub)
    → TakesSizes w.resizes
    → Usual (send_due w h) c
    → HubFits h
    → turn w c h ≡ some h'
    → HubFits h'
unfolding turn
turn-HubFits w c h h' takes u v e =
    handle-HubFits w takes (send_due w h) h' (send_due-HubFits w h v) c u e
