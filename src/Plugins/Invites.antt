-- ===== src/Plugins/Invites.antt =====
-- Joining on an invitation, plugins/src/autojoin/autojoin.c.
use bcirc.Base.{ℕ, Bytes, Option, none, some}
use bcirc.PluginHandler.{Params, bcirc_plugin_ok, bcirc_plugin_fail}
use bcirc.PluginHandler.Execute.{Run, done}
use bcirc.Channel.{Channel}
use bcirc.Server.{Bot, Bots, Sockets, then_run}
use bcirc.IrcCmds.{join_channel}

module _ (call : ℕ → Params → Bots → Run Bot) (net : Sockets) (room : ℕ → ℕ)
    (reprint : Bytes → Bytes → Bytes) where
  unfoldable pub autojoin_on_invite : Option Channel → Bots → Run Bot
  autojoin_on_invite none h = done bcirc_plugin_fail h
  autojoin_on_invite (some chan) h =
      then_run (join_channel call net room reprint chan.name none chan.srv h)
        (λ res after. done bcirc_plugin_ok after)
