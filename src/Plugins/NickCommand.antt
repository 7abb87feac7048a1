-- ===== src/Plugins/NickCommand.antt =====
-- The command `!nick`, plugins/src/nick/nick.c.
pub mod Command
use bcirc.Base.{
  ℕ, suc, Bytes, codes, Option, none, some, Bool, true, false, leb, str_eq, strtok, is_space,
  if◌then◌else◌, length,
}
use bcirc.PluginHandler.{Params, bcirc_plugin_ok, bcirc_plugin_fail}
use bcirc.PluginHandler.Execute.{Run, done, fault}
use bcirc.Server.{Bot, Bots, Sockets, then_run}
use bcirc.IrcCmds.{nick}
use bcirc.Plugins.{has_null}

abbrev pub nick_command : Bytes
nick_command = codes "!nick"

module _ (call : ℕ → Params → Bots → Run Bot) (net : Sockets) (room : ℕ → ℕ)
    (reprint : Bytes → Bytes → Bytes) where
  abbrev pub change_to : ℕ → Option (Bytes × Bytes) → Bots → Run Bot
  change_to srv none h = done bcirc_plugin_ok h
  change_to srv (some (new_nick, save)) h =
      then_run (nick call net room reprint new_nick srv h) (λ res after. done bcirc_plugin_ok after)

  abbrev pub on_command : ℕ → Option (Bytes × Bytes) → Bots → Run Bot
  on_command srv none h = done bcirc_plugin_ok h
  on_command srv (some (word, save)) h =
      if str_eq word nick_command
      then change_to srv (strtok is_space save) h
      else done bcirc_plugin_ok h

  -- A text of 512 bytes or more leaves the copy without a zero byte.
  unfoldable pub handle_nick : Params → ℕ → Bytes → Bots → Run Bot
  handle_nick p srv msg h =
      if has_null p
      then done bcirc_plugin_fail h
      else if leb 512 (length msg)
      then fault
      else on_command srv (strtok is_space msg) h
