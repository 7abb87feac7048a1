-- ===== src/IrcCmds.antt =====
-- src/irc_cmds.c: the commands that the bot sends. `room n` is how many bytes a buffer of `n` bytes
-- has before other data is overwritten: at least `n`, and more where the compiler or the allocator
-- rounds up. `reprint` is what `sprintf(buf, buf, x)` leaves in `buf`, which C does not define.
pub mod Texts
mod Tests
use bcirc.Base.{
  ℕ, suc, ◌+◌, Bytes, codes, List, [], ◌∷◌, ◌++◌, Option, none, some, ℤ, Bool, true, false, leb,
  if◌then◌else◌, length,
}
use bcirc.PluginHandler.{Arg, Params, params}
use bcirc.PluginHandler.Execute.{Run, fault}
use bcirc.Server.{Server, Bot, Bots, Sockets, set_server, with_server, server_send}

-- The texts that the formats of the file print.
abbrev pub privmsg_text : Bytes → Bytes → Bytes
privmsg_text msg target = codes "PRIVMSG " ++ (target ++ (codes " :" ++ (msg ++ codes "\r\n")))

abbrev pub join_text : Bytes → Option Bytes → Bytes
join_text chan_name none = codes "JOIN " ++ (chan_name ++ codes "\r\n")
join_text chan_name (some chan_pass) =
    codes "JOIN " ++ (chan_name ++ (codes " " ++ (chan_pass ++ codes "\r\n")))

abbrev pub nick_text : Bytes → Bytes
nick_text nick = codes "NICK " ++ (nick ++ codes "\r\n")

abbrev pub quit_text : Bytes → Bytes
quit_text reason = codes "QUIT :" ++ (reason ++ codes "\r\n")

-- The sizes that the source gives malloc.
abbrev pub privmsg_size : Bytes → Bytes → ℕ
privmsg_size msg target = 7 + 1 + length target + 2 + length msg + 2 + 1

abbrev pub join_size : Bytes → Option Bytes → ℕ
join_size chan_name none = 4 + 1 + length chan_name + 2 + 1
join_size chan_name (some chan_pass) = 4 + 1 + length chan_name + 2 + length chan_pass + 2 + 1

abbrev pub nick_size : Bytes → ℕ
nick_size nick = length (codes "NICK %s\r\n") + 1 + length nick + 3

abbrev pub quit_size : Bytes → ℕ
quit_size reason = length (codes "QUIT :%s\r\n") + 1 + length reason + 3

abbrev pub part_size : Bytes → ℕ
part_size chan_name = length (codes "PART %s\r\n") + length chan_name + 1

module _ (call : ℕ → Params → Bots → Run Bot) (net : Sockets) (room : ℕ → ℕ)
    (reprint : Bytes → Bytes → Bytes) where
  -- A text with its zero byte is written to a buffer of some size.
  abbrev pub written_to : ℕ → Bytes → Run Bot → Run Bot
  written_to size text next = if leb (length text + 1) (room size) then next else fault

  unfoldable pub privmsg : Bytes → Bytes → ℕ → Bots → Run Bot
  privmsg msg target srv h =
      let text = privmsg_text msg target in
      written_to (privmsg_size msg target) text (server_send call net (some text) srv h)

  -- The text is copied to an array without room for its zero byte, and sent from there.
  abbrev pub send_copy : Bytes → ℕ → Bots → Run Bot
  send_copy buf srv h = written_to (length buf) buf (server_send call net (some buf) srv h)

  unfoldable pub join_channel : Bytes → Option Bytes → ℕ → Bots → Run Bot
  join_channel chan_name chan_pass srv h =
      let text = join_text chan_name chan_pass in
      let again = reprint text chan_name in
      written_to (join_size chan_name chan_pass) text
        (written_to (join_size chan_name chan_pass) again (send_copy again srv h))

  -- `buf` is overwritten by the address of new memory before it is used as a format: what that
  -- memory holds is an argument.
  unfoldable pub part_channel : Bytes → Bytes → ℕ → Bots → Run Bot
  part_channel memory chan_name srv h =
      let text = reprint memory chan_name in
      written_to (part_size chan_name) text (send_copy text srv h)

  unfoldable pub nick : Bytes → ℕ → Bots → Run Bot
  nick new_nick srv h = with_server srv h λ v.
      let text = nick_text new_nick in
      written_to (nick_size new_nick) text (
        server_send call net (some text) srv (set_server h srv (λ u. record u { nick = new_nick })))

  unfoldable pub quit : Bytes → ℕ → Bots → Run Bot
  quit reason srv h =
      let text = quit_text reason in
      written_to (quit_size reason) text (server_send call net (some text) srv h)
