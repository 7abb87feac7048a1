-- ===== src/IrcCmds/Texts.antt =====
-- The buffers of src/irc_cmds.c.
use bcirc.Base.{
  ℕ, ◌+◌, ◌≤◌, Bytes, codes, ◌++◌, Option, none, some, ◌≡◌, refl, ap, ◌∙◌, Bool, true, false, arith,
  leb, if◌then◌else◌, length, length-append, Bool-cases, inl, inr,
}
use bcirc.PluginHandler.{Params}
use bcirc.PluginHandler.Execute.{Run, fault}
use bcirc.Server.{Server, Bot, Bots, Sockets, find_server, set_server, server_send}
use bcirc.Server.Connection.{with_server_found}
use bcirc.IrcCmds.{
  privmsg_text, join_text, nick_text, quit_text, privmsg_size, join_size, nick_size, quit_size,
  written_to, privmsg, join_channel, nick, quit, send_copy,
}

leb_of_le : {a b : ℕ} → a ≤ b → leb a b ≡ true
leb_of_le h = ground (arith, h)

length-privmsg_text :
    (msg target : Bytes) → length (privmsg_text msg target) + 1 ≡ privmsg_size msg target
length-privmsg_text msg target = omega (
  arith,
  length-append target (codes " :" ++ (msg ++ codes "\r\n")),
  length-append msg (codes "\r\n"),
)

length-join_text :
    (chan_name : Bytes) (chan_pass : Option Bytes)
    → length (join_text chan_name chan_pass) + 1 ≤ join_size chan_name chan_pass
length-join_text chan_name none = omega (arith, length-append chan_name (codes "\r\n"))
length-join_text chan_name (some chan_pass) = omega (
  arith,
  length-append chan_name (codes " " ++ (chan_pass ++ codes "\r\n")),
  length-append chan_pass (codes "\r\n"),
)

length-nick_text : (new_nick : Bytes) → length (nick_text new_nick) + 1 ≤ nick_size new_nick
length-nick_text new_nick = omega (arith, length-append new_nick (codes "\r\n"))

length-quit_text : (reason : Bytes) → length (quit_text reason) + 1 ≤ quit_size reason
length-quit_text reason = omega (arith, length-append reason (codes "\r\n"))

module _ (call : ℕ → Params → Bots → Run Bot) (net : Sockets) (room : ℕ → ℕ)
    (reprint : Bytes → Bytes → Bytes) where
  written_fault :
      (size : ℕ) (text : Bytes) → written_to call net room reprint size text fault ≡ fault
  written_fault size text = elim (Bool-cases (leb (length text + 1) (room size))) [
    | inl held ↦ rw held refl
    | inr past ↦ rw past refl
  ]

  pub fits :
      (size : ℕ) (text : Bytes) (next : Run Bot)
      → length text + 1 ≤ room size
      → written_to call net room reprint size text next ≡ next
  fits size text next h = ap (λ (b : Bool). if b then next else fault) (leb_of_le h)

  -- Where a buffer has at least the bytes asked for, the buffers of privmsg, nick and quit hold
  -- their texts, and what these functions do is to send them; nick first stores the new nick.
  pub commands_sent :
      ((n : ℕ) → n ≤ room n)
      → (srv : ℕ) (h : Bots) (v : Server) (msg target new_nick reason : Bytes)
      → find_server srv h.world.servers ≡ some v
      → (privmsg call net room reprint msg target srv h
          ≡ server_send call net (some (privmsg_text msg target)) srv h)
        × (nick call net room reprint new_nick srv h
            ≡ server_send call net
                (some (nick_text new_nick))
                srv
                (set_server h srv (λ u. record u { nick = new_nick })))
        × (quit call net room reprint reason srv h
            ≡ server_send call net (some (quit_text reason)) srv h)
  unfolding privmsg nick quit
  commands_sent enough srv h v msg target new_nick reason found = (
    fits (privmsg_size msg target) (privmsg_text msg target) _
        (omega (arith, length-privmsg_text msg target, enough (privmsg_size msg target))),
    with_server_found srv h _ found
        ∙ fits (nick_size new_nick) (nick_text new_nick) _
            (omega (arith, length-nick_text new_nick, enough (nick_size new_nick))),
    fits (quit_size reason) (quit_text reason) _
        (omega (arith, length-quit_text reason, enough (quit_size reason))),
  )

  -- join_channel, where printing the text over itself leaves it as it is, and where its copy has
  -- one byte more than the array is declared with: it sends the JOIN command.
  join_channel_sent :
      (chan_name : Bytes) (chan_pass : Option Bytes) (srv : ℕ) (h : Bots)
      → ((n : ℕ) → n ≤ room n)
      → reprint (join_text chan_name chan_pass) chan_name ≡ join_text chan_name chan_pass
      → length (join_text chan_name chan_pass) + 1 ≤ room (length (join_text chan_name chan_pass))
      → join_channel call net room reprint chan_name chan_pass srv h
        ≡ server_send call net (some (join_text chan_name chan_pass)) srv h
  unfolding join_channel
  join_channel_sent chan_name chan_pass srv h enough same spare =
      let text = join_text chan_name chan_pass in
      let size = join_size chan_name chan_pass in
      let held : length text + 1 ≤ room size =
        omega (arith, length-join_text chan_name chan_pass, enough size) in
      fits size text _ held
      ∙ (ap
            (λ (t : Bytes).
              written_to call net room reprint size t (send_copy call net room reprint t srv h))
            same
          ∙ (fits size text _ held ∙ fits (length text) text _ spare))

  -- Where an array has exactly the bytes that it is declared with, every join_channel writes past
  -- the end of one, whatever printing a text over itself does.
  pub join_channel_overflows :
      (chan_name : Bytes) (chan_pass : Option Bytes) (srv : ℕ) (h : Bots)
      → ((n : ℕ) → room n ≡ n)
      → join_channel call net room reprint chan_name chan_pass srv h ≡ fault
  unfolding join_channel
  join_channel_overflows chan_name chan_pass srv h exact =
      let again = reprint (join_text chan_name chan_pass) chan_name in
      let size = join_size chan_name chan_pass in
      let short : leb (length again + 1) (room (length again)) ≡ false =
        rw (exact (length again)) (ground arith) in
      let overflow : send_copy call net room reprint again srv h ≡ fault =
        ap (λ (b : Bool). if b then server_send call net (some again) srv h else fault) short in
      ap
        (λ (r : Run Bot).
          written_to call net room reprint size (join_text chan_name chan_pass)
            (written_to call net room reprint size again r))
        overflow
      ∙ (ap (written_to call net room reprint size (join_text chan_name chan_pass))
            (written_fault size again)
          ∙ written_fault size (join_text chan_name chan_pass))
