-- ===== src/Events/ChanEvent/Joined.antt =====
-- get_chan_event of plugins/src/events-handler/events.c on lines as a server relays them.
use bcirc.Base.{
  ℕ, ◌+◌, ◌≤◌, Bytes, codes, [], ◌∷◌, ◌++◌, none, some, ◌≡◌, refl, ap, ◌∙◌, Bool, true, false,
  arith, ◌==◌, leb, length, strtok, is_space, if◌then◌else◌, pos,
}
use bcirc.PluginHandler.{Params, bcirc_plugin_ok, bcirc_plugin_continue}
use bcirc.PluginHandler.Execute.{Run, done, fault}
use bcirc.Channel.{Channel}
use bcirc.Server.{Server, Bot, Bots, find_server, with_server}
use bcirc.Server.Connection.{with_server_found}
use bcirc.Events.Words.{IsWord, strtok-append, strtok_all}
use bcirc.Events.Privmsg.{relayed}
use bcirc.Events.ChanEvent.{
  ChanEvent, join, kick, part, quit, invite, event_of, with_event, second_token, first_token,
  get_chan_event,
}

-- The events whose third word is the channel, and the words of the events.
abbrev pub IsNamed : ChanEvent → Type 0
IsNamed join = Unit
IsNamed kick = Unit
IsNamed part = Unit
IsNamed quit = ⊥
IsNamed invite = ⊥

abbrev pub word_of : ChanEvent → Bytes
word_of join = codes "JOIN"
word_of kick = codes "KICK"
word_of part = codes "PART"
word_of quit = codes "QUIT"
word_of invite = codes "INVITE"

module _ (call : ℕ → Params → Bots → Run Bot) (room : ℕ → ℕ) (srv : ℕ) where
  -- The tests in front of the tokens.
  pub guards :
      (line : Bytes) (h : Bots) (v : Server)
      → find_server srv h.world.servers ≡ some v
      → (v.motd_sent == 0) ≡ false
      → 20 ≤ length line
      → length line + 1 ≤ room 1024
      → get_chan_event call room (some srv) (some line) h
        ≡ first_token call room srv line (strtok is_space line) h
  unfolding get_chan_event
  guards line h v found welcome long fits =
      let a : leb (length line + 1) 20 ≡ false = ground (arith, long) in
      let b : leb (length line + 1) (room 1024) ≡ true = ground (arith, fits) in
      let run : Run Bot = first_token call room srv line (strtok is_space line) h in
      let known : Server → Run Bot = λ u.
        if u.motd_sent == 0
        then done (pos 0) h
        else (if leb (length line + 1) (room 1024) then run else fault) in
      ap (λ (x : Bool). if x then done bcirc_plugin_continue h else with_server srv h known) a
      ∙ (with_server_found srv h known found
          ∙ (ap
                (λ (x : Bool).
                  if x
                  then done (pos 0) h
                  else (if leb (length line + 1) (room 1024) then run else fault))
                welcome
              ∙ ap (λ (x : Bool). if x then run else fault) b))

  -- A line of two words of which the second is no event, on a server that has welcomed the bot.
  pub get_chan_event_other :
      (w : ℕ) (word : Bytes) (c : ℕ) (rest : Bytes) (h : Bots) (v : Server)
      → IsWord is_space (w ∷ word)
      → IsWord is_space (c ∷ rest)
      → event_of (c ∷ rest) ≡ none
      → find_server srv h.world.servers ≡ some v
      → (v.motd_sent == 0) ≡ false
      → let line = (w ∷ word) ++ b' ' ∷ c ∷ rest in
        20 ≤ length line
        → length line + 1 ≤ room 1024
        → get_chan_event call room (some srv) (some line) h ≡ done bcirc_plugin_ok h
  get_chan_event_other w word c rest h v plain rest_plain unknown_event found welcome long fits =
      let line : Bytes = (w ∷ word) ++ b' ' ∷ c ∷ rest in
      guards line h v found welcome long fits
      ∙ (ap (λ o. first_token call room srv line o h)
            (strtok-append is_space w word b' ' (c ∷ rest) plain refl)
          ∙ (ap (λ o. second_token call room srv line o h) (strtok_all is_space c rest rest_plain)
              ∙ ap (λ o. with_event call room srv line o [] h) unknown_event))

module _ (call : ℕ → Params → Bots → Run Bot) (room : ℕ → ℕ) (srv : ℕ) (n : Bytes) (m : ℕ)
    (mask : Bytes) where
  abbrev line_of : Bytes → Bytes
  line_of text = relayed n (m ∷ mask) text

-- A line of less than 20 bytes with its zero byte is passed over.
pub get_chan_event_short :
    (call : ℕ → Params → Bots → Run Bot) (room : ℕ → ℕ) (srv : ℕ) (line : Bytes) (h : Bots)
    → length line + 1 ≤ 20
    → get_chan_event call room (some srv) (some line) h ≡ done bcirc_plugin_continue h
unfolding get_chan_event
get_chan_event_short call room srv line h short =
    let passed : leb (length line + 1) 20 ≡ true = ground (arith, short) in rw passed refl
