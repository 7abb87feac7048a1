-- ===== src/Events/Tests.antt =====
-- The event handler on concrete lines.
use bcirc.Base.{
  ℕ, ◌+◌, ◌*◌, ◌/◌, Bytes, codes, [], ◌∷◌, ◌++◌, some, ◌≡◌, refl, arith, pos, strstr, strtok,
}
use bcirc.PluginHandler.{Arg, bcirc_plugin_ok, bcirc_plugin_continue, params}
use bcirc.PluginHandler.Execute.{execute_callbacks}
use bcirc.PluginHandler.Names.{callback_got_privmsg, callback_got_numeric}
use bcirc.Server.Examples.{silent_call, two_servers}
use bcirc.Channel.{Channel}
use bcirc.IrcCmds.{privmsg_text}
use bcirc.Events.{returns, message, parse_privmsg, get_privmsg, get_numeric, return_value}
use bcirc.Events.Privmsg.{relayed, get_privmsg-privmsg_text}
use bcirc.Events.Numeric.{three_digits, get_numeric_lem}

-- A line from a server, without a host mask.
parse_from_server :
    parse_privmsg (codes ":irc.example.org PRIVMSG #a :hi") ≡ returns bcirc_plugin_continue
unfolding parse_privmsg strstr strtok
parse_from_server = refl

-- A target with no text.
parse_without_text :
    parse_privmsg (codes ":joona!j@h PRIVMSG #a")
    ≡ message (some (codes "joona")) (some (codes "j@h")) (some (codes "#a")) []
unfolding parse_privmsg strstr strtok
parse_without_text = refl

-- Arrays in blocks of sixteen bytes, with one to spare.
abbrev blocks : ℕ → ℕ
blocks n = (n / 16 + 1) * 16

get_privmsg-privmsg_text_example :
    (text : Bytes) × (privmsg_text (codes "hi all") (codes "#a") ≡ text ++ codes "\r\n")
    × (get_privmsg silent_call blocks 10 (relayed (codes "jo") (codes "j@h") text) two_servers
        ≡ return_value silent_call blocks bcirc_plugin_ok (
            execute_callbacks silent_call callback_got_privmsg
              (params (
                Arg.srv 10
                ∷ Arg.str (codes "jo")
                ∷ Arg.str (codes "j@h")
                ∷ Arg.str (codes "#a")
                ∷ Arg.str (codes "hi all")
                ∷ []))
              two_servers))
get_privmsg-privmsg_text_example =
    get_privmsg-privmsg_text silent_call blocks 10 two_servers (codes "jo") b'j' (codes "@h") b'#'
      (codes "a") (codes "hi all") (refl, (refl, tt)) (refl, (refl, tt)) (refl, (refl, (refl, tt)))
      (refl, (refl, tt)) (λ k. omega arith)

get_numeric_lem_example :
    let line = codes ":host" ++ b' ' ∷ (three_digits 4 3 3 ++ b' ' ∷ codes "bcirc :taken") in
    get_numeric silent_call blocks (some 10) line two_servers
    ≡ return_value silent_call blocks bcirc_plugin_ok (
        execute_callbacks silent_call callback_got_numeric
          (params (Arg.srv 10 ∷ Arg.num (pos (100 * 4 + 10 * 3 + 3)) ∷ Arg.str line ∷ []))
          two_servers)
get_numeric_lem_example =
    get_numeric_lem silent_call blocks 10 two_servers b':' (codes "host") 4 3 3
      (codes "bcirc :taken") (refl, (refl, (refl, (refl, (refl, tt))))) (omega arith) (omega arith)
      (omega arith)
