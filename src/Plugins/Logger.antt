-- ===== src/Plugins/Logger.antt =====
-- What the logger prints, plugins/src/logger/logger.c. A null pointer is `none`. Where a callback
-- reads a server, its argument is the object behind the pointer, `none` if there is no such object;
-- where it only tests the pointer, the address.
use bcirc.Base.{ℕ, Bytes, codes, ◌++◌, Option, none, some, ℤ, ◌==◌, if◌then◌else◌}
use bcirc.PluginHandler.{
  Params, bcirc_plugin_ok, bcirc_plugin_stop, bcirc_plugin_continue, bcirc_plugin_break,
}
use bcirc.Channel.{Channel}
use bcirc.Server.{Server}
use bcirc.Plugins.{has_null}

-- A text printed and the value returned; the value alone; a read through a null pointer.
pub data Logged : Type 0 where
  printed : Bytes → ℤ → Logged
  unprinted : ℤ → Logged
  undefined : Logged

-- A parameter that is used without a test.
abbrev used {ℓ} : {A : Type ℓ} → Option A → (A → Logged) → Logged
used none k = undefined
used (some a) k = k a

unfoldable pub on_recv : Option ℕ → Option Bytes → Logged
on_recv none buffer = unprinted bcirc_plugin_continue
on_recv (some srv) none = unprinted bcirc_plugin_continue
on_recv (some srv) (some buffer) = printed (buffer ++ codes "\n") bcirc_plugin_ok

-- The plugin does not register this callback.
abbrev pub on_numeric_text : Server → Option Bytes → Logged
on_numeric_text srv buf =
    if srv.motd_sent == 0
    then unprinted bcirc_plugin_ok
    else used buf
        λ text. printed (srv.network_name ++ codes ": " ++ text ++ codes "\n") bcirc_plugin_stop

unfoldable pub on_numeric : Params → Option Server → Option Bytes → Logged
on_numeric p srv buf =
    if has_null p then unprinted bcirc_plugin_continue else used srv λ v. on_numeric_text v buf

unfoldable pub on_privmsg : Option Server → Option Bytes → Option Bytes → Option Bytes → Logged
on_privmsg srv nick target msg = used srv λ v. used nick λ who. used target λ place.
    used msg λ text.
      printed
        (v.network_name
          ++ codes "."
          ++ place
          ++ codes " <"
          ++ who
          ++ codes ">: "
          ++ text
          ++ codes "\n")
        bcirc_plugin_ok

-- Nor this one.
unfoldable pub on_server_send : Option ℕ → Option Bytes → Logged
on_server_send none buf = unprinted bcirc_plugin_break
on_server_send (some srv) none = unprinted bcirc_plugin_break
on_server_send (some srv) (some buf) = printed (buf ++ codes "\n") bcirc_plugin_ok

-- `network_name.name` of a channel on its server.
abbrev pub place_of : Server → Channel → Bytes
place_of v chan = v.network_name ++ codes "." ++ chan.name

-- The server is that of the channel, whose pointer to it is never null.
unfoldable pub on_join : Option Channel → Option Server → Option Bytes → Logged
on_join none srv nick = unprinted bcirc_plugin_break
on_join (some chan) srv none = unprinted bcirc_plugin_break
on_join (some chan) srv (some nick) = used srv λ v.
    printed (codes "User " ++ nick ++ codes " joined channel " ++ place_of v chan ++ codes "\n")
      bcirc_plugin_ok

-- The second test is the same as the first, so that without a reason nothing is printed.
unfoldable pub on_part : Option Channel → Option Server → Option Bytes → Option Bytes → Logged
on_part chan srv nick none = unprinted bcirc_plugin_ok
on_part chan srv nick (some reason) = used chan λ c. used srv λ v. used nick λ who.
    printed
      (codes "User "
        ++ who
        ++ codes " left channel "
        ++ place_of v c
        ++ codes "("
        ++ reason
        ++ codes ")\n")
      bcirc_plugin_ok

-- The server is a parameter of its own.
unfoldable pub on_quit : Option Server → Option Bytes → Option Bytes → Logged
on_quit srv nick none = used srv λ v. used nick λ who.
    printed (codes "User " ++ who ++ codes " left server " ++ v.network_name ++ codes "\n")
      bcirc_plugin_ok
on_quit srv nick (some reason) = used srv λ v. used nick λ who.
    printed
      (codes "User "
        ++ who
        ++ codes " left server "
        ++ v.network_name
        ++ codes "("
        ++ reason
        ++ codes ")\n")
      bcirc_plugin_ok

unfoldable pub on_kick : Option Channel → Option Server → Option Bytes → Option Bytes → Logged
on_kick chan srv nick none = used chan λ c. used srv λ v. used nick λ who.
    printed
      (codes "User " ++ who ++ codes " was kicked from channel " ++ place_of v c ++ codes "\n")
      bcirc_plugin_ok
on_kick chan srv nick (some reason) = used chan λ c. used srv λ v. used nick λ who.
    printed
      (codes "User "
        ++ who
        ++ codes " was kicked from channel "
        ++ place_of v c
        ++ codes "("
        ++ reason
        ++ codes ")\n")
      bcirc_plugin_ok
