-- ===== src/Core/Shutdown.antt =====
-- sig_handler of plugins/src/core/core.c: the bot leaves its servers and ends.
pub mod Rounds
use bcirc.Base.{
  ℕ, zero, suc, Bytes, codes, List, [], ◌∷◌, Option, some, none, ◌≡◌, ◌≢◌, refl, ap, ℤ, pos,
}
use bcirc.PluginHandler.{Arg, Params, params}
use bcirc.PluginHandler.Execute.{Run, done, fault, spent}
use bcirc.Server.{Bot, Bots, Sockets, then_run, server_disconnect, server_intentional_dc}
use bcirc.Server.Pool.{remove_from_serverpool, free_server}
use bcirc.IrcCmds.{quit}

-- `server_list[0]`, read anew; without servers the list is null.
abbrev pub first_server : Bots → (ℕ → Run Bot) → Run Bot
first_server h k = elim h.world.server_list as (λ _. Run Bot) [ [] ↦ fault | srv ∷ rest ↦ k srv ]

abbrev pub kill_text : Bytes
kill_text = codes "Received killing signal"

module _ (call : ℕ → Params → Bots → Run Bot) (net : Sockets) (room : ℕ → ℕ)
    (reprint : Bytes → Bytes → Bytes) where
  -- The body of the loop, with what comes behind it.
  abbrev pub leave_server : (Bots → Run Bot) → Bots → Run Bot
  leave_server next h = first_server h λ srv.
      then_run (quit call net room reprint kill_text srv h) (λ res h1. first_server h1 λ srv1.
        then_run (server_disconnect call net srv1 server_intentional_dc h1) (λ res' h2.
          first_server h2 λ srv2.
            let h3 = (remove_from_serverpool (some srv2) h2).1 in
            first_server h3 λ freed. next (free_server (some freed) h3).1))

  -- The rounds at most, and `exit(EXIT_SUCCESS)` where no server is left.
  unfoldable pub sig_handler : ℕ → Bots → Run Bot
  sig_handler zero h = spent
  sig_handler (suc fuel) h =
      let next = sig_handler fuel in
      elim h.world.server_list as (λ _. Run Bot) [
        | [] ↦ done (pos 0) h
        | srv ∷ rest ↦ leave_server next h
      ]
