-- ===== src/Core/Rejoin.antt =====
-- try_rejoin of plugins/src/core/core.c, the thread that connects again. Each attempt has the
-- network's answers of its time; the attempts that are listed are those that are made.
pub mod Attempts
use bcirc.Base.{
  ℕ, suc, ◌+◌, ◌*◌, List, [], ◌∷◌, Option, none, some, ℤ, pos, ◌==ℤ◌, Bool, true, false, ◌==◌, ◌&&◌,
  not, ltb, if◌then◌else◌,
}
use bcirc.PluginHandler.{Arg, Params, params}
use bcirc.PluginHandler.Execute.{Run, done, spent}
use bcirc.Server.{Server, Bot, Bots, Sockets, set_server, then_run, with_server, server_connect}
use bcirc.Server.Pool.{add_to_serverpool, remove_from_serverpool}

abbrev pub wait_time : ℕ
wait_time = 30

-- How long the thread sleeps before its first attempt: `time_now - time_connected < 30`, on a clock
-- that is not behind the time of the connection.
unfoldable pub sleep_time : ℕ → Server → ℕ
sleep_time time_now v =
    if ltb time_now (v.time_connected + wait_time) && not (v.rejoin_tries == 0)
    then wait_time * (v.rejoin_tries + 1)
    else 0

module _ (call : ℕ → Params → Bots → Run Bot) (thread_result : ℕ) where
  -- Behind the loop.
  abbrev pub rejoined : ℕ → Bots → Run Bot
  rejoined srv h =
      done (pos 0)
        (add_to_serverpool thread_result (some srv)
          (set_server h srv (λ u. record u { motd_sent = 1; rejoin_tries = 0 }))).1

  -- The `while`: an attempt, and a pause if it failed.
  unfoldable pub connect_loop : List Sockets → ℕ → Bots → Run Bot
  connect_loop [] srv h = spent
  connect_loop (net ∷ nets) srv h = then_run (server_connect call net srv h) (λ res after.
      let again = connect_loop nets srv after in
      if res ==ℤ pos 1 then rejoined srv after else again)

  unfoldable pub try_rejoin : List Sockets → ℕ → Bots → Run Bot
  unfolding connect_loop
  try_rejoin nets srv h = with_server srv h λ v.
      connect_loop nets srv
        (remove_from_serverpool (some srv)
          (set_server h srv (λ u. record u { rejoin_tries = suc u.rejoin_tries }))).1
