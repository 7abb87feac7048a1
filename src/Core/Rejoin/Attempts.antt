-- ===== src/Core/Rejoin/Attempts.antt =====
-- try_rejoin of plugins/src/core/core.c: the attempts that fail.
use bcirc.Base.{ℕ, List, [], ◌∷◌, ◌++◌, some, ◌≡◌, refl, ap, ◌∙◌, ℤ, pos, ◌==ℤ◌, All, if◌then◌else◌}
use bcirc.PluginHandler.{Params}
use bcirc.PluginHandler.Execute.{Run}
use bcirc.Server.{Server, Bot, Bots, Sockets, find_server, then_run}
use bcirc.Server.Connecting.{
  find_server-set_server, IsUnreachable, with_socket, server_connect_failed,
}
use bcirc.Server.Places.{SamePlaces, SamePlaces-refl, SamePlaces-trans, set_server-SamePlaces}
use bcirc.Core.Rejoin.{rejoined, connect_loop}

module _ (call : ℕ → Params → Bots → Run Bot) (thread_result srv : ℕ) where
  -- What a result of an attempt leads to.
  abbrev pub go_on : List Sockets → ℤ → Bots → Run Bot
  go_on nets res after =
      let again = connect_loop call thread_result nets srv after in
      if res ==ℤ pos 1 then rejoined call thread_result srv after else again

  -- Attempts that fail change nothing but the server's socket.
  pub connect_loop-IsUnreachable :
      (fails nets : List Sockets) (h : Bots) (v : Server)
      → find_server srv h.world.servers ≡ some v
      → All IsUnreachable fails
      → (h' : Bots) × (sock : ℤ) × (connect_loop call thread_result (fails ++ nets) srv h
          ≡ connect_loop call thread_result nets srv h')
        × (find_server srv h'.world.servers ≡ some (record v { s = sock }))
        × (h'.world.wire ≡ h.world.wire)
        × SamePlaces h h'
  unfolding connect_loop
  connect_loop-IsUnreachable [] nets h v found down = (h, v.s, refl, found, refl, SamePlaces-refl h)
  connect_loop-IsUnreachable (f ∷ fails) nets h v found down =
      let (k, failed) = server_connect_failed call f srv h v found down.0 in
      let next : Bots = with_socket call f srv v h in
      let there =
        find_server-set_server srv h v (λ u. record u { s = f.socket v }) (λ u. refl) found in
      let (h', sock, run, found', wire, same) =
        connect_loop-IsUnreachable fails nets next (record v { s = f.socket v }) there down.1 in
      (
        h',
        sock,
        ap (λ (r : Run Bot). then_run r (go_on (fails ++ nets))) failed ∙ run,
        found',
        wire,
        SamePlaces-trans h next h'
            (set_server-SamePlaces srv (λ u. record u { s = f.socket v }) h (λ u. refl)) same,
      )
