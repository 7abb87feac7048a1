-- ===== src/Server/Tests.antt =====
-- The server pool and the connections at concrete states.
use bcirc.Base.{
  codes, [], ◌∷◌, ◌++◌, some, ◌≡◌, refl, pos, arith, if◌then◌else◌, ltb_ℤ, pos_part, ◌+◌, ◌%◌,
}
use bcirc.Log.Escape.{doubled}
use bcirc.PluginHandler.Execute.{done}
use bcirc.Server.{Bots, find_server, size_mod, server_send}
use bcirc.Server.Examples.{
  silent_call, short_net, example_server, two_servers, known_server, send_unknown,
}
use bcirc.Server.Connection.{server_send_lem}
use bcirc.PluginHandler.{bcirc_plugin_ok}
use bcirc.PluginHandler.Execute.Order.{execute_callbacks-unknown}
use bcirc.PluginHandler.Names.{callback_server_send}
use bcirc.Server.{set_bot}
use bcirc.Server.Pool.{add_to_serverpool, remove_from_serverpool}
use bcirc.Server.Pool.Membership.{remove_from_serverpool-add_to_serverpool}
use bcirc.Server.Receive.{recv_chunk}
use bcirc.Server.Receive.Lines.{lines, for_each}
use bcirc.Server.Receive.Chunk.{recv_chunk-lines, counted}

remove_from_serverpool-add_to_serverpool_example :
    let h' = (add_to_serverpool 0 (some 12) two_servers).1 in
    (h'
      ≡ set_bot two_servers
          (λ b. record b { server_list = 10 ∷ 11 ∷ 12 ∷ []; threads = 10 ∷ 11 ∷ 12 ∷ [] }))
    × ((remove_from_serverpool (some 12) h').1
        ≡ set_bot two_servers (λ b. record b { threads = 10 ∷ 11 ∷ 12 ∷ [] }))
remove_from_serverpool-add_to_serverpool_example =
    remove_from_serverpool-add_to_serverpool 0 12 two_servers
      ((λ e. omega (arith, e)), ((λ e. omega (arith, e)), tt))

server_send_lem_example :
    (h' : Bots) × (server_send silent_call short_net (some (codes "QUIT\r\n")) 11 two_servers
      ≡ done (pos 6) h')
    × (h'.world.wire ≡ (pos 7, codes "QUIT\r\n") ∷ [])
    × (find_server 11 h'.world.servers
        ≡ some (
            if ltb_ℤ (pos 0) (pos 6)
            then record (example_server 11) { sent_len = (10 + pos_part (pos 6)) % size_mod }
            else example_server 11))
    × (h'.index_list ≡ two_servers.index_list)
server_send_lem_example =
    server_send_lem silent_call short_net (codes "QUIT\r\n") 11 two_servers two_servers
      bcirc_plugin_ok (example_server 11)
      (execute_callbacks-unknown silent_call callback_server_send _ two_servers send_unknown)
      known_server.1

two_lines : lines (codes "PING x\r\nPONG\r\n") ≡ codes "PING x" ∷ codes "PONG" ∷ []
two_lines = refl

recv_chunk-lines_example :
    recv_chunk silent_call short_net 10 (codes "PI%\r" ++ 10 ∷ []) two_servers
    ≡ for_each silent_call short_net 10
        (lines (doubled (codes "PI%\r")))
        (counted 10 (codes "PI%\r" ++ 10 ∷ []) two_servers)
recv_chunk-lines_example =
    recv_chunk-lines silent_call short_net 10 (codes "PI%\r") two_servers (example_server 10)
      known_server.0
      (
        (λ e. omega (arith, e)),
        ((λ e. omega (arith, e)), ((λ e. omega (arith, e)), ((λ e. omega (arith, e)), tt))),
      )
      (omega arith)
