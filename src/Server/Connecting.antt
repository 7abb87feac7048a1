-- ===== src/Server/Connecting.antt =====
-- server_connect of src/server.c where no callback listens: the two ways to fail, and success.
use bcirc.Base.{
  ℕ, [], ◌∷◌, none, some, ◌≡◌, refl, ◌⊎◌, inl, inr, ap, ◌∙◌, pos, negsuc, ◌==ℤ◌, Bool, true, false,
  not, if◌then◌else◌,
}
use bcirc.PluginHandler.{Arg, Params, params}
use bcirc.PluginHandler.Execute.{Run, done, execute_callbacks}
use bcirc.PluginHandler.Execute.Order.{execute_callbacks-unknown}
use bcirc.PluginHandler.Index.{get_cb_index}
use bcirc.PluginHandler.Names.{callback_server_connected}
use bcirc.Server.{Server, Bot, Bots, Sockets, find_server, set_server, then_run, server_connect}
use bcirc.Server.Connection.{with_server_found, find_server-update_server, found_here}

-- A write through a pointer to a known object is seen through it.
pub find_server-set_server :
    (srv : ℕ) (h : Bots) (v : Server) (f : Server → Server)
    → ((u : Server) → (f u).addr ≡ u.addr)
    → find_server srv h.world.servers ≡ some v
    → find_server srv (set_server h srv f).world.servers ≡ some (f v)
find_server-set_server srv h v f keeps found =
    find_server-update_server srv srv f h.world.servers keeps found
    ∙ ap (λ (b : Bool). some (if b then f v else v)) (found_here srv h.world.servers found)

-- The system finds an address, gives a socket and connects it, whatever the server.
abbrev pub IsReachable : Sockets → Type 0
IsReachable net =
    (v : Server)
    → (net.resolve v ≡ true)
      × ((net.socket v ==ℤ negsuc 0) ≡ false)
      × ((net.connect v (net.socket v) ==ℤ pos 0) ≡ true)

-- It finds an address, but gives no socket or cannot connect it.
abbrev pub IsUnreachable : Sockets → Type 0
IsUnreachable net =
    (v : Server)
    → (net.resolve v ≡ true)
      × (((net.socket v ==ℤ negsuc 0) ≡ true)
          ⊎ (((net.socket v ==ℤ negsuc 0) ≡ false)
              × ((net.connect v (net.socket v) ==ℤ pos 0) ≡ false)))

module _ (call : ℕ → Params → Bots → Run Bot) (net : Sockets) where
  -- The state after the socket is stored, and after the connection is made.
  abbrev pub with_socket : ℕ → Server → Bots → Bots
  with_socket srv v h = set_server h srv (λ u. record u { s = net.socket v })

  abbrev pub with_connection : ℕ → Server → Bots → Bots
  with_connection srv v h =
      set_server h srv (λ u. record u { s = net.socket v; motd_sent = 0; connected = 1 })

  module _ (srv : ℕ) (h : Bots) (v : Server)
      (found : find_server srv h.world.servers ≡ some v) where
    -- The statements behind the two tests, for their results.
    abbrev outcome : Bool → Bool → Run Bot
    outcome no_socket connects =
        if no_socket
        then done (negsuc 1) (with_socket srv v h)
        else if not connects
        then done (negsuc 2) (with_socket srv v h)
        else then_run
            (execute_callbacks call callback_server_connected (params (Arg.srv srv ∷ []))
              (with_connection srv v h))
            (λ res after. done (pos 1) after)

    server_connect-outcome :
        net.resolve v ≡ true
        → server_connect call net srv h
          ≡ outcome (net.socket v ==ℤ negsuc 0) (net.connect v (net.socket v) ==ℤ pos 0)
    unfolding server_connect
    server_connect-outcome known = with_server_found srv h _ found ∙ rw known refl

    pub server_connect_made :
        IsReachable net
        → get_cb_index callback_server_connected h.index_list ≡ none
        → server_connect call net srv h ≡ done (pos 1) (with_connection srv v h)
    server_connect_made reachable silent =
        let (known, socket, connects) = reachable v in
        server_connect-outcome known
        ∙ (ap (λ (b : Bool). outcome b (net.connect v (net.socket v) ==ℤ pos 0)) socket
            ∙ (ap (λ (b : Bool). outcome false b) connects
                ∙ ap (λ (r : Run Bot). then_run r (λ res after. done (pos 1) after))
                    (execute_callbacks-unknown call callback_server_connected
                      (params (Arg.srv srv ∷ [])) (with_connection srv v h) silent)))

    pub server_connect_failed :
        IsUnreachable net
        → (k : ℕ) × (server_connect call net srv h ≡ done (negsuc k) (with_socket srv v h))
    server_connect_failed unreachable = elim (unreachable v).1 [
      | inl nothing ↦ (
        1,
        server_connect-outcome (unreachable v).0
            ∙ ap (λ (b : Bool). outcome b (net.connect v (net.socket v) ==ℤ pos 0)) nothing,
      )
      | inr (socket, refused) ↦ (
        2,
        server_connect-outcome (unreachable v).0
            ∙ (ap (λ (b : Bool). outcome b (net.connect v (net.socket v) ==ℤ pos 0)) socket
                ∙ ap (λ (b : Bool). outcome false b) refused),
      )
    ]
