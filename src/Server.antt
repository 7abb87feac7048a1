-- ===== src/Server.antt =====
-- src/server.c and headers/server.h: the server objects, the pool of servers, and the operations
-- on one connection. Sockets and threads are parameters: what the system calls return.
pub mod Pool
pub mod Connection
pub mod Connecting
pub mod Places
pub mod Receive
pub mod Examples
mod Tests
use bcirc.Base.{
  ℕ, zero, suc, ◌+◌, ◌%◌, ◌^◌, Bytes, List, [], ◌∷◌, ◌++◌, map, Option, none, some, ℤ, pos, negsuc,
  ◌==ℤ◌, Bool, true, false, ◌==◌, not, if◌then◌else◌, keep, length, ltb_ℤ, pos_part,
}
use bcirc.PluginHandler.{Handler, Arg, Params, params}
use bcirc.PluginHandler.Execute.{Run, done, fault, spent, execute_callbacks}
use bcirc.PluginHandler.Names.{
  callback_server_connected, callback_server_disconnected, callback_server_send,
}
use bcirc.Channel.{Channels}
use bcirc.Scripts.{Scripts}

abbrev pub server_intentional_dc : ℤ
server_intentional_dc = pos 0

abbrev pub server_closed_connection : ℤ
server_closed_connection = pos 1

abbrev pub server_timeout : ℤ
server_timeout = pos 2

-- The fields that the sources read or write, and the address of the object.
pub record Server : Type 0 where
  pub addr : ℕ
  pub network_name : Bytes
  pub host : Bytes
  pub port : Bytes
  pub pass : Option Bytes
  pub autorejoin : ℤ
  pub realname : Bytes
  pub username : Bytes
  pub nick : Bytes
  pub alt_nick : Bytes
  pub motd_sent : ℕ
  pub s : ℤ  -- the socket
  pub time_connected : ℕ
  pub rejoin_tries : ℕ
  pub sent_len : ℕ  -- size_t
  pub recvd_len : ℕ  -- size_t
  pub connected : ℕ

-- The rest of the program's state, as the callbacks see it: the server objects that are allocated,
-- the pool (`server_list`), the servers whose server_recv threads were started, the channels, what
-- was handed to send(), oldest first, and the scripts.
pub record Bot : Type 0 where
  pub servers : List Server
  pub server_list : List ℕ
  pub threads : List ℕ
  pub channels : Channels
  pub wire : List (ℤ × Bytes)
  pub scripts : Scripts

abbrev pub Bots : Type 0
Bots = Handler Bot

-- The object at an address; `none` for a pointer to nothing.
unfoldable pub find_server : ℕ → List Server → Option Server
find_server addr [] = none
find_server addr (v ∷ vs) = if v.addr == addr then some v else find_server addr vs

-- A write through a pointer.
pub update_server : ℕ → (Server → Server) → List Server → List Server
update_server addr f [] = []
update_server addr f (v ∷ vs) = (if v.addr == addr then f v else v) ∷ update_server addr f vs

abbrev pub set_bot : Bots → (Bot → Bot) → Bots
set_bot h f = record h { world = f h.world }

abbrev pub set_server : Bots → ℕ → (Server → Server) → Bots
set_server h addr f = set_bot h (λ b. record b { servers = update_server addr f b.servers })

-- The next statement of a function, with the value and the state of the call before it.
abbrev pub then_run : Run Bot → (ℤ → Bots → Run Bot) → Run Bot
then_run (done res h) k = k res h
then_run fault k = fault
then_run spent k = spent

-- A statement that reads the object behind a pointer.
abbrev pub with_server : ℕ → Bots → (Server → Run Bot) → Run Bot
with_server addr h k = elim (find_server addr h.world.servers) [ none ↦ fault | some v ↦ k v ]

-- What the operating system answers: whether `getaddrinfo` finds an address, `socket`, `connect`,
-- `send` and `close`.
pub record Sockets : Type 0 where
  pub resolve : Server → Bool
  pub socket : Server → ℤ
  pub connect : Server → ℤ → ℤ
  pub send : ℤ → Bytes → ℤ
  pub close : ℤ → ℤ

abbrev pub size_mod : ℕ
size_mod = 2 ^ 64

module _ (call : ℕ → Params → Bots → Run Bot) (net : Sockets) where
  -- Without an address, `res` is read uninitialised.
  unfoldable pub server_connect : ℕ → Bots → Run Bot
  server_connect srv h = with_server srv h λ v.
      let sock = net.socket v in
      let h' = set_server h srv (λ u. record u { s = sock }) in
      if not (net.resolve v)
      then fault
      else if sock ==ℤ negsuc 0
      then done (negsuc 1) h'
      else if not (net.connect v sock ==ℤ pos 0)
      then done (negsuc 2) h'
      else then_run
          (execute_callbacks call callback_server_connected (params (Arg.srv srv ∷ []))
            (set_server h srv (λ u. record u { s = sock; motd_sent = 0; connected = 1 })))
          (λ res after. done (pos 1) after)

  unfoldable pub server_disconnect : ℕ → ℤ → Bots → Run Bot
  server_disconnect srv reason h = with_server srv h λ v.
      then_run
        (execute_callbacks call callback_server_disconnected
          (params (Arg.srv srv ∷ Arg.num reason ∷ [])) h)
        (λ res after. done (net.close v.s) after)

  -- The text is handed to `send`, and counted as far as that took it.
  abbrev pub send_text : Bytes → ℕ → Bots → Run Bot
  send_text text srv h = with_server srv h λ v.
      let res = net.send v.s text in
      let tried = set_bot h (λ b. record b { wire = b.wire ++ (v.s, text) ∷ [] }) in
      if ltb_ℤ (pos 0) res
      then done res (
          set_server tried srv
            (λ u. record u { sent_len = (u.sent_len + pos_part res) % size_mod }))
      else done res tried

  abbrev pub buffer_arg : Option Bytes → Arg
  buffer_arg none = Arg.null
  buffer_arg (some text) = Arg.str text

  -- The callbacks are called before the test for a null buffer.
  unfoldable pub server_send : Option Bytes → ℕ → Bots → Run Bot
  server_send buf srv h =
      then_run
        (execute_callbacks call callback_server_send (params (Arg.srv srv ∷ buffer_arg buf ∷ [])) h)
        (λ res after. elim buf [ none ↦ done (pos 0) after | some text ↦ send_text text srv after ])
