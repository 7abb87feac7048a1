-- ===== src/Server/Pool.antt =====
-- The pool of servers in src/server.c: add_to_serverpool, remove_from_serverpool, free_server and
-- load_servers. The configuration file (libconfig) is a parameter: what each lookup finds.
pub mod Membership
pub mod Loading
use bcirc.Base.{
  ℕ, suc, Bytes, List, [], ◌∷◌, ◌++◌, Option, none, some, ℤ, pos, negsuc, ◌==ℤ◌, Bool, true, false,
  ◌==◌, ◌>>=◌, not, if◌then◌else◌, keep,
}
use bcirc.PluginHandler.{Handler, Arg, Params, params}
use bcirc.PluginHandler.Execute.{Run, done, fault, spent}
use bcirc.Server.{Server, Bot, Bots, Sockets, set_bot, then_run, server_connect}

-- `thread_result` is what pthread_create returns; the server is in the pool also if that failed. The
-- thread that is started runs server_recv beside the caller, whose state this is: it is noted here,
-- and what it does is Server.Receive's.
unfoldable pub add_to_serverpool : ℕ → Option ℕ → Bots → ℤ × Bots
add_to_serverpool thread_result none h = (negsuc 0, h)
add_to_serverpool thread_result (some srv) h = (
  (if thread_result == 0 then pos 1 else negsuc 1),
  set_bot h (λ b. record b {
    server_list = b.server_list ++ srv ∷ [];
    threads = (if thread_result == 0 then b.threads ++ srv ∷ [] else b.threads);
  }),
)

abbrev pub other_server : ℕ → ℕ → Bool
other_server srv entry = not (entry == srv)

unfoldable pub remove_from_serverpool : Option ℕ → Bots → ℤ × Bots
remove_from_serverpool none h = (negsuc 0, h)
remove_from_serverpool (some srv) h =
    (pos 1, set_bot h (λ b. record b { server_list = keep (other_server srv) b.server_list }))

-- What the object points to is freed and its mutex destroyed: nothing can be read of it any more.
unfoldable pub free_server : Option ℕ → Bots → ℤ × Bots
free_server none h = (negsuc 0, h)
free_server (some srv) h =
    (pos 1, set_bot h (λ b. record b { servers = keep (λ v. other_server srv v.addr) b.servers }))

-- One element of the "servers" list of the file.
pub record ServerSetting : Type 0 where
  pub network_name : Option Bytes
  pub server_host : Option Bytes
  pub server_port : Option Bytes
  pub autorejoin : Option ℤ
  pub realname : Option Bytes
  pub username : Option Bytes
  pub nick : Option Bytes
  pub alt_nick : Option Bytes
  pub server_pass : Option Bytes

-- The object that a setting fills in, if every lookup but the password's succeeds. The fields that
-- the source leaves as malloc gives them are 0 here.
unfoldable pub server_of : ℕ → ServerSetting → Option Server
server_of address c = do
  name ← c.network_name
  host_name ← c.server_host
  port_name ← c.server_port
  rejoin ← c.autorejoin
  real ← c.realname
  user ← c.username
  nick_name ← c.nick
  alt ← c.alt_nick
  some (record {
    addr = address;
    network_name = name;
    host = host_name;
    port = port_name;
    pass = c.server_pass;
    autorejoin = rejoin;
    realname = real;
    username = user;
    nick = nick_name;
    alt_nick = alt;
    motd_sent = 0;
    s = pos 0;
    time_connected = 0;
    rejoin_tries = 0;
    sent_len = 0;
    recvd_len = 0;
    connected = 0;
  })

-- A new server object in the state.
abbrev pub allocate : Server → Bots → Bots
allocate v h = record h {
  next_addr = suc h.next_addr;
  world = record (h.world) { servers = h.world.servers ++ v ∷ [] };
}

module _ (call : ℕ → Params → Bots → Run Bot) (net : Sockets) (thread_result : ℕ) where
  unfoldable pub load_loop : List ServerSetting → Bots → Run Bot
  load_loop [] h = done (pos 1) h
  load_loop (c ∷ cs) h = elim (server_of h.next_addr c) [
    | none ↦ done (negsuc 0) h
    | some v ↦ then_run (server_connect call net v.addr (allocate v h)) (λ res after.
        let next = load_loop cs (add_to_serverpool thread_result (some v.addr) after).1 in
        if res ==ℤ pos 1 then next else done (negsuc 2) after)
  ]

  -- `none` is a file that cannot be read, `some none` one without "servers".
  unfoldable pub load_servers : Option (Option (List ServerSetting)) → Bots → Run Bot
  unfolding load_loop
  load_servers none h = done (negsuc 1) h
  load_servers (some none) h = done (negsuc 0) h
  load_servers (some (some settings)) h = load_loop settings h
