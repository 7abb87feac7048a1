-- ===== src/Main/LogIn.antt =====
-- The start of src/main.c with the servers of a configuration.
use bcirc.Base.{
  ℕ, suc, ◌+◌, ◌<◌, ◌≤◌, Bytes, codes, List, [], ◌∷◌, ◌++◌, append-nil, append_assoc, map, Option,
  some, ◌≡◌, refl, sym, subst, ap, ◌∙◌, ℤ, pos, negsuc, ◌==ℤ◌, true, false, ◌==◌, arith, All,
  length,
}
use bcirc.PluginHandler.{Params}
use bcirc.PluginHandler.Index.{Qsort}
use bcirc.PluginHandler.Execute.{Run, done}
use bcirc.PluginHandler.Load.{SharedObject, DirEntry, get_plugins}
use bcirc.PluginHandler.Load.Directory.{IsPlugin, get_plugins_world}
use bcirc.Server.{Server, Bot, Bots, Sockets, find_server, server_connect}
use bcirc.Server.Places.{addresses}
use bcirc.Server.Pool.{
  ServerSetting, server_of, allocate, add_to_serverpool, load_loop, load_servers,
}
use bcirc.IrcCmds.{nick_text}
use bcirc.Core.{pass_text, user_text}
use bcirc.Dispatch.{Surroundings, call_plugin}
use bcirc.Dispatch.Startup.{installed}
use bcirc.Dispatch.Startup.Connected.{server_connect-log_in}
use bcirc.Main.{first_state, start}

-- A server behind others at lower addresses is found.
find_server_last :
    (v : Server) (vs : List Server)
    → All (λ a. a < v.addr) (addresses vs)
    → find_server v.addr (vs ++ v ∷ []) ≡ some v
unfolding find_server
find_server_last v [] below = let same : (v.addr == v.addr) ≡ true = ground arith in rw same refl
find_server_last v (u ∷ vs) below =
    let other : (u.addr == v.addr) ≡ false = ground (arith, below.0) in
    rw other (find_server_last v vs below.1)

server_of_addr : (n : ℕ) (c : ServerSetting) (v : Server) → server_of n c ≡ some v → v.addr ≡ n
unfolding server_of
server_of_addr n c v made = ground arith

addresses_below :
    (n : ℕ) (v : Server) (vs : List Server)
    → v.addr ≡ n
    → All (λ a. a < n) (addresses vs)
    → All (λ a. a < suc n) (addresses (vs ++ v ∷ []))
addresses_below n v [] placed below = (omega (arith, placed), tt)
addresses_below n v (u ∷ vs) placed below =
    (omega (arith, below.0), addresses_below n v vs placed below.1)

-- What the sockets and the buffers must do for a server.
abbrev pub Joins : Sockets → Server → Type 0
Joins net v =
    (net.resolve v ≡ true)
    × ((net.socket v ==ℤ negsuc 0) ≡ false)
    × ((net.connect v (net.socket v) ==ℤ pos 0) ≡ true)
    × (length (pass_text v.pass) + 1 ≤ 512)
    × (length (user_text v.realname v.username) + 1 ≤ 512)

-- The settings give these objects at the next addresses, and each of them can be joined.
abbrev pub Configured : Sockets → ℕ → List ServerSetting → List Server → Type 0
Configured net n [] [] = Unit
Configured net n [] (v ∷ vs) = ⊥
Configured net n (c ∷ cs) [] = ⊥
Configured net n (c ∷ cs) (v ∷ vs) =
    (server_of n c ≡ some v) × Joins net v × Configured net (suc n) cs vs

-- PASS, USER and NICK for each server.
abbrev pub log_ins : Sockets → List Server → List (ℤ × Bytes)
log_ins net [] = []
log_ins net (v ∷ vs) =
    (net.socket v, pass_text v.pass)
    ∷ (net.socket v, user_text v.realname v.username)
    ∷ (net.socket v, nick_text v.nick)
    ∷ log_ins net vs

-- One setting, whose server is connected.
load_loop_step :
    (call : ℕ → Params → Bots → Run Bot) (net : Sockets) (thread_result : ℕ) (c : ServerSetting)
    (cs : List ServerSetting) (v : Server) (h h' : Bots)
    → server_of h.next_addr c ≡ some v
    → server_connect call net v.addr (allocate v h) ≡ done (pos 1) h'
    → load_loop call net thread_result (c ∷ cs) h
      ≡ load_loop call net thread_result cs (add_to_serverpool thread_result (some v.addr) h').1
unfolding load_loop
load_loop_step call net thread_result c cs v h h' complete connected =
    rw (complete, load_loop) (rw connected refl)

module _ (q : Qsort) (dl_open : Bytes → Option (SharedObject Bot)) (dir : Bytes)
    (autojoin channel core events logger nick : DirEntry)
    (plugins : All
      (IsPlugin q dl_open dir)
      (installed autojoin channel core events logger nick)) where
  abbrev entries : List DirEntry
  entries = map (λ f. f.0) (installed autojoin channel core events logger nick)

  abbrev loaded : Bots
  loaded = (get_plugins dl_open dir (some entries) first_state).1

  module _ (depth : ℕ) (e : Surroundings) (enough : (n : ℕ) → n ≤ e.room n) where
    load_loop-log_ins :
        (cs : List ServerSetting) (vs : List Server) (h : Bots)
        → h.index_list ≡ loaded.index_list
        → All (λ a. a < h.next_addr) (addresses h.world.servers)
        → Configured e.net h.next_addr cs vs
        → (h' : Bots) × (load_loop (call_plugin (suc depth) e) e.net 0 cs h ≡ done (pos 1) h')
          × (h'.world.wire ≡ h.world.wire ++ log_ins e.net vs)
          × (h'.world.server_list ≡ h.world.server_list ++ addresses vs)
          × (h'.world.threads ≡ h.world.threads ++ addresses vs)
          × (h'.index_list ≡ loaded.index_list)
    unfolding load_loop add_to_serverpool
    load_loop-log_ins [] [] h same below configured = (
      h,
      refl,
      sym (append-nil h.world.wire),
      sym (append-nil h.world.server_list),
      sym (append-nil h.world.threads),
      same,
    )
    load_loop-log_ins [] (v ∷ vs) h same below configured = absurd configured
    load_loop-log_ins (c ∷ cs) [] h same below configured = absurd configured
    load_loop-log_ins (c ∷ cs) (v ∷ vs) h same below configured =
        let (made, joins, rest) = configured in
        let placed : v.addr ≡ h.next_addr = server_of_addr h.next_addr c v made in
        let under : All (λ a. a < v.addr) (addresses h.world.servers) =
          subst (λ n. All (λ a. a < n) (addresses h.world.servers)) (sym placed) below in
        let (h1, connected, wire, kept) =
          server_connect-log_in q dl_open dir autojoin channel core events logger nick first_state
            plugins refl depth e v.addr (allocate v h) v enough same
            (find_server_last v h.world.servers under) joins.0 joins.1 joins.2 joins.3 joins.4 in
        let pooled : Bots = (add_to_serverpool 0 (some v.addr) h1).1 in
        let (h', looped, wire', pool', threads', index') =
          load_loop-log_ins cs vs pooled (kept.index ∙ same)
            (subst (λ n. All (λ a. a < n) (addresses h1.world.servers)) (sym kept.next)
              (subst (All (λ a. a < suc h.next_addr)) (sym kept.objects)
                (addresses_below h.next_addr v h.world.servers placed below)))
            (subst (λ n. Configured e.net n cs vs) (sym kept.next) rest) in
        (
          h',
          load_loop_step (call_plugin (suc depth) e) e.net 0 c cs v h h1 made connected ∙ looped,
          wire'
              ∙ (ap (λ w. w ++ log_ins e.net vs) wire
                  ∙ append_assoc h.world.wire _ (log_ins e.net vs)),
          pool'
              ∙ (ap (λ p. (p ++ v.addr ∷ []) ++ addresses vs) kept.pool
                  ∙ append_assoc h.world.server_list (v.addr ∷ []) (addresses vs)),
          threads'
              ∙ (ap (λ p. (p ++ v.addr ∷ []) ++ addresses vs) kept.started
                  ∙ append_assoc h.world.threads (v.addr ∷ []) (addresses vs)),
          index',
        )

  -- The program starts with the six plugins in its directory, and a configuration of any number of
  -- servers, each with every field but the password's: where the addresses are found, the sockets work,
  -- pthread_create succeeds and the texts fit in their buffers, the thread of main() gets to the reading
  -- of its input, and has then sent exactly PASS, USER and NICK for each server, in the order of the
  -- configuration; the pool holds just these servers, in this order, a server_recv thread has been
  -- started for each of them, and the index of callbacks is the one that was loaded. What the started
  -- threads do meanwhile is left out.
  pub start-log_in :
      (depth : ℕ) (e : Surroundings) (cdir : Bytes)
      (read : Bytes → Option (Option (List ServerSetting))) (cs : List ServerSetting)
      (vs : List Server)
      → ((n : ℕ) → n ≤ e.room n)
      → read (cdir ++ codes "/bcirc.conf") ≡ some (some cs)
      → Configured e.net loaded.next_addr cs vs
      → (h' : Bots) × (start (call_plugin (suc depth) e) e.net dl_open (record {
        plugin_dir = some dir;
        entries = some entries;
        configdir = some cdir;
        read_config = read;
        thread_result = 0;
      })
          ≡ some (done (pos 1) h'))
        × (h'.world.wire ≡ log_ins e.net vs)
        × (h'.world.server_list ≡ addresses vs)
        × (h'.world.threads ≡ addresses vs)
        × (h'.index_list ≡ loaded.index_list)
  unfolding start load_servers
  start-log_in depth e cdir read cs vs enough file configured =
      let files = installed autojoin channel core events logger nick in
      let world : loaded.world ≡ first_state.world =
        get_plugins_world q dl_open dir files first_state plugins in
      let (h', looped, wire, pool, threads, index) =
        load_loop-log_ins depth e enough cs vs loaded refl
          (subst (λ (b : Bot). All (λ a. a < loaded.next_addr) (addresses b.servers)) (sym world)
            tt)
          configured in
      (
        h',
        ap (λ s. some (load_servers (call_plugin (suc depth) e) e.net 0 s loaded)) file
            ∙ ap some looped,
        wire ∙ ap (λ (b : Bot). b.wire ++ log_ins e.net vs) world,
        pool ∙ ap (λ (b : Bot). b.server_list ++ addresses vs) world,
        threads ∙ ap (λ (b : Bot). b.threads ++ addresses vs) world,
        index,
      )
