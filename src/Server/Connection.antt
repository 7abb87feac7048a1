-- ===== src/Server/Connection.antt =====
-- server_send of src/server.c, and writes through a pointer to a server.
use bcirc.Base.{
  ℕ, ◌+◌, ◌%◌, Bytes, List, [], ◌∷◌, ◌++◌, Option, none, some, ◌≡◌, refl, sym, ap, ◌∙◌, inl, inr, ℤ,
  pos, Bool, true, false, arith, ◌==◌, Bool-cases, if◌then◌else◌, ltb_ℤ, pos_part,
}
use bcirc.PluginHandler.{Arg, Params, params}
use bcirc.PluginHandler.Execute.{execute_callbacks, Run, done, fault}
use bcirc.PluginHandler.Names.{callback_server_send}
use bcirc.Server.{
  Server, Bot, Bots, Sockets, find_server, update_server, set_bot, set_server, size_mod, then_run,
  send_text, with_server, server_send,
}

-- The object behind a pointer after a write through one.
abbrev pub written : ℕ → ℕ → (Server → Server) → Server → Server
written addr other f v = if other == addr then f v else v

if_true : (b : Bool) (x y : Option Server) → b ≡ true → (if b then x else y) ≡ x
if_true b x y e = rw e refl

some_injective : {x y : Server} → some x ≡ some y → x ≡ y
some_injective e = cc

find_server_addr :
    (addr : ℕ) (vs : List Server) {v : Server} → find_server addr vs ≡ some v → v.addr ≡ addr
unfolding find_server
find_server_addr addr [] found = cc
find_server_addr addr (u ∷ vs) found = elim (Bool-cases (u.addr == addr)) [
  | inl hit ↦ rw (sym (some_injective (rw hit at found))) (ground (arith, hit))
  | inr miss ↦ find_server_addr addr vs (rw miss at found)
]

pub found_here :
    (addr : ℕ) (vs : List Server) {v : Server}
    → find_server addr vs ≡ some v
    → (v.addr == addr) ≡ true
found_here addr vs found = let e = find_server_addr addr vs found in ground (arith, e)

pub find_server-update_server :
    (addr other : ℕ) (f : Server → Server) (vs : List Server) {v : Server}
    → ((u : Server) → (f u).addr ≡ u.addr)
    → find_server other vs ≡ some v
    → find_server other (update_server addr f vs) ≡ some (written addr v.addr f v)
unfolding find_server update_server
find_server-update_server addr other f [] keeps found = cc
find_server-update_server addr other f (u ∷ vs) {v} keeps found =
    elim (Bool-cases (u.addr == other)) [
      | inl hit ↦
          let same : u ≡ v = some_injective (rw hit at found) in
          elim (Bool-cases (u.addr == addr)) [
            | inl here ↦ rw here (
                if_true ((f u).addr == other) (some (f u))
                  (find_server other (update_server addr f vs))
                  (let e = keeps u in ground (arith, hit, e))
                ∙ (rw (sym same) (rw here refl)))
            | inr there ↦ rw there (rw hit (rw (sym same) (rw there refl)))
          ]
      | inr miss ↦ elim (Bool-cases (u.addr == addr)) [
        | inl here ↦ rw here (
            rw (keeps u)
              (rw miss (find_server-update_server addr other f vs keeps (rw miss at found))))
        | inr there ↦
            rw there (rw miss (find_server-update_server addr other f vs keeps (rw miss at found)))
      ]
    ]

-- A write through the pointer to a server that exists.
pub set_server_found :
    (srv : ℕ) (f : Server → Server) (h : Bots) (v : Server)
    → ((u : Server) → (f u).addr ≡ u.addr)
    → find_server srv h.world.servers ≡ some v
    → find_server srv (set_server h srv f).world.servers ≡ some (f v)
set_server_found srv f h v keeps found =
    find_server-update_server srv srv f h.world.servers keeps found
    ∙ ap (λ (b : Bool). some (if b then f v else v)) (found_here srv h.world.servers found)

pub with_server_found :
    (addr : ℕ) (h : Bots) (k : Server → Run Bot) {v : Server}
    → find_server addr h.world.servers ≡ some v
    → with_server addr h k ≡ k v
with_server_found addr h k found =
    ap (λ (o : Option Server). elim o as (λ _. Run Bot) [ none ↦ fault | some u ↦ k u ]) found

module _ (call : ℕ → Params → Bots → Run Bot) (net : Sockets) where
  -- The state after `send` has been tried.
  abbrev tried : ℕ → Server → Bytes → Bots → Bots
  tried srv v text h = set_bot h (λ b. record b { wire = b.wire ++ (v.s, text) ∷ [] })

  -- The state after `send` took a part of the text.
  abbrev sent : ℕ → Server → Bytes → Bots → Bots
  sent srv v text h =
      set_server (tried srv v text h) srv
        (λ u. record u { sent_len = (u.sent_len + pos_part (net.send v.s text)) % size_mod })

  send_text_untaken :
      (text : Bytes) (srv : ℕ) (h : Bots) (v : Server)
      → find_server srv h.world.servers ≡ some v
      → ltb_ℤ (pos 0) (net.send v.s text) ≡ false
      → send_text call net text srv h ≡ done (net.send v.s text) (tried srv v text h)
  send_text_untaken text srv h v found failed =
      with_server_found srv h _ found
      ∙ ap
          (λ (b : Bool).
            if b
            then done (net.send v.s text) (sent srv v text h)
            else done (net.send v.s text) (tried srv v text h))
          failed

  send_text_taken :
      (text : Bytes) (srv : ℕ) (h : Bots) (v : Server)
      → find_server srv h.world.servers ≡ some v
      → ltb_ℤ (pos 0) (net.send v.s text) ≡ true
      → send_text call net text srv h ≡ done (net.send v.s text) (sent srv v text h)
  send_text_taken text srv h v found positive =
      with_server_found srv h _ found
      ∙ ap
          (λ (b : Bool).
            if b
            then done (net.send v.s text) (sent srv v text h)
            else done (net.send v.s text) (tried srv v text h))
          positive

  -- What the callbacks are given for a text.
  abbrev pub send_params : ℕ → Bytes → Params
  send_params srv text = params (Arg.srv srv ∷ Arg.str text ∷ [])

  pub server_send-send_text :
      (text : Bytes) (srv : ℕ) (h h1 : Bots) (res : ℤ)
      → execute_callbacks call callback_server_send (send_params srv text) h ≡ done res h1
      → server_send call net (some text) srv h ≡ send_text call net text srv h1
  unfolding server_send
  server_send-send_text text srv h h1 res returned =
      ap (λ (r : Run Bot). then_run r (λ res' after. send_text call net text srv after)) returned

  -- Where the callbacks for `callback_server_send` return, and leave the server in its place: the
  -- text is handed to the socket of the server, once and whole; the result is that of `send`; where
  -- that is positive the server's `sent_len` grows by it, modulo the word size, and where it is not
  -- nothing else changes; the index of callbacks is as the callbacks left it.
  pub server_send_lem :
      (text : Bytes) (srv : ℕ) (h h1 : Bots) (res : ℤ) (v : Server)
      → execute_callbacks call callback_server_send (send_params srv text) h ≡ done res h1
      → find_server srv h1.world.servers ≡ some v
      → (h' : Bots) × (server_send call net (some text) srv h ≡ done (net.send v.s text) h')
        × (h'.world.wire ≡ h1.world.wire ++ (v.s, text) ∷ [])
        × (find_server srv h'.world.servers
            ≡ some (
                if ltb_ℤ (pos 0) (net.send v.s text)
                then record v { sent_len = (v.sent_len + pos_part (net.send v.s text)) % size_mod }
                else v))
        × (h'.index_list ≡ h1.index_list)
  server_send_lem text srv h h1 res v returned found =
      let handed : server_send call net (some text) srv h ≡ send_text call net text srv h1 =
        server_send-send_text text srv h h1 res returned in
      elim (Bool-cases (ltb_ℤ (pos 0) (net.send v.s text))) [
        | inl positive ↦ (
          sent srv v text h1,
          handed ∙ send_text_taken text srv h1 v found positive,
          refl,
          find_server-update_server srv srv _ h1.world.servers (λ u. refl) found
              ∙ rw positive (
                  ap
                    (λ (b : Bool). some (
                      if b
                      then record v {
                        sent_len = (v.sent_len + pos_part (net.send v.s text)) % size_mod;
                      }
                      else v))
                    (found_here srv h1.world.servers found)),
          refl,
        )
        | inr failed ↦ (
          tried srv v text h1,
          handed ∙ send_text_untaken text srv h1 v found failed,
          refl,
          rw failed found,
          refl,
        )
      ]
