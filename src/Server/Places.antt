-- ===== src/Server/Places.antt =====
-- What sending leaves alone in src/server.c: which servers there are and where, and the callbacks.
use bcirc.Base.{
  ℕ, ◌+◌, ◌%◌, pos_part, Bytes, List, [], ◌∷◌, map, Option, none, some, ◌≡◌, refl, sym, subst, ap,
  ◌∙◌, inl, inr, ℤ, pos, ◌==◌, Bool, true, false, if◌then◌else◌, Bool-cases, Option-cases, ltb_ℤ,
}
use bcirc.PluginHandler.{Params}
use bcirc.PluginHandler.Index.{get_cb_index}
use bcirc.PluginHandler.Names.{callback_server_send}
use bcirc.PluginHandler.Execute.{Run, done, fault, spent}
use bcirc.PluginHandler.Execute.Order.{execute_callbacks-unknown}
use bcirc.Server.{
  Server, Bot, Bots, Sockets, update_server, set_server, then_run, with_server, find_server,
  size_mod, send_text, server_send,
}
use bcirc.Server.Connection.{with_server_found, server_send-send_text}

abbrev pub addresses : List Server → List ℕ
addresses vs = map (λ (v : Server). v.addr) vs

-- Is an object at the address?
abbrev is_there : ℕ → List ℕ → Bool
is_there addr [] = false
is_there addr (a ∷ rest) = if a == addr then true else is_there addr rest

find_server-is_there :
    (addr : ℕ) (vs : List Server) (v : Server)
    → find_server addr vs ≡ some v
    → is_there addr (addresses vs) ≡ true
unfolding find_server
find_server-is_there addr [] v found = cc
find_server-is_there addr (u ∷ vs) v found = elim (Bool-cases (u.addr == addr)) [
  | inl hit ↦ rw hit refl
  | inr miss ↦ rw miss (
      find_server-is_there addr vs v
        (sym (ap (λ (b : Bool). if b then some u else find_server addr vs) miss) ∙ found))
]

is_there-find_server :
    (addr : ℕ) (vs : List Server)
    → is_there addr (addresses vs) ≡ true
    → (v : Server) × (find_server addr vs ≡ some v)
unfolding find_server
is_there-find_server addr [] there = cc
is_there-find_server addr (u ∷ vs) there = elim (Bool-cases (u.addr == addr)) [
  | inl hit ↦ (u, rw hit refl)
  | inr miss ↦
      let (v, found) =
        is_there-find_server addr vs (
          sym (ap (λ (b : Bool). if b then true else is_there addr (addresses vs)) miss) ∙ there) in
      (v, rw miss found)
]

pub record SamePlaces (h h' : Bots) : Type 0 where
  pub objects : addresses h'.world.servers ≡ addresses h.world.servers
  pub pool : h'.world.server_list ≡ h.world.server_list
  pub started : h'.world.threads ≡ h.world.threads
  pub next : h'.next_addr ≡ h.next_addr
  pub index : h'.index_list ≡ h.index_list

pub SamePlaces-refl : (h : Bots) → SamePlaces h h
SamePlaces-refl h = record {
  objects = refl;
  pool = refl;
  started = refl;
  next = refl;
  index = refl;
}

pub SamePlaces-trans : (h h' h'' : Bots) → SamePlaces h h' → SamePlaces h' h'' → SamePlaces h h''
SamePlaces-trans h h' h'' a b = record {
  objects = b.objects ∙ a.objects;
  pool = b.pool ∙ a.pool;
  started = b.started ∙ a.started;
  next = b.next ∙ a.next;
  index = b.index ∙ a.index;
}

-- An object that was there still is.
pub find_server-SamePlaces :
    (addr : ℕ) (h h' : Bots) (v : Server)
    → SamePlaces h h'
    → find_server addr h.world.servers ≡ some v
    → (v' : Server) × (find_server addr h'.world.servers ≡ some v')
find_server-SamePlaces addr h h' v same found =
    is_there-find_server addr h'.world.servers
      (ap (is_there addr) same.objects ∙ find_server-is_there addr h.world.servers v found)

-- A run that keeps the places, if it returns.
abbrev pub Keeps : Bots → Run Bot → Type 0
Keeps h (done res h') = SamePlaces h h'
Keeps h fault = Unit
Keeps h spent = Unit

pub then_run-Keeps :
    (h : Bots) (r : Run Bot) (k : ℤ → Bots → Run Bot)
    → Keeps h r
    → ((res : ℤ) (h' : Bots) → SamePlaces h h' → Keeps h' (k res h'))
    → Keeps h (then_run r k)
then_run-Keeps h (done res h') k kept next = from_here h h' (k res h') kept (next res h' kept)
  where
    from_here : (a b : Bots) (r : Run Bot) → SamePlaces a b → Keeps b r → Keeps a r
    from_here a b (done res c) s t = SamePlaces-trans a b c s t
    from_here a b fault s t = tt
    from_here a b spent s t = tt
then_run-Keeps h fault k kept next = tt
then_run-Keeps h spent k kept next = tt

pub Keeps-from : (h h' : Bots) (r : Run Bot) → SamePlaces h h' → Keeps h' r → Keeps h r
Keeps-from h h' (done res c) s t = SamePlaces-trans h h' c s t
Keeps-from h h' fault s t = tt
Keeps-from h h' spent s t = tt

pub with_server-Keeps :
    (addr : ℕ) (h : Bots) (k : Server → Run Bot)
    → ((v : Server) → Keeps h (k v))
    → Keeps h (with_server addr h k)
with_server-Keeps addr h k each = elim (Option-cases (find_server addr h.world.servers)) [
  | inl absent ↦
      subst (Keeps h)
        (sym (
          ap (λ (o : Option Server). elim o as (λ _. Run Bot) [ none ↦ fault | some u ↦ k u ])
            absent))
        tt
  | inr (v, found) ↦ subst (Keeps h) (sym (with_server_found addr h k found)) (each v)
]

addresses-update_server :
    (addr : ℕ) (f : Server → Server) (vs : List Server)
    → ((u : Server) → (f u).addr ≡ u.addr)
    → addresses (update_server addr f vs) ≡ addresses vs
unfolding update_server
addresses-update_server addr f [] keeps = refl
addresses-update_server addr f (v ∷ vs) keeps = elim (Bool-cases (v.addr == addr)) [
  | inl hit ↦ rw hit (rw (keeps v) (rw (addresses-update_server addr f vs keeps) refl))
  | inr miss ↦ rw miss (rw (addresses-update_server addr f vs keeps) refl)
]

pub set_server-SamePlaces :
    (addr : ℕ) (f : Server → Server) (h : Bots)
    → ((u : Server) → (f u).addr ≡ u.addr)
    → SamePlaces h (set_server h addr f)
set_server-SamePlaces addr f h keeps = record {
  objects = addresses-update_server addr f h.world.servers keeps;
  pool = refl;
  started = refl;
  next = refl;
  index = refl;
}

module _ (call : ℕ → Params → Bots → Run Bot) (net : Sockets) where
  send_text-Keeps : (text : Bytes) (srv : ℕ) (h : Bots) → Keeps h (send_text call net text srv h)
  send_text-Keeps text srv h = with_server-Keeps srv h _ λ v.
      elim (Bool-cases (ltb_ℤ (pos 0) (net.send v.s text))) [
        | inl positive ↦
            rw (positive, Keeps)
              (record {
                objects =
                    addresses-update_server srv
                      (λ u. record u {
                        sent_len = (u.sent_len + pos_part (net.send v.s text)) % size_mod;
                      })
                      h.world.servers (λ u. refl);
                pool = refl;
                started = refl;
                next = refl;
                index = refl;
              })
        | inr failed ↦
            rw (failed, Keeps)
              (record { objects = refl; pool = refl; started = refl; next = refl; index = refl })
      ]

  -- Where nothing listens for callback_server_send.
  pub server_send-Keeps :
      (text : Bytes) (srv : ℕ) (h : Bots)
      → get_cb_index callback_server_send h.index_list ≡ none
      → Keeps h (server_send call net (some text) srv h)
  server_send-Keeps text srv h silent =
      subst (Keeps h)
        (sym (
          server_send-send_text call net text srv h h _
            (execute_callbacks-unknown call callback_server_send _ h silent)))
        (send_text-Keeps text srv h)
