-- ===== src/Server/Pool/Loading.antt =====
-- load_servers of src/server.c: one setting after the other, up to the first that fails.
use bcirc.Base.{
  ℕ, List, [], ◌∷◌, ◌++◌, none, some, ◌≡◌, refl, sym, ap, ◌∙◌, inl, inr, ℤ, pos, negsuc, ◌==ℤ◌,
  Bool-cases, Option-cases, if◌then◌else◌,
}
use bcirc.PluginHandler.{Params}
use bcirc.PluginHandler.Execute.{Run, done, fault, spent}
use bcirc.Server.{Server, Bot, Bots, Sockets, then_run, server_connect}
use bcirc.Server.Pool.{ServerSetting, server_of, allocate, add_to_serverpool, load_loop}

module _ (call : ℕ → Params → Bots → Run Bot) (net : Sockets) (thread_result : ℕ) where
  -- What loading more settings makes of a result.
  abbrev pub go_on : List ServerSetting → ℤ → Bots → Run Bot
  go_on ys res h =
      let next = load_loop call net thread_result ys h in if res ==ℤ pos 1 then next else done res h

  -- What a connection's result makes of the load.
  abbrev after_connect : List ServerSetting → ℕ → ℤ → Bots → Run Bot
  after_connect cs addr res after =
      let next =
        load_loop call net thread_result cs (add_to_serverpool thread_result (some addr) after).1 in
      if res ==ℤ pos 1 then next else done (negsuc 2) after

  load_absent :
      (c : ServerSetting) (cs : List ServerSetting) (h : Bots)
      → server_of h.next_addr c ≡ none
      → load_loop call net thread_result (c ∷ cs) h ≡ done (negsuc 0) h
  unfolding load_loop
  load_absent c cs h absent = rw (absent, load_loop)

  load_present :
      (c : ServerSetting) (cs : List ServerSetting) (h : Bots) (v : Server)
      → server_of h.next_addr c ≡ some v
      → load_loop call net thread_result (c ∷ cs) h
        ≡ then_run (server_connect call net v.addr (allocate v h)) (after_connect cs v.addr)
  unfolding load_loop
  load_present c cs h v present = rw (present, load_loop)

  -- One result of `server_connect`, given that the rest of the settings can be cut in two.
  connect_cut :
      (xs ys : List ServerSetting) (addr : ℕ) (r : Run Bot)
      → ((h : Bots)
          → load_loop call net thread_result (xs ++ ys) h
            ≡ then_run (load_loop call net thread_result xs h) (go_on ys))
      → then_run r (after_connect (xs ++ ys) addr)
        ≡ then_run (then_run r (after_connect xs addr)) (go_on ys)
  connect_cut xs ys addr (done res h) ih = elim (Bool-cases (res ==ℤ pos 1)) [
    | inl good ↦ rw good (ih _)
    | inr bad ↦ rw bad
  ]
  connect_cut xs ys addr fault ih = refl
  connect_cut xs ys addr spent ih = refl

  -- Loading a list of settings is loading its first part and then, only if that returned 1, the
  -- second part from the state reached; any other result of the first part is the result, and the
  -- servers that it had added stay in the pool.
  load_loop-append :
      (xs ys : List ServerSetting) (h : Bots)
      → load_loop call net thread_result (xs ++ ys) h
        ≡ then_run (load_loop call net thread_result xs h) (go_on ys)
  load_loop-append [] ys h = unfold load_loop in refl
  load_loop-append (c ∷ xs) ys h = elim (Option-cases (server_of h.next_addr c)) [
    | inl absent ↦ rw (load_absent c (xs ++ ys) h absent) (rw (load_absent c xs h absent))
    | inr (v, present) ↦
        load_present c (xs ++ ys) h v present
        ∙ (connect_cut xs ys v.addr (server_connect call net v.addr (allocate v h))
              (load_loop-append xs ys)
            ∙ ap (λ (r : Run Bot). then_run r (go_on ys)) (sym (load_present c xs h v present)))
  ]
