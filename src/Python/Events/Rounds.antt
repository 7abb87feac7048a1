-- ===== src/Python/Events/Rounds.antt =====
-- The rounds of py_execute_callbacks of plugins/src/python/pymain.c, over functions that return and
-- leave the scripts and the index alone.
use bcirc.Base.{
  ℕ, zero, suc, ◌+◌, ◌-◌, ◌≤◌, Bytes, List, [], ◌∷◌, ◌++◌, none, some, ◌≡◌, refl, sym, ap, ◌∙◌,
  subst, inl, inr, true, false, arith, All, str_eq, Bool-cases, Option-cases, keep, length, drop,
  get_elem?, get_elem?_of_drop, drop-suc,
}
use bcirc.PluginHandler.{Arg, Params, bcirc_plugin_ok}
use bcirc.PluginHandler.Execute.{Run, done}
use bcirc.Scripts.{
  PyCallback, Scripts, script_callbacks, functions_of, listed_functions, functions_in,
  callback_count, rounds_in, AllCallable,
}
use bcirc.Server.{Bot, Bots}
use bcirc.Python.{Python, then_py, event_args, py_loop}
use bcirc.Python.Events.Steady.{
  after_py, run_functions, AreSteady, then_steady, after_steady, run_functions_same,
  AreSteady-append,
}

module _ (call : ℕ → Params → Bots → Run Bot) (py : Python) where
  get_elem?-none_of_drop :
      (i : ℕ) {A : Type 0} (cs : List A) → drop i cs ≡ [] → get_elem? cs i ≡ none
  get_elem?-none_of_drop zero [] e = refl
  get_elem?-none_of_drop zero (c ∷ cs) e = cc
  get_elem?-none_of_drop (suc i) [] e = refl
  get_elem?-none_of_drop (suc i) (c ∷ cs) e = get_elem?-none_of_drop i cs e

  module _ (event : Bytes) (args : List Arg) where
    -- A round behind the scripts, behind a script's callbacks, at one for another event, and at one for
    -- this event.
    round_end :
        (m i : ℕ) (h : Bots)
        → get_elem? h.world.scripts.py_scripts_list i ≡ none
        → py_loop call py (suc m) i 0 (Arg.str event) args h ≡ done bcirc_plugin_ok h
    unfolding py_loop
    round_end m i h past = rw (past, py_loop) refl

    round_next :
        (m i y addr : ℕ) (cbs : List PyCallback) (h : Bots)
        → get_elem? h.world.scripts.py_scripts_list i ≡ some addr
        → script_callbacks addr h.world.scripts ≡ some cbs
        → get_elem? cbs y ≡ none
        → py_loop call py (suc m) i y (Arg.str event) args h
          ≡ py_loop call py m (suc i) 0 (Arg.str event) args h
    unfolding py_loop
    round_next m i y addr cbs h at found past = rw (at, py_loop) (rw found (rw past refl))

    round_other :
        (m i y addr : ℕ) (cbs : List PyCallback) (c : PyCallback) (h : Bots)
        → get_elem? h.world.scripts.py_scripts_list i ≡ some addr
        → script_callbacks addr h.world.scripts ≡ some cbs
        → get_elem? cbs y ≡ some c
        → str_eq event c.cb_name ≡ false
        → py_loop call py (suc m) i y (Arg.str event) args h
          ≡ py_loop call py m i (suc y) (Arg.str event) args h
    unfolding py_loop
    round_other m i y addr cbs c h at found here differs =
        rw (at, py_loop) (rw found (rw here (rw differs refl)))

    round_called :
        (m i y addr : ℕ) (cbs : List PyCallback) (c : PyCallback) (h : Bots)
        → get_elem? h.world.scripts.py_scripts_list i ≡ some addr
        → script_callbacks addr h.world.scripts ≡ some cbs
        → get_elem? cbs y ≡ some c
        → str_eq event c.cb_name ≡ true
        → py.callable c.cb_func ≡ true
        → py_loop call py (suc m) i y (Arg.str event) args h
          ≡ then_py
              (py.call_object call c.cb_func (event_args call py args) h)
              (λ res after. py_loop call py m i (suc y) (Arg.str event) args after)
    unfolding py_loop
    round_called m i y addr cbs c h at found here same can =
        rw (at, py_loop) (rw found (rw here (rw same (rw can refl))))

    functions_of-hit :
        (c : PyCallback) (rest : List PyCallback)
        → str_eq event c.cb_name ≡ true
        → functions_of event (c ∷ rest) ≡ c.cb_func ∷ functions_of event rest
    functions_of-hit c rest hit = rw (hit, keep) refl

    functions_of-miss :
        (c : PyCallback) (rest : List PyCallback)
        → str_eq event c.cb_name ≡ false
        → functions_of event (c ∷ rest) ≡ functions_of event rest
    functions_of-miss c rest miss = rw (miss, keep) refl

    abbrev resumed : ℕ → ℕ → Bots → List ℕ → Run Bot
    resumed m i h fs =
        py_loop call py m (suc i) 0 (Arg.str event) args (run_functions call py args fs h)

    -- The rounds of one script, from a callback on.
    script_rounds :
        (m n i y addr : ℕ) (cbs rest : List PyCallback) (ss : Scripts) (h : Bots)
        → h.world.scripts ≡ ss
        → get_elem? ss.py_scripts_list i ≡ some addr
        → script_callbacks addr ss ≡ some cbs
        → drop y cbs ≡ rest
        → All (λ (c : PyCallback). py.callable c.cb_func ≡ true) rest
        → AreSteady call py args (functions_of event rest) h
        → n ≡ length rest + suc m
        → py_loop call py n i y (Arg.str event) args h
          ≡ py_loop call py m
              (suc i)
              0
              (Arg.str event)
              args
              (run_functions call py args (functions_of event rest) h)
    script_rounds m zero i y addr cbs rest ss h same at found split can steady e =
        absurd (omega arith)
    script_rounds m (suc n) i y addr cbs [] ss h same at found split can steady e =
        let last : n ≡ m = omega arith in
        round_next n i y addr cbs h (ap (λ (t : Scripts). get_elem? t.py_scripts_list i) same ∙ at)
          (ap (script_callbacks addr) same ∙ found) (get_elem?-none_of_drop y cbs split)
        ∙ ap (λ k. py_loop call py k (suc i) 0 (Arg.str event) args h) last
    script_rounds m (suc n) i y addr cbs (c ∷ rest) ss h same at found split can steady e =
        let at' : get_elem? h.world.scripts.py_scripts_list i ≡ some addr =
          ap (λ (t : Scripts). get_elem? t.py_scripts_list i) same ∙ at in
        let found' : script_callbacks addr h.world.scripts ≡ some cbs =
          ap (script_callbacks addr) same ∙ found in
        let here : get_elem? cbs y ≡ some c = get_elem?_of_drop y cbs split in
        let tail : drop (suc y) cbs ≡ rest = drop-suc y cbs split in
        elim (Bool-cases (str_eq event c.cb_name)) [
          | inl hit ↦
              let list = functions_of-hit c rest hit in
              let steady' = subst (λ fs. AreSteady call py args fs h) list steady in
              round_called n i y addr cbs c h at' found' here hit can.0
              ∙ (then_steady call py h _ _ _ steady'.0 (λ res.
                    script_rounds m n i (suc y) addr cbs rest ss
                      (after_py call py h
                        (py.call_object call c.cb_func (event_args call py args) h))
                      ((after_steady call py h _ steady'.0).0 ∙ same) at found tail can.1 steady'.1
                      (omega arith))
                  ∙ ap (resumed m i h) (sym list))
          | inr miss ↦
              let list = functions_of-miss c rest miss in
              round_other n i y addr cbs c h at' found' here miss
              ∙ (script_rounds m n i (suc y) addr cbs rest ss h same at found tail can.1
                    (subst (λ fs. AreSteady call py args fs h) list steady) (omega arith)
                  ∙ ap (resumed m i h) (sym list))
        ]

    rounds_in_pos : (ss : Scripts) (addrs : List ℕ) → rounds_in ss addrs ≤ 0 → ⊥
    unfolding rounds_in
    rounds_in_pos ss [] le = omega arith
    rounds_in_pos ss (addr ∷ addrs) le = omega arith

    pub all_rounds :
        (n i : ℕ) (addrs : List ℕ) (ss : Scripts) (h : Bots)
        → h.world.scripts ≡ ss
        → drop i ss.py_scripts_list ≡ addrs
        → All (λ addr. AllCallable py.callable (script_callbacks addr ss)) addrs
        → AreSteady call py args (functions_in event ss addrs) h
        → rounds_in ss addrs ≤ n
        → py_loop call py n i 0 (Arg.str event) args h
          ≡ done bcirc_plugin_ok (run_functions call py args (functions_in event ss addrs) h)
    unfolding rounds_in
    all_rounds zero i addrs ss h same split can steady enough =
        absurd (rounds_in_pos ss addrs enough)
    all_rounds (suc n) i [] ss h same split can steady enough = round_end n i h (
        ap (λ (t : Scripts). get_elem? t.py_scripts_list i) same
        ∙ get_elem?-none_of_drop i ss.py_scripts_list split)
    all_rounds (suc n) i (addr ∷ addrs) ss h same split can steady enough =
        elim (Option-cases (script_callbacks addr ss)) [
          | inl absent ↦ absurd (subst (AllCallable py.callable) absent can.0)
          | inr (cbs, found) ↦
              let bound : suc (length cbs) + rounds_in ss addrs ≤ suc n =
                subst (λ o. suc (callback_count o) + rounds_in ss addrs ≤ suc n) found enough in
              let left : ℕ = n - length cbs in
              let (now, later, whole) =
                AreSteady-append call py args (functions_of event cbs) (functions_in event ss addrs)
                  h
                  (subst
                    (λ o.
                      AreSteady call py args
                        (listed_functions event o ++ functions_in event ss addrs) h)
                    found steady) in
              script_rounds left (suc n) i 0 addr cbs cbs ss h same
                (get_elem?_of_drop i ss.py_scripts_list split) found refl
                (subst (AllCallable py.callable) found can.0) now (omega arith)
              ∙ (all_rounds left (suc i) addrs ss _
                    ((run_functions_same call py args (functions_of event cbs) h now).0 ∙ same)
                    (drop-suc i ss.py_scripts_list split) can.1 later (omega arith)
                  ∙ (ap (done bcirc_plugin_ok) (sym whole)
                      ∙ ap
                          (λ o. done bcirc_plugin_ok (
                            run_functions call py args
                              (listed_functions event o ++ functions_in event ss addrs) h))
                          (sym found)))
        ]
