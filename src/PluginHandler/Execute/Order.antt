-- ===== src/PluginHandler/Execute/Order.antt =====
-- execute_callbacks of src/plugin_handler.c: it ends, it calls every callback of the event once and
-- in the order of the index, and BREAK cuts the rest off.
use bcirc.Base.{
  ℕ, suc, Bytes, List, ◌∷◌, ◌++◌, none, some, ◌≡◌, ◌≢◌, refl, inl, inr, Option-cases, Bool-cases,
  true, zero, ap, ◌∙◌, ℤ, false, arith, str_eq, length,
}
use bcirc.PluginHandler.{
  Callback, CallbackIndex, Handler, Params, announced, bcirc_plugin_ok, bcirc_plugin_break,
  bcirc_plugin_fail,
}
use bcirc.PluginHandler.Index.{get_cb_index, callbacks_for}
use bcirc.PluginHandler.Index.Content.{callbacks_for-some, callbacks_for-none}
use bcirc.PluginHandler.Names.{callback_callbacks_executed}
use bcirc.PluginHandler.Execute.{
  cb_count, Verdict, proceed, broken, out_of_range, unfinished, Run, done, fault, spent, react,
  react_to, get_callback, call_react, return_ok, call_loop, execute, execute_callbacks,
}
use bcirc.PluginHandler.Execute.Rounds.{
  IsQuiet, run_all, run_all-index_list, entry_loop_leaves, execute_found, announce-quiet,
}

module _ {W : Type 0} (call : ℕ → Params → Handler W → Run W) where
  react_finished : (res : ℤ) (i : ℕ) (h : Handler W) → react res i h ≢ unfinished
  unfolding react
  react_finished res i h = ground arith

  react_to_finished : (r : Run W) (i : ℕ) → r ≢ spent → react_to call r i ≢ unfinished
  react_to_finished (done res h) i returned = react_finished res i h
  react_to_finished fault i returned = λ e. cc
  react_to_finished spent i returned = absurd (returned refl)

  -- A verdict that is not unfinished, and what follows it.
  next_finished :
      (v : Verdict W) (k : Handler W → Verdict W)
      → v ≢ unfinished
      → ((h : Handler W) → k h ≢ unfinished)
      → elim v as (λ _. Verdict W) [
        | proceed h ↦ k h
        | broken h ↦ broken h
        | out_of_range ↦ out_of_range
        | unfinished ↦ unfinished
      ]
        ≢ unfinished
  next_finished (proceed h) k finished rest = rest h
  next_finished (broken h) k finished rest = λ e. cc
  next_finished out_of_range k finished rest = λ e. cc
  next_finished unfinished k finished rest = absurd (finished refl)

  result_finished :
      (v : Verdict W) (k : Handler W → Run W)
      → v ≢ unfinished
      → ((h : Handler W) → k h ≢ spent)
      → elim v as (λ _. Run W) [
        | proceed h ↦ k h
        | broken h ↦ done bcirc_plugin_fail h
        | out_of_range ↦ fault
        | unfinished ↦ spent
      ]
        ≢ spent
  result_finished (proceed h) k finished rest = rest h
  result_finished (broken h) k finished rest = λ e. cc
  result_finished out_of_range k finished rest = λ e. cc
  result_finished unfinished k finished rest = absurd (finished refl)

  return_ok_finished : (r : Run W) → r ≢ spent → return_ok r ≢ spent
  return_ok_finished (done res h) returned = λ e. cc
  return_ok_finished fault returned = λ e. cc
  return_ok_finished spent returned = absurd (returned refl)

  module _ (returns : (f : ℕ) (p : Params) (h : Handler W) → call f p h ≢ spent) where
    call_loop_finished :
        (n i point : ℕ) (args : Params) (h : Handler W)
        → call_loop call n i point args h ≢ unfinished
    unfolding call_loop
    call_loop_finished zero i point args h = λ e. cc
    call_loop_finished (suc n) i point args h =
        elim (Option-cases (get_callback point i h.index_list)) [
          | inl absent ↦ rw (absent, call_loop) (λ e. cc)
          | inr (cb, found) ↦
              rw (found, call_loop)
                (next_finished (call_react call cb i args h) _
                  (react_to_finished (call cb.cb_func args h) i (returns cb.cb_func args h))
                  (λ h'. call_loop_finished n (suc i) point args h'))
        ]

    execute_finished :
        (fuel : ℕ) (name : Bytes) (args : Params) (h : Handler W)
        → ((h' : Handler W)
            → elim (str_eq name callback_callbacks_executed) as (λ _. Run W) [
              | true ↦ done bcirc_plugin_ok h'
              | false ↦
                  return_ok (execute call fuel callback_callbacks_executed (announced name args) h')
            ]
              ≢ spent)
        → execute call (suc fuel) name args h ≢ spent
    unfolding execute
    execute_finished fuel name args h rest = elim (Option-cases (get_cb_index name h.index_list)) [
      | inl absent ↦ rw (absent, execute) (λ e. cc)
      | inr (point, found) ↦
          rw (found, execute)
            (result_finished (call_loop call (cb_count point h.index_list) 0 point args h) _
              (call_loop_finished (cb_count point h.index_list) 0 point args h) rest)
    ]

    announce_finished :
        (args : Params) (h : Handler W) → execute call 1 callback_callbacks_executed args h ≢ spent
    announce_finished args h = execute_finished 0 callback_callbacks_executed args h (λ h' e. cc)

  -- Where every callback returns or has undefined behaviour, two levels of fuel are enough, and
  -- more fuel changes nothing: the announcement is not announced.
  pub execute_total :
      (fuel : ℕ) (name : Bytes) (args : Params) (h : Handler W)
      → ((f : ℕ) (p : Params) (h : Handler W) → call f p h ≢ spent)
      → (execute call (suc (suc fuel)) name args h ≡ execute_callbacks call name args h)
        × (execute_callbacks call name args h ≢ spent)
  unfolding execute execute_callbacks
  execute_total fuel name args h returns = (
    ground arith,
    execute_finished returns 1 name args h (λ h'.
        elim (Bool-cases (str_eq name callback_callbacks_executed)) [
          | inl same ↦ rw same (λ e. cc)
          | inr differs ↦
              rw differs (return_ok_finished _ (announce_finished returns (announced name args) h'))
        ]),
  )

  react_break :
      (res : ℤ) (i : ℕ) (h : Handler W) → res ≡ bcirc_plugin_break → react res i h ≡ broken h
  unfolding react
  react_break res i h b = ground arith

  execute_step :
      (fuel : ℕ) (name : Bytes) (point : ℕ) (args : Params) (h h' : Handler W)
      → get_cb_index name h.index_list ≡ some point
      → call_loop call (cb_count point h.index_list) 0 point args h ≡ proceed h'
      → str_eq name callback_callbacks_executed ≡ false
      → execute call (suc fuel) name args h
        ≡ return_ok (execute call fuel callback_callbacks_executed (announced name args) h')
  unfolding execute
  execute_step fuel name point args h h' found loop plain = rw (found, execute) (rw loop (rw plain))

  execute_cut :
      (fuel : ℕ) (name : Bytes) (point : ℕ) (args : Params) (h h' : Handler W)
      → get_cb_index name h.index_list ≡ some point
      → call_loop call (cb_count point h.index_list) 0 point args h ≡ broken h'
      → execute call (suc fuel) name args h ≡ done bcirc_plugin_fail h'
  unfolding execute
  execute_cut fuel name point args h h' found loop = rw (found, execute) (rw loop)

  -- An event that the index knows, and whose callbacks are quiet: each of them is called once, in
  -- the order of the index, then each callback of `callback_callbacks_executed` with the event's
  -- name behind the arguments, and nothing else; the result is OK.
  pub execute_callbacks-quiet :
      (name : Bytes) (point : ℕ) (args : Params) (h : Handler W)
      → get_cb_index name h.index_list ≡ some point
      → str_eq name callback_callbacks_executed ≡ false
      → IsQuiet call args (callbacks_for name h.index_list) h
      → IsQuiet call
          (announced name args)
          (callbacks_for callback_callbacks_executed h.index_list)
          (run_all call args (callbacks_for name h.index_list) h)
      → execute_callbacks call name args h
        ≡ done bcirc_plugin_ok (
            run_all call
              (announced name args)
              (callbacks_for callback_callbacks_executed h.index_list)
              (run_all call args (callbacks_for name h.index_list) h))
  execute_callbacks-quiet name point args h found plain q q' =
      let h' : Handler W = run_all call args (callbacks_for name h.index_list) h in
      let same : h'.index_list ≡ h.index_list = run_all-index_list call args _ h q in
      unfold execute_callbacks in
      (execute_step 1 name point args h h' found (execute_found call 0 name args h q point found)
          plain
        ∙ (ap return_ok (announce-quiet call 0 (announced name args) h' (rw same q'))
            ∙ ap
                (λ (index : List CallbackIndex). done bcirc_plugin_ok (
                  run_all call (announced name args)
                    (callbacks_for callback_callbacks_executed index) h'))
                same))

  -- The same, where nothing listens for the announcement.
  pub execute_callbacks-unannounced :
      (name : Bytes) (point : ℕ) (args : Params) (cs : List Callback) (h : Handler W)
      → get_cb_index name h.index_list ≡ some point
      → str_eq name callback_callbacks_executed ≡ false
      → callbacks_for name h.index_list ≡ cs
      → get_cb_index callback_callbacks_executed h.index_list ≡ none
      → IsQuiet call args cs h
      → execute_callbacks call name args h ≡ done bcirc_plugin_ok (run_all call args cs h)
  execute_callbacks-unannounced name point args cs h found plain listed absent q =
      let nobody = callbacks_for-none callback_callbacks_executed h.index_list absent in
      execute_callbacks-quiet name point args h found plain (rw listed q) (rw nobody tt)
      ∙ (ap
            (λ (ds : List Callback). done bcirc_plugin_ok (
              run_all call (announced name args) ds
                (run_all call args (callbacks_for name h.index_list) h)))
            nobody
          ∙ ap (λ (ds : List Callback). done bcirc_plugin_ok (run_all call args ds h)) listed)

  -- A callback that answers BREAK, behind quiet ones: those before it have been called in order,
  -- nothing behind it is called, `callback_callbacks_executed` is not announced, and the result is
  -- FAIL.
  pub execute_callbacks-broken :
      (name : Bytes) (point : ℕ) (args : Params) (before after : List Callback) (cb : Callback)
      (h h' : Handler W)
      → get_cb_index name h.index_list ≡ some point
      → callbacks_for name h.index_list ≡ before ++ cb ∷ after
      → IsQuiet call args before h
      → call cb.cb_func args (run_all call args before h) ≡ done bcirc_plugin_break h'
      → execute_callbacks call name args h ≡ done bcirc_plugin_fail h'
  execute_callbacks-broken name point args before after cb h h' found split q b =
      let (e, at, same) = callbacks_for-some name h.index_list point found in
      unfold execute_callbacks in
      execute_cut 1 name point args h h' found (
        entry_loop_leaves call before after cb point args h (broken h') e at (same ∙ split) q tt (
          ap (λ (r : Run W). react_to call r (length before)) b
          ∙ react_break _ (length before) h' refl))

  -- An event that the index does not know: nothing is called, also no announcement.
  pub execute_callbacks-unknown :
      (name : Bytes) (args : Params) (h : Handler W)
      → get_cb_index name h.index_list ≡ none
      → execute_callbacks call name args h ≡ done bcirc_plugin_ok h
  unfolding execute_callbacks
  execute_callbacks-unknown name args h absent = rw (absent, execute)
