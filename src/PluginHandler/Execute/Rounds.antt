-- ===== src/PluginHandler/Execute/Rounds.antt =====
-- The rounds of the loop in execute_callbacks of src/plugin_handler.c, over callbacks that return
-- OK or CONTINUE and leave the index alone.
use native.Mathlib.Nat.{zero-add}
use bcirc.Base.{
  ℕ, suc, ◌+◌, Bytes, List, [], ◌∷◌, ◌++◌, some, ◌≡◌, refl, sym, subst, ap, ◌∙◌, ◌⊎◌, inl, inr, ℤ,
  arith, Option-cases, get_elem?, length, drop, get_elem?_of_drop, drop-suc, drop_append,
  append-nil, length-append,
}
use bcirc.PluginHandler.{
  Callback, CallbackIndex, Handler, Params, bcirc_plugin_ok, bcirc_plugin_continue,
}
use bcirc.PluginHandler.Index.{get_cb_index, callbacks_for}
use bcirc.PluginHandler.Index.Content.{callbacks_for-none, callbacks_for-some}
use bcirc.PluginHandler.Names.{callback_callbacks_executed}
use bcirc.PluginHandler.Execute.{
  get_callback, cb_count, Verdict, proceed, broken, out_of_range, unfinished, Run, done, fault,
  spent, react, react_to, call_react, call_loop, execute,
}

module _ {W : Type 0} (call : ℕ → Params → Handler W → Run W) where
  -- A call that returned OK or CONTINUE, from a state with this index, and left the index alone.
  abbrev pub IsContent : List CallbackIndex → Run W → Type 0
  IsContent index (done res h') =
      ((res ≡ bcirc_plugin_ok) ⊎ (res ≡ bcirc_plugin_continue)) × (h'.index_list ≡ index)
  IsContent index fault = ⊥
  IsContent index spent = ⊥

  -- The state that a call leaves; where it does not return, the one that it was made in.
  abbrev pub state_after : Handler W → Run W → Handler W
  state_after h (done res h') = h'
  state_after h fault = h
  state_after h spent = h

  -- The state after these callbacks have been called in order.
  abbrev pub run_all : Params → List Callback → Handler W → Handler W
  run_all p [] h = h
  run_all p (c ∷ cs) h = run_all p cs (state_after h (call c.cb_func p h))

  -- Called in order, each of these callbacks returns OK or CONTINUE, and leaves the index alone.
  abbrev pub IsQuiet : Params → List Callback → Handler W → Type 0
  IsQuiet p [] h = Unit
  IsQuiet p (c ∷ cs) h =
      IsContent h.index_list (call c.cb_func p h)
      × IsQuiet p cs (state_after h (call c.cb_func p h))

  -- One callback more in front, whose call is known.
  pub IsQuiet-cons :
      (p : Params) (c : Callback) (cs : List Callback) (h h' : Handler W) (res : ℤ)
      → call c.cb_func p h ≡ done res h'
      → (res ≡ bcirc_plugin_ok) ⊎ (res ≡ bcirc_plugin_continue)
      → h'.index_list ≡ h.index_list
      → IsQuiet p cs h'
      → IsQuiet p (c ∷ cs) h × (run_all p (c ∷ cs) h ≡ run_all p cs h')
  IsQuiet-cons p c cs h h' res returned content same rest = (
    subst (λ (r : Run W). IsContent h.index_list r × IsQuiet p cs (state_after h r)) (sym returned)
        ((content, same), rest),
    ap (λ (r : Run W). run_all p cs (state_after h r)) returned,
  )

  IsContent-index_list :
      (index : List CallbackIndex) (h : Handler W) (r : Run W)
      → IsContent index r
      → (state_after h r).index_list ≡ index
  IsContent-index_list index h (done res h') q = q.1
  IsContent-index_list index h fault q = absurd q
  IsContent-index_list index h spent q = absurd q

  react_quiet :
      (res : ℤ) (i : ℕ) (h : Handler W)
      → (res ≡ bcirc_plugin_ok) ⊎ (res ≡ bcirc_plugin_continue)
      → react res i h ≡ proceed h
  unfolding react
  react_quiet res i h q = ground arith

  react_to_content :
      (index : List CallbackIndex) (i : ℕ) (h : Handler W) (r : Run W)
      → IsContent index r
      → react_to call r i ≡ proceed (state_after h r)
  react_to_content index i h (done res h') q = react_quiet res i h' q.0
  react_to_content index i h fault q = absurd q
  react_to_content index i h spent q = absurd q

  pub run_all-index_list :
      (args : Params) (cs : List Callback) (h : Handler W)
      → IsQuiet args cs h
      → (run_all args cs h).index_list ≡ h.index_list
  run_all-index_list args [] h q = refl
  run_all-index_list args (c ∷ cs) h q =
      run_all-index_list args cs _ q.1
      ∙ IsContent-index_list h.index_list h (call c.cb_func args h) q.0

  get_callback_found :
      (i point : ℕ) (index : List CallbackIndex) (e : CallbackIndex) {c : Callback}
      {cs : List Callback}
      → get_elem? index point ≡ some e
      → drop i e.callbacks ≡ c ∷ cs
      → get_callback point i index ≡ some c
  get_callback_found i point index e found at = rw found (get_elem?_of_drop i e.callbacks at)

  -- One round, by what its callback's result is worth.
  round_proceed :
      (n i point : ℕ) (args : Params) (h h' : Handler W) (c : Callback)
      → get_callback point i h.index_list ≡ some c
      → call_react call c i args h ≡ proceed h'
      → call_loop call (suc n) i point args h ≡ call_loop call n (suc i) point args h'
  unfolding call_loop
  round_proceed n i point args h h' c found r = ground arith

  -- The verdicts that leave the loop.
  abbrev pub IsExit : Verdict W → Type 0
  IsExit (proceed h) = ⊥
  IsExit (broken h) = Unit
  IsExit out_of_range = Unit
  IsExit unfinished = Unit

  round_leaves :
      (n i point : ℕ) (args : Params) (h : Handler W) (c : Callback) (v : Verdict W)
      → get_callback point i h.index_list ≡ some c
      → IsExit v
      → call_react call c i args h ≡ v
      → call_loop call (suc n) i point args h ≡ v
  unfolding call_loop
  round_leaves n i point args h c (proceed h') found l r = absurd l
  round_leaves n i point args h c (broken h') found l r = ground arith
  round_leaves n i point args h c out_of_range found l r = ground arith
  round_leaves n i point args h c unfinished found l r = ground arith

  -- The rounds for a stretch of quiet callbacks, in an entry `e` that is read anew each time.
  call_loop-quiet :
      (cs rest : List Callback) (n i point : ℕ) (args : Params) (h : Handler W) (e : CallbackIndex)
      → get_elem? h.index_list point ≡ some e
      → drop i e.callbacks ≡ cs ++ rest
      → IsQuiet args cs h
      → call_loop call (length cs + n) i point args h
        ≡ call_loop call n (length cs + i) point args (run_all args cs h)
  call_loop-quiet [] rest n i point args h e found at q = rw (zero-add, zero-add)
  call_loop-quiet (c ∷ cs) rest n i point args h e found at q =
      let rounds : suc (length cs) + n ≡ suc (length cs + n) = omega arith in
      let position : suc (length cs) + i ≡ length cs + suc i = omega arith in
      rw rounds (
        rw position (
          round_proceed (length cs + n) i point args h _ c
            (get_callback_found i point h.index_list e found at)
            (react_to_content h.index_list i h (call c.cb_func args h) q.0)
          ∙ call_loop-quiet cs rest n (suc i) point args _ e
              (rw (IsContent-index_list h.index_list h (call c.cb_func args h) q.0) found)
              (drop-suc i e.callbacks at) q.1))

  -- The whole loop over an entry whose callbacks are all quiet, and over one with a BREAK.
  pub entry_loop :
      (cs : List Callback) (point : ℕ) (args : Params) (h : Handler W) (e : CallbackIndex)
      → get_elem? h.index_list point ≡ some e
      → e.callbacks ≡ cs
      → IsQuiet args cs h
      → call_loop call (cb_count point h.index_list) 0 point args h ≡ proceed (run_all args cs h)
  unfolding call_loop
  entry_loop cs point args h e at same q =
      let rounds : cb_count point h.index_list ≡ length cs + 0 =
        rw (at, cb_count, same) (omega arith) in
      rw rounds (call_loop-quiet cs [] 0 0 point args h e at (same ∙ sym (append-nil cs)) q)

  pub entry_loop_leaves :
      (before after : List Callback) (cb : Callback) (point : ℕ) (args : Params) (h : Handler W)
      (v : Verdict W) (e : CallbackIndex)
      → get_elem? h.index_list point ≡ some e
      → e.callbacks ≡ before ++ cb ∷ after
      → IsQuiet args before h
      → IsExit v
      → call_react call cb (length before) args (run_all args before h) ≡ v
      → call_loop call (cb_count point h.index_list) 0 point args h ≡ v
  entry_loop_leaves before after cb point args h v e at same q l b =
      let rounds : cb_count point h.index_list ≡ length before + suc (length after) =
        rw (at, cb_count, same) (length-append before (cb ∷ after)) in
      let position : length before + 0 ≡ length before = omega arith in
      rw rounds (
        call_loop-quiet before (cb ∷ after) (suc (length after)) 0 point args h e at same q
        ∙ round_leaves (length after) (length before + 0) point args (run_all args before h) cb v
            (get_callback_found (length before + 0) point _ e
              (rw (run_all-index_list args before h q) at)
              (drop_append before (cb ∷ after) 0 e.callbacks same))
            l (rw position b))

  pub execute_found :
      (fuel : ℕ) (name : Bytes) (args : Params) (h : Handler W)
      → IsQuiet args (callbacks_for name h.index_list) h
      → (point : ℕ) → get_cb_index name h.index_list ≡ some point
      → call_loop call (cb_count point h.index_list) 0 point args h
        ≡ proceed (run_all args (callbacks_for name h.index_list) h)
  execute_found fuel name args h q point found =
      let (e, at, same) = callbacks_for-some name h.index_list point found in
      entry_loop (callbacks_for name h.index_list) point args h e at same q

  -- The announcement runs the callbacks that listen for it, if there are any.
  pub announce-quiet :
      (fuel : ℕ) (args : Params) (h : Handler W)
      → IsQuiet args (callbacks_for callback_callbacks_executed h.index_list) h
      → execute call (suc fuel) callback_callbacks_executed args h
        ≡ done bcirc_plugin_ok
            (run_all args (callbacks_for callback_callbacks_executed h.index_list) h)
  announce-quiet fuel args h q =
      elim (Option-cases (get_cb_index callback_callbacks_executed h.index_list)) [
        | inl absent ↦
            rw (callbacks_for-none callback_callbacks_executed h.index_list absent)
              (unfold execute in rw (absent, execute))
        | inr (point, found) ↦
            unfold execute in
            rw (found, execute)
              (rw (execute_found fuel callback_callbacks_executed args h q point found))
      ]
