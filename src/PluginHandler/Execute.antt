-- ===== src/PluginHandler/Execute.antt =====
-- execute_callbacks of src/plugin_handler.c. What the callbacks do is a parameter: a function
-- pointer takes the arguments and the whole handler, which it may change, and is a run of its own.
pub mod Rounds
pub mod Order
pub mod Verdicts
use bcirc.Base.{
  ℕ, zero, suc, ◌+◌, Bytes, List, [], ◌∷◌, ◌++◌, Option, none, some, ℤ, ◌==ℤ◌, Bool, true, false,
  ◌>>=◌, str_eq, if◌then◌else◌, get_elem?, length,
}
use bcirc.PluginHandler.{
  Callback, CallbackIndex, Plugin, Handler, Params, announced, bcirc_plugin_ok, bcirc_plugin_stop,
  bcirc_plugin_fail, bcirc_plugin_break,
}
use bcirc.PluginHandler.Index.{get_cb_index}
use bcirc.PluginHandler.Names.{callback_callbacks_executed}
use bcirc.PluginHandler.Registry.{pause_plugin, remove_plugin}

-- `index_list[point]->callbacks[i]`, read anew in each round; `none` is a read out of range.
abbrev pub get_callback : ℕ → ℕ → List CallbackIndex → Option Callback
get_callback point i index = do e ← get_elem? index point; get_elem? e.callbacks i

-- `index_list[point]->cb_count`.
abbrev pub cb_count : ℕ → List CallbackIndex → ℕ
cb_count point index = elim (get_elem? index point) [ none ↦ 0 | some e ↦ length e.callbacks ]

-- One round, or the whole loop: go on, leave by BREAK, undefined behaviour, or no fuel left.
pub data Verdict (W : Type 0) : Type 0 where
  proceed : Handler W → Verdict W
  broken : Handler W → Verdict W
  out_of_range : Verdict W
  unfinished : Verdict W

-- A call: the value returned, undefined behaviour, or (not a behaviour of the code) no fuel left.
pub data Run (W : Type 0) : Type 0 where
  done : ℤ → Handler W → Run W
  fault : Run W
  spent : Run W

module _ {W : Type 0} where
  -- What round `i` does with the value that its callback returned. The source indexes
  -- `plugin_list` by the callback's position `i`.
  unfoldable pub react : ℤ → ℕ → Handler W → Verdict W
  react res i h =
      if res ==ℤ bcirc_plugin_ok
      then proceed h
      else if res ==ℤ bcirc_plugin_stop
      then elim (get_elem? h.plugin_list i) [
        | none ↦ out_of_range
        | some p ↦ proceed (pause_plugin (some p.addr) h).1
      ]
      else if res ==ℤ bcirc_plugin_fail
      then elim (get_elem? h.plugin_list i) [
        | none ↦ out_of_range
        | some p ↦ proceed (remove_plugin p.addr h).1
      ]
      else if res ==ℤ bcirc_plugin_break
      then broken h
      else proceed h

  -- The value of the nested call is dropped.
  abbrev pub return_ok : Run W → Run W
  return_ok (done res h) = done bcirc_plugin_ok h
  return_ok fault = fault
  return_ok spent = spent

module _ {W : Type 0} (call : ℕ → Params → Handler W → Run W) where
  -- A callback that does not return leaves the loop.
  abbrev pub react_to : Run W → ℕ → Verdict W
  react_to (done res h) i = react res i h
  react_to fault i = out_of_range
  react_to spent i = unfinished

  abbrev pub call_react : Callback → ℕ → Params → Handler W → Verdict W
  call_react cb i p h = react_to (call cb.cb_func p h) i

  -- The `for` loop: the rounds left, the round, the entry.
  unfoldable pub call_loop : ℕ → ℕ → ℕ → Params → Handler W → Verdict W
  call_loop zero i point p h = proceed h
  call_loop (suc n) i point p h = elim (get_callback point i h.index_list) [
    | none ↦ out_of_range
    | some cb ↦ elim (call_react cb i p h) [
      | proceed h' ↦ call_loop n (suc i) point p h'
      | broken h' ↦ broken h'
      | out_of_range ↦ out_of_range
      | unfinished ↦ unfinished
    ]
  ]

  unfoldable pub execute : ℕ → Bytes → Params → Handler W → Run W
  execute zero name p h = spent
  execute (suc fuel) name p h = elim (get_cb_index name h.index_list) [
    | none ↦ done bcirc_plugin_ok h
    | some point ↦ elim (call_loop (cb_count point h.index_list) 0 point p h) [
      | proceed h' ↦ elim (str_eq name callback_callbacks_executed) [
        | true ↦ done bcirc_plugin_ok h'
        | false ↦ return_ok (execute fuel callback_callbacks_executed (announced name p) h')
      ]
      | broken h' ↦ done bcirc_plugin_fail h'
      | out_of_range ↦ fault
      | unfinished ↦ spent
    ]
  ]

  -- A call for an event and the call that announces it: never more, so fuel 2 is enough.
  unfoldable pub execute_callbacks : Bytes → Params → Handler W → Run W
  unfolding execute
  execute_callbacks name p h = execute 2 name p h
