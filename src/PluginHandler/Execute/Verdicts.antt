-- ===== src/PluginHandler/Execute/Verdicts.antt =====
-- execute_callbacks of src/plugin_handler.c on STOP and FAIL: the plugin that is paused or removed
-- is found by the position of the callback in its event's list, not by who registered it.
use mathlib.Core.List.{Memᴰ}
use bcirc.Base.{
  ℕ, Bytes, List, [], ◌∷◌, ◌++◌, none, some, ◌≡◌, refl, ap, ◌∙◌, ◌⊎◌, inl, inr, ℤ, false, arith,
  ◌==◌, Bool-cases, get_elem?, length, keep,
}
use bcirc.PluginHandler.{Callback, Plugin, Handler, Params, bcirc_plugin_stop, bcirc_plugin_fail}
use bcirc.PluginHandler.Index.{get_cb_index, callbacks_for}
use bcirc.PluginHandler.Index.Content.{callbacks_for-some}
use bcirc.PluginHandler.Registry.{remove_plugin}
use bcirc.PluginHandler.Registry.Removal.{other_plugin, remove_plugin_lem}
use bcirc.PluginHandler.Execute.{
  proceed, out_of_range, Run, done, fault, react, react_to, call_loop, cb_count, execute,
  execute_callbacks,
}
use bcirc.PluginHandler.Execute.Rounds.{IsQuiet, run_all, entry_loop_leaves}

keep_none :
    (addr : ℕ) (ps : List Plugin) → keep (λ x. x.addr == addr) (keep (other_plugin addr) ps) ≡ []
keep_none addr [] = refl
keep_none addr (p ∷ ps) = ground (arith, keep_none addr ps)

keep_mem :
    (addr : ℕ) (ps : List Plugin) {owner : Plugin}
    → Memᴰ owner ps
    → (owner.addr == addr) ≡ false
    → Memᴰ owner (keep (other_plugin addr) ps)
keep_mem addr [] m other = elim m [ ]
keep_mem addr (p ∷ ps) (Memᴰ.head e) other = rw (rw e at other, keep) (Memᴰ.head e)
keep_mem addr (p ∷ ps) (Memᴰ.tail m) other = elim (Bool-cases (p.addr == addr)) [
  | inl hit ↦ rw (hit, keep) (keep_mem addr ps m other)
  | inr miss ↦ rw (miss, keep) (Memᴰ.tail (keep_mem addr ps m other))
]

module _ {W : Type 0} where
  -- FAIL from the callback at position `i` of an event: the plugin at position `i` of the plugin
  -- list is removed, and the plugin that registered the callback stays if it is another one.
  react-removes_by_position :
      (i : ℕ) (h : Handler W) (p owner : Plugin)
      → get_elem? h.plugin_list i ≡ some p
      → Memᴰ owner h.plugin_list
      → (owner.addr == p.addr) ≡ false
      → (h' : Handler W) × (react bcirc_plugin_fail i h ≡ proceed h')
        × (keep (λ x. x.addr == p.addr) h'.plugin_list ≡ [])
        × Memᴰ owner h'.plugin_list
  unfolding react
  react-removes_by_position i h p owner at m other =
      let (gone, _) = remove_plugin_lem p.addr [] h in
      (
        (remove_plugin p.addr h).1,
        rw at,
        rw gone (keep_none p.addr h.plugin_list),
        rw gone (keep_mem p.addr h.plugin_list m other),
      )

  react_past_plugins :
      (res : ℤ) (i : ℕ) (h : Handler W)
      → (res ≡ bcirc_plugin_stop) ⊎ (res ≡ bcirc_plugin_fail)
      → get_elem? h.plugin_list i ≡ none
      → react res i h ≡ out_of_range
  unfolding react
  react_past_plugins res i h s past = ground arith

  execute_fault :
      (call : ℕ → Params → Handler W → Run W) (name : Bytes) (point : ℕ) (args : Params)
      (h : Handler W)
      → get_cb_index name h.index_list ≡ some point
      → call_loop call (cb_count point h.index_list) 0 point args h ≡ out_of_range
      → execute_callbacks call name args h ≡ fault
  unfolding execute_callbacks
  execute_fault call name point args h found loop = rw (found, execute) (rw loop)

  -- STOP or FAIL from a callback whose position in its event's list is past the end of the plugin
  -- list (one plugin may register many callbacks): the list is read out of range.
  execute_callbacks-fault :
      (call : ℕ → Params → Handler W → Run W) (name : Bytes) (point : ℕ) (args : Params)
      (before after : List Callback) (cb : Callback) (h h' : Handler W) (res : ℤ)
      → get_cb_index name h.index_list ≡ some point
      → callbacks_for name h.index_list ≡ before ++ cb ∷ after
      → IsQuiet call args before h
      → call cb.cb_func args (run_all call args before h) ≡ done res h'
      → (res ≡ bcirc_plugin_stop) ⊎ (res ≡ bcirc_plugin_fail)
      → get_elem? h'.plugin_list (length before) ≡ none
      → execute_callbacks call name args h ≡ fault
  execute_callbacks-fault call name point args before after cb h h' res found split q returned s
        past =
      let (e, at, same) = callbacks_for-some name h.index_list point found in
      execute_fault call name point args h found (
        entry_loop_leaves call before after cb point args h out_of_range e at (same ∙ split) q tt (
          ap (λ (r : Run W). react_to call r (length before)) returned
          ∙ react_past_plugins res (length before) h' s past))
