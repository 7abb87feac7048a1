-- ===== src/Dispatch/OneAnswer.antt =====
-- An event in src/plugin_handler.c of whose callbacks one acts and the others only read.
use mathlib.Core.List.{Permᴰ}
use bcirc.Base.{
  ℕ, Bytes, List, [], ◌∷◌, map, some, none, ◌≡◌, refl, sym, subst, ap, ◌∙◌, ◌⊎◌, inl, inr, ℤ, false,
  All, str_eq, Option-cases,
}
use bcirc.PluginHandler.{
  Callback, CallbackIndex, Handler, Params, bcirc_plugin_ok, bcirc_plugin_continue,
}
use bcirc.PluginHandler.Index.{get_cb_index, callbacks_for}
use bcirc.PluginHandler.Index.Content.{callbacks_for-none}
use bcirc.PluginHandler.Names.{callback_callbacks_executed}
use bcirc.PluginHandler.Execute.{Run, done, execute_callbacks}
use bcirc.PluginHandler.Execute.Rounds.{IsQuiet, run_all, IsQuiet-cons}
use bcirc.PluginHandler.Execute.Order.{execute_callbacks-unannounced}

abbrev pub IsReturn : ℤ → Type 0
IsReturn res = (res ≡ bcirc_plugin_ok) ⊎ (res ≡ bcirc_plugin_continue)

module _ (k : ℕ) (Reads : ℕ → Type 0) where
  -- One of the functions is `k`, and the others read.
  abbrev pub HasOne : List ℕ → Type 0
  HasOne [] = ⊥
  HasOne (f ∷ fs) = ((f ≡ k) × All Reads fs) ⊎ (Reads f × HasOne fs)

  Reads-perm : {xs ys : List ℕ} → Permᴰ xs ys → All Reads xs → All Reads ys
  Reads-perm Permᴰ.nil h = tt
  Reads-perm (Permᴰ.cons e p) h = (subst Reads e h.0, Reads-perm p h.1)
  Reads-perm (Permᴰ.swap e f) h = (subst Reads f h.1.0, (subst Reads e h.0, h.1.1))
  Reads-perm (Permᴰ.trans p r) h = Reads-perm r (Reads-perm p h)

  pub HasOne-perm : {xs ys : List ℕ} → Permᴰ xs ys → HasOne xs → HasOne ys
  HasOne-perm Permᴰ.nil h = h
  HasOne-perm (Permᴰ.cons e p) (inl h) = inl (sym e ∙ h.0, Reads-perm p h.1)
  HasOne-perm (Permᴰ.cons e p) (inr h) = inr (subst Reads e h.0, HasOne-perm p h.1)
  HasOne-perm (Permᴰ.swap e f) (inl h) = inr (subst Reads f h.1.0, inl (sym e ∙ h.0, h.1.1))
  HasOne-perm (Permᴰ.swap e f) (inr (a, inl h)) = inl (sym f ∙ h.0, (subst Reads e a, h.1))
  HasOne-perm (Permᴰ.swap e f) (inr (a, inr h)) =
      inr (subst Reads f h.0, inr (subst Reads e a, h.1))
  HasOne-perm (Permᴰ.trans p r) h = HasOne-perm r (HasOne-perm p h)

  abbrev pub Names : List Callback → Type 0
  Names cs = HasOne (map (λ (c : Callback). c.cb_func) cs)

  pub known_event :
      (name : Bytes) (index : List CallbackIndex)
      → Names (callbacks_for name index)
      → (point : ℕ) × (get_cb_index name index ≡ some point)
  known_event name index one = elim (Option-cases (get_cb_index name index)) [
    | inl absent ↦ absurd (subst Names (callbacks_for-none name index absent) one)
    | inr found ↦ found
  ]

module _ {W : Type 0} (call : ℕ → Params → Handler W → Run W) (args : Params) (k : ℕ)
    (Reads : ℕ → Type 0) (P : Handler W → Type 0)
    (passes : (f : ℕ) (h : Handler W)
      → P h
      → Reads f
      → (res : ℤ) × (call f args h ≡ done res h) × IsReturn res) where
  readers_pass :
      (cs : List Callback) (h : Handler W)
      → P h
      → All Reads (map (λ (c : Callback). c.cb_func) cs)
      → IsQuiet call args cs h × (run_all call args cs h ≡ h)
  readers_pass [] h p reads = (tt, refl)
  readers_pass (cb ∷ cs) h p reads =
      let (res, returned, content) = passes cb.cb_func h p reads.0 in
      let (behind, same) = readers_pass cs h p reads.1 in
      let (all, first) = IsQuiet-cons call args cb cs h h res returned content refl behind in
      (all, first ∙ same)

  one_runs :
      (cs : List Callback) (h h' : Handler W)
      → P h
      → Names k Reads cs
      → call k args h ≡ done bcirc_plugin_ok h'
      → h'.index_list ≡ h.index_list
      → P h'
      → IsQuiet call args cs h × (run_all call args cs h ≡ h')
  one_runs [] h h' p one acts index p' = absurd one
  one_runs (cb ∷ cs) h h' p (inl (here, reads)) acts index p' =
      let (behind, same) = readers_pass cs h' p' reads in
      let (all, first) =
        IsQuiet-cons call args cb cs h h' bcirc_plugin_ok (ap (λ f. call f args h) here ∙ acts)
          (inl refl) index behind in
      (all, first ∙ same)
  one_runs (cb ∷ cs) h h' p (inr (reads, later)) acts index p' =
      let (res, returned, content) = passes cb.cb_func h p reads in
      let (behind, same) = one_runs cs h h' p later acts index p' in
      let (all, first) = IsQuiet-cons call args cb cs h h res returned content refl behind in
      (all, first ∙ same)

  -- The event does what the one callback does, wherever that stands among the others, as long as
  -- nothing listens for the announcement.
  pub one_answers :
      (name : Bytes) (h h' : Handler W)
      → Names k Reads (callbacks_for name h.index_list)
      → str_eq name callback_callbacks_executed ≡ false
      → get_cb_index callback_callbacks_executed h.index_list ≡ none
      → P h
      → call k args h ≡ done bcirc_plugin_ok h'
      → h'.index_list ≡ h.index_list
      → P h'
      → execute_callbacks call name args h ≡ done bcirc_plugin_ok h'
  one_answers name h h' one plain unannounced p acts index p' =
      let (point, known) = known_event k Reads name h.index_list one in
      let (quiet, run) = one_runs (callbacks_for name h.index_list) h h' p one acts index p' in
      execute_callbacks-unannounced call name point args (callbacks_for name h.index_list) h known
        plain refl unannounced quiet
      ∙ ap (done bcirc_plugin_ok) run
