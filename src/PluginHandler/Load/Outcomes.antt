-- ===== src/PluginHandler/Load/Outcomes.antt =====
-- load_plugin of src/plugin_handler.c: what each return value means for the handler.
use mathlib.Core.List.{Permᴰ}
use mathlib.Core.Option
use bcirc.Base.{
  ℕ, suc, ◌<◌, Bytes, List, [], ◌∷◌, ◌++◌, Option, some, ◌≡◌, refl, ℤ, pos, negsuc, arith, ◌==ℤ◌,
  false, inl, inr, Bool-cases, Option-cases,
}
use bcirc.PluginHandler.{Plugin, Handler, bcirc_plugin_ok}
use bcirc.PluginHandler.Index.{Qsort, callbacks_for}
use bcirc.PluginHandler.Index.Content.{added_own}
use bcirc.PluginHandler.Registry.{register_callback}
use bcirc.PluginHandler.Registry.Registration.{created}
use bcirc.PluginHandler.Load.{SharedObject, fresh_plugin, initialised, loaded, load_plugin}

module _ {W : Type 0} (dl_open : Bytes → Option (SharedObject W)) where
  initialised_lem :
      (path : Bytes) (r : ℤ × Plugin × Handler W)
      → (initialised path r).0 ≡ pos 1
      → (before : List Plugin) × (p : Plugin) × ((initialised path r).1.plugin_list
          ≡ before ++ p ∷ [])
        × (p.path ≡ path)
  initialised_lem path (res, p, h) e = elim (Bool-cases (res ==ℤ bcirc_plugin_ok)) [
    | inl good ↦ (h.plugin_list, record p { path = path }, rw good, refl)
    | inr bad ↦ absurd (ground (arith, bad))
  ]

  -- A load that returns 1 has called `plugin_init`.
  loaded-initialised :
      (path : Bytes) (h : Handler W) (so : SharedObject W)
      → (loaded path h so).0 ≡ pos 1
      → (r : ℤ × Plugin × Handler W) × (loaded path h so ≡ initialised path r)
  loaded-initialised path h so e = elim (Option-cases so.plugin_author) [
    | inl n ↦ absurd (ground (arith, n))
    | inr (author, ea) ↦ elim (Option-cases so.plugin_name) [
      | inl n ↦ absurd (ground (arith, n, ea))
      | inr (name, en) ↦ elim (Option-cases so.plugin_version) [
        | inl n ↦ absurd (ground (arith, n, ea, en))
        | inr (version, ev) ↦ elim (Option-cases so.plugin_init) [
          | inl n ↦ absurd (ground (arith, n, ea, en, ev))
          | inr (init_func, ei) ↦ (
            init_func (fresh_plugin h.next_addr so.handle author name version)
                (record h { next_addr = suc h.next_addr }),
            rw (loaded, ea) (rw (loaded, en) (rw ev (rw ei))),
          )
        ]
      ]
    ]
  ]

  -- A load that returns -1, -2 or -3 leaves the whole handler as it was.
  load_plugin_refused :
      (path : Bytes) (h : Handler W) (k : ℕ)
      → k < 3
      → (load_plugin dl_open path h).0 ≡ negsuc k
      → (load_plugin dl_open path h).1 ≡ h
  unfolding load_plugin
  load_plugin_refused path h k small e = ground arith

  -- A load that returns 1 has put a plugin with this path at the end of the list.
  load_plugin_appended :
      (path : Bytes) (h : Handler W)
      → (load_plugin dl_open path h).0 ≡ pos 1
      → (before : List Plugin) × (p : Plugin) × ((load_plugin dl_open path h).1.plugin_list
          ≡ before ++ p ∷ [])
        × (p.path ≡ path)
  unfolding load_plugin
  load_plugin_appended path h e = elim (Option-cases (dl_open path)) [
    | inl shut ↦ absurd (ground (arith, shut))
    | inr (so, opened) ↦
        let (r, same) = loaded-initialised path h so (rw (opened, load_plugin) at e) in
        rw (opened, load_plugin)
          (rw same (initialised_lem path r (rw same at (rw (opened, load_plugin) at e))))
  ]

load_plugin_failed :
    {W : Type 0} (dl_open : Bytes → Option (SharedObject W)) (path : Bytes) (h : Handler W)
    (so : SharedObject W) (author name version : Bytes)
    (init_func : Plugin → Handler W → ℤ × Plugin × Handler W) (bad : ℤ)
    → dl_open path ≡ some so
    → so.plugin_author ≡ some author
    → so.plugin_name ≡ some name
    → so.plugin_version ≡ some version
    → so.plugin_init ≡ some init_func
    → let r =
        init_func
          (fresh_plugin h.next_addr so.handle author name version)
          (record h { next_addr = suc h.next_addr }) in
      (r.0 ==ℤ bcirc_plugin_ok) ≡ false → load_plugin dl_open path h ≡ (negsuc 3, r.2)
unfolding load_plugin
load_plugin_failed dl_open path h so author name version init_func bad eo ea en ev ei eb =
    rw (eo, load_plugin) (rw (loaded, ea) (rw (loaded, en) (rw ev (rw ei (rw eb)))))

-- Such a `plugin_init`.
abbrev pub registering :
    {W : Type 0} → Qsort → Bytes → ℕ → ℤ → ℤ → Plugin → Handler W → ℤ × Plugin × Handler W
registering q event func prio bad p h =
    let (res, p', h') = register_callback q (some event) (some func) prio (some p) h in
    (bad, Option.get_or p' p, h')

-- A `plugin_init` that registers a callback and then returns something else than OK: the load
-- returns -4 and the plugin is not in the list, but the event name still reaches the callback.
pub load_plugin_orphan :
    {W : Type 0} (q : Qsort) (dl_open : Bytes → Option (SharedObject W)) (path : Bytes)
    (h : Handler W) (so : SharedObject W) (author name version event : Bytes) (func : ℕ)
    (prio bad : ℤ)
    → dl_open path ≡ some so
    → so.plugin_author ≡ some author
    → so.plugin_name ≡ some name
    → so.plugin_version ≡ some version
    → so.plugin_init ≡ some (registering q event func prio bad)
    → (bad ==ℤ bcirc_plugin_ok) ≡ false
    → let h' = (load_plugin dl_open path h).1 in
      let allocated = record h { next_addr = suc h.next_addr } in
      ((load_plugin dl_open path h).0 ≡ negsuc 3)
      × (h'.plugin_list ≡ h.plugin_list)
      × Permᴰ
          (callbacks_for event h'.index_list)
          (created event func prio allocated ∷ callbacks_for event h.index_list)
unfolding load_plugin register_callback
load_plugin_orphan q dl_open path h so author name version event func prio bad eo ea en ev ei eb =
    rw (load_plugin_failed dl_open path h so author name version _ bad eo ea en ev ei eb)
      (refl, refl, added_own q _ h.index_list)
