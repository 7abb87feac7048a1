-- ===== src/Plugins/Reload/Unloading.antt =====
-- Which plugins load_new_plugin of plugins/src/autoload/autoload.c removes.
use bcirc.Base.{
  ℕ, zero, suc, ◌+◌, ◌<◌, ◌≤◌, Bytes, List, [], ◌∷◌, Option, none, some, ◌≡◌, refl, ap, ◌∙◌, subst,
  ◌⊎◌, inl, inr, true, false, ◌==◌, arith, Bool-cases, Option-cases, All, keep, str_eq, get_elem?,
  length,
}
use bcirc.PluginHandler.{Plugin, Handler}
use bcirc.PluginHandler.Registry.{remove_plugin}
use bcirc.PluginHandler.Registry.Removal.{other_plugin, remove_plugin_lem}
use bcirc.PluginHandler.Load.{SharedObject, load_plugin}
use bcirc.Plugins.Reload.{unload, unload_loop, path_of, load_new_plugin}

get_elem?-All :
    {A : Type 0} (P : A → Type 0) (xs : List A) (i : ℕ) (x : A)
    → All P xs
    → get_elem? xs i ≡ some x
    → P x
get_elem?-All P [] i x all at = absurd (cc)
get_elem?-All P (y ∷ xs) zero x all at = subst P (cc) all.0
get_elem?-All P (y ∷ xs) (suc i) x all at = get_elem?-All P xs i x all.1 at

get_elem?-length :
    {A : Type 0} (xs : List A) (i : ℕ) (x : A) → get_elem? xs i ≡ some x → i < length xs
get_elem?-length [] i x at = absurd (cc)
get_elem?-length (y ∷ xs) zero x at = omega arith
get_elem?-length (y ∷ xs) (suc i) x at = omega (arith, get_elem?-length xs i x at)

get_elem?-none : {A : Type 0} (xs : List A) (i : ℕ) → get_elem? xs i ≡ none → length xs ≤ i
get_elem?-none [] i over = omega arith
get_elem?-none (y ∷ xs) zero over = absurd (cc)
get_elem?-none (y ∷ xs) (suc i) over = omega (arith, get_elem?-none xs i over)

-- The plugin has another path.
abbrev pub IsOther : Bytes → Plugin → Type 0
IsOther path p = str_eq path p.path ≡ false

-- No plugin but the one at the address has the path.
abbrev pub IsOnly : ℕ → Bytes → Plugin → Type 0
IsOnly addr path p = IsOther path p ⊎ (p.addr ≡ addr)

keep-IsOther :
    (addr : ℕ) (path : Bytes) (ps : List Plugin)
    → All (IsOnly addr path) ps
    → All (IsOther path) (keep (other_plugin addr) ps)
keep-IsOther addr path [] only = tt
keep-IsOther addr path (p ∷ ps) only = elim (Bool-cases (p.addr == addr)) [
  | inl same ↦ rw (same, keep) (keep-IsOther addr path ps only.1)
  | inr differs ↦ elim only.0 [
    | inl other ↦ rw (differs, keep) (other, keep-IsOther addr path ps only.1)
    | inr same ↦ absurd (ground (arith, differs, same))
  ]
]

module _ {W : Type 0} (path : Bytes) where
  unload_round :
      (fuel i : ℕ) (h : Handler W) (p : Plugin)
      → get_elem? h.plugin_list i ≡ some p
      → unload_loop (suc fuel) i path h ≡ unload_loop fuel (suc i) path (unload path p h)
  unfolding unload_loop
  unload_round fuel i h p at = rw (at, unload_loop) refl

  unload_over :
      (fuel i : ℕ) (h : Handler W)
      → get_elem? h.plugin_list i ≡ none
      → unload_loop fuel i path h ≡ h
  unfolding unload_loop
  unload_over zero i h over = refl
  unload_over (suc fuel) i h over = rw (over, unload_loop) refl

  unload_other : (p : Plugin) (h : Handler W) → IsOther path p → unload path p h ≡ h
  unload_other p h other = rw other refl

  unload_loop-others :
      (fuel i : ℕ) (h : Handler W)
      → All (IsOther path) h.plugin_list
      → unload_loop fuel i path h ≡ h
  unload_loop-others zero i h others = unfold unload_loop in refl
  unload_loop-others (suc fuel) i h others = elim (Option-cases (get_elem? h.plugin_list i)) [
    | inl over ↦ unload_over (suc fuel) i h over
    | inr (p, at) ↦
        unload_round fuel i h p at
        ∙ (ap (unload_loop fuel (suc i) path)
              (unload_other p h (get_elem?-All (IsOther path) h.plugin_list i p others at))
            ∙ unload_loop-others fuel (suc i) h others)
  ]

  -- The round that meets the plugin, and those behind it.
  unload_hit :
      (addr fuel i : ℕ) (h : Handler W) (p : Plugin)
      → All (IsOnly addr path) h.plugin_list
      → get_elem? h.plugin_list i ≡ some p
      → str_eq path p.path ≡ true
      → unload_loop (suc fuel) i path h ≡ (remove_plugin addr h).1
  unload_hit addr fuel i h p only at hit =
      elim (get_elem?-All (IsOnly addr path) h.plugin_list i p only at) [
        | inl other ↦ absurd (cc)
        | inr same ↦
            let removed : unload path p h ≡ (remove_plugin addr h).1 =
              rw hit (ap (λ a. (remove_plugin a h).1) same) in
            unload_round fuel i h p at
            ∙ (ap (unload_loop fuel (suc i) path) removed
                ∙ unload_loop-others fuel (suc i) (remove_plugin addr h).1 (
                    rw (remove_plugin_lem addr [] h).0 (keep-IsOther addr path h.plugin_list only)))
      ]

  unload_loop-only :
      (addr j fuel i : ℕ) (h : Handler W) (p : Plugin)
      → All (IsOnly addr path) h.plugin_list
      → get_elem? h.plugin_list (i + j) ≡ some p
      → str_eq path p.path ≡ true
      → j < fuel
      → unload_loop fuel i path h ≡ (remove_plugin addr h).1
  unload_loop-only addr j zero i h p only at hit enough = absurd (omega (arith, enough))
  unload_loop-only addr zero (suc fuel) i h p only at hit enough =
      unload_hit addr fuel i h p only (ap (get_elem? h.plugin_list) (omega arith) ∙ at) hit
  unload_loop-only addr (suc j) (suc fuel) i h p only at hit enough =
      elim (Option-cases (get_elem? h.plugin_list i)) [
        | inl over ↦ absurd (
            omega (
              arith,
              get_elem?-none h.plugin_list i over,
              get_elem?-length h.plugin_list (i + suc j) p at,
            ))
        | inr (q, here) ↦ elim (Bool-cases (str_eq path q.path)) [
          | inl found ↦ unload_hit addr fuel i h q only here found
          | inr other ↦
              unload_round fuel i h q here
              ∙ (ap (unload_loop fuel (suc i) path) (unload_other q h other)
                  ∙ unload_loop-only addr j fuel (suc i) h p only
                      (ap (get_elem? h.plugin_list) (omega arith) ∙ at) hit (omega (arith, enough)))
        ]
      ]

module _ {W : Type 0} (dl_open : Bytes → Option (SharedObject W)) where
  -- A file is loaded anew, and one plugin in the list, and no other object, has its path: that
  -- plugin is removed, the list has no plugin with the path then, and the file is loaded into this
  -- state.
  pub load_new_plugin_lem :
      (dir name : Bytes) (h : Handler W) (addr i : ℕ) (p : Plugin)
      → All (IsOnly addr (path_of dir name)) h.plugin_list
      → get_elem? h.plugin_list i ≡ some p
      → str_eq (path_of dir name) p.path ≡ true
      → (load_new_plugin dl_open (some dir) name h
          ≡ some (load_plugin dl_open (path_of dir name) (remove_plugin addr h).1))
        × All (IsOther (path_of dir name)) (remove_plugin addr h).1.plugin_list
  unfolding load_new_plugin
  load_new_plugin_lem dir name h addr i p only at hit =
      let path : Bytes = path_of dir name in
      (
        ap (λ (end : Handler W). some (load_plugin dl_open path end))
            (unload_loop-only path addr i (length h.plugin_list) 0 h p only
              (ap (get_elem? h.plugin_list) (omega arith) ∙ at) hit
              (get_elem?-length h.plugin_list i p at)),
        rw (remove_plugin_lem addr [] h).0 (keep-IsOther addr path h.plugin_list only),
      )
