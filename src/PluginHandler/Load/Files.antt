-- ===== src/PluginHandler/Load/Files.antt =====
-- Which files get_plugins of src/plugin_handler.c takes for plugins.
use bcirc.Base.{
  suc, ◌+◌, Bytes, codes, [], ◌++◌, some, ◌≡◌, ◌≢◌, refl, ap, ◌∙◌, inl, inr, true, arith, length,
  length-append, All, strstr, strstr_split, Option-cases, strstr_past, eq_nil,
}
use bcirc.PluginHandler.Load.{is_plugin_file}

-- A name that is taken ends in ".so".
is_plugin_file_sound :
    (name : Bytes) → is_plugin_file name ≡ true → (stem : Bytes) × (name ≡ stem ++ codes ".so")
unfolding is_plugin_file
is_plugin_file_sound name h = elim (Option-cases (strstr name (codes ".so"))) [
  | inl absent ↦ absurd (ground (arith, absent))
  | inr (at, found) ↦
      let (before, rest, e, len) = strstr_split name (codes ".so") at found in
      let whole : at + 3 ≡ length name = ground (arith, found) in
      let sum : length name ≡ length before + suc (suc (suc (length rest))) =
        ap length e ∙ length-append before (codes ".so" ++ rest) in
      let nothing : rest ≡ [] = eq_nil rest (omega arith) in
      (before, e ∙ ap (λ (r : Bytes). before ++ (codes ".so" ++ r)) nothing)
]

-- A name that ends in ".so" is taken, if there is no dot before that.
is_plugin_file_complete :
    (stem : Bytes) → All (λ c. c ≢ b'.') stem → is_plugin_file (stem ++ codes ".so") ≡ true
unfolding is_plugin_file
is_plugin_file_complete stem h =
    let at : strstr (stem ++ codes ".so") (codes ".so") ≡ some (length stem) =
      strstr_past b'.' (codes "so") stem (codes ".so") h refl in
    rw (at, is_plugin_file) (ground (arith, length-append stem (codes ".so")))
