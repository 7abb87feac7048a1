-- ===== src/PluginHandler/Load/Startup.antt =====
-- A `plugin_init` that registers callbacks one after the other, as those under plugins/src do, and
-- what the index reaches behind load_plugin of src/plugin_handler.c.
use mathlib.Core.List.{Permᴰ}
use mathlib.Core.List.Permᴰ
use bcirc.Base.{
  ℕ, Bytes, List, [], ◌∷◌, ◌++◌, map, Option, none, some, ◌≡◌, refl, subst, inl, inr, ℤ, Bool,
  false, arith, Bool-cases, All, str_eq, if◌then◌else◌,
}
use bcirc.PluginHandler.{Callback, CallbackIndex, Plugin, Handler, bcirc_plugin_ok}
use bcirc.PluginHandler.Index.{Qsort, get_cb_index, index_callback, callbacks_for}
use bcirc.PluginHandler.Index.Content.{
  index_callback_hit, index_callback_miss, callbacks_for-index_callback,
}
use bcirc.PluginHandler.Registry.{register_callback}

-- The arguments of one call of register_callback.
pub record Registration : Type 0 where
  pub cb_name : Bytes
  pub cb_func : ℕ
  pub priority : ℤ

abbrev pub or_old : Plugin → Option Plugin → Plugin
or_old p none = p
or_old p (some p') = p'

-- What register_callback returns is dropped.
unfoldable pub register_all :
    {W : Type 0} → Qsort → List Registration → Plugin → Handler W → ℤ × Plugin × Handler W
register_all q [] p h = (bcirc_plugin_ok, p, h)
register_all q (r ∷ rs) p h =
    let (res, p', h') =
      register_callback q (some r.cb_name) (some r.cb_func) r.priority (some p) h in
    register_all q rs (or_old p p') h'

-- The functions that a name reaches.
abbrev pub functions : Bytes → List CallbackIndex → List ℕ
functions name index = map (λ c. c.cb_func) (callbacks_for name index)

-- The functions registered for a name.
abbrev pub registered : Bytes → List Registration → List ℕ
registered name [] = []
registered name (r ∷ rs) =
    let rest = registered name rs in if str_eq r.cb_name name then r.cb_func ∷ rest else rest

get_cb_index-later :
    (name : Bytes) (e : CallbackIndex) (es : List CallbackIndex)
    → get_cb_index name (e ∷ es) ≡ none
    → (str_eq e.cb_name name ≡ false) × (get_cb_index name es ≡ none)
unfolding get_cb_index
get_cb_index-later name e es silent = elim (Bool-cases (str_eq e.cb_name name)) [
  | inl hit ↦ absurd (ground (arith, hit, silent))
  | inr miss ↦ (miss, ground (arith, miss, silent))
]

get_cb_index-behind :
    (name : Bytes) (e : CallbackIndex) (es : List CallbackIndex)
    → str_eq e.cb_name name ≡ false
    → get_cb_index name es ≡ none
    → get_cb_index name (e ∷ es) ≡ none
unfolding get_cb_index
get_cb_index-behind name e es differs rest = rw differs (rw rest refl)

module _ (q : Qsort) where
  index_callback_silent :
      (name : Bytes) (cb : Callback) (index : List CallbackIndex)
      → str_eq cb.cb_name name ≡ false
      → get_cb_index name index ≡ none
      → get_cb_index name (index_callback q cb index) ≡ none
  index_callback_silent name cb [] other silent =
      unfold index_callback get_cb_index in rw other refl
  index_callback_silent name cb (e ∷ es) other silent =
      elim (Bool-cases (str_eq e.cb_name cb.cb_name)) [
        | inl hit ↦ rw (index_callback_hit q cb e es hit) (unfold get_cb_index in silent)
        | inr miss ↦ rw (index_callback_miss q cb e es miss) (
            let (differs, rest) = get_cb_index-later name e es silent in
            get_cb_index-behind name e _ differs (index_callback_silent name cb es other rest))
      ]

  module _ {W : Type 0} where
    pub register_all_returns :
        (rs : List Registration) (p : Plugin) (h : Handler W)
        → (register_all q rs p h).0 ≡ bcirc_plugin_ok
    unfolding register_all register_callback
    register_all_returns [] p h = refl
    register_all_returns (r ∷ rs) p h = register_all_returns rs _ _

    pub register_all_world :
        (rs : List Registration) (p : Plugin) (h : Handler W)
        → (register_all q rs p h).2.world ≡ h.world
    unfolding register_all register_callback
    register_all_world [] p h = refl
    register_all_world (r ∷ rs) p h = register_all_world rs _ _

    pub register_all_silent :
        (name : Bytes) (rs : List Registration) (p : Plugin) (h : Handler W)
        → All (λ r. str_eq r.cb_name name ≡ false) rs
        → get_cb_index name h.index_list ≡ none
        → get_cb_index name (register_all q rs p h).2.index_list ≡ none
    unfolding register_all register_callback
    register_all_silent name [] p h others silent = silent
    register_all_silent name (r ∷ rs) p h others silent =
        register_all_silent name rs _ _ others.1
          (index_callback_silent name _ h.index_list others.0 silent)

    -- A name reaches in some order the functions registered for it, and what it reached before.
    pub register_all_reaches :
        (name : Bytes) (rs : List Registration) (p : Plugin) (h : Handler W)
        → Permᴰ
            (functions name (register_all q rs p h).2.index_list)
            (registered name rs ++ functions name h.index_list)
    unfolding register_all register_callback
    register_all_reaches name [] p h = Permᴰ.refl _
    register_all_reaches name (r ∷ rs) p h =
        let cb : Callback = record {
          addr = h.next_addr;
          cb_name = r.cb_name;
          cb_func = r.cb_func;
          priority = r.priority;
        } in
        let prev = callbacks_for name h.index_list in
        let first =
          Permᴰ.map (λ (c : Callback). c.cb_func)
            (callbacks_for-index_callback q cb name h.index_list) in
        let rest = registered name rs in
        let reach : Bool → Type 0 = λ b.
          Permᴰ (functions name (index_callback q cb h.index_list))
            (map (λ (c : Callback). c.cb_func) (if b then cb ∷ prev else prev)) in
        let later = register_all_reaches name rs _ _ in
        elim (Bool-cases (str_eq r.cb_name name)) [
          | inl hit ↦ rw hit (
              Permᴰ.trans later (
                Permᴰ.trans (Permᴰ.append_left rest (subst reach hit first))
                  (Permᴰ.middle r.cb_func rest (functions name h.index_list))))
          | inr other ↦
              rw other (Permᴰ.trans later (Permᴰ.append_left rest (subst reach other first)))
        ]
