-- ===== src/PluginHandler/Registry/Removal.antt =====
-- remove_plugin of src/plugin_handler.c: what is gone afterwards, and what stays.
use bcirc.Base.{
  ℕ, Bytes, List, [], ◌∷◌, ◌++◌, ◌≡◌, refl, sym, ap, ◌∙◌, fun_ext, inl, inr, Bool, true, arith,
  ◌==◌, not, ◌&&◌, Bool-cases, keep, if◌then◌else◌,
}
use bcirc.PluginHandler.{Callback, CallbackIndex, Plugin, Handler}
use bcirc.PluginHandler.Index.{callbacks_for, remove_index, other_addr}
use bcirc.PluginHandler.Index.Content.{callbacks_for-remove_index}
use bcirc.PluginHandler.Registry.{remove_callbacks, remove_loop, remove_plugin}

-- The callbacks that the plugin at an address has registered.
pub owned : ℕ → List Plugin → List Callback
owned addr [] = []
owned addr (p ∷ ps) = if p.addr == addr then p.callback_list ++ owned addr ps else owned addr ps

-- Is a callback none of these?
pub none_of : List Callback → Callback → Bool
none_of [] d = true
none_of (c ∷ cs) d = other_addr c.addr d && none_of cs d

abbrev pub other_plugin : ℕ → Plugin → Bool
other_plugin addr p = not (p.addr == addr)

keep-keep :
    (cs : List Callback) (p q : Callback → Bool) → keep q (keep p cs) ≡ keep (λ c. p c && q c) cs
keep-keep [] p q = refl
keep-keep (c ∷ cs) p q = elim (Bool-cases (p c)) [
  | inl y ↦
      rw (y, keep)
        (elim (Bool-cases (q c)) [
          | inl z ↦ rw (z, keep) (ap (λ (l : List Callback). c ∷ l) (keep-keep cs p q))
          | inr n ↦ rw (n, keep) (keep-keep cs p q)
        ])
  | inr n ↦ rw (n, keep) (keep-keep cs p q)
]

keep_all : (cs : List Callback) → keep (λ c. true) cs ≡ cs
keep_all [] = refl
keep_all (c ∷ cs) = ap (λ (l : List Callback). c ∷ l) (keep_all cs)

none_of-append :
    (cs ds : List Callback) (d : Callback) → none_of (cs ++ ds) d ≡ (none_of cs d && none_of ds d)
unfolding none_of
none_of-append [] ds d = refl
none_of-append (c ∷ cs) ds d = ground (arith, none_of-append cs ds d)

pub callbacks_for-remove_callbacks :
    (name : Bytes) (cs : List Callback) (index : List CallbackIndex)
    → callbacks_for name (remove_callbacks cs index) ≡ keep (none_of cs) (callbacks_for name index)
unfolding remove_callbacks none_of
callbacks_for-remove_callbacks name [] index = sym (keep_all _)
callbacks_for-remove_callbacks name (c ∷ cs) index =
    callbacks_for-remove_callbacks name cs (remove_index c.addr index)
    ∙ (ap (keep (none_of cs)) (callbacks_for-remove_index name c.addr index)
        ∙ keep-keep (callbacks_for name index) (other_addr c.addr) (none_of cs))

remove_loop-plugins :
    (addr : ℕ) (ps : List Plugin) (index : List CallbackIndex)
    → (remove_loop addr ps index).0 ≡ keep (other_plugin addr) ps
unfolding remove_loop
remove_loop-plugins addr [] index = refl
remove_loop-plugins addr (p ∷ ps) index = elim (Bool-cases (p.addr == addr)) [
  | inl hit ↦ rw (hit, remove_loop, keep) (remove_loop-plugins addr ps _)
  | inr miss ↦
      rw (miss, remove_loop, keep)
        (ap (λ (l : List Plugin). p ∷ l) (remove_loop-plugins addr ps index))
]

remove_loop-index :
    (addr : ℕ) (name : Bytes) (ps : List Plugin) (index : List CallbackIndex)
    → callbacks_for name (remove_loop addr ps index).1
      ≡ keep (none_of (owned addr ps)) (callbacks_for name index)
unfolding remove_loop owned
remove_loop-index addr name [] index = unfold none_of in sym (keep_all _)
remove_loop-index addr name (p ∷ ps) index = elim (Bool-cases (p.addr == addr)) [
  | inl hit ↦
      rw (hit, remove_loop)
        (remove_loop-index addr name ps (remove_callbacks p.callback_list index)
          ∙ (ap (keep (none_of (owned addr ps)))
                (callbacks_for-remove_callbacks name p.callback_list index)
              ∙ (keep-keep (callbacks_for name index) (none_of p.callback_list)
                    (none_of (owned addr ps))
                  ∙ ap (λ (f : Callback → Bool). keep f (callbacks_for name index))
                      (fun_ext (λ d. sym (none_of-append p.callback_list (owned addr ps) d))))))
  | inr miss ↦ rw (miss, remove_loop) (remove_loop-index addr name ps index)
]

-- After `remove_plugin` the list holds the plugins at other addresses, in order; each event name
-- reaches the callbacks that the removed plugin had not registered, all of them and in order.
pub remove_plugin_lem :
    {W : Type 0} (addr : ℕ) (name : Bytes) (h : Handler W)
    → ((remove_plugin addr h).1.plugin_list ≡ keep (other_plugin addr) h.plugin_list)
      × (callbacks_for name (remove_plugin addr h).1.index_list
          ≡ keep (none_of (owned addr h.plugin_list)) (callbacks_for name h.index_list))
unfolding remove_plugin
remove_plugin_lem addr name h = (
  remove_loop-plugins addr h.plugin_list h.index_list,
  remove_loop-index addr name h.plugin_list h.index_list,
)
