-- ===== src/PluginHandler/Index/Content.antt =====
-- What index_callback and remove_index of src/plugin_handler.c do to the callbacks of each event
-- name: the index is a map from names to collections of callbacks.
use mathlib.Core.List.{Permᴰ}
use mathlib.Core.List.Permᴰ
use bcirc.Base.{
  get_elem?, ℕ, some, ℕ, Bytes, List, [], ◌∷◌, ◌++◌, none, ◌≡◌, refl, inl, inr, true, false, arith,
  str_eq, str_eq→eq, str_eq_refl, if◌then◌else◌, Bool-cases, Option-cases, keep,
}
use bcirc.PluginHandler.{Callback, CallbackIndex}
use bcirc.PluginHandler.Index.{
  Qsort, get_cb_index, callbacks_for, add_sorted, index_callback, remove_index, other_addr,
}

-- Dropping an address drops it under every name, and nothing else.
pub callbacks_for-remove_index :
    (name : Bytes) (addr : ℕ) (index : List CallbackIndex)
    → callbacks_for name (remove_index addr index)
      ≡ keep (other_addr addr) (callbacks_for name index)
unfolding callbacks_for remove_index
callbacks_for-remove_index name addr [] = refl
callbacks_for-remove_index name addr (e ∷ es) = elim (Bool-cases (str_eq e.cb_name name)) [
  | inl hit ↦ rw hit
  | inr miss ↦ rw miss (callbacks_for-remove_index name addr es)
]

-- A name that `get_cb_index` does not find has no callbacks.
pub callbacks_for-none :
    (name : Bytes) (index : List CallbackIndex)
    → get_cb_index name index ≡ none
    → callbacks_for name index ≡ []
unfolding callbacks_for get_cb_index
callbacks_for-none name [] h = refl
callbacks_for-none name (e ∷ es) h = elim (Bool-cases (str_eq e.cb_name name)) [
  | inl hit ↦ absurd (ground (arith, hit))
  | inr miss ↦ rw miss (callbacks_for-none name es (ground (arith, miss)))
]

-- The entry that `get_cb_index` finds is the one that holds the callbacks of the name.
pub callbacks_for-some :
    (name : Bytes) (index : List CallbackIndex) (point : ℕ)
    → get_cb_index name index ≡ some point
    → (e : CallbackIndex) × (get_elem? index point ≡ some e)
      × (e.callbacks ≡ callbacks_for name index)
unfolding callbacks_for get_cb_index
callbacks_for-some name [] point h = cc
callbacks_for-some name (e ∷ es) point h = elim (Bool-cases (str_eq e.cb_name name)) [
  | inl hit ↦ (e, ground arith, rw hit)
  | inr miss ↦ elim (Option-cases (get_cb_index name es)) [
    | inl absent ↦ absurd (ground (arith, absent, miss))
    | inr (m, found) ↦
        let (f, at, same) = callbacks_for-some name es m found in
        (f, ground (arith, at, found, miss), rw miss same)
  ]
]

module _ (q : Qsort) (cb : Callback) (e : CallbackIndex) (es : List CallbackIndex) where
  -- Where the first entry has the callback's name, that entry takes the callback.
  pub index_callback_hit :
      str_eq e.cb_name cb.cb_name ≡ true → index_callback q cb (e ∷ es) ≡ add_sorted q cb e ∷ es
  unfolding index_callback get_cb_index
  index_callback_hit hit = rw (index_callback, get_cb_index, hit)

  -- Else the first entry stays, and the search goes on behind it.
  pub index_callback_miss :
      str_eq e.cb_name cb.cb_name ≡ false
      → index_callback q cb (e ∷ es) ≡ e ∷ index_callback q cb es
  unfolding index_callback get_cb_index
  index_callback_miss miss = elim (Option-cases (get_cb_index cb.cb_name es)) [
    | inl absent ↦ rw (index_callback, get_cb_index, miss, absent)
    | inr (point, found) ↦ rw (index_callback, get_cb_index, miss, found)
  ]

-- What a name reaches once a callback is added: the callback and what it reached before if the name
-- is the callback's, and else what it reached before.
abbrev pub with_added : Bytes → Callback → List CallbackIndex → List Callback
with_added name cb index =
    if str_eq cb.cb_name name then cb ∷ callbacks_for name index else callbacks_for name index

module _ (q : Qsort) (cb : Callback) where
  open q use {sort-perm}

  -- The two cases of the first entry, for the name of the callback and for another name.
  added_hit_own :
      (name : Bytes) (e : CallbackIndex) (es : List CallbackIndex)
      → str_eq e.cb_name name ≡ true
      → Permᴰ (callbacks_for name (add_sorted q cb e ∷ es)) (cb ∷ callbacks_for name (e ∷ es))
  unfolding callbacks_for
  added_hit_own name e es hit =
      rw hit (Permᴰ.trans (sort-perm _) (Permᴰ.append_comm e.callbacks (cb ∷ [])))

  added_hit_other :
      (name : Bytes) (e : CallbackIndex) (es : List CallbackIndex)
      → str_eq e.cb_name name ≡ false
      → Permᴰ (callbacks_for name (add_sorted q cb e ∷ es)) (callbacks_for name (e ∷ es))
  unfolding callbacks_for
  added_hit_other name e es miss = rw miss (Permᴰ.refl _)

  -- An entry before the place of the change.
  behind :
      (name : Bytes) (e : CallbackIndex) (es es' : List CallbackIndex) (more : List Callback)
      → (str_eq e.cb_name name ≡ true → more ≡ [])
      → Permᴰ (callbacks_for name es') (more ++ callbacks_for name es)
      → Permᴰ (callbacks_for name (e ∷ es')) (more ++ callbacks_for name (e ∷ es))
  unfolding callbacks_for
  behind name e es es' more same h = elim (Bool-cases (str_eq e.cb_name name)) [
    | inl hit ↦ rw (hit, same hit) (Permᴰ.refl _)
    | inr miss ↦ rw miss h
  ]

  -- The callback's own name reaches the callback and what it reached before, in some order.
  pub added_own :
      (index : List CallbackIndex)
      → Permᴰ
          (callbacks_for cb.cb_name (index_callback q cb index))
          (cb ∷ callbacks_for cb.cb_name index)
  added_own [] =
      unfold index_callback get_cb_index callbacks_for in rw (str_eq_refl cb.cb_name) (Permᴰ.refl _)
  added_own (e ∷ es) = elim (Bool-cases (str_eq e.cb_name cb.cb_name)) [
    | inl hit ↦ rw (index_callback_hit q cb e es hit) (added_hit_own cb.cb_name e es hit)
    | inr miss ↦
        rw (index_callback_miss q cb e es miss)
          (behind cb.cb_name e es _ (cb ∷ []) (λ hit. cc) (added_own es))
  ]

  -- Every other name reaches what it reached before.
  pub added_other :
      (name : Bytes) (index : List CallbackIndex)
      → str_eq cb.cb_name name ≡ false
      → Permᴰ (callbacks_for name (index_callback q cb index)) (callbacks_for name index)
  added_other name [] other =
      unfold index_callback get_cb_index callbacks_for in rw other (Permᴰ.refl _)
  added_other name (e ∷ es) other = elim (Bool-cases (str_eq e.cb_name cb.cb_name)) [
    | inl hit ↦
        rw (index_callback_hit q cb e es hit)
          (added_hit_other name e es (rw (str_eq→eq e.cb_name cb.cb_name hit) other))
    | inr miss ↦
        rw (index_callback_miss q cb e es miss)
          (behind name e es _ [] (λ hit. refl) (added_other name es other))
  ]

-- After `index_callback` the callback's own name reaches the callback and, in some order, all that
-- the name reached before; every other name reaches what it reached before.
pub callbacks_for-index_callback :
    (q : Qsort) (cb : Callback) (name : Bytes) (index : List CallbackIndex)
    → Permᴰ (callbacks_for name (index_callback q cb index)) (with_added name cb index)
callbacks_for-index_callback q cb name index = elim (Bool-cases (str_eq cb.cb_name name)) [
  | inl own ↦ rw (own, ← str_eq→eq cb.cb_name name own) (added_own q cb index)
  | inr other ↦ rw other (added_other q cb name index other)
]
