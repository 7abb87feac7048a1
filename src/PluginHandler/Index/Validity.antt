-- ===== src/PluginHandler/Index/Validity.antt =====
-- The invariant of the index of src/plugin_handler.c, which execute_callbacks relies on, and that
-- init_index, index_callback and remove_index establish and keep it.
use mathlib.Core.List.{Permᴰ}
use mathlib.Core.List.Permᴰ
use bcirc.Base.{
  ℕ, List, [], ◌∷◌, ◌++◌, ◌≡◌, refl, sym, inl, inr, true, false, str_eq, str_eq→eq, Bool-cases,
  keep, All, All-keep, All-append,
}
use bcirc.PluginHandler.{Callback, CallbackIndex}
use bcirc.PluginHandler.Index.{
  Qsort, init_index, get_cb_index, single, add_sorted, index_callback, remove_index, other_addr,
}
use bcirc.PluginHandler.Index.Content.{index_callback_hit, index_callback_miss}

-- The entries have different names.
abbrev pub IsDistinct : List CallbackIndex → Type 0
IsDistinct [] = Unit
IsDistinct (e ∷ es) = All (λ f. str_eq e.cb_name f.cb_name ≡ false) es × IsDistinct es

-- An entry holds callbacks of its own name.
pub record IsEntry (e : CallbackIndex) : Type 0 where
  pub named : All (λ c. c.cb_name ≡ e.cb_name) e.callbacks

pub record IsValid (index : List CallbackIndex) : Type 0 where
  pub distinct : IsDistinct index
  pub entries : All IsEntry index

pub All-perm {ℓ κ} :
    {A : Type ℓ} (P : A → Type κ) {xs ys : List A} → Permᴰ xs ys → All P xs → All P ys
All-perm P Permᴰ.nil h = tt
All-perm P (Permᴰ.cons {b = b} e p) h = (rw (sym e) h.0, All-perm P p h.1)
All-perm P (Permᴰ.swap e f) h = (rw (sym f) h.1.0, (rw (sym e) h.0, h.1.1))
All-perm P (Permᴰ.trans p r) h = All-perm P r (All-perm P p h)

module _ (q : Qsort) (cb : Callback) where
  -- What holds of every entry holds of every entry afterwards.
  All-index_callback :
      (P : CallbackIndex → Type 0)
      → P (single cb)
      → ((e : CallbackIndex) → str_eq e.cb_name cb.cb_name ≡ true → P e → P (add_sorted q cb e))
      → (index : List CallbackIndex) → All P index
      → All P (index_callback q cb index)
  All-index_callback P new changed [] h = unfold index_callback get_cb_index in (new, tt)
  All-index_callback P new changed (e ∷ es) h = elim (Bool-cases (str_eq e.cb_name cb.cb_name)) [
    | inl hit ↦ rw (index_callback_hit q cb e es hit) (changed e hit h.0, h.1)
    | inr miss ↦
        rw (index_callback_miss q cb e es miss) (h.0, All-index_callback P new changed es h.1)
  ]

  single-IsEntry : IsEntry (single cb)
  single-IsEntry = record { named = (refl, tt) }

  add_sorted-IsEntry :
      (e : CallbackIndex)
      → str_eq e.cb_name cb.cb_name ≡ true
      → IsEntry e
      → IsEntry (add_sorted q cb e)
  add_sorted-IsEntry e hit h = record {
    named =
        All-perm _ (Permᴰ.symm (q.sort-perm (e.callbacks ++ cb ∷ []))) (
          All-append _ e.callbacks (cb ∷ []) h.named
            (sym (str_eq→eq e.cb_name cb.cb_name hit), tt));
  }

  index_callback-IsDistinct :
      (index : List CallbackIndex) → IsDistinct index → IsDistinct (index_callback q cb index)
  index_callback-IsDistinct [] h = unfold index_callback get_cb_index in (tt, tt)
  index_callback-IsDistinct (e ∷ es) h = elim (Bool-cases (str_eq e.cb_name cb.cb_name)) [
    | inl hit ↦ rw (index_callback_hit q cb e es hit) h
    | inr miss ↦ rw (index_callback_miss q cb e es miss) (
      All-index_callback (λ f. str_eq e.cb_name f.cb_name ≡ false) miss (λ f hit old. old) es h.0,
      index_callback-IsDistinct es h.1,
    )
  ]

-- Indexing a callback keeps the entries distinct, each with callbacks of its name only.
pub index_callback-IsValid :
    (q : Qsort) (cb : Callback) (index : List CallbackIndex)
    → IsValid index
    → IsValid (index_callback q cb index)
index_callback-IsValid q cb index h = record {
  distinct = index_callback-IsDistinct q cb index h.distinct;
  entries =
      All-index_callback q cb IsEntry (single-IsEntry q cb) (add_sorted-IsEntry q cb) index
        h.entries;
}

All-remove_index :
    (P : CallbackIndex → Type 0) (addr : ℕ)
    → ((e : CallbackIndex) → P e → P (record e { callbacks = keep (other_addr addr) e.callbacks }))
    → (index : List CallbackIndex) → All P index
    → All P (remove_index addr index)
unfolding remove_index
All-remove_index P addr f [] h = tt
All-remove_index P addr f (e ∷ es) h = (f e h.0, All-remove_index P addr f es h.1)

remove_index-IsDistinct :
    (addr : ℕ) (index : List CallbackIndex)
    → IsDistinct index
    → IsDistinct (remove_index addr index)
unfolding remove_index
remove_index-IsDistinct addr [] h = tt
remove_index-IsDistinct addr (e ∷ es) h = (
  All-remove_index (λ f. str_eq e.cb_name f.cb_name ≡ false) addr (λ f old. old) es h.0,
  remove_index-IsDistinct addr es h.1,
)

-- Removing a callback keeps the invariant.
pub remove_index-IsValid :
    (addr : ℕ) (index : List CallbackIndex) → IsValid index → IsValid (remove_index addr index)
remove_index-IsValid addr index h = record {
  distinct = remove_index-IsDistinct addr index h.distinct;
  entries =
      All-remove_index IsEntry addr (λ e old. record { named = All-keep _ _ e.callbacks old.named })
        index h.entries;
}

-- The index starts empty, and valid.
pub init_index-IsValid : IsValid init_index
unfolding init_index
init_index-IsValid = record { distinct = tt; entries = tt }
