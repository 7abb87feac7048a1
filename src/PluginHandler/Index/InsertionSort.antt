-- ===== src/PluginHandler/Index/InsertionSort.antt =====
-- A sort that is what is assumed of `qsort`: insertion by priority.
use mathlib.Core.List.{Permᴰ}
use mathlib.Core.List.Permᴰ
use bcirc.Base.{List, [], ◌∷◌, refl, inl, inr, true, false, ℤ, pos, ◌==ℤ◌, Bool-cases}
use bcirc.PluginHandler.{Callback}
use bcirc.PluginHandler.Index.{Qsort, compare_index}

-- Behind everything that does not compare greater.
pub insert : (Callback → Callback → ℤ) → Callback → List Callback → List Callback
insert compar c [] = c ∷ []
insert compar c (d ∷ ds) = elim (compar d c ==ℤ pos 1) [
  | true ↦ c ∷ d ∷ ds
  | false ↦ d ∷ insert compar c ds
]

pub insertion_sort : (Callback → Callback → ℤ) → List Callback → List Callback
insertion_sort compar [] = []
insertion_sort compar (c ∷ cs) = insert compar c (insertion_sort compar cs)

insert-perm : (c : Callback) (ds : List Callback) → Permᴰ (insert compare_index c ds) (c ∷ ds)
unfolding insert
insert-perm c [] = Permᴰ.refl _
insert-perm c (d ∷ ds) = elim (Bool-cases (compare_index d c ==ℤ pos 1)) [
  | inl greater ↦ rw (greater, insert) (Permᴰ.refl _)
  | inr less ↦
      rw (less, insert) (Permᴰ.trans (Permᴰ.cons refl (insert-perm c ds)) (Permᴰ.swap refl refl))
]

pub insertion_sort-perm : (cs : List Callback) → Permᴰ (insertion_sort compare_index cs) cs
unfolding insertion_sort
insertion_sort-perm [] = Permᴰ.nil
insertion_sort-perm (c ∷ cs) =
    Permᴰ.trans (insert-perm c (insertion_sort compare_index cs))
      (Permᴰ.cons refl (insertion_sort-perm cs))

unfoldable pub insertion_qsort : Qsort
unfolding insertion_sort insert
insertion_qsort = record { sort = insertion_sort; sort-perm = insertion_sort-perm }
