-- ===== src/Scripts/Validity.antt =====
-- Writes to the scripts of plugins/src/python/pyapi.h, and what reads through other pointers see.
use bcirc.Base.{
  ℕ, ◌<◌, List, [], ◌∷◌, ◌++◌, append-nil, append_assoc, Option, none, some, true, false, ◌≡◌, refl,
  sym, ap, ◌∙◌, inl, inr, ◌==◌, arith, All, Bool-cases,
}
use bcirc.Scripts.{
  PyCallback, PyScript, Scripts, cbs_of, find_script, update_script, set_script, script_callbacks,
  with_callback, add_callback,
}

find_script-update_script :
    (a addr : ℕ) (f : PyScript → PyScript) (ss : List PyScript)
    → ((s : PyScript) → (f s).addr ≡ s.addr)
    → (a == addr) ≡ false
    → find_script a (update_script addr f ss) ≡ find_script a ss
unfolding find_script update_script
find_script-update_script a addr f [] keeps other = refl
find_script-update_script a addr f (s ∷ ss) keeps other =
    ground (arith, keeps s, find_script-update_script a addr f ss keeps other)

pub find_script-update_script_self :
    (addr : ℕ) (f : PyScript → PyScript) (ss : List PyScript) (s : PyScript)
    → ((t : PyScript) → (f t).addr ≡ t.addr)
    → find_script addr ss ≡ some s
    → find_script addr (update_script addr f ss) ≡ some (f s)
unfolding find_script update_script
find_script-update_script_self addr f [] s keeps found = cc
find_script-update_script_self addr f (t ∷ ss) s keeps found = elim (Bool-cases (t.addr == addr)) [
  | inl hit ↦
      let e : some t ≡ some s = rw hit at found in
      let here : ((f t).addr == addr) ≡ true = rw (keeps t) hit in
      rw hit
        (rw here (ap (λ (o : Option PyScript). elim o [ none ↦ none | some u ↦ some (f u) ]) e))
  | inr miss ↦
      rw miss (rw miss (find_script-update_script_self addr f ss s keeps (rw miss at found)))
]

pub find_script-append :
    (a : ℕ) (ss : List PyScript) (s : PyScript)
    → (a == s.addr) ≡ false
    → find_script a (ss ++ s ∷ []) ≡ find_script a ss
unfolding find_script
find_script-append a [] s other = ground (arith, other)
find_script-append a (t ∷ ss) s other = ground (arith, find_script-append a ss s other)

-- Every object stands below an address.
abbrev pub AllBelow : ℕ → List PyScript → Type 0
AllBelow n ss = All (λ (s : PyScript). s.addr < n) ss

pub find_script-append_self :
    (ss : List PyScript) (s : PyScript)
    → AllBelow s.addr ss
    → find_script s.addr (ss ++ s ∷ []) ≡ some s
unfolding find_script
find_script-append_self [] s below = ground arith
find_script-append_self (t ∷ ss) s below =
    let other : (t.addr == s.addr) ≡ false = ground (arith, below.0) in
    rw other (find_script-append_self ss s below.1)

pub AllBelow-update_script :
    (n addr : ℕ) (f : PyScript → PyScript) (ss : List PyScript)
    → ((s : PyScript) → (f s).addr ≡ s.addr)
    → AllBelow n ss
    → AllBelow n (update_script addr f ss)
unfolding update_script
AllBelow-update_script n addr f [] keeps below = tt
AllBelow-update_script n addr f (s ∷ ss) keeps below =
    (ground (arith, keeps s, below.0), AllBelow-update_script n addr f ss keeps below.1)

-- Through every other pointer the same callbacks are seen.
abbrev pub AgreesBut : ℕ → Scripts → Scripts → Type 0
AgreesBut addr ss ss' =
    (a : ℕ) → (a == addr) ≡ false → script_callbacks a ss' ≡ script_callbacks a ss

pub set_script-AgreesBut :
    (addr : ℕ) (f : PyScript → PyScript) (ss : Scripts)
    → ((s : PyScript) → (f s).addr ≡ s.addr)
    → AgreesBut addr ss (set_script addr f ss)
unfolding script_callbacks
set_script-AgreesBut addr f ss keeps a other =
    ap cbs_of (find_script-update_script a addr f ss.objects keeps other)

-- Callbacks added one by one stand behind the others.
unfoldable pub add_callbacks : ℕ → List PyCallback → Scripts → Scripts
add_callbacks addr [] ss = ss
add_callbacks addr (c ∷ cs) ss = add_callbacks addr cs (add_callback addr c ss)

pub add_callbacks_lem :
    (addr n : ℕ) (cs old : List PyCallback) (ss : Scripts) (s : PyScript)
    → find_script addr ss.objects ≡ some s
    → s.cbs ≡ some old
    → AllBelow n ss.objects
    → (script_callbacks addr (add_callbacks addr cs ss) ≡ some (old ++ cs))
      × AgreesBut addr ss (add_callbacks addr cs ss)
      × ((add_callbacks addr cs ss).py_scripts_list ≡ ss.py_scripts_list)
      × AllBelow n (add_callbacks addr cs ss).objects
unfolding add_callbacks add_callback script_callbacks
add_callbacks_lem addr n [] old ss s found has below =
    (ap cbs_of found ∙ has ∙ ap some (sym (append-nil old)), (λ a other. refl), refl, below)
add_callbacks_lem addr n (c ∷ cs) old ss s found has below =
    let (here, others, list, under) =
      add_callbacks_lem addr n cs (old ++ c ∷ []) (add_callback addr c ss) (with_callback c s)
        (find_script-update_script_self addr (with_callback c) ss.objects s (λ t. refl) found)
        (rw has refl)
        (AllBelow-update_script n addr (with_callback c) ss.objects (λ t. refl) below) in
    (
      here ∙ ap some (append_assoc old (c ∷ []) cs),
      (λ a other.
          others a other ∙ set_script-AgreesBut addr (with_callback c) ss (λ t. refl) a other),
      list,
      under,
    )
