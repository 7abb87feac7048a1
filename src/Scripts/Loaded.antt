-- ===== src/Scripts/Loaded.antt =====
-- The scripts after one more was loaded: a new object behind the others, registered with its
-- callbacks (plugins/src/python/pymain.c and pyapi.c).
use bcirc.Base.{
  ℕ, suc, ◌<◌, Bytes, List, [], ◌∷◌, ◌++◌, append-nil, append_assoc, none, some, Bool, true, false,
  ◌≡◌, refl, sym, subst, ap, ◌∙◌, ◌==◌, arith, All, All-append,
}
use bcirc.Scripts.{
  PyCallback, PyScript, Scripts, cbs_of, find_script, set_script, script_callbacks, as_registered,
  add_script, functions_of, functions_in, functions_for, listed_functions, AllCallable, IsValid,
}
use bcirc.Scripts.Validity.{
  find_script-append, find_script-append_self, find_script-update_script_self, AllBelow,
  AllBelow-update_script, AgreesBut, set_script-AgreesBut, add_callbacks, add_callbacks_lem,
}

-- Every object and every pointer in the list stands below the next address.
pub record IsBelow (n : ℕ) (ss : Scripts) : Type 0 where
  pub objects_below : AllBelow n ss.objects
  pub listed_below : All (λ (a : ℕ). a < n) ss.py_scripts_list

abbrev pub with_object : PyScript → Scripts → Scripts
with_object s ss = record ss { objects = ss.objects ++ s ∷ [] }

All-below_suc : (n : ℕ) (xs : List ℕ) → All (λ a. a < n) xs → All (λ a. a < suc n) xs
All-below_suc n [] h = tt
All-below_suc n (x ∷ xs) h = (omega (arith, h.0), All-below_suc n xs h.1)

AllBelow-suc : (n : ℕ) (ss : List PyScript) → AllBelow n ss → AllBelow (suc n) ss
AllBelow-suc n [] h = tt
AllBelow-suc n (s ∷ ss) h = (omega (arith, h.0), AllBelow-suc n ss h.1)

-- What is listed below an address is not affected by what is done to the object there.
functions_in-AgreesBut :
    (event : Bytes) (addr : ℕ) (ss ss' : Scripts) (addrs : List ℕ)
    → AgreesBut addr ss ss'
    → All (λ a. a < addr) addrs
    → functions_in event ss' addrs ≡ functions_in event ss addrs
functions_in-AgreesBut event addr ss ss' [] agrees below = refl
functions_in-AgreesBut event addr ss ss' (a ∷ addrs) agrees below =
    let other : (a == addr) ≡ false = ground (arith, below.0) in
    ap (λ o. listed_functions event o ++ functions_in event ss' addrs) (agrees a other)
    ∙ ap (λ fs. listed_functions event (script_callbacks a ss) ++ fs)
        (functions_in-AgreesBut event addr ss ss' addrs agrees below.1)

IsValid-AgreesBut :
    (callable : ℕ → Bool) (addr : ℕ) (ss ss' : Scripts) (addrs : List ℕ)
    → AgreesBut addr ss ss'
    → All (λ a. a < addr) addrs
    → All (λ a. AllCallable callable (script_callbacks a ss)) addrs
    → All (λ a. AllCallable callable (script_callbacks a ss')) addrs
IsValid-AgreesBut callable addr ss ss' [] agrees below valid = tt
IsValid-AgreesBut callable addr ss ss' (a ∷ addrs) agrees below valid =
    let other : (a == addr) ≡ false = ground (arith, below.0) in
    (
      subst (AllCallable callable) (sym (agrees a other)) valid.0,
      IsValid-AgreesBut callable addr ss ss' addrs agrees below.1 valid.1,
    )

functions_in-append :
    (event : Bytes) (ss : Scripts) (xs : List ℕ) (a : ℕ)
    → functions_in event ss (xs ++ a ∷ [])
      ≡ functions_in event ss xs ++ listed_functions event (script_callbacks a ss)
functions_in-append event ss [] a = append-nil (listed_functions event (script_callbacks a ss))
functions_in-append event ss (x ∷ xs) a =
    ap (λ fs. listed_functions event (script_callbacks x ss) ++ fs)
      (functions_in-append event ss xs a)
    ∙ sym (append_assoc (listed_functions event (script_callbacks x ss)) _ _)

module _ (s : PyScript) (object : ℕ) (name version author : Bytes) (cbs : List PyCallback)
    (ss : Scripts) where
  -- The object, the writes of load_script and init_script to it, and what the script's calls do.
  abbrev pub prepared : Scripts
  prepared =
      set_script s.addr (λ t. record t { cbs = none })
        (set_script s.addr (λ t. record t { handle = object }) (with_object s ss))

  abbrev pub loaded_script : Scripts
  loaded_script = add_callbacks s.addr cbs (add_script s.addr name version author prepared)

  module _ (below : IsBelow s.addr ss) where
    pub prepared_found :
        find_script s.addr prepared.objects ≡ some (record s { handle = object; cbs = none })
    prepared_found =
        find_script-update_script_self s.addr (λ t. record t { cbs = none }) _
          (record s { handle = object }) (λ t. refl)
          (find_script-update_script_self s.addr (λ t. record t { handle = object }) _ s (λ t. refl)
            (find_script-append_self ss.objects s below.objects_below))

    prepared-AgreesBut : AgreesBut s.addr ss prepared
    unfolding script_callbacks
    prepared-AgreesBut a other =
        set_script-AgreesBut s.addr (λ t. record t { cbs = none })
          (set_script s.addr (λ t. record t { handle = object }) (with_object s ss)) (λ t. refl) a
          other
        ∙ (set_script-AgreesBut s.addr (λ t. record t { handle = object }) (with_object s ss)
              (λ t. refl) a other
            ∙ ap cbs_of (find_script-append a ss.objects s other))

    prepared-AllBelow : AllBelow (suc s.addr) prepared.objects
    prepared-AllBelow =
        AllBelow-update_script (suc s.addr) s.addr (λ t. record t { cbs = none }) _ (λ t. refl)
          (AllBelow-update_script (suc s.addr) s.addr (λ t. record t { handle = object }) _
            (λ t. refl)
            (All-append (λ (t : PyScript). t.addr < suc s.addr) ss.objects (s ∷ [])
              (AllBelow-suc s.addr ss.objects below.objects_below) (omega arith, tt)))

    loaded_script_lem :
        (script_callbacks s.addr loaded_script ≡ some cbs)
        × AgreesBut s.addr ss loaded_script
        × (loaded_script.py_scripts_list ≡ ss.py_scripts_list ++ s.addr ∷ [])
        × AllBelow (suc s.addr) loaded_script.objects
    unfolding add_script script_callbacks
    loaded_script_lem =
        let (here, others, list, under) =
          add_callbacks_lem s.addr (suc s.addr) cbs []
            (add_script s.addr name version author prepared)
            (as_registered name version author (record s { handle = object; cbs = none }))
            (find_script-update_script_self s.addr (as_registered name version author)
              prepared.objects (record s { handle = object; cbs = none }) (λ t. refl)
              prepared_found)
            refl
            (AllBelow-update_script (suc s.addr) s.addr (as_registered name version author)
              prepared.objects (λ t. refl) prepared-AllBelow) in
        (
          here,
          (λ a other.
              others a other
              ∙ (set_script-AgreesBut s.addr (as_registered name version author) prepared
                    (λ t. refl) a other
                  ∙ prepared-AgreesBut a other)),
          list,
          under,
        )

    -- The functions for each event stand behind those of the other scripts, and the scripts stay
    -- valid.
    pub functions_for-loaded_script :
        (event : Bytes)
        → functions_for event loaded_script ≡ functions_for event ss ++ functions_of event cbs
    functions_for-loaded_script event =
        let (here, others, list, under) = loaded_script_lem in
        ap (functions_in event loaded_script) list
        ∙ (functions_in-append event loaded_script ss.py_scripts_list s.addr
            ∙ (ap (λ fs. fs ++ listed_functions event (script_callbacks s.addr loaded_script))
                  (functions_in-AgreesBut event s.addr ss loaded_script ss.py_scripts_list others
                    below.listed_below)
                ∙ ap (λ o. functions_for event ss ++ listed_functions event o) here))

    pub loaded_script-IsBelow : IsBelow (suc s.addr) loaded_script
    loaded_script-IsBelow =
        let (here, others, list, under) = loaded_script_lem in
        record {
          objects_below = under;
          listed_below = subst (All (λ a. a < suc s.addr)) (sym list) (
              All-append (λ a. a < suc s.addr) ss.py_scripts_list (s.addr ∷ [])
                (All-below_suc s.addr ss.py_scripts_list below.listed_below) (omega arith, tt));
        }

    pub loaded_script-IsValid :
        (callable : ℕ → Bool)
        → All (λ (c : PyCallback). callable c.cb_func ≡ true) cbs
        → IsValid callable ss
        → IsValid callable loaded_script
    loaded_script-IsValid callable can valid =
        let (here, others, list, under) = loaded_script_lem in
        subst (All (λ a. AllCallable callable (script_callbacks a loaded_script))) (sym list) (
          All-append (λ a. AllCallable callable (script_callbacks a loaded_script))
            ss.py_scripts_list (s.addr ∷ [])
            (IsValid-AgreesBut callable s.addr ss loaded_script ss.py_scripts_list others
              below.listed_below valid)
            (subst (AllCallable callable) (sym here) can, tt))
