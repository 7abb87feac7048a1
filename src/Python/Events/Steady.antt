-- ===== src/Python/Events/Steady.antt =====
-- Calls of plugins/src/python/pymain.c that return and leave the scripts and the index alone.
use bcirc.Base.{ℕ, List, [], ◌∷◌, ◌++◌, ◌≡◌, refl, ◌∙◌}
use bcirc.PluginHandler.{Arg, Params}
use bcirc.PluginHandler.Execute.{Run}
use bcirc.Server.{Bot, Bots}
use bcirc.Python.{PyObject, PyRun, returned, faulty, unfinished, Python, then_py, event_args}

module _ (call : ℕ → Params → Bots → Run Bot) (py : Python) where
  -- A call that returned and left the scripts and the index of this state alone.
  abbrev pub IsSteady : Bots → PyRun → Type 0
  IsSteady h (returned res h') =
      (h'.world.scripts ≡ h.world.scripts) × (h'.index_list ≡ h.index_list)
  IsSteady h faulty = ⊥
  IsSteady h unfinished = ⊥

  abbrev pub after_py : Bots → PyRun → Bots
  after_py h (returned res h') = h'
  after_py h faulty = h
  after_py h unfinished = h

  -- The functions called in order, each with the list of pointers and the number's address.
  abbrev pub run_functions : List Arg → List ℕ → Bots → Bots
  run_functions args [] h = h
  run_functions args (f ∷ fs) h =
      run_functions args fs (after_py h (py.call_object call f (event_args call py args) h))

  abbrev pub AreSteady : List Arg → List ℕ → Bots → Type 0
  AreSteady args [] h = Unit
  AreSteady args (f ∷ fs) h =
      IsSteady h (py.call_object call f (event_args call py args) h)
      × AreSteady args fs (after_py h (py.call_object call f (event_args call py args) h))

  pub then_steady :
      (h : Bots) (r : PyRun) (k : PyObject → Bots → Run Bot) (end : Run Bot)
      → IsSteady h r
      → ((res : PyObject) → k res (after_py h r) ≡ end)
      → then_py r k ≡ end
  then_steady h (returned res h') k end s same = same res
  then_steady h faulty k end s same = absurd s
  then_steady h unfinished k end s same = absurd s

  pub after_steady :
      (h : Bots) (r : PyRun)
      → IsSteady h r
      → ((after_py h r).world.scripts ≡ h.world.scripts)
        × ((after_py h r).index_list ≡ h.index_list)
  after_steady h (returned res h') s = s
  after_steady h faulty s = absurd s
  after_steady h unfinished s = absurd s

  pub run_functions_same :
      (args : List Arg) (fs : List ℕ) (h : Bots)
      → AreSteady args fs h
      → ((run_functions args fs h).world.scripts ≡ h.world.scripts)
        × ((run_functions args fs h).index_list ≡ h.index_list)
  run_functions_same args [] h s = (refl, refl)
  run_functions_same args (f ∷ fs) h s =
      let (scripts, index) =
        after_steady h (py.call_object call f (event_args call py args) h) s.0 in
      let (scripts', index') = run_functions_same args fs _ s.1 in
      (scripts' ∙ scripts, index' ∙ index)

  pub AreSteady-append :
      (args : List Arg) (fs gs : List ℕ) (h : Bots)
      → AreSteady args (fs ++ gs) h
      → AreSteady args fs h
        × AreSteady args gs (run_functions args fs h)
        × (run_functions args (fs ++ gs) h ≡ run_functions args gs (run_functions args fs h))
  AreSteady-append args [] gs h s = (tt, s, refl)
  AreSteady-append args (f ∷ fs) gs h s =
      let (here, there, same) =
        AreSteady-append args fs gs (after_py h (py.call_object call f (event_args call py args) h))
          s.1 in
      ((s.0, here), there, same)
