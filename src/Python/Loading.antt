-- ===== src/Python/Loading.antt =====
-- load_script_dir of plugins/src/python/pymain.c, over scripts that register themselves.
use bcirc.Base.{
  ℕ, suc, ◌-◌, ◌≤◌, Bytes, codes, List, [], ◌∷◌, ◌++◌, map, append-nil, append_assoc, none, some,
  ◌≡◌, refl, sym, ap, ◌∙◌, pos, true, false, arith, All, leb, str_eq, length, take,
}
use bcirc.PluginHandler.{Params}
use bcirc.PluginHandler.Execute.{Run, done}
use bcirc.PluginHandler.Load.{DirEntry}
use bcirc.Scripts.{PyCallback, Scripts, set_script, functions_of, functions_for, IsValid}
use bcirc.Scripts.Loaded.{
  IsBelow, loaded_script, prepared_found, functions_for-loaded_script, loaded_script-IsBelow,
  loaded_script-IsValid,
}
use bcirc.Server.{Bot, Bots, then_run}
use bcirc.Python.{
  script, Python, set_scripts, new_script, allocate_script, init_script, call_init, imported,
  imported_result, load_script, load_scripts, load_script_dir,
}
use bcirc.Python.Api.Registering.{script_main, script_main_lem}

-- A file, and what its script registers.
pub record ScriptFile : Type 0 where
  pub entry : DirEntry
  pub object : ℕ
  pub init_func : ℕ
  pub name : Bytes
  pub version : Bytes
  pub author : Bytes
  pub cbs : List PyCallback

-- What the files register for an event.
abbrev pub file_functions : Bytes → List ScriptFile → List ℕ
file_functions event [] = []
file_functions event (f ∷ fs) = functions_of event f.cbs ++ file_functions event fs

module _ (call : ℕ → Params → Bots → Run Bot) (py : Python) (room : ℕ → ℕ) where
  -- A regular file whose name is that of a module and three bytes more, but not "__init__". The
  -- module's statements change nothing, and its `script_init` registers the script and callbacks that
  -- can be called.
  pub record IsScript (f : ScriptFile) : Type 0 where
    pub regular : f.entry.is_regular ≡ true
    pub unlike_init : str_eq f.entry.d_name (codes "__init__") ≡ false
    pub long_enough : 3 ≤ length f.entry.d_name
    pub imports :
        (h : Bots)
        → py.import_script (take (length f.entry.d_name - 3) f.entry.d_name) h ≡ (some f.object, h)
    pub inits : py.script_init f.object ≡ some f.init_func
    pub can_init : py.callable f.init_func ≡ true
    pub registers :
        (addr : ℕ) (h : Bots)
        → py.call_object call f.init_func (script addr ∷ []) h
          ≡ script_main py.callable room addr (f.name, f.version, f.author) f.cbs h
    pub can_call : All (λ (c : PyCallback). py.callable c.cb_func ≡ true) f.cbs

  abbrev pub filename : ScriptFile → Bytes
  filename f = take (length f.entry.d_name - 3) f.entry.d_name

  abbrev pub scripts_after : ScriptFile → Bots → Scripts
  scripts_after f h =
      loaded_script (new_script h.next_addr (filename f)) f.object f.name f.version f.author f.cbs
        h.world.scripts

  -- The state once a script is loaded.
  abbrev pub with_script : ScriptFile → Bots → Bots
  with_script f h = record h {
    next_addr = suc h.next_addr;
    world = record (h.world) { scripts = scripts_after f h };
  }

  load_script_lem :
      (f : ScriptFile) (h : Bots)
      → 60 ≤ room 8
      → IsScript f
      → IsBelow h.next_addr h.world.scripts
      → load_script call py room (filename f) h ≡ done (pos 1) (with_script f h)
  unfolding load_script init_script
  load_script_lem f h enough s below =
      let new = new_script h.next_addr (filename f) in
      let there : Bots = set_scripts (set_script h.next_addr (λ t. record t { cbs = none })) (
        set_scripts (set_script h.next_addr (λ t. record t { handle = f.object }))
          (allocate_script (filename f) h)) in
      let fits48 : leb 48 (room 8) ≡ true = ground arith in
      let fits56 : leb 56 (room 8) ≡ true = ground arith in
      let registered =
        s.registers h.next_addr there
        ∙ script_main_lem py.callable room h.next_addr f.name f.version f.author f.cbs
            (record new { handle = f.object; cbs = none }) there enough
            (prepared_found new f.object f.name f.version f.author f.cbs h.world.scripts below)
            s.can_call in
      rw fits48 (
        ap (imported call py room h.next_addr) (s.imports (allocate_script (filename f) h))
        ∙ ap
            (λ o. imported_result call py room (
              call_init call py room h.next_addr o (
                set_scripts (set_script h.next_addr (λ t. record t { handle = f.object }))
                  (allocate_script (filename f) h))))
            s.inits
        ∙ rw (s.can_init, fits56) (rw registered refl))

  -- The files in turn.
  abbrev pub with_scripts : List ScriptFile → Bots → Bots
  with_scripts [] h = h
  with_scripts (f ∷ fs) h = with_scripts fs (with_script f h)

  load_scripts_step :
      (f : ScriptFile) (ds : List DirEntry) (h : Bots)
      → 60 ≤ room 8
      → IsScript f
      → IsBelow h.next_addr h.world.scripts
      → load_scripts call py room (f.entry ∷ ds) h ≡ load_scripts call py room ds (with_script f h)
  unfolding load_scripts
  load_scripts_step f ds h enough s below =
      let long : leb 3 (length f.entry.d_name) ≡ true = ground (arith, s.long_enough) in
      rw (s.regular, s.unlike_init)
        (rw long (
          ap (λ r. then_run r (λ res after. load_scripts call py room ds after))
            (load_script_lem f h enough s below)))

  with_scripts_lem :
      (fs : List ScriptFile) (h : Bots)
      → 60 ≤ room 8
      → All IsScript fs
      → IsBelow h.next_addr h.world.scripts
      → IsValid py.callable h.world.scripts
      → (load_scripts call py room (map (λ f. f.entry) fs) h ≡ done (pos 1) (with_scripts fs h))
        × ((event : Bytes)
            → functions_for event (with_scripts fs h).world.scripts
              ≡ functions_for event h.world.scripts ++ file_functions event fs)
        × IsValid py.callable (with_scripts fs h).world.scripts
        × ((with_scripts fs h).index_list ≡ h.index_list)
  unfolding load_scripts
  with_scripts_lem [] h enough all below valid =
      (refl, (λ event. sym (append-nil (functions_for event h.world.scripts))), valid, refl)
  with_scripts_lem (f ∷ fs) h enough all below valid =
      let new = new_script h.next_addr (filename f) in
      let (loads, registered, still, index) =
        with_scripts_lem fs (with_script f h) enough all.1
          (loaded_script-IsBelow new f.object f.name f.version f.author f.cbs h.world.scripts below)
          (loaded_script-IsValid new f.object f.name f.version f.author f.cbs h.world.scripts below
            py.callable all.0.can_call valid) in
      (
        load_scripts_step f (map (λ f. f.entry) fs) h enough all.0 below ∙ loads,
        (λ event.
            registered event
            ∙ (ap (λ gs. gs ++ file_functions event fs)
                  (functions_for-loaded_script new f.object f.name f.version f.author f.cbs
                    h.world.scripts below event)
                ∙ append_assoc (functions_for event h.world.scripts) (functions_of event f.cbs)
                    (file_functions event fs))),
        still,
        index,
      )

  -- A directory of scripts that register themselves and callbacks that can be called: load_script_dir
  -- returns 1, and afterwards each event has behind the functions that it had those of the files, in
  -- the order of the directory and, in each, of registering, whatever their priorities; the scripts
  -- are valid, and the index of callbacks is unchanged. The scripts were valid before, no object stood
  -- at the next address or behind it, and a script's object has room for its last field.
  pub load_script_dir-functions_for :
      (fs : List ScriptFile) (h : Bots)
      → 60 ≤ room 8
      → All IsScript fs
      → IsBelow h.next_addr h.world.scripts
      → IsValid py.callable h.world.scripts
      → (load_script_dir call py room (some (some (map (λ f. f.entry) fs))) h
          ≡ done (pos 1) (with_scripts fs h))
        × ((event : Bytes)
            → functions_for event (with_scripts fs h).world.scripts
              ≡ functions_for event h.world.scripts ++ file_functions event fs)
        × IsValid py.callable (with_scripts fs h).world.scripts
        × ((with_scripts fs h).index_list ≡ h.index_list)
  unfolding load_script_dir
  load_script_dir-functions_for = with_scripts_lem
