-- ===== src/Plugins/Reload/Watching.antt =====
-- hook_change of plugins/src/autoload/autoload.c, the thread that waits for changed files. What
-- inotify answers is a list, one element for each call of hook_change.
use bcirc.Base.{
  ℕ, Bytes, List, [], ◌∷◌, ◌++◌, map, Option, none, some, ◌≡◌, refl, ap, ◌∙◌, ℤ, Bool, false, ◌==◌,
  ◌||◌, if◌then◌else◌, All,
}
use bcirc.PluginHandler.{Handler, bcirc_plugin_ok, bcirc_plugin_fail}
use bcirc.PluginHandler.Load.{SharedObject}
use bcirc.Plugins.Reload.{load_new_plugin}

-- An event of the buffer: the bits of its mask that are tested, and its name where `len` is not 0.
pub record FileEvent : Type 0 where
  pub is_dir : Bool
  pub is_modify : Bool
  pub name : Option Bytes

-- Where the thread stands: it waits for the next event, it has ended, or undefined behaviour.
pub data Watched (W : Type 0) : Type 0 where
  waiting : Handler W → Watched W
  ended : Handler W → Watched W
  undefined : Watched W

module _ {W : Type 0} (dl_open : Bytes → Option (SharedObject W)) (dir : Option Bytes) where
  abbrev loaded_or_undefined : Option (ℤ × Handler W) → Watched W
  loaded_or_undefined none = undefined
  loaded_or_undefined (some (res, h)) = waiting h

  -- The `while` loop over the events of one read(): a file's name ends it.
  unfoldable pub handle_events : List FileEvent → Handler W → Watched W
  handle_events [] h = waiting h
  handle_events (event ∷ events) h =
      if event.is_dir || event.is_modify then waiting h else elim event.name [
        | none ↦ handle_events events h
        | some name ↦ loaded_or_undefined (load_new_plugin dl_open dir name h)
      ]

  abbrev then_watch : Watched W → (Handler W → Watched W) → Watched W
  then_watch (waiting h) k = k h
  then_watch (ended h) k = ended h
  then_watch undefined k = undefined

  -- `none` is a failure of inotify_init() or read().
  unfoldable pub hook_change : List (Option (List FileEvent)) → Handler W → Watched W
  unfolding handle_events
  hook_change [] h = waiting h
  hook_change (none ∷ reads) h = ended h
  hook_change (some events ∷ reads) h =
      then_watch (handle_events events h) (λ after. hook_change reads after)

-- plugin_init: whether the thread was started.
abbrev pub autoload_init : ℕ → ℤ
autoload_init thread_result = if thread_result == 0 then bcirc_plugin_ok else bcirc_plugin_fail

abbrev pub IsNameless : FileEvent → Type 0
IsNameless event = ((event.is_dir || event.is_modify) ≡ false) × (event.name ≡ none)

-- One read(): events without a name, a file that was written, and others.
pub record Change : Type 0 where
  pub before : List FileEvent
  pub file : Bytes
  pub after : List FileEvent

abbrev pub events_of : Change → List FileEvent
events_of c = c.before ++ record { is_dir = false; is_modify = false; name = some c.file } ∷ c.after

abbrev after_load : {W : Type 0} → Option (ℤ × Handler W) → Handler W → Handler W
after_load none h = h
after_load (some (res, h')) h = h'

module _ {W : Type 0} (dl_open : Bytes → Option (SharedObject W)) (dir : Bytes) where
  -- The files loaded anew, one after the other.
  abbrev pub reloaded : List Bytes → Handler W → Handler W
  reloaded [] h = h
  reloaded (file ∷ files) h =
      reloaded files (after_load (load_new_plugin dl_open (some dir) file h) h)

  handle_events_lem :
      (before after : List FileEvent) (file : Bytes) (h : Handler W)
      → All IsNameless before
      → handle_events dl_open
          (some dir)
          (before ++ record { is_dir = false; is_modify = false; name = some file } ∷ after)
          h
        ≡ waiting (reloaded (file ∷ []) h)
  unfolding handle_events load_new_plugin
  handle_events_lem [] after file h nameless = refl
  handle_events_lem (event ∷ before) after file h nameless =
      let mask : (event.is_dir || event.is_modify) ≡ false = nameless.0.0 in
      let bare : event.name ≡ none = nameless.0.1 in
      rw mask (rw bare (handle_events_lem before after file h nameless.1))

  -- While the plugins' files change and inotify answers, the thread goes on waiting, and it has loaded
  -- anew, in the order of its reads, exactly the first file that each read names: the files named
  -- behind it in the same read are not loaded.
  pub hook_change_lem :
      (changes : List Change) (h : Handler W)
      → All (λ (c : Change). All IsNameless c.before) changes
      → hook_change dl_open (some dir) (map (λ c. some (events_of c)) changes) h
        ≡ waiting (reloaded (map (λ (c : Change). c.file) changes) h)
  unfolding hook_change
  hook_change_lem [] h nameless = refl
  hook_change_lem (c ∷ changes) h nameless =
      ap
        (λ r.
          then_watch dl_open (some dir) r
            (λ after. hook_change dl_open (some dir) (map (λ d. some (events_of d)) changes) after))
        (handle_events_lem c.before c.after c.file h nameless.0)
      ∙ hook_change_lem changes (reloaded (c.file ∷ []) h) nameless.1
