-- ===== src/Dispatch/Examples.antt =====
-- A directory with six plugins, for the tests.
use bcirc.Base.{◌+◌, Bytes, codes, List, [], ◌∷◌, ◌++◌, some, none, ◌≡◌, refl, strstr}
use bcirc.Server.{Bots}
use bcirc.Server.Examples.{short_net, two_servers}
use bcirc.Base.{Bool, leb, ◌==◌, ◌&&◌, not, arith, Option, All, true, false, str_eq, if◌then◌else◌}
use bcirc.PluginHandler.Index.{init_index}
use bcirc.PluginHandler.Index.InsertionSort.{insertion_qsort}
use bcirc.PluginHandler.Load.{SharedObject, DirEntry, is_plugin_file, get_plugins}
use bcirc.PluginHandler.Load.Startup.{Registration, register_all}
use bcirc.PluginHandler.Load.Directory.{IsPlugin}
use bcirc.Server.{Bot}
use bcirc.Dispatch.Startup.{
  core_callbacks, events_callbacks, channel_callbacks, logger_callbacks, nick_callbacks,
  autojoin_callbacks, installed,
}
use bcirc.Log.{percent}
use bcirc.Dispatch.Startup.OneLine.{IsVisible, IsText}
use bcirc.Dispatch.{Surroundings}
use bcirc.Python.{Python, returned, null}

abbrev pub no_python : Python
no_python = record {
  import_script = λ name h. (none, h);
  script_init = λ handle. none;
  callable = λ object. false;
  call_object = λ call f args h. returned null h;
  object_addr = λ n. 0;
}

abbrev pub outside : Surroundings
outside = record {
  net = short_net;
  room = λ n. n + 1;
  reprint = λ before text. text;
  config = none;
  time_now = 0;
  thread_result = 0;
  rounds = 0;
  python = no_python;
  script_rounds = 0;
}

abbrev pub object : List Registration → SharedObject Bot
object rs = record {
  handle = 0;
  plugin_author = some (codes "Joona");
  plugin_name = some (codes "a");
  plugin_version = some (codes "1");
  plugin_init = some (register_all insertion_qsort rs);
}

abbrev pub plugin_file : Bytes → DirEntry
plugin_file name = record { d_name = name; is_regular = true }

abbrev pub directory : Bytes → Option (SharedObject Bot)
directory path =
    if str_eq path (codes "/p/autojoin.so")
    then some (object autojoin_callbacks)
    else if str_eq path (codes "/p/channel.so")
    then some (object channel_callbacks)
    else if str_eq path (codes "/p/core.so")
    then some (object core_callbacks)
    else if str_eq path (codes "/p/events.so")
    then some (object events_callbacks)
    else if str_eq path (codes "/p/logger.so")
    then some (object logger_callbacks)
    else if str_eq path (codes "/p/nick.so")
    then some (object nick_callbacks)
    else none

abbrev pub started : Bots
started =
    (get_plugins directory (codes "/p")
      (some (
        plugin_file (codes "autojoin.so")
        ∷ plugin_file (codes "channel.so")
        ∷ plugin_file (codes "core.so")
        ∷ plugin_file (codes "events.so")
        ∷ plugin_file (codes "logger.so")
        ∷ plugin_file (codes "nick.so")
        ∷ []))
      (record two_servers { index_list = init_index })).1

IsPlugin-object :
    (name : Bytes) (rs : List Registration)
    → is_plugin_file name ≡ true
    → directory (codes "/p" ++ codes "/" ++ name) ≡ some (object rs)
    → IsPlugin insertion_qsort directory (codes "/p") (plugin_file name, rs)
IsPlugin-object name rs regular opened =
    (regular, object rs, opened, (codes "Joona", codes "a", codes "1", refl, refl, refl, refl))

pub All-installed : All (IsPlugin insertion_qsort directory (codes "/p")) (
    installed
      (plugin_file (codes "autojoin.so"))
      (plugin_file (codes "channel.so"))
      (plugin_file (codes "core.so"))
      (plugin_file (codes "events.so"))
      (plugin_file (codes "logger.so"))
      (plugin_file (codes "nick.so")))
unfolding is_plugin_file strstr
All-installed = (
  IsPlugin-object (codes "autojoin.so") autojoin_callbacks refl refl,
  (
    IsPlugin-object (codes "channel.so") channel_callbacks refl refl,
    (
      IsPlugin-object (codes "core.so") core_callbacks refl refl,
      (
        IsPlugin-object (codes "events.so") events_callbacks refl refl,
        (
          IsPlugin-object (codes "logger.so") logger_callbacks refl refl,
          (IsPlugin-object (codes "nick.so") nick_callbacks refl refl, tt),
        ),
      ),
    ),
  ),
)

-- The bytes are printable and no percent signs.
abbrev pub visible : Bytes → Bool
visible [] = true
visible (x ∷ s) = leb 33 x && (not (x == percent) && visible s)

pub visible-All : (s : Bytes) → visible s ≡ true → All IsVisible s
visible-All [] h = tt
visible-All (x ∷ s) h = ((ground (arith, h), ground (arith, h)), visible-All s (ground (arith, h)))

-- The bytes are printable, spaces included, and no percent signs.
abbrev pub printable : Bytes → Bool
printable [] = true
printable (x ∷ s) = leb 32 x && (not (x == percent) && printable s)

pub printable-All : (s : Bytes) → printable s ≡ true → All IsText s
printable-All [] h = tt
printable-All (x ∷ s) h =
    ((ground (arith, h), ground (arith, h)), printable-All s (ground (arith, h)))
