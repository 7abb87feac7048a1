-- ===== src/Plugins/Tests.antt =====
-- The small plugins on concrete inputs.
use bcirc.Base.{ℕ, Bytes, codes, [], ◌∷◌, some, ◌≡◌, refl}
use bcirc.PluginHandler.{Arg, Params, params}
use bcirc.Base.{Option, none, All, inl, inr}
use bcirc.PluginHandler.{Plugin, PluginStatus, Handler}
use bcirc.PluginHandler.Registry.{remove_plugin, remove_loop, remove_callbacks}
use bcirc.PluginHandler.Load.{SharedObject, load_plugin}
use bcirc.Base.{List, length, ◌+◌, ◌≤◌, arith, strstr}
use bcirc.PluginHandler.{bcirc_plugin_ok}
use bcirc.MessageQueue.{empty_queue}
use bcirc.MessageQueue.{Queue, empty_queue}
use bcirc.Plugins.Weather.Asking.{all_reports, weather_on_privmsg_lem}
use bcirc.Plugins.Weather.{
  lang_en, Weather, Reading, weather, weather_url, url_room, place, answered, fault,
  weather_on_privmsg,
}
use bcirc.Plugins.Reload.Watching.{
  Change, events_of, waiting, hook_change, reloaded, hook_change_lem,
}
use bcirc.Base.{map, false}
use bcirc.Plugins.Reload.{unload_loop, load_new_plugin}
use bcirc.Plugins.Reload.Unloading.{IsOther, load_new_plugin_lem}

abbrev enough_room : ℕ → ℕ
enough_room n = n

abbrev unchanged : Bytes → Bytes → Bytes
unchanged before text = text

abbrev nick_params : Params
nick_params = params (
    Arg.srv 10
    ∷ Arg.str (codes "jo")
    ∷ Arg.str (codes "j@h")
    ∷ Arg.str (codes "#a")
    ∷ Arg.str (codes "!nick bot3")
    ∷ [])

-- Two plugins, of which the second has the path.
abbrev with_path : ℕ → Bytes → Plugin
with_path address file = record {
  addr = address;
  handle = 0;
  plugin_name = codes "a";
  plugin_version = codes "1";
  plugin_author = codes "b";
  path = file;
  status = PluginStatus.running;
  callback_list = [];
}

abbrev two_loaded : Handler ℕ
two_loaded = record {
  plugin_list = with_path 1 (codes "/p/a.so") ∷ with_path 2 (codes "/p/b.so") ∷ [];
  index_list = [];
  next_addr = 3;
  world = 0;
}

abbrev no_file : Bytes → Option (SharedObject ℕ)
no_file path = none

load_new_plugin_lem_example :
    (load_new_plugin no_file (some (codes "/p")) (codes "b.so") two_loaded
      ≡ some (load_plugin no_file (codes "/p/b.so") (remove_plugin 2 two_loaded).1))
    × All (IsOther (codes "/p/b.so")) (remove_plugin 2 two_loaded).1.plugin_list
load_new_plugin_lem_example =
    load_new_plugin_lem no_file (codes "/p") (codes "b.so") two_loaded 2 1
      (with_path 2 (codes "/p/b.so")) (inl refl, (inr refl, tt)) refl refl

-- Of the first read only one file is loaded anew.
abbrev two_changes : List Change
two_changes =
    record {
      before = [];
      file = codes "b.so";
      after = record { is_dir = false; is_modify = false; name = some (codes "a.so") } ∷ [];
    }
    ∷ record {
      before = record { is_dir = false; is_modify = false; name = none } ∷ [];
      file = codes "c.so";
      after = [];
    }
    ∷ []

hook_change_lem_example :
    hook_change no_file (some (codes "/p")) (map (λ c. some (events_of c)) two_changes) two_loaded
    ≡ waiting (reloaded no_file (codes "/p") (codes "b.so" ∷ codes "c.so" ∷ []) two_loaded)
hook_change_lem_example =
    hook_change_lem no_file (codes "/p") two_changes two_loaded (tt, (((refl, refl), tt), tt))

-- Of two plugins with the path the second stays.
second_stays :
    (unload_loop 2 0 (codes "/p/a.so") (record two_loaded {
      plugin_list = with_path 1 (codes "/p/a.so") ∷ with_path 2 (codes "/p/a.so") ∷ [];
    })).plugin_list
    ≡ with_path 2 (codes "/p/a.so") ∷ []
unfolding unload_loop remove_plugin remove_loop remove_callbacks
second_stays = refl

-- The weather of one place.
abbrev sunny : Weather
sunny = record {
  city = codes "Oulu";
  temp = codes "1.0";
  humidity = codes "80";
  windspeed = codes "3.0";
}

abbrev sunny_everywhere : Bytes → Reading
sunny_everywhere chunk = weather sunny

abbrev one_chunk : Bytes → Option (List Bytes)
one_chunk url = some (codes "{}" ∷ [])

abbrev two_chunks : Bytes → Option (List Bytes)
two_chunks url = some (codes "{}" ∷ codes "{ }" ∷ [])

-- An answer in two chunks is announced twice.
weather_on_privmsg_lem_example :
    (q' : Queue) × (weather_on_privmsg sunny_everywhere two_chunks 100 7
        (codes "#a")
        (codes "!weather Oulu")
        empty_queue
      ≡ answered bcirc_plugin_ok (codes "!weather") (weather_url (codes "Oulu") ∷ []) q')
    × (q'.msg_list
        ≡ all_reports sunny_everywhere lang_en (codes "#a") 7 (codes "{}" ∷ codes "{ }" ∷ []))
    × (length (weather_url (codes "Oulu")) + 1 ≤ url_room (codes "Oulu"))
    × (length (place (codes "Oulu")) ≤ length (codes "Oulu"))
unfolding strstr all_reports
weather_on_privmsg_lem_example =
    weather_on_privmsg_lem sunny_everywhere two_chunks lang_en (codes "#a") 7 100 b'!'
      (codes "weather") (codes "Oulu") (codes "{}" ∷ codes "{ }" ∷ []) empty_queue
      (refl, (refl, (refl, (refl, (refl, (refl, (refl, (refl, tt)))))))) refl (omega arith) refl
      (omega arith, (omega arith, tt)) refl (omega arith)

-- The name of another place is written over.
place_perse : place (codes "perse") ≡ codes "turku"
unfolding strstr
place_perse = refl

-- In the first seconds after the epoch the code writes to a literal.
weather_too_early :
    weather_on_privmsg sunny_everywhere one_chunk 3 7 (codes "#a") (codes "!saa Oulu") empty_queue
    ≡ fault
unfolding weather_on_privmsg
weather_too_early = refl
