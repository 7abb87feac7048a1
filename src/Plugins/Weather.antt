-- ===== src/Plugins/Weather.antt =====
-- The weather service of plugins/src/weather/weather.c. The transfers of libcurl and the JSON
-- library are parameters: what a chunk is read as, with its numbers as printf prints them. Equal
-- literals are one object, as the comparison of `lang` in write_callback takes them to be.
pub mod Asking
use bcirc.PluginHandler.{Plugin, Handler}
use bcirc.PluginHandler.Index.{Qsort}
use bcirc.PluginHandler.Names.{callback_got_privmsg}
use bcirc.PluginHandler.Load.Startup.{Registration, register_all}
use bcirc.Base.{ℤ, pos, ◌==◌}
use bcirc.PluginHandler.{bcirc_plugin_stop}
use bcirc.Base.{
  ℕ, ◌+◌, ◌/◌, ◌%◌, Bytes, codes, List, [], ◌∷◌, ◌++◌, Option, none, some, ℤ, ltb, leb, is_space,
  starts_with, strstr, strtok, if◌then◌else◌, length,
}
use bcirc.PluginHandler.{bcirc_plugin_ok, bcirc_plugin_continue}
use bcirc.MessageQueue.{Queue, Added, blocked, returned, add_to_privmsg_queue}

pub data Lang : Type 0 where
  lang_fi : Lang
  lang_en : Lang

-- UTF-8, for characters of at most two bytes.
abbrev pub utf8 : Bytes → Bytes
utf8 [] = []
utf8 (c ∷ cs) = (if ltb c 128 then c ∷ [] else (192 + c / 64) ∷ (128 + c % 64) ∷ []) ++ utf8 cs

abbrev pub commands : List (Bytes × Lang)
commands =
    (utf8 (codes "!sää"), lang_fi)
    ∷ (utf8 (codes ".sää"), lang_fi)
    ∷ (codes "!saa", lang_fi)
    ∷ (codes ".saa", lang_fi)
    ∷ (codes "!weather", lang_en)
    ∷ (codes ".weather", lang_en)
    ∷ []

-- The first command that the text starts with.
abbrev pub command_lang : Bytes → List (Bytes × Lang) → Option Lang
command_lang str [] = none
command_lang str (c ∷ cs) = if starts_with str c.0 then some c.1 else command_lang str cs

abbrev pub api_key : Bytes
api_key = codes "0c1e91a011ff56ae37fbd55928e8b4e2"

abbrev pub url_base : Bytes
url_base = codes "http://api.openweathermap.org/data/2.5/weather?q=%s&APPID=%s&units=metric"

-- What sprintf writes for URL_BASE, and the bytes allocated for it.
abbrev pub weather_url : Bytes → Bytes
weather_url city =
    codes "http://api.openweathermap.org/data/2.5/weather?q="
    ++ (city ++ (codes "&APPID=" ++ (api_key ++ codes "&units=metric")))

abbrev pub url_room : Bytes → ℕ
url_room city = length url_base + length city + length api_key + 1

-- The name of the place, which may be written over.
abbrev pub place : Bytes → Bytes
place city = elim (strstr city (codes "perse")) [ none ↦ city | some at ↦ codes "turku" ]

pub record Weather : Type 0 where
  pub city : Bytes
  pub temp : Bytes
  pub humidity : Bytes
  pub windspeed : Bytes

-- A chunk as the JSON library reads it: without "main", without another field, or with all of them.
pub data Reading : Type 0 where
  no_main : Reading
  incomplete : Reading
  weather : Weather → Reading

abbrev pub weather_text : Lang → Weather → Bytes
weather_text lang_fi w =
    utf8 (codes "Paikkakunnan ")
    ++ (w.city
        ++ (utf8 (codes " säätiedot; lämpötila noin ")
            ++ (w.temp
                ++ (utf8 (codes "°C, ilmankosteus ")
                    ++ (w.humidity
                        ++ (codes "%, tuulen nopeus " ++ (w.windspeed ++ codes " m/s")))))))
weather_text lang_en w =
    codes "Weather of place "
    ++ (w.city
        ++ (codes "; tempature "
            ++ (w.temp
                ++ (utf8 (codes "°C, humidity ")
                    ++ (w.humidity ++ (codes "%, wind speed " ++ (w.windspeed ++ codes " m/s")))))))

-- The queue afterwards; a wait for its mutex that does not end; a text longer than its array; a read
-- through a null pointer.
pub data Fetched : Type 0 where
  fetched : Queue → Fetched
  stuck : Fetched
  overrun : Fetched
  null_read : Fetched

abbrev pub as_fetched : Added → Fetched
as_fetched blocked = stuck
as_fetched (returned res q) = fetched q

-- The value returned, the text afterwards, the addresses that were requested, and the queue; `fault`
-- is a write to a literal.
pub data Answered : Type 0 where
  answered : ℤ → Bytes → List Bytes → Queue → Answered
  failed : Fetched → Answered
  fault : Answered

module _ (parse : Bytes → Reading) (transfer : Bytes → Option (List Bytes)) where
  abbrev pub tell : Lang → Bytes → ℕ → Reading → Queue → Fetched
  tell lang target srv no_main q = fetched q
  tell lang target srv incomplete q = null_read
  tell lang target srv (weather w) q =
      if ltb 1024 (length (weather_text lang w) + 1)
      then overrun
      else as_fetched (add_to_privmsg_queue (weather_text lang w) target srv 0 q)

  abbrev pub then_fetched : Fetched → (Queue → Fetched) → Fetched
  then_fetched (fetched q) rest = rest q
  then_fetched stuck rest = stuck
  then_fetched overrun rest = overrun
  then_fetched null_read rest = null_read

  -- The chunks of the transfer, each given to write_callback.
  unfoldable pub weather_chunks : Lang → Bytes → ℕ → List Bytes → Queue → Fetched
  weather_chunks lang target srv [] q = fetched q
  weather_chunks lang target srv (chunk ∷ chunks) q =
      then_fetched (tell lang target srv (parse chunk) q)
        (λ after. weather_chunks lang target srv chunks after)

  abbrev pub with_transfer : Lang → Bytes → ℕ → Option (List Bytes) → Queue → Fetched
  with_transfer lang target srv none q = fetched q
  with_transfer lang target srv (some chunks) q = weather_chunks lang target srv chunks q

  abbrev pub answer_with : Bytes → List Bytes → Fetched → Answered
  answer_with str asked (fetched q) = answered bcirc_plugin_ok str asked q
  answer_with str asked stuck = failed stuck
  answer_with str asked overrun = failed overrun
  answer_with str asked null_read = failed null_read

  -- http_request at an address.
  abbrev pub request : Bytes → Lang → Bytes → ℕ → Bytes → Queue → Answered
  request str lang target srv url q =
      answer_with str (url ∷ []) (with_transfer lang target srv (transfer url) q)

  -- strtok_r leaves the command in the text, and a pointer behind it that is never null.
  abbrev pub ask_weather : Lang → Bytes → ℕ → Option (Bytes × Bytes) → Queue → Answered
  ask_weather lang target srv none q = request [] lang target srv (weather_url []) q
  ask_weather lang target srv (some (word, city)) q =
      request word lang target srv (weather_url (place city)) q

  abbrev pub in_time : ℕ → Lang → Bytes → ℕ → Bytes → Queue → Answered
  in_time now lang target srv str q =
      if leb now 4
      then fault
      else if leb now 7
      then answered bcirc_plugin_ok str [] q
      else ask_weather lang target srv (strtok is_space str) q

  abbrev pub with_command : ℕ → ℕ → Bytes → Bytes → Queue → Option Lang → Answered
  with_command now srv target str q none = answered bcirc_plugin_continue str [] q
  with_command now srv target str q (some lang) = in_time now lang target srv str q

  -- The text afterwards is what the next callbacks read. `last_call` stays 0.
  unfoldable pub weather_on_privmsg : ℕ → ℕ → Bytes → Bytes → Queue → Answered
  unfolding weather_chunks
  weather_on_privmsg now srv target str q =
      with_command now srv target str q (command_lang str commands)

-- plugin_init; `answer` is the number of on_privmsg.
unfoldable pub weather_init : {W : Type 0} → Qsort → ℕ → Plugin → Handler W → ℤ × Plugin × Handler W
weather_init q answer p h =
    if length api_key == 0
    then (bcirc_plugin_stop, p, h)
    else register_all q
        (record { cb_name = callback_got_privmsg; cb_func = answer; priority = pos 20 } ∷ []) p h
