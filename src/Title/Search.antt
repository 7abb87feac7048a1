-- ===== src/Title/Search.antt =====
-- The search for an address in a message, check_for_url of plugins/src/title/title.c.
pub mod Unfiltered
use bcirc.PluginHandler.{Plugin, Handler}
use bcirc.PluginHandler.Index.{Qsort}
use bcirc.PluginHandler.Names.{callback_got_privmsg}
use bcirc.PluginHandler.Load.Startup.{Registration, register_all}
use bcirc.Base.{[], ◌∷◌}
use bcirc.Title.Urls.{Filter, get_urls}
use bcirc.Base.{
  ℕ, ◌-◌, Bytes, List, Option, none, some, ℤ, pos, ◌==ℤ◌, Bool, true, false, if◌then◌else◌, take,
  drop,
}
use bcirc.PluginHandler.{Params, bcirc_plugin_ok, bcirc_plugin_continue, bcirc_plugin_fail}
use bcirc.Channel.{Channel, Channels, get_channel}
use bcirc.Plugins.{has_null}
use bcirc.Title.Urls.{Urls, Checked, answer, undefined, spent, check_url}
use bcirc.Title.Requests.{Ark, Announcement, Transfer, http_request}

-- The value returned, with no request made; the address asked for, and what came of the request
-- (the value returned is OK); undefined behaviour.
pub data Searched : Type 0 where
  returned : ℤ → Searched
  asked : Bytes → Option (ℕ × List Announcement × ℤ) → Searched
  faulty : Searched

-- The pattern for addresses: whether it compiles, and the range of its first match in a text.
pub record Pattern : Type 0 where
  pub compiles : Bool
  pub match_url : Bytes → Option (ℕ × ℕ)

module _ (pattern : Pattern) (match_title : Bytes → Option (ℕ × ℕ)) (decode : Bytes → Bytes)
    (transfers : Bytes → List Transfer) where
  abbrev pub new_ark : ℕ → Bytes → Ark
  new_ark srv target = record { srv_save = srv; target_save = target; tries = 0; found = false }

  abbrev pub ask : ℕ → Bytes → Bytes → Searched
  ask srv target url =
      asked url (http_request match_title decode (transfers url) (new_ark srv target))

  -- The rounds of check_url never run out.
  abbrev pub filtered : ℕ → Bytes → Bytes → Checked → Searched
  filtered srv target url (answer true) = ask srv target url
  filtered srv target url (answer false) = returned bcirc_plugin_ok
  filtered srv target url undefined = faulty
  filtered srv target url spent = faulty

  abbrev pub with_url : ℤ → Urls → ℕ → Bytes → Bytes → Searched
  with_url has_filter urls srv target url =
      if has_filter ==ℤ pos 1
      then filtered srv target url (check_url (some url) urls)
      else ask srv target url

  abbrev pub in_message : ℤ → Urls → ℕ → Bytes → Bytes → Option (ℕ × ℕ) → Searched
  in_message has_filter urls srv target msg none = returned bcirc_plugin_continue
  in_message has_filter urls srv target msg (some (start, end)) =
      with_url has_filter urls srv target (take (end - start) (drop start msg))

  abbrev pub on_channel : ℤ → Urls → ℕ → Bytes → Bytes → Option Channel → Searched
  on_channel has_filter urls srv target msg none = returned bcirc_plugin_continue
  on_channel has_filter urls srv target msg (some chan) =
      if pattern.compiles
      then in_message has_filter urls srv target msg (pattern.match_url msg)
      else returned bcirc_plugin_fail

  -- The parameters, and the server, the target and the message among them.
  unfoldable pub check_for_url : ℤ → Urls → Channels → Params → ℕ → Bytes → Bytes → Searched
  check_for_url has_filter urls cs p srv target msg =
      if has_null p
      then returned bcirc_plugin_fail
      else on_channel has_filter urls srv target msg (get_channel (some target) (some srv) cs)

-- plugin_init: the value of `has_filter`, the filter, and the registrations; `search` and `add` are the
-- numbers of check_for_url and add_url.
unfoldable pub title_init :
    {W : Type 0}
    → Qsort
    → ℕ
    → ℕ
    → Filter
    → Plugin
    → Handler W
    → (ℤ × Filter) × (ℤ × Plugin × Handler W)
title_init q search add f p h = (
  get_urls f,
  register_all q
      (record { cb_name = callback_got_privmsg; cb_func = search; priority = pos 20 }
        ∷ record { cb_name = callback_got_privmsg; cb_func = add; priority = pos 20 }
        ∷ [])
      p h,
)
