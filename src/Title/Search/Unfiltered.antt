-- ===== src/Title/Search/Unfiltered.antt =====
-- The filter in the search of plugins/src/title/title.c.
use bcirc.Base.{ℕ, Bytes, List, Option, none, some, ◌≡◌, refl, ap, inl, inr, pos, Bool-cases}
use bcirc.PluginHandler.{Params}
use bcirc.Channel.{Channel, Channels, get_channel}
use bcirc.Plugins.{has_null}
use bcirc.Title.Urls.{set_to}
use bcirc.Title.Urls.Passing.{check_url_passes}
use bcirc.Title.Requests.{Transfer}
use bcirc.Title.Search.{Pattern, in_message, on_channel, filtered, check_for_url}

module _ (pattern : Pattern) (match_title : Bytes → Option (ℕ × ℕ)) (decode : Bytes → Bytes)
    (transfers : Bytes → List Transfer) where
  in_message_unfiltered :
      (text : Bytes) (srv : ℕ) (target msg : Bytes) (range : Option (ℕ × ℕ))
      → in_message pattern match_title decode transfers (pos 1) (set_to text) srv target msg range
        ≡ in_message pattern match_title decode transfers (pos 0) (set_to text) srv target msg range
  in_message_unfiltered text srv target msg none = refl
  in_message_unfiltered text srv target msg (some range) =
      ap (filtered pattern match_title decode transfers srv target _) (check_url_passes _ text)

  on_channel_unfiltered :
      (text : Bytes) (srv : ℕ) (target msg : Bytes) (chan : Option Channel)
      → on_channel pattern match_title decode transfers (pos 1) (set_to text) srv target msg chan
        ≡ on_channel pattern match_title decode transfers (pos 0) (set_to text) srv target msg chan
  on_channel_unfiltered text srv target msg none = refl
  on_channel_unfiltered text srv target msg (some chan) = elim (Bool-cases pattern.compiles) [
    | inl compiled ↦ rw compiled (in_message_unfiltered text srv target msg (pattern.match_url msg))
    | inr broken ↦ rw broken refl
  ]

  -- With a filter's text, whatever it is, the search does for every message what it does without a
  -- filter.
  pub check_for_url_unfiltered :
      (text : Bytes) (cs : Channels) (p : Params) (srv : ℕ) (target msg : Bytes)
      → check_for_url pattern match_title decode transfers (pos 1) (set_to text) cs p srv target msg
        ≡ check_for_url pattern match_title decode transfers
            (pos 0)
            (set_to text)
            cs
            p
            srv
            target
            msg
  unfolding check_for_url
  check_for_url_unfiltered text cs p srv target msg = elim (Bool-cases (has_null p)) [
    | inl lacking ↦ rw lacking refl
    | inr given ↦
        rw given
          (on_channel_unfiltered text srv target msg (get_channel (some target) (some srv) cs))
  ]
