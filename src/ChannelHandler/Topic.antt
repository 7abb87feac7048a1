-- ===== src/ChannelHandler/Topic.antt =====
-- The topic, who set it and when, in plugins/src/channel-handler/channelhandler.c.
use bcirc.Base.{
  ℕ, suc, ◌+◌, ◌*◌, ◌-◌, ◌≤◌, Bytes, [], ◌∷◌, ◌++◌, Option, none, some, ◌≡◌, refl, ap, ◌∙◌, ℤ, pos,
  Bool, true, false, arith, ◌==◌, leb, ltb, All, if◌then◌else◌, length, length-append, take, drop,
  drop-suc, strtok, is_space,
}
use bcirc.PluginHandler.{bcirc_plugin_ok, bcirc_plugin_fail}
use bcirc.Channel.{Channel, Channels, get_or_create}
use bcirc.Channel.Lookup.{get_or_create_always}
use bcirc.Events.{is_digit, digits_from, int_max}
use bcirc.Events.Words.{IsWord, strtok-append, strtok_all, strchr-append, drop-append}
use bcirc.ChannelHandler.{
  rpl_endofnames, is_white, skip_white, leading_digits, in_int, signed, atoi, chan_name_of,
  title_bytes, get_channel_title, first_info, second_info, third_info, get_channel_title_info,
  Handled, returned, undefined, info_case, in_named_channel, get_channel_info,
}

-- The bytes of the title that are copied, for the length of what stands in front of its colon.
abbrev pub copied : ℕ → Bytes → Option Bytes
copied len title = if leb len (length title + 1) then some (take len (title ++ 0 ∷ [])) else none

abbrev pub with_topic : Channel → Option Bytes → Option Channel
with_topic chan none = none
with_topic chan (some bytes) = some (record chan { topic = some bytes })

-- The topic that is kept of a line is as long as what stands in front of the title's colon: of a
-- longer title that many bytes, without a zero byte; of a title one byte shorter the title and its
-- zero byte; for a still shorter one the copy leaves the text.
pub get_channel_title_lem :
    (x : ℕ) (before title : Bytes) (chan : Channel)
    → All (λ c. (c == b':') ≡ false) before
    → get_channel_title ((x ∷ before) ++ b':' ∷ title) chan
      ≡ with_topic chan (copied (length before + 1) title)
unfolding get_channel_title
get_channel_title_lem x before title chan plain =
    let line : Bytes = (x ∷ before) ++ b':' ∷ title in
    let position : length before + 2 ≡ suc (suc (length before)) = omega arith in
    let behind : drop (length before + 2) line ≡ title =
      ap (λ (k : ℕ). drop k line) position
      ∙ drop-suc (length before) (before ++ b':' ∷ title) (drop-append before (b':' ∷ title)) in
    ap
      (λ (o : Option ℕ). elim o as (λ _. Option Channel) [
        | none ↦ none
        | some colon ↦ with_topic chan (title_bytes line colon)
      ])
      (strchr-append b':' before title plain)
    ∙ (ap
          (λ (s : Bytes). with_topic chan (
            if leb (length before + 1) (length (s ++ 0 ∷ []))
            then some (take (length before + 1) (s ++ 0 ∷ []))
            else none))
          behind
        ∙ ap
            (λ (k : ℕ). with_topic chan (
              if leb (length before + 1) k
              then some (take (length before + 1) (title ++ 0 ∷ []))
              else none))
            (length-append title (0 ∷ [])))

module _ (srv : ℕ) (room : ℕ → ℕ) where
  -- For every line that ends a list of names, the callback returns FAIL.
  get_channel_info_ends :
      (buffer name : Bytes) (cs : Channels)
      → length buffer + 1 ≤ room (length buffer)
      → chan_name_of buffer ≡ some name
      → get_channel_info room srv rpl_endofnames buffer cs
        ≡ returned bcirc_plugin_fail (get_or_create name srv cs).1
  unfolding get_channel_info
  get_channel_info_ends buffer name cs spare named =
      let fits : ltb (room (length buffer)) (length buffer + 1) ≡ false = ground (arith, spare) in
      let (chan, known) = get_or_create_always name srv cs in
      let after : Channels = (get_or_create name srv cs).1 in
      ap
        (λ (b : Bool).
          if b
          then undefined
          else in_named_channel srv rpl_endofnames buffer (chan_name_of buffer) cs)
        fits
      ∙ (ap (λ (o : Option Bytes). in_named_channel srv rpl_endofnames buffer o cs) named
          ∙ ap
              (λ (o : Option Channel). elim o as (λ _. Handled) [
                | none ↦ returned bcirc_plugin_ok after
                | some c ↦ info_case rpl_endofnames buffer c after
              ])
              known)

leading_digits-fulldigit :
    (n : ℕ) (ds : Bytes) → All (λ c. is_digit c ≡ true) ds → leading_digits n ds ≡ digits_from n ds
leading_digits-fulldigit n [] h = refl
leading_digits-fulldigit n (c ∷ ds) h =
    rw (h.0, leading_digits) (leading_digits-fulldigit (10 * n + (c - b'0')) ds h.1)

skip_white_ink : (c : ℕ) (s : Bytes) → is_white c ≡ false → skip_white (c ∷ s) ≡ c ∷ s
skip_white_ink c s inked = rw (inked, skip_white) refl

signed_plain :
    (c : ℕ) (s : Bytes)
    → (c == b'-') ≡ false
    → (c == b'+') ≡ false
    → signed (c ∷ s) ≡ in_int (leading_digits 0 (c ∷ s))
signed_plain c s minus plus = rw (minus, signed) (rw plus refl)

atoi-digits :
    (c : ℕ) (ds : Bytes)
    → All (λ x. is_digit x ≡ true) (c ∷ ds)
    → digits_from 0 (c ∷ ds) ≤ int_max
    → atoi (c ∷ ds) ≡ some (pos (digits_from 0 (c ∷ ds)))
unfolding atoi
atoi-digits c ds digits small =
    let number : leading_digits 0 (c ∷ ds) ≡ digits_from 0 (c ∷ ds) =
      leading_digits-fulldigit 0 (c ∷ ds) digits in
    let inked : is_white c ≡ false = ground (arith, digits.0) in
    let plus : (c == b'+') ≡ false = ground (arith, digits.0) in
    let minus : (c == b'-') ≡ false = ground (arith, digits.0) in
    let holds : leb (digits_from 0 (c ∷ ds)) int_max ≡ true = ground (arith, small) in
    ap signed (skip_white_ink c ds inked)
    ∙ (signed_plain c ds minus plus
        ∙ (ap in_int number
            ∙ ap (λ (b : Bool). if b then some (pos (digits_from 0 (c ∷ ds))) else none) holds))

digits_plain : (ds : Bytes) → All (λ x. is_digit x ≡ true) ds → IsWord is_space ds
digits_plain [] h = tt
digits_plain (c ∷ ds) h = (ground (arith, h.0), digits_plain ds h.1)

-- A line with a channel, a word and a number that an `int` holds behind it: the word is kept as who
-- set the topic, and the number as when.
get_channel_title_info_lem :
    (before name : Bytes) (c : ℕ) (creator : Bytes) (d : ℕ) (ds : Bytes) (chan : Channel)
    → All (λ x. (x == b'#') ≡ false) before
    → IsWord is_space name
    → IsWord is_space (c ∷ creator)
    → All (λ x. is_digit x ≡ true) (d ∷ ds)
    → digits_from 0 (d ∷ ds) ≤ int_max
    → get_channel_title_info
        (before ++ b'#' ∷ (name ++ b' ' ∷ ((c ∷ creator) ++ b' ' ∷ d ∷ ds)))
        chan
      ≡ some (record chan {
        topic_creator = some (c ∷ creator);
        topic_created_time = pos (digits_from 0 (d ∷ ds));
      })
unfolding get_channel_title_info
get_channel_title_info_lem before name c creator d ds chan plain name_word creator_word digits
      small =
    let info : Bytes = (c ∷ creator) ++ b' ' ∷ d ∷ ds in
    let from_name : Bytes = (b'#' ∷ name) ++ b' ' ∷ info in
    let line : Bytes = before ++ from_name in
    let with_creator : Channel = record chan { topic_creator = some (c ∷ creator) } in
    ap
      (λ (o : Option ℕ). elim o as (λ _. Option Channel) [
        | none ↦ none
        | some start ↦ first_info chan (strtok is_space (drop start line))
      ])
      (strchr-append b'#' before (name ++ b' ' ∷ info) plain)
    ∙ (ap (λ (s : Bytes). first_info chan (strtok is_space s)) (drop-append before from_name)
        ∙ (ap (first_info chan) (strtok-append is_space b'#' name b' ' info (refl, name_word) refl)
            ∙ (ap (second_info chan)
                  (strtok-append is_space c creator b' ' (d ∷ ds) creator_word refl)
                ∙ (ap (third_info with_creator)
                      (strtok_all is_space d ds (digits_plain (d ∷ ds) digits))
                    ∙ ap
                        (λ (o : Option ℤ). elim o as (λ _. Option Channel) [
                          | none ↦ none
                          | some time ↦ some (record with_creator { topic_created_time = time })
                        ])
                        (atoi-digits d ds digits small)))))
