-- ===== src/ChannelHandler.antt =====
-- The plugin that keeps the channels' topics and users, plugins/src/channel-handler/channelhandler.c.
-- `room n` is how many bytes an array of `n` bytes has before other data is overwritten.
pub mod Topic
mod Tests
use bcirc.Base.{
  ℕ, zero, suc, ◌+◌, ◌*◌, ◌-◌, Bytes, codes, List, [], ◌∷◌, ◌++◌, Option, none, some, ℤ, pos,
  negsuc, Bool, true, false, ◌==◌, ◌&&◌, ◌||◌, leb, ltb, strchr, strtok, is_space, if◌then◌else◌,
  length, take, drop,
}
use bcirc.PluginHandler.{bcirc_plugin_ok, bcirc_plugin_fail}
use bcirc.Channel.{Channel, Channels, get_or_create, update_channel, get_channel_users}
use bcirc.Events.{is_digit, int_max}

-- The numeric replies that the plugin reads (headers/numeric.h).
abbrev pub rpl_topic : ℕ
rpl_topic = 332

abbrev pub rpl_topicwhotime : ℕ
rpl_topicwhotime = 333

abbrev pub rpl_namreply : ℕ
rpl_namreply = 353

abbrev pub rpl_endofnames : ℕ
rpl_endofnames = 366

abbrev pub is_channel_numeric : ℕ → Bool
is_channel_numeric numeric =
    numeric == rpl_topic
    || numeric == rpl_endofnames
    || numeric == rpl_topicwhotime
    || numeric == rpl_namreply

-- What the C library's `atoi` reads: white space, a sign, digits; `none` is a number that an `int`
-- does not hold.
abbrev pub is_white : ℕ → Bool
is_white c = c == 32 || (leb 9 c && leb c 13)

abbrev pub skip_white : Bytes → Bytes
skip_white [] = []
skip_white (c ∷ s) = elim (is_white c) [ true ↦ skip_white s | false ↦ c ∷ s ]

abbrev pub leading_digits : ℕ → Bytes → ℕ
leading_digits n [] = n
leading_digits n (c ∷ s) = elim (is_digit c) [
  | true ↦ leading_digits (10 * n + (c - b'0')) s
  | false ↦ n
]

abbrev pub negated : ℕ → Option ℤ
negated zero = some (pos zero)
negated (suc n) = if leb n int_max then some (negsuc n) else none

abbrev pub in_int : ℕ → Option ℤ
in_int n = if leb n int_max then some (pos n) else none

abbrev pub signed : Bytes → Option ℤ
signed [] = some (pos 0)
signed (c ∷ s) =
    if c == b'-'
    then negated (leading_digits 0 s)
    else if c == b'+'
    then in_int (leading_digits 0 s)
    else in_int (leading_digits 0 (c ∷ s))

unfoldable pub atoi : Bytes → Option ℤ
atoi s = signed (skip_white s)

-- The channel's name: from the first `#` to the first space behind it. Without either the code
-- reads through a null pointer or past the text.
unfoldable pub chan_name_of : Bytes → Option Bytes
chan_name_of buffer = elim (strchr buffer b'#') [
  | none ↦ none
  | some start ↦ elim (strchr (drop start buffer) b' ') [
    | none ↦ none
    | some len ↦ some (take len (drop start buffer))
  ]
]

-- get_channel_title: from behind the first colon after the first byte, as many bytes are copied as
-- stand in front of that colon. The topic here is what the new memory holds, with the zero byte of
-- the text if that is copied too; more than that is outside of the text.
abbrev pub title_bytes : Bytes → ℕ → Option Bytes
title_bytes buffer colon =
    let behind = drop (colon + 2) buffer ++ 0 ∷ [] in
    if leb (colon + 1) (length behind) then some (take (colon + 1) behind) else none

unfoldable pub get_channel_title : Bytes → Channel → Option Channel
get_channel_title buffer chan = elim (strchr (drop 1 buffer) b':') [
  | none ↦ none
  | some colon ↦ elim (title_bytes buffer colon) [
    | none ↦ none
    | some bytes ↦ some (record chan { topic = some bytes })
  ]
]

-- get_channel_title_info: the second word from the `#` on, and the third as a number.
abbrev pub third_info : Channel → Option (Bytes × Bytes) → Option Channel
third_info chan none = some chan
third_info chan (some (word, save)) = elim (atoi word) [
  | none ↦ none
  | some time ↦ some (record chan { topic_created_time = time })
]

abbrev pub second_info : Channel → Option (Bytes × Bytes) → Option Channel
second_info chan none = some chan
second_info chan (some (word, save)) =
    third_info (record chan { topic_creator = some word }) (strtok is_space save)

abbrev pub first_info : Channel → Option (Bytes × Bytes) → Option Channel
first_info chan none = some chan
first_info chan (some (word, save)) = second_info chan (strtok is_space save)

unfoldable pub get_channel_title_info : Bytes → Channel → Option Channel
unfolding atoi
get_channel_title_info buffer chan = elim (strchr buffer b'#') [
  | none ↦ none
  | some start ↦ first_info chan (strtok is_space (drop start buffer))
]

-- What a call of the callback does: return a value with the channels changed, or undefined behaviour.
pub data Handled : Type 0 where
  returned : ℤ → Channels → Handled
  undefined : Handled

abbrev pub written_back : Channels → Channel → Option Channel → Handled
written_back cs chan none = undefined
written_back cs chan (some chan') =
    returned bcirc_plugin_ok
      (record cs { channel_list = update_channel chan.addr (λ c. chan') cs.channel_list })

-- The `switch`: for the end of the names it has no case.
abbrev pub info_case : ℕ → Bytes → Channel → Channels → Handled
info_case numeric buffer chan cs =
    if numeric == rpl_topic
    then written_back cs chan (get_channel_title buffer chan)
    else if numeric == rpl_topicwhotime
    then written_back cs chan (get_channel_title_info buffer chan)
    else if numeric == rpl_namreply
    then written_back cs chan (get_channel_users (some buffer) chan)
    else returned bcirc_plugin_fail cs

abbrev pub in_named_channel : ℕ → ℕ → Bytes → Option Bytes → Channels → Handled
in_named_channel srv numeric buffer none cs = undefined
in_named_channel srv numeric buffer (some name) cs =
    let (chan, cs') = get_or_create name srv cs in
    elim chan [
      | none ↦ returned bcirc_plugin_ok cs'
      | some chan' ↦ info_case numeric buffer chan' cs'
    ]

module _ (room : ℕ → ℕ) where
  -- The array for the copy of the line has no room for its zero byte.
  unfoldable pub get_channel_info : ℕ → ℕ → Bytes → Channels → Handled
  unfolding chan_name_of get_channel_title get_channel_title_info
  get_channel_info srv numeric buffer cs =
      if ltb (room (length buffer)) (length buffer + 1)
      then undefined
      else if is_channel_numeric numeric
      then in_named_channel srv numeric buffer (chan_name_of buffer) cs
      else returned bcirc_plugin_ok cs
