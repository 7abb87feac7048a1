-- ===== src/Events.antt =====
-- The plugin that makes events of lines, plugins/src/events-handler/events.c: get_privmsg and
-- get_numeric. `room n` is how many bytes an array of `n` bytes has before other data is
-- overwritten, as for src/irc_cmds.c.
pub mod Words
pub mod Privmsg
pub mod Numeric
pub mod ChanEvent
mod Tests
use bcirc.Base.{
  ℕ, zero, suc, ◌+◌, ◌*◌, ◌-◌, ◌^◌, Bytes, codes, List, [], ◌∷◌, Option, none, some, ℤ, pos, Bool,
  true, false, ◌==◌, ◌&&◌, leb, str_eq, strstr, strtok, is_space, if◌then◌else◌, length, drop,
}
use bcirc.PluginHandler.{Arg, bcirc_plugin_ok, bcirc_plugin_continue, Params, params}
use bcirc.PluginHandler.Execute.{Run, done, fault, execute_callbacks}
use bcirc.PluginHandler.Names.{callback_got_privmsg, callback_got_numeric}
use bcirc.Server.{Bot, Bots, then_run}

-- `isdigit`.
abbrev pub is_digit : ℕ → Bool
is_digit c = leb b'0' c && leb c b'9'

abbrev pub is_fulldigit : Bytes → Bool
is_fulldigit [] = true
is_fulldigit (c ∷ s) = elim (is_digit c) [ true ↦ is_fulldigit s | false ↦ false ]

abbrev pub is_bang : ℕ → Bool
is_bang c = c == b'!'

abbrev pub privmsg_word : Bytes
privmsg_word = codes "PRIVMSG"

-- What get_privmsg makes of a line: a return value, or the callbacks for a message (a part that the
-- line lacks is null).
pub data Line : Type 0 where
  returns : ℤ → Line
  message : Option Bytes → Option Bytes → Option Bytes → Bytes → Line

-- The third word is the target; behind its space and one more byte (the colon) is the text.
abbrev pub third_word : Bytes → Bytes → Option (Bytes × Bytes) → Line
third_word nick hostmask none = message (some nick) (some hostmask) none []
third_word nick hostmask (some (target, save)) =
    message (some nick) (some hostmask) (some target) (drop 1 save)

abbrev pub second_word : Bytes → Bytes → Option (Bytes × Bytes) → Line
second_word nick hostmask none = message (some nick) (some hostmask) none []
second_word nick hostmask (some (word, save)) =
    if str_eq word privmsg_word
    then third_word nick hostmask (strtok is_space save)
    else returns bcirc_plugin_ok

-- The first word is cut at its exclamation mark; the byte in front of the nick (the colon) goes.
abbrev pub prefix_parts : Bytes → Option (Bytes × Bytes) → Line
prefix_parts save none = returns bcirc_plugin_ok
prefix_parts save (some (nick_part, [])) = returns bcirc_plugin_continue
prefix_parts save (some (nick_part, c ∷ mask_part)) =
    second_word (drop 1 nick_part) (c ∷ mask_part) (strtok is_space save)

abbrev pub first_word : Option (Bytes × Bytes) → Line
first_word none = message none none none []
first_word (some (nick_and_mask, save)) = prefix_parts save (strtok is_bang nick_and_mask)

unfoldable pub parse_privmsg : Bytes → Line
parse_privmsg buf = elim (strstr buf privmsg_word) [
  | none ↦ returns bcirc_plugin_ok
  | some at ↦ first_word (strtok is_space buf)
]

abbrev pub arg_of : Option Bytes → Arg
arg_of none = Arg.null
arg_of (some text) = Arg.str text

-- `atoi` of a word of digits.
abbrev pub digits_from : ℕ → Bytes → ℕ
digits_from n [] = n
digits_from n (c ∷ s) = digits_from (10 * n + (c - b'0')) s

abbrev pub atoi : Bytes → ℕ
atoi s = digits_from 0 s

-- The largest `int`; atoi of more is not defined.
abbrev pub int_max : ℕ
int_max = 2 ^ 31 - 1

module _ (call : ℕ → Params → Bots → Run Bot) (room : ℕ → ℕ) where
  abbrev pub return_value : ℤ → Run Bot → Run Bot
  return_value value r = then_run r (λ res after. done value after)

  abbrev pub run_line : ℕ → Line → Bots → Run Bot
  run_line srv (returns res) h = done res h
  run_line srv (message nick hostmask target msg) h = return_value bcirc_plugin_ok (
      execute_callbacks call callback_got_privmsg
        (params (Arg.srv srv ∷ arg_of nick ∷ arg_of hostmask ∷ arg_of target ∷ Arg.str msg ∷ [])) h)

  -- The array for the copy of the line has no room for its zero byte.
  unfoldable pub get_privmsg : ℕ → Bytes → Bots → Run Bot
  get_privmsg srv line h =
      if leb (length line + 1) (room (length line))
      then run_line srv (parse_privmsg line) h
      else fault

  abbrev pub numeric_word : ℕ → Bytes → Option (Bytes × Bytes) → Bots → Run Bot
  numeric_word srv line none h = done bcirc_plugin_ok h
  numeric_word srv line (some (word, save)) h =
      if is_fulldigit word
      then (if leb (atoi word) int_max
          then return_value bcirc_plugin_ok (
              execute_callbacks call callback_got_numeric
                (params (Arg.srv srv ∷ Arg.num (pos (atoi word)) ∷ Arg.str line ∷ [])) h)
          else fault)
      else done bcirc_plugin_ok h

  abbrev pub numeric_words : ℕ → Bytes → Option (Bytes × Bytes) → Bots → Run Bot
  numeric_words srv line none h = done bcirc_plugin_ok h
  numeric_words srv line (some (word, save)) h = numeric_word srv line (strtok is_space save) h

  -- The server is null or an object.
  unfoldable pub get_numeric : Option ℕ → Bytes → Bots → Run Bot
  get_numeric none line h = done bcirc_plugin_ok h
  get_numeric (some srv) line h = numeric_words srv line (strtok is_space line) h
