-- ===== src/Channel.antt =====
-- src/channel.c: the list of channels and the text with a channel's users. A `char *` that may be
-- null is an `Option Bytes`; a text is what stands before its terminating zero.
pub mod Lookup
pub mod Users
mod Tests
use bcirc.Base.{
  ℤ, pos, ℕ, zero, suc, ◌+◌, ◌-◌, Bytes, List, [], ◌∷◌, ◌++◌, Option, none, some, Bool, true, false,
  ◌==◌, ◌&&◌, str_eq, strchr, strtok, is_space, if◌then◌else◌, length, drop,
}

-- The struct, with the address of the object. The `srv` of a channel is never null.
pub record Channel : Type 0 where
  pub addr : ℕ
  pub name : Bytes
  pub topic : Option Bytes
  pub topic_creator : Option Bytes
  pub topic_created_time : ℤ
  pub users : Option Bytes
  pub srv : ℕ

-- The globals: the list, and the address of the next object.
pub record Channels : Type 0 where
  pub channel_list : List Channel
  pub next_addr : ℕ

-- The object at an address.
abbrev pub find_chan : ℕ → List Channel → Option Channel
find_chan addr [] = none
find_chan addr (c ∷ cs) = if c.addr == addr then some c else find_chan addr cs

abbrev pub new_channel : ℕ → Bytes → ℕ → Channel
new_channel address chan_name server = record {
  addr = address;
  name = chan_name;
  topic = none;
  topic_creator = none;
  topic_created_time = pos 0;
  users = none;
  srv = server;
}

-- The new channel, or null for a null argument. A failed allocation is not modelled.
unfoldable pub create_channel : Option Bytes → Option ℕ → Channels → Option Channel × Channels
create_channel none srv cs = (none, cs)
create_channel (some name) none cs = (none, cs)
create_channel (some name) (some srv) cs =
    let chan : Channel = new_channel cs.next_addr name srv in
    (
      some chan,
      record cs { channel_list = cs.channel_list ++ chan ∷ []; next_addr = suc cs.next_addr },
    )

abbrev pub same_server : Option ℕ → ℕ → Bool
same_server none server = false
same_server (some srv) server = server == srv

-- The loop of `get_channel`.
unfoldable pub find_channel : Bytes → Option ℕ → List Channel → Option Channel
find_channel name srv [] = none
find_channel name srv (c ∷ cs) =
    if str_eq name c.name && same_server srv c.srv then some c else find_channel name srv cs

unfoldable pub get_channel : Option Bytes → Option ℕ → Channels → Option Channel
unfolding find_channel
get_channel none srv cs = none
get_channel (some name) srv cs = find_channel name srv cs.channel_list

-- As the event handlers use the two: the channel of this name, made if there is none.
unfoldable pub get_or_create : Bytes → ℕ → Channels → Option Channel × Channels
unfolding get_channel create_channel
get_or_create name srv cs = elim (get_channel (some name) (some srv) cs) [
  | some chan ↦ (some chan, cs)
  | none ↦ create_channel (some name) (some srv) cs
]

-- What happens to `chan->users` in remove_user: the value returned is always OK.
pub data Removed : Type 0 where
  users_now : Option Bytes → Removed
  undefined : Removed
  spent : Removed

-- A round of the loop, for the bytes in front of the token in `chan->users` (`strtok_r` has ended
-- the text behind the token), the token and the rest. `new_users` is null in the first round; a
-- round that does not return reads in front of the text (`chan->users - second_start`).
abbrev pub remove_round : Bytes → Bytes → (Bytes → Removed) → Bytes → Removed
remove_round nick token again before =
    if str_eq token nick
    then again before
    else if length before + length token - length token == 0
    then users_now none
    else undefined

-- On fuel: a token that is the nick starts the next round with the same token.
unfoldable pub remove_loop : ℕ → Bytes → Bytes → Bytes → Removed
remove_loop zero nick token before = spent
remove_loop (suc fuel) nick token before =
    let again = remove_loop fuel nick token in remove_round nick token again before

-- The spaces in front of the first token.
abbrev pub leading : Bytes → Bytes
leading [] = []
leading (c ∷ s) = elim (is_space c) [ true ↦ c ∷ leading s | false ↦ [] ]

-- `strtok_r` of a null text reads `save`, which is not initialised.
unfoldable pub remove_user : ℕ → Bytes → Channel → Removed
unfolding remove_loop
remove_user fuel nick chan = elim chan.users [
  | none ↦ undefined
  | some users ↦ elim (strtok is_space users) [
    | none ↦ users_now none
    | some (token, rest) ↦ remove_loop fuel nick token (leading users)
  ]
]

-- `get_channel_users`: the text behind the first colon after the first byte is appended to the
-- users; `none` is undefined behaviour. With no users yet, `strcat` reads memory that was not
-- initialised; with no colon, it reads through a null pointer.
unfoldable pub get_channel_users : Option Bytes → Channel → Option Channel
get_channel_users none chan = some chan
get_channel_users (some buffer) chan = elim (strchr (drop 1 buffer) b':') [
  | none ↦ none
  | some at ↦ elim chan.users [
    | none ↦ none
    | some users ↦ some (record chan { users = some (users ++ drop (suc at) (drop 1 buffer)) })
  ]
]

-- A write through a pointer.
pub update_channel : ℕ → (Channel → Channel) → List Channel → List Channel
update_channel addr f [] = []
update_channel addr f (c ∷ cs) = (if c.addr == addr then f c else c) ∷ update_channel addr f cs

-- The callback: `none` is the return of BREAK for a null channel or nick.
abbrev pub remove_user_callback : ℕ → Option Channel → Option Bytes → Option Removed
remove_user_callback fuel none nick = none
remove_user_callback fuel (some chan) none = none
remove_user_callback fuel (some chan) (some nick) = some (remove_user fuel nick chan)
