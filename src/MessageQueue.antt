-- ===== src/MessageQueue.antt =====
-- The queue of outgoing messages of src/irc.c: add_to_privmsg_queue, which any thread calls, and
-- handle_privmsg_queue, the loop of the one thread that sends. The queue's mutex
-- (global_msglist_mutex) is held by each insertion, and by a round that sees a message before it locks:
-- only the sending thread takes messages out, so such a round is one step. A round that sees none does
-- not lock, and waits with pthread_cond_wait on a mutex that it does not own, which is undefined. The
-- other mutex (local_mutex) is part of the state, since it is not released on every path.
pub mod System
pub mod Draining
pub mod Rate
mod Tests
use bcirc.Base.{
  ℕ, zero, suc, ◌+◌, ◌/◌, Bytes, List, [], ◌∷◌, ◌++◌, Option, none, some, Bool, true, false, ◌==◌,
  leb, if◌then◌else◌, length, get_elem?, set, get_or,
}

abbrev pub max_msg_count : ℕ
max_msg_count = 9

abbrev pub history_size : ℕ
history_size = 5

pub record MsgInfo : Type 0 where
  pub msg : Bytes
  pub target : Bytes
  pub srv : ℕ
  pub drop : ℕ  -- may be dropped if not 0

-- The globals and statics of the file. `last_message_times` is the array that the loop reads.
pub record Queue : Type 0 where
  pub msg_list : List MsgInfo
  pub local_locked : Bool
  pub handler_started : Bool
  pub last_message_times : List ℕ

abbrev pub empty_queue : Queue
empty_queue = record {
  msg_list = [];
  local_locked = false;
  handler_started = false;
  last_message_times = 0 ∷ 0 ∷ 0 ∷ 0 ∷ 0 ∷ [];
}

-- A call that waits for a mutex which nobody will release does not return.
pub data Added : Type 0 where
  blocked : Added
  returned : ℕ → Queue → Added

-- The return for a full queue leaves `local_mutex` locked, as the source does.
unfoldable pub add_to_privmsg_queue : Bytes → Bytes → ℕ → ℕ → Queue → Added
add_to_privmsg_queue message to server may_drop q =
    if q.local_locked
    then blocked
    else if leb max_msg_count (length q.msg_list)
    then returned 0 (record q { local_locked = true })
    else returned 1 (record q {
      msg_list =
          q.msg_list ++ record { msg = message; target = to; srv = server; drop = may_drop } ∷ [];
      handler_started = true;
    })

-- What a round does with the first message: `privmsg`, at once or after a sleep, or nothing.
pub data Outcome : Type 0 where
  sent : MsgInfo → Outcome
  slept_and_sent : MsgInfo → Outcome
  dropped : MsgInfo → Outcome

sum : List ℕ → ℕ
sum [] = 0
sum (t ∷ ts) = t + sum ts

unfoldable pub average_timestamp : List ℕ → ℕ
unfolding sum
average_timestamp times = sum times / history_size

-- `time_now - avarage_timestamp <= 300000`, on times that are not negative.
unfoldable pub decide_message : ℕ → List ℕ → MsgInfo → Outcome
unfolding average_timestamp
decide_message time_now times m =
    if leb time_now (average_timestamp times + 300000)
    then (if m.drop == 0 then slept_and_sent m else dropped m)
    else sent m

-- `for (i = n; i > 0; i--) t[i] = t[i-1]`. The source starts at `history_size`, one past the end
-- of the array: that write is outside of it and changes nothing here.
unfoldable pub shift_times : ℕ → List ℕ → List ℕ
shift_times zero times = times
shift_times (suc i) times = shift_times i (set times (suc i) (get_or times i 0))

abbrev pub next_times : ℕ → List ℕ → List ℕ
next_times time_after times = set (shift_times history_size times) 0 time_after

-- One round, at the time before and the time after the message. With no message, `none`: the thread
-- waits on a mutex that it has not locked.
unfoldable pub handle_round : ℕ → ℕ → Queue → Option (Outcome × Queue)
unfolding decide_message shift_times
handle_round time_now time_after q = elim q.msg_list [
  | [] ↦ none
  | m ∷ ms ↦ some (
    decide_message time_now q.last_message_times m,
    record q { msg_list = ms; last_message_times = next_times time_after q.last_message_times },
  )
]
