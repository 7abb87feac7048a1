-- ===== src/MessageQueue/System.antt =====
-- The queue of src/irc.c under every sequence of calls and rounds: its bound, its order, what is
-- never lost, and what a refusal does to the callers after it.
use bcirc.Base.{
  ℕ, zero, suc, ◌≤◌, Bytes, List, [], ◌∷◌, ◌++◌, Option, none, some, ◌≡◌, ◌≢◌, refl, ◌∙◌, inl, inr,
  true, arith, map, map-append, append_assoc, length, length-append, All, All-append, List-cases,
}
use bcirc.MessageQueue.{
  max_msg_count, MsgInfo, Queue, empty_queue, next_times, Added, blocked, returned,
  add_to_privmsg_queue, Outcome, sent, slept_and_sent, dropped, decide_message, handle_round,
}

-- What happens to the queue: a call, or a round with its two readings of the clock.
pub data Event : Type 0 where
  add : Bytes → Bytes → ℕ → ℕ → Event
  round : ℕ → ℕ → Event

-- The queue, the messages accepted so far and what became of those handled so far, oldest first.
pub record System : Type 0 where
  pub queue : Queue
  pub accepted : List MsgInfo
  pub handled : List Outcome
  pub refused : ℕ
  pub blocked_calls : ℕ
  pub unowned_waits : ℕ  -- rounds that found no message

abbrev pub start : System
start = record {
  queue = empty_queue;
  accepted = [];
  handled = [];
  refused = 0;
  blocked_calls = 0;
  unowned_waits = 0;
}

abbrev pub after_add : MsgInfo → System → Added → System
after_add m s blocked = record s { blocked_calls = suc s.blocked_calls }
after_add m s (returned zero q) = record s { queue = q; refused = suc s.refused }
after_add m s (returned (suc _) q) = record s { queue = q; accepted = s.accepted ++ m ∷ [] }

-- What follows a wait without the mutex is not defined; the state only counts it.
abbrev pub after_round : System → Option (Outcome × Queue) → System
after_round s none = record s { unowned_waits = suc s.unowned_waits }
after_round s (some (o, q)) = record s { queue = q; handled = s.handled ++ o ∷ [] }

unfoldable pub step : Event → System → System
unfolding add_to_privmsg_queue handle_round
step (add text to server may_drop) s =
    after_add (record { msg = text; target = to; srv = server; drop = may_drop }) s
      (add_to_privmsg_queue text to server may_drop s.queue)
step (round time_now time_after) s = after_round s (handle_round time_now time_after s.queue)

unfoldable pub run : List Event → System → System
run [] s = s
run (e ∷ es) s = run es (step e s)

abbrev pub message : Outcome → MsgInfo
message (sent m) = m
message (slept_and_sent m) = m
message (dropped m) = m

-- Only a message that may be dropped is dropped.
abbrev pub IsFair : Outcome → Type 0
IsFair (sent m) = Unit {0}
IsFair (slept_and_sent m) = Unit {0}
IsFair (dropped m) = m.drop ≢ 0

-- What holds between any two steps.
pub record Inv (s : System) : Type 0 where
  pub bounded : length s.queue.msg_list ≤ max_msg_count
  pub in_order : s.accepted ≡ map message s.handled ++ s.queue.msg_list
  pub fair : All IsFair s.handled
  pub locked : s.refused ≢ 0 → s.queue.local_locked ≡ true

pub decide_message-IsFair :
    (time_now : ℕ) (times : List ℕ) (m : MsgInfo)
    → (message (decide_message time_now times m) ≡ m) × IsFair (decide_message time_now times m)
unfolding decide_message
decide_message-IsFair time_now times m = ground arith

abbrev new_info : Bytes → Bytes → ℕ → ℕ → MsgInfo
new_info text to server may_drop = record { msg = text; target = to; srv = server; drop = may_drop }

step_add-Inv :
    (text to : Bytes) (server may_drop : ℕ) (s : System)
    → Inv s
    → Inv (step (add text to server may_drop) s)
unfolding step
step_add-Inv text to server may_drop s v =
    let m = new_info text to server may_drop in
    record {
      bounded = ground (arith, length-append s.queue.msg_list (m ∷ []));
      in_order = ground (arith, append_assoc (map message s.handled) s.queue.msg_list (m ∷ []));
      fair = ground arith;
      locked = ground arith;
    }

-- The state after a round with a message to handle.
abbrev after_first : ℕ → ℕ → MsgInfo → List MsgInfo → System → System
after_first time_now time_after m ms s = record s {
  queue = record (s.queue) {
    msg_list = ms;
    last_message_times = next_times time_after s.queue.last_message_times;
  };
  handled = s.handled ++ decide_message time_now s.queue.last_message_times m ∷ [];
}

pub step_round_first :
    (time_now time_after : ℕ) (s : System) (m : MsgInfo) (ms : List MsgInfo)
    → s.queue.msg_list ≡ m ∷ ms
    → step (round time_now time_after) s ≡ after_first time_now time_after m ms s
unfolding step
step_round_first time_now time_after s m ms first = rw (first, handle_round)

pub step_round_idle :
    (time_now time_after : ℕ) (s : System)
    → s.queue.msg_list ≡ []
    → step (round time_now time_after) s ≡ record s { unowned_waits = suc s.unowned_waits }
unfolding step
step_round_idle time_now time_after s idle = rw (idle, handle_round)

after_first-Inv :
    (time_now time_after : ℕ) (s : System) (m : MsgInfo) (ms : List MsgInfo)
    → Inv s
    → s.queue.msg_list ≡ m ∷ ms
    → Inv (after_first time_now time_after m ms s)
after_first-Inv time_now time_after s m ms v first =
    let o = decide_message time_now s.queue.last_message_times m in
    let (same, fair) = decide_message-IsFair time_now s.queue.last_message_times m in
    record {
      bounded = ground (arith, v.bounded, first);
      in_order =
          v.in_order
          ∙ rw first (
              rw (map-append message s.handled (o ∷ []))
                (rw (append_assoc (map message s.handled) (message o ∷ []) ms) (rw same)));
      fair = All-append IsFair s.handled (o ∷ []) v.fair (fair, tt);
      locked = v.locked;
    }

step-Inv : (e : Event) (s : System) → Inv s → Inv (step e s)
step-Inv (add text to server may_drop) s v = step_add-Inv text to server may_drop s v
step-Inv (round time_now time_after) s v = elim (List-cases s.queue.msg_list) [
  | inl idle ↦
      rw (step_round_idle time_now time_after s idle)
        (record { bounded = v.bounded; in_order = v.in_order; fair = v.fair; locked = v.locked })
  | inr (m, ms, first) ↦
      rw (step_round_first time_now time_after s m ms first)
        (after_first-Inv time_now time_after s m ms v first)
]

run-Inv_from : (es : List Event) (s : System) → Inv s → Inv (run es s)
unfolding run
run-Inv_from [] s v = v
run-Inv_from (e ∷ es) s v = run-Inv_from es (step e s) (step-Inv e s v)

pub run-Inv_always : (es : List Event) → Inv (run es start)
run-Inv_always es =
    run-Inv_from es start
      (record { bounded = omega arith; in_order = refl; fair = tt; locked = λ h. absurd (h refl) })

-- Every round finds a message before it locks.
abbrev pub FindsMessage : Event → System → Type 0
FindsMessage (add text to server may_drop) s = Unit
FindsMessage (round time_now time_after) s = s.queue.msg_list ≢ []

abbrev pub IsDefined : List Event → System → Type 0
IsDefined [] s = Unit
IsDefined (e ∷ es) s = FindsMessage e s × IsDefined es (step e s)

step_waits :
    (e : Event) (s : System) → FindsMessage e s → (step e s).unowned_waits ≡ s.unowned_waits
unfolding step
step_waits (add text to server may_drop) s finds = ground arith
step_waits (round time_now time_after) s finds = elim (List-cases s.queue.msg_list) [
  | inl idle ↦ absurd (finds idle)
  | inr (m, ms, first) ↦ rw (step_round_first time_now time_after s m ms first) refl
]

pub run_waits :
    (es : List Event) (s : System) → IsDefined es s → (run es s).unowned_waits ≡ s.unowned_waits
unfolding run
run_waits [] s defined = refl
run_waits (e ∷ es) s defined = run_waits es (step e s) defined.1 ∙ step_waits e s defined.0

-- After any sequence of calls and rounds from the start in which every round finds a message: the
-- queue holds at most nine messages; the messages accepted are, in order, those handled and those
-- still in the queue; a message that was dropped was one that may be dropped; if a call was refused,
-- `local_mutex` is locked; and no round has waited on a mutex that it does not own.
pub run-Inv :
    (es : List Event) → IsDefined es start → Inv (run es start) × ((run es start).unowned_waits ≡ 0)
run-Inv es defined = (run-Inv_always es, run_waits es start defined)

step-locked :
    (e : Event) (s : System)
    → s.queue.local_locked ≡ true
    → ((step e s).queue.local_locked ≡ true) × ((step e s).accepted ≡ s.accepted)
unfolding step
step-locked (add text to server may_drop) s h = ground arith
step-locked (round time_now time_after) s h = elim (List-cases s.queue.msg_list) [
  | inl idle ↦ rw (step_round_idle time_now time_after s idle) (h, refl)
  | inr (m, ms, first) ↦ rw (step_round_first time_now time_after s m ms first) (h, refl)
]

run-locked :
    (es : List Event) (s : System) → s.queue.local_locked ≡ true → (run es s).accepted ≡ s.accepted
unfolding run
run-locked [] s h = refl
run-locked (e ∷ es) s h =
    let (still, same) = step-locked e s h in run-locked es (step e s) still ∙ same

-- Once a call has been refused, no later call is accepted, whatever happens: also when the queue
-- has been emptied in between, the mutex that the refusal left locked blocks every caller.
pub run-refused :
    (es later : List Event)
    → (run es start).refused ≢ 0
    → (run later (run es start)).accepted ≡ (run es start).accepted
run-refused es later h = run-locked later (run es start) ((run-Inv_always es).locked h)
