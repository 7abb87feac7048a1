-- ===== src/MessageQueue/Rate.antt =====
-- The rate rule of handle_privmsg_queue in src/irc.c: what the average of the last five times says
-- about them, and which times those are.
use bcirc.Base.{ℕ, ◌+◌, ◌≤◌, ◌<◌, List, [], ◌∷◌, ◌≡◌, arith, All, ◌==◌, if◌then◌else◌}
use bcirc.MessageQueue.{
  MsgInfo, Outcome, sent, slept_and_sent, dropped, average_timestamp, decide_message, next_times,
  shift_times,
}

-- The five times of a full history, latest first.
abbrev pub history : ℕ → ℕ → ℕ → ℕ → ℕ → List ℕ
history a b c d e = a ∷ b ∷ c ∷ d ∷ e ∷ []

-- What becomes of a message that has to wait.
abbrev pub held_back : MsgInfo → Outcome
held_back m = if m.drop == 0 then slept_and_sent m else dropped m

recent_average :
    (now a b c d e : ℕ)
    → All (λ t. now ≤ t + 300000) (history a b c d e)
    → now ≤ average_timestamp (history a b c d e) + 300000
unfolding average_timestamp
recent_average now a b c d e h = omega (arith, h.0, h.1.0, h.1.1.0, h.1.1.1.0, h.1.1.1.1.0)

old_average :
    (now a b c d e : ℕ)
    → All (λ t. t + 300000 < now) (history a b c d e)
    → average_timestamp (history a b c d e) + 300000 < now
unfolding average_timestamp
old_average now a b c d e h = omega (arith, h.0, h.1.0, h.1.1.0, h.1.1.1.0, h.1.1.1.1.0)

-- A round puts its time in front of the four latest; where all five are then within 300000
-- milliseconds of the next message, that message is dropped if it may be, and sent after a sleep
-- if not.
pub decide_message-recent :
    (now time_after a b c d e : ℕ) (m : MsgInfo)
    → All (λ t. now ≤ t + 300000) (history time_after a b c d)
    → decide_message now (next_times time_after (history a b c d e)) m ≡ held_back m
unfolding decide_message shift_times
decide_message-recent now time_after a b c d e m h =
    ground (arith, recent_average now time_after a b c d h)

-- Where all five are further back than that, the message is sent at once, droppable or not.
decide_message-old :
    (now time_after a b c d e : ℕ) (m : MsgInfo)
    → All (λ t. t + 300000 < now) (history time_after a b c d)
    → decide_message now (next_times time_after (history a b c d e)) m ≡ sent m
unfolding decide_message shift_times
decide_message-old now time_after a b c d e m h =
    ground (arith, old_average now time_after a b c d h)
