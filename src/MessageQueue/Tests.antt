-- ===== src/MessageQueue/Tests.antt =====
-- The message queue at concrete inputs.
use bcirc.Base.{codes, List, [], ◌∷◌, ◌++◌, ◌≡◌, refl, arith, map, length}
use bcirc.MessageQueue.{MsgInfo, dropped, decide_message, next_times}
use bcirc.MessageQueue.System.{
  Event, add, round, start, step, run, message, Inv, IsDefined, run-Inv, run-refused,
}
use bcirc.MessageQueue.Draining.{run-drained}
use bcirc.MessageQueue.Rate.{history, decide_message-recent}

abbrev call : Event
call = add (codes "hi") (codes "#c") 1 0

-- Ten calls before the sending thread makes a round: the tenth is refused.
abbrev burst : List Event
burst = call ∷ call ∷ call ∷ call ∷ call ∷ call ∷ call ∷ call ∷ call ∷ call ∷ []

abbrev nine_rounds : List Event
nine_rounds =
    round 1 1
    ∷ round 2 2
    ∷ round 3 3
    ∷ round 4 4
    ∷ round 5 5
    ∷ round 6 6
    ∷ round 7 7
    ∷ round 8 8
    ∷ round 9 9
    ∷ []

burst_refuses : ((run burst start).refused ≡ 1) × (length (run burst start).queue.msg_list ≡ 9)
unfolding run step
burst_refuses = (refl, refl)

burst-IsDefined : IsDefined burst start
burst-IsDefined = (tt, (tt, (tt, (tt, (tt, (tt, (tt, (tt, (tt, (tt, tt))))))))))

run-Inv_example : Inv (run burst start) × ((run burst start).unowned_waits ≡ 0)
run-Inv_example = run-Inv burst burst-IsDefined

run-refused_example :
    (run (nine_rounds ++ call ∷ []) (run burst start)).accepted ≡ (run burst start).accepted
run-refused_example = run-refused burst (nine_rounds ++ call ∷ []) (omega (arith, burst_refuses.0))

run-drained_example :
    let s = run nine_rounds (run burst start) in
    IsDefined nine_rounds (run burst start)
    × (s.queue.msg_list ≡ [])
    × (map message s.handled ≡ (run burst start).accepted)
    × (s.unowned_waits ≡ 0)
    × ((step (round 10 10) s).unowned_waits ≡ 1)
run-drained_example =
    run-drained burst nine_rounds 10 10 burst-IsDefined
      (tt, (tt, (tt, (tt, (tt, (tt, (tt, (tt, (tt, tt))))))))) (omega (arith, burst_refuses.1))

abbrev droppable : MsgInfo
droppable = record { msg = codes "hi"; target = codes "#c"; srv = 1; drop = 1 }

decide_message-recent_example :
    decide_message 400000 (next_times 350000 (history 340000 330000 320000 310000 0)) droppable
    ≡ dropped droppable
decide_message-recent_example =
    decide_message-recent 400000 350000 340000 330000 320000 310000 0 droppable (omega arith)
