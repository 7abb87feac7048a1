-- ===== src/MessageQueue/Draining.antt =====
-- handle_privmsg_queue of src/irc.c works the queue off, and what its thread does then.
use bcirc.Base.{
  ℕ, suc, subst, List, [], ◌∷◌, ◌++◌, ◌≡◌, refl, sym, ap, ◌∙◌, inl, inr, arith, map, append-nil,
  length, All, List-cases, drop_all,
}
use bcirc.MessageQueue.System.{
  Event, add, round, System, start, step, run, message, IsDefined, run-Inv_always, run_waits,
  step_round_first, step_round_idle,
}

abbrev pub IsRound : Event → Type 0
IsRound (add text to server may_drop) = ⊥
IsRound (round time_now time_after) = Unit

-- As many rounds as there are messages.
rounds_drain :
    (es : List Event) (s : System)
    → All IsRound es
    → length es ≡ length s.queue.msg_list
    → IsDefined es s × ((run es s).queue.msg_list ≡ []) × ((run es s).accepted ≡ s.accepted)
unfolding run
rounds_drain [] s r h = (tt, drop_all 0 s.queue.msg_list (omega (arith, h)), refl)
rounds_drain (add text to server may_drop ∷ es) s r h = absurd r.0
rounds_drain (round time_now time_after ∷ es) s r h = elim (List-cases s.queue.msg_list) [
  | inl idle ↦ absurd (ground (arith, h, idle))
  | inr (m, ms, first) ↦
      let same = step_round_first time_now time_after s m ms first in
      let (defined, drained, kept) = rounds_drain es (step (round time_now time_after) s) r.1 (
        subst (λ (t : System). length es ≡ length t.queue.msg_list) (sym same)
          (ground (arith, first, h))) in
      (
        ((λ none_left. ground (arith, h, none_left)), defined),
        drained,
        kept ∙ ap (λ (t : System). t.accepted) same,
      )
]

run_append : (es later : List Event) (s : System) → run (es ++ later) s ≡ run later (run es s)
unfolding run
run_append [] later s = refl
run_append (e ∷ es) later s = run_append es later (step e s)

-- After any sequence of calls and rounds in which every round finds a message, as many further
-- rounds as the queue holds messages, with no call between them, find a message each; they empty the
-- queue, and every message accepted so far has been handled, in the order of the calls. If a round
-- follows before the next call, the thread waits on a mutex that it does not own.
pub run-drained :
    (es later : List Event) (time_now time_after : ℕ)
    → IsDefined es start
    → All IsRound later
    → length later ≡ length (run es start).queue.msg_list
    → let s = run later (run es start) in
      IsDefined later (run es start)
      × (s.queue.msg_list ≡ [])
      × (map message s.handled ≡ (run es start).accepted)
      × (s.unowned_waits ≡ 0)
      × ((step (round time_now time_after) s).unowned_waits ≡ 1)
run-drained es later time_now time_after defined r enough =
    let s = run later (run es start) in
    let (finds, none_left, same) = rounds_drain later (run es start) r enough in
    let kept : s.accepted ≡ map message s.handled ++ s.queue.msg_list =
      subst (λ (t : System). t.accepted ≡ map message t.handled ++ t.queue.msg_list)
        (run_append es later start) (run-Inv_always (es ++ later)).in_order in
    let owned : s.unowned_waits ≡ 0 =
      run_waits later (run es start) finds ∙ run_waits es start defined in
    (
      finds,
      none_left,
      sym (sym same ∙ (kept ∙ (rw none_left (append-nil _)))),
      owned,
      ap (λ (t : System). t.unowned_waits) (step_round_idle time_now time_after s none_left)
          ∙ ap suc owned,
    )
