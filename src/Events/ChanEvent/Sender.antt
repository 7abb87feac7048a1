-- ===== src/Events/ChanEvent/Sender.antt =====
-- The sender of a line that a server relays, for get_chan_event of
-- plugins/src/events-handler/events.c.
use bcirc.Base.{
  ℕ, suc, ◌+◌, ◌-◌, Bytes, ◌∷◌, ◌++◌, Option, none, some, ◌≡◌, refl, ap, ◌∙◌, Bool, false, arith,
  ltb, All-append, length, length-append, take, drop, drop-suc, strchr, is_space, append_assoc,
  if◌then◌else◌,
}
use bcirc.Events.{is_bang}
use bcirc.Events.Words.{IsWord, strchr-append, take-append, drop-append}
use bcirc.Events.Privmsg.{relayed}
use bcirc.Events.ChanEvent.{Sent, by, unknown, overrun, sender_at, sender}

module _ (n hostmask text : Bytes) where
  rest_behind : Bytes
  rest_behind = n ++ b'!' ∷ (hostmask ++ b' ' ∷ text)

  relayed-cons : relayed n hostmask text ≡ b':' ∷ rest_behind
  unfolding rest_behind
  relayed-cons = ap (λ (s : Bytes). b':' ∷ s) (append_assoc n (b'!' ∷ hostmask) (b' ' ∷ text))

  bang_at : IsWord is_bang n → strchr (relayed n hostmask text) b'!' ≡ some (suc (length n))
  unfolding rest_behind
  bang_at plain =
      ap (λ (s : Bytes). strchr s b'!') relayed-cons
      ∙ strchr-append b'!' (b':' ∷ n) (hostmask ++ b' ' ∷ text) (refl, plain)

  space_at :
      IsWord is_space n
      → IsWord is_space hostmask
      → strchr (relayed n hostmask text) b' ' ≡ some (length n + 2 + length hostmask)
  space_at word mask_word =
      strchr-append b' ' (b':' ∷ (n ++ b'!' ∷ hostmask)) text
        (refl, All-append _ n (b'!' ∷ hostmask) word (refl, mask_word))
      ∙ ap some (omega (arith, length-append n (b'!' ∷ hostmask)))

  nick_part : take (length n) (drop 1 (relayed n hostmask text)) ≡ n
  unfolding rest_behind
  nick_part =
      ap (λ (s : Bytes). take (length n) (drop 1 s)) relayed-cons
      ∙ take-append n (b'!' ∷ (hostmask ++ b' ' ∷ text))

  mask_behind : drop (length n + 2) (relayed n hostmask text) ≡ hostmask ++ b' ' ∷ text
  unfolding rest_behind
  mask_behind =
      let whole : drop (length n) rest_behind ≡ b'!' ∷ (hostmask ++ b' ' ∷ text) =
        drop-append n _ in
      let position : length n + 2 ≡ suc (suc (length n)) = omega arith in
      ap (drop (length n + 2)) relayed-cons
      ∙ (ap (λ (k : ℕ). drop k (b':' ∷ rest_behind)) position
          ∙ drop-suc (length n) rest_behind whole)

  mask_part :
      take
        (length n + 2 + length hostmask - length n - 2)
        (drop (length n + 2) (relayed n hostmask text))
      ≡ hostmask
  mask_part =
      let count : length n + 2 + length hostmask - length n - 2 ≡ length hostmask = omega arith in
      ap (λ (k : ℕ). take k (drop (length n + 2) (relayed n hostmask text))) count
      ∙ (ap (take (length hostmask)) mask_behind ∙ take-append hostmask (b' ' ∷ text))

  -- The nick and the host mask come out as they went in.
  pub sender-relayed :
      IsWord is_space n
      → IsWord is_bang n
      → IsWord is_space hostmask
      → sender (relayed n hostmask text) ≡ by n hostmask
  unfolding sender
  sender-relayed word plain mask_word =
      let line : Bytes = relayed n hostmask text in
      let size : ltb (length n + 2 + length hostmask) (length n + 2) ≡ false = ground arith in
      ap
        (λ (o : Option ℕ). elim o as (λ _. Sent) [
          | none ↦ unknown
          | some nick_end ↦ sender_at line nick_end (strchr line b' ')
        ])
        (bang_at plain)
      ∙ (ap (sender_at line (suc (length n))) (space_at word mask_word)
          ∙ (ap
                (λ (b : Bool).
                  if b
                  then overrun
                  else by (take (length n) (drop 1 line)) (
                      take (length n + 2 + length hostmask - length n - 2)
                        (drop (length n + 2) line)))
                size
              ∙ (ap
                    (λ (x : Bytes). by x (
                      take (length n + 2 + length hostmask - length n - 2)
                        (drop (length n + 2) line)))
                    nick_part
                  ∙ ap (by n) mask_part)))
