-- ===== src/Plugins/Benis.antt =====
-- The joke of plugins/src/benis/benis.c: the numbers of rand() are an argument.
use bcirc.PluginHandler.{Plugin, Handler}
use bcirc.PluginHandler.Index.{Qsort}
use bcirc.PluginHandler.Names.{callback_got_privmsg}
use bcirc.PluginHandler.Load.Startup.{register_all}
use bcirc.Base.{ℤ, pos}
use bcirc.Base.{
  ℕ, zero, suc, ◌+◌, ◌%◌, ◌≤◌, Bytes, codes, List, [], ◌∷◌, ◌++◌, Option, none, some, inl, inr,
  arith, Bool-cases, ◌==◌, ltb, strstr, if◌then◌else◌, length,
}
use bcirc.MessageQueue.{Queue, Added, add_to_privmsg_queue}

-- `i` is below 240 for that many rounds; a number with a remainder of 5 or less ends the loop, and
-- so does, here, the end of the list.
unfoldable pub grow : ℕ → List ℕ → Bytes
grow zero numbers = []
grow (suc rounds) [] = []
grow (suc rounds) (r ∷ numbers) =
    let more = grow rounds numbers in if ltb 5 (r % 110) then b'D' ∷ more else []

abbrev pub benis_text : List ℕ → Bytes
benis_text numbers = codes "benis :D" ++ grow 240 numbers

-- What happens to the queue, for parameters that are not null: `none` is a message left alone. The
-- function ends without a return value.
unfoldable pub seek_for_benis : List ℕ → ℕ → Bytes → Bytes → Queue → Option Added
unfolding grow
seek_for_benis [] srv target msg q = none
seek_for_benis (lucky ∷ numbers) srv target msg q = elim (strstr msg (codes "benis")) [
  | none ↦ none
  | some at ↦
      if lucky % 6 == 1
      then some (add_to_privmsg_queue (benis_text numbers) target srv 0 q)
      else none
]

length-grow : (rounds : ℕ) (numbers : List ℕ) → length (grow rounds numbers) ≤ rounds
unfolding grow
length-grow zero numbers = omega arith
length-grow (suc rounds) [] = omega arith
length-grow (suc rounds) (r ∷ numbers) = elim (Bool-cases (ltb 5 (r % 110))) [
  | inl on ↦ rw on (omega (arith, length-grow rounds numbers))
  | inr off ↦ rw off (omega arith)
]

-- Whatever rand() gives, the text and its zero byte stay within the 255 bytes of its buffer.
pub benis_text_fits : (numbers : List ℕ) → length (benis_text numbers) + 1 ≤ 255
benis_text_fits numbers = omega (arith, length-grow 240 numbers)

-- plugin_init; `seeker` is the number of seek_for_benis.
abbrev pub benis_init : {W : Type 0} → Qsort → ℕ → Plugin → Handler W → ℤ × Plugin × Handler W
benis_init q seeker =
    register_all q
      (record { cb_name = callback_got_privmsg; cb_func = seeker; priority = pos 20 } ∷ [])
