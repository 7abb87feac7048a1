-- ===== src/Events/Numeric.antt =====
-- get_numeric of plugins/src/events-handler/events.c on a numeric reply of a server.
use bcirc.Base.{
  ℕ, ◌+◌, ◌*◌, ◌<◌, Bytes, [], ◌∷◌, ◌++◌, some, ◌≡◌, refl, ap, ◌∙◌, pos, Bool, true, false, arith,
  leb, is_space, if◌then◌else◌,
}
use bcirc.PluginHandler.{Arg, bcirc_plugin_ok, Params, params}
use bcirc.PluginHandler.Execute.{Run, done, fault, execute_callbacks}
use bcirc.PluginHandler.Names.{callback_got_numeric}
use bcirc.Server.{Bot, Bots}
use bcirc.Events.{
  is_digit, is_fulldigit, atoi, int_max, return_value, numeric_word, numeric_words, get_numeric,
}
use bcirc.Events.Words.{IsWord, strtok-append, strtok_all}

-- Three decimal digits.
abbrev pub three_digits : ℕ → ℕ → ℕ → Bytes
three_digits a b c = (b'0' + a) ∷ (b'0' + b) ∷ (b'0' + c) ∷ []

pub digit_plain : (a : ℕ) → a < 10 → (is_space (b'0' + a) ≡ false) × (is_digit (b'0' + a) ≡ true)
digit_plain a h = (ground (arith, h), ground (arith, h))

is_fulldigit_three :
    (a b c : ℕ) → a < 10 → b < 10 → c < 10 → is_fulldigit (three_digits a b c) ≡ true
is_fulldigit_three a b c ha hb hc =
    rw ((digit_plain a ha).1, is_fulldigit)
      (rw ((digit_plain b hb).1, is_fulldigit) (rw ((digit_plain c hc).1, is_fulldigit) refl))

atoi_three : (a b c : ℕ) → atoi (three_digits a b c) ≡ 100 * a + 10 * b + c
atoi_three a b c = omega arith

-- A reply with a word in front, a three-digit number and anything behind them runs the callbacks of
-- callback_got_numeric with that number and the whole line.
pub get_numeric_lem :
    (call : ℕ → Params → Bots → Run Bot) (room : ℕ → ℕ) (srv : ℕ) (h : Bots) (w : ℕ) (word : Bytes)
    (a b c : ℕ) (rest : Bytes)
    → IsWord is_space (w ∷ word)
    → a < 10
    → b < 10
    → c < 10
    → let line = (w ∷ word) ++ b' ' ∷ (three_digits a b c ++ b' ' ∷ rest) in
      get_numeric call room (some srv) line h
      ≡ return_value call room bcirc_plugin_ok (
          execute_callbacks call callback_got_numeric
            (params (Arg.srv srv ∷ Arg.num (pos (100 * a + 10 * b + c)) ∷ Arg.str line ∷ []))
            h)
unfolding get_numeric
get_numeric_lem call room srv h w word a b c rest plain ha hb hc =
    let line : Bytes = (w ∷ word) ++ b' ' ∷ (three_digits a b c ++ b' ' ∷ rest) in
    let small : leb (100 * a + 10 * b + c) int_max ≡ true = ground (arith, ha, hb, hc) in
    let run : ℕ → Run Bot = λ n. return_value call room bcirc_plugin_ok (
      execute_callbacks call callback_got_numeric
        (params (Arg.srv srv ∷ Arg.num (pos n) ∷ Arg.str line ∷ [])) h) in
    ap (λ o. numeric_words call room srv line o h)
      (strtok-append is_space w word b' ' (three_digits a b c ++ b' ' ∷ rest) plain refl)
    ∙ (ap (λ o. numeric_word call room srv line o h)
          (strtok-append is_space (b'0' + a) ((b'0' + b) ∷ (b'0' + c) ∷ []) b' ' rest
            ((digit_plain a ha).0, ((digit_plain b hb).0, ((digit_plain c hc).0, tt))) refl)
        ∙ (ap
              (λ (ok : Bool).
                if ok
                then (if leb (atoi (three_digits a b c)) int_max
                    then run (atoi (three_digits a b c))
                    else fault)
                else done bcirc_plugin_ok h)
              (is_fulldigit_three a b c ha hb hc)
            ∙ (ap (λ (n : ℕ). if leb n int_max then run n else fault) (atoi_three a b c)
                ∙ ap (λ (ok : Bool). if ok then run (100 * a + 10 * b + c) else fault) small)))

-- A line whose second word, the last one, is not a number.
pub get_numeric_other :
    (call : ℕ → Params → Bots → Run Bot) (room : ℕ → ℕ) (srv : ℕ) (h : Bots) (w : ℕ) (word : Bytes)
    (c : ℕ) (rest : Bytes)
    → IsWord is_space (w ∷ word)
    → IsWord is_space (c ∷ rest)
    → is_digit c ≡ false
    → get_numeric call room (some srv) ((w ∷ word) ++ b' ' ∷ c ∷ rest) h ≡ done bcirc_plugin_ok h
unfolding get_numeric
get_numeric_other call room srv h w word c rest plain rest_plain other =
    let line : Bytes = (w ∷ word) ++ b' ' ∷ c ∷ rest in
    let letters : is_fulldigit (c ∷ rest) ≡ false = rw (other, is_fulldigit) refl in
    ap (λ o. numeric_words call room srv line o h)
      (strtok-append is_space w word b' ' (c ∷ rest) plain refl)
    ∙ (ap (λ o. numeric_word call room srv line o h) (strtok_all is_space c rest rest_plain)
        ∙ rw letters refl)
