-- ===== src/Events/Privmsg.antt =====
-- get_privmsg of plugins/src/events-handler/events.c on a message as a server relays it.
use bcirc.Base.{
  ℕ, ◌+◌, ◌≤◌, Bytes, codes, [], ◌∷◌, ◌++◌, Option, none, some, ◌≡◌, refl, ap, ◌∙◌, sym, Bool, true,
  arith, leb, length, strstr, strtok, is_space, All-append, append_assoc, if◌then◌else◌,
}
use bcirc.PluginHandler.{Arg, bcirc_plugin_ok, Params, params}
use bcirc.PluginHandler.Execute.{Run, done, fault, execute_callbacks}
use bcirc.PluginHandler.Names.{callback_got_privmsg}
use bcirc.Server.{Bot, Bots}
use bcirc.IrcCmds.{privmsg_text}
use bcirc.Events.{
  is_bang, privmsg_word, Line, returns, message, first_word, second_word, third_word, prefix_parts,
  parse_privmsg, return_value, run_line, get_privmsg,
}
use bcirc.Events.Words.{IsWord, strtok-append, strstr_found}

-- A PRIVMSG command without its line end.
abbrev pub command : Bytes → Bytes → Bytes
command msg target = privmsg_word ++ b' ' ∷ (target ++ b' ' ∷ b':' ∷ msg)

-- A command as a server hands it on, with the sender in front.
abbrev pub relayed : Bytes → Bytes → Bytes → Bytes
relayed nick hostmask text = (b':' ∷ (nick ++ b'!' ∷ hostmask)) ++ b' ' ∷ text

privmsg_text-command :
    (msg target : Bytes) → privmsg_text msg target ≡ command msg target ++ codes "\r\n"
privmsg_text-command msg target =
    ap (λ (s : Bytes). codes "PRIVMSG " ++ s)
      (sym (append_assoc target (b' ' ∷ b':' ∷ msg) (codes "\r\n")))

module _ (n : Bytes) (m : ℕ) (mask : Bytes) (t : ℕ) (target : Bytes) (msg : Bytes)
    (nick_word : IsWord is_space n) (nick_plain : IsWord is_bang n)
    (mask_word : IsWord is_space (m ∷ mask)) (target_word : IsWord is_space (t ∷ target)) where
  third_step :
      third_word n (m ∷ mask) (strtok is_space ((t ∷ target) ++ b' ' ∷ b':' ∷ msg))
      ≡ message (some n) (some (m ∷ mask)) (some (t ∷ target)) msg
  third_step =
      ap (third_word n (m ∷ mask))
        (strtok-append is_space t target b' ' (b':' ∷ msg) target_word refl)

  second_step :
      second_word n (m ∷ mask) (strtok is_space (command msg (t ∷ target)))
      ≡ message (some n) (some (m ∷ mask)) (some (t ∷ target)) msg
  second_step =
      ap (second_word n (m ∷ mask)) (
        strtok-append is_space b'P' (codes "RIVMSG") b' ' ((t ∷ target) ++ b' ' ∷ b':' ∷ msg)
          (refl, (refl, (refl, (refl, (refl, (refl, (refl, tt))))))) refl)
      ∙ third_step

  first_step :
      first_word (strtok is_space (relayed n (m ∷ mask) (command msg (t ∷ target))))
      ≡ message (some n) (some (m ∷ mask)) (some (t ∷ target)) msg
  first_step =
      ap first_word (
        strtok-append is_space b':' (n ++ b'!' ∷ m ∷ mask) b' ' (command msg (t ∷ target))
          (refl, All-append _ n (b'!' ∷ m ∷ mask) nick_word (refl, mask_word)) refl)
      ∙ (ap (prefix_parts (command msg (t ∷ target)))
            (strtok-append is_bang b':' n b'!' (m ∷ mask) (refl, nick_plain) refl)
          ∙ second_step)

  parse_relayed :
      parse_privmsg (relayed n (m ∷ mask) (command msg (t ∷ target)))
      ≡ message (some n) (some (m ∷ mask)) (some (t ∷ target)) msg
  unfolding parse_privmsg
  parse_relayed =
      let sender : Bytes = b':' ∷ (n ++ b'!' ∷ m ∷ mask) in
      let rest : Bytes = b' ' ∷ ((t ∷ target) ++ b' ' ∷ b':' ∷ msg) in
      let line : Bytes = relayed n (m ∷ mask) (command msg (t ∷ target)) in
      let (at, found) = strstr_found (sender ++ b' ' ∷ []) privmsg_word rest in
      let here : strstr line privmsg_word ≡ some at =
        ap (λ (s : Bytes). strstr s privmsg_word)
          (sym (append_assoc sender (b' ' ∷ []) (privmsg_word ++ rest)))
        ∙ found in
      ap
        (λ (o : Option ℕ). elim o as (λ _. Line) [
          | none ↦ returns bcirc_plugin_ok
          | some at' ↦ first_word (strtok is_space line)
        ])
        here
      ∙ first_step

-- The line of a command as a server relays it, read.
pub get_privmsg-relayed :
    (call : ℕ → Params → Bots → Run Bot) (room : ℕ → ℕ) (srv : ℕ) (h : Bots) (n : Bytes) (m : ℕ)
    (mask : Bytes) (t : ℕ) (target msg : Bytes)
    → IsWord is_space n
    → IsWord is_bang n
    → IsWord is_space (m ∷ mask)
    → IsWord is_space (t ∷ target)
    → ((k : ℕ) → k + 1 ≤ room k)
    → get_privmsg call room srv (relayed n (m ∷ mask) (command msg (t ∷ target))) h
      ≡ return_value call room bcirc_plugin_ok (
          execute_callbacks call callback_got_privmsg
            (params (
              Arg.srv srv
              ∷ Arg.str n
              ∷ Arg.str (m ∷ mask)
              ∷ Arg.str (t ∷ target)
              ∷ Arg.str msg
              ∷ []))
            h)
unfolding get_privmsg
get_privmsg-relayed call room srv h n m mask t target msg a b c d spare =
    let line = relayed n (m ∷ mask) (command msg (t ∷ target)) in
    let held : leb (length line + 1) (room (length line)) ≡ true =
      ground (arith, spare (length line)) in
    ap (λ (ok : Bool). if ok then run_line call room srv (parse_privmsg line) h else fault) held
    ∙ ap (λ (l : Line). run_line call room srv l h) (parse_relayed n m mask t target msg a b c d)

-- A message that privmsg sends comes back, without its line end and behind its sender, as the
-- callbacks for exactly its parts: the nick (no space and no exclamation mark in it), the host mask
-- and the target (one byte at least and no space), and the text, whatever that is. The copy of the
-- line needs one byte more than its array is declared with.
pub get_privmsg-privmsg_text :
    (call : ℕ → Params → Bots → Run Bot) (room : ℕ → ℕ) (srv : ℕ) (h : Bots) (n : Bytes) (m : ℕ)
    (mask : Bytes) (t : ℕ) (target msg : Bytes)
    → IsWord is_space n
    → IsWord is_bang n
    → IsWord is_space (m ∷ mask)
    → IsWord is_space (t ∷ target)
    → ((k : ℕ) → k + 1 ≤ room k)
    → (text : Bytes) × (privmsg_text msg (t ∷ target) ≡ text ++ codes "\r\n")
      × (get_privmsg call room srv (relayed n (m ∷ mask) text) h
          ≡ return_value call room bcirc_plugin_ok (
              execute_callbacks call callback_got_privmsg
                (params (
                  Arg.srv srv
                  ∷ Arg.str n
                  ∷ Arg.str (m ∷ mask)
                  ∷ Arg.str (t ∷ target)
                  ∷ Arg.str msg
                  ∷ []))
                h))
get_privmsg-privmsg_text call room srv h n m mask t target msg a b c d spare = (
  command msg (t ∷ target),
  privmsg_text-command msg (t ∷ target),
  get_privmsg-relayed call room srv h n m mask t target msg a b c d spare,
)

-- A line without the command's word.
pub get_privmsg_other :
    (call : ℕ → Params → Bots → Run Bot) (room : ℕ → ℕ) (srv : ℕ) (line : Bytes) (h : Bots)
    → strstr line privmsg_word ≡ none
    → length line + 1 ≤ room (length line)
    → get_privmsg call room srv line h ≡ done bcirc_plugin_ok h
unfolding get_privmsg parse_privmsg
get_privmsg_other call room srv line h absent spare =
    let held : leb (length line + 1) (room (length line)) ≡ true = ground (arith, spare) in
    rw held (
      ap
        (λ o.
          run_line call room srv
            (elim o as (λ _. Line) [
              | none ↦ returns bcirc_plugin_ok
              | some at ↦ first_word (strtok is_space line)
            ])
            h)
        absent)
