-- ===== src/Core/Ping.antt =====
-- handle_ping of plugins/src/core/core.c.
use bcirc.Base.{
  ℕ, ◌≤◌, Bytes, codes, ◌++◌, some, ◌≡◌, refl, ap, ◌∙◌, Bool, true, false, arith, ltb, length,
  str_eq, strtok, is_space, if◌then◌else◌,
}
use bcirc.PluginHandler.{bcirc_plugin_ok, bcirc_plugin_continue, Params}
use bcirc.PluginHandler.Execute.{Run, done}
use bcirc.Server.{Bot, Bots, Sockets, server_send}
use bcirc.Events.Words.{strtok-append}
use bcirc.Core.{ping_word, answer_ping, pong_text, handle_ping, returning}

if_same : (b : Bool) (r : Run Bot) → (if b then r else r) ≡ r
if_same true r = refl
if_same false r = refl

module _ (call : ℕ → Params → Bots → Run Bot) (net : Sockets) (room : ℕ → ℕ)
    (reprint : Bytes → Bytes → Bytes) where
  pub handle_ping-pong :
      (srv : ℕ) (h : Bots) (rest : Bytes)
      → 2 ≤ length rest
      → handle_ping call net room reprint (some srv) (some (codes "PING " ++ rest)) h
        ≡ returning call net room reprint bcirc_plugin_ok
            (server_send call net (some (codes "PONG " ++ (rest ++ codes "\r\n"))) srv h)
  unfolding handle_ping
  handle_ping-pong srv h rest long =
      let ping : Bytes = codes "PING " ++ rest in
      let enough : ltb (length ping) 7 ≡ false = ground (arith, long) in
      ap
        (λ (b : Bool).
          if b
          then done bcirc_plugin_continue h
          else answer_ping call net room reprint srv ping (strtok is_space ping) h)
        enough
      ∙ ap (λ o. answer_ping call net room reprint srv ping o h)
          (strtok-append is_space b'P' (codes "ING") b' ' rest (refl, (refl, (refl, (refl, tt))))
            refl)

  -- A PING with at least two bytes behind its space is answered by one PONG with the same bytes,
  -- and the callback returns OK; where the first word of a line is another one, nothing is sent,
  -- nothing changes, and the callback returns CONTINUE.
  handle_ping_lem :
      (srv : ℕ) (h : Bots) (rest line word save : Bytes)
      → 2 ≤ length rest
      → strtok is_space line ≡ some (word, save)
      → str_eq word ping_word ≡ false
      → (handle_ping call net room reprint (some srv) (some (codes "PING " ++ rest)) h
          ≡ returning call net room reprint bcirc_plugin_ok
              (server_send call net (some (codes "PONG " ++ (rest ++ codes "\r\n"))) srv h))
        × (handle_ping call net room reprint (some srv) (some line) h
            ≡ done bcirc_plugin_continue h)
  unfolding handle_ping
  handle_ping_lem srv h rest line word save long first other =
      let silent : answer_ping call net room reprint srv line (strtok is_space line) h
          ≡ done bcirc_plugin_continue h =
        ap (λ o. answer_ping call net room reprint srv line o h) first
        ∙ ap
            (λ (b : Bool).
              if b
              then returning call net room reprint bcirc_plugin_ok
                  (server_send call net (some (pong_text line)) srv h)
              else done bcirc_plugin_continue h)
            other in
      (
        handle_ping-pong srv h rest long,
        ap (λ (r : Run Bot). if ltb (length line) 7 then done bcirc_plugin_continue h else r) silent
            ∙ if_same (ltb (length line) 7) (done bcirc_plugin_continue h),
      )
