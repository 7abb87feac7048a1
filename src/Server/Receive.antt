-- ===== src/Server/Receive.antt =====
-- server_recv of src/server.c: what a server's thread does with each chunk that it receives.
pub mod Lines
pub mod Chunk
use bcirc.Base.{
  ℕ, zero, suc, ◌+◌, ◌%◌, Bytes, List, [], ◌∷◌, Option, none, some, ℤ, pos, Bool, true, false, ◌==◌,
  ◌||◌, leb, if◌then◌else◌, length, strtok,
}
use bcirc.Log.{Escaped, escaped, too_long, overrun, bcirc_escape_buf}
use bcirc.PluginHandler.{Arg, Params, params}
use bcirc.PluginHandler.Execute.{Run, done, fault, spent, execute_callbacks}
use bcirc.PluginHandler.Names.{callback_server_recv}
use bcirc.Server.{
  Server, Bot, Bots, Sockets, set_server, size_mod, then_run, with_server, server_disconnect,
  server_closed_connection, server_timeout,
}

-- The size of `tmpbuf`, and so the most that one recv() gives.
abbrev pub tmpbuf_size : ℕ
tmpbuf_size = 512

-- What select() and recv() answer in one round.
pub data Answer : Type 0 where
  select_fails : Answer
  timed_out : Answer
  recv_ends : Answer  -- recv() gives 0 or less
  received : Bytes → Answer

-- What a string function sees of a buffer that ends in a zero byte.
abbrev pub c_string : Bytes → Bytes
c_string [] = []
c_string (c ∷ s) = elim (c == 0) [ true ↦ [] | false ↦ c ∷ c_string s ]

abbrev pub is_line_end : ℕ → Bool
is_line_end c = c == 13 || c == 10

module _ (call : ℕ → Params → Bots → Run Bot) (net : Sockets) where
  -- The callbacks for one line.
  abbrev pub line_received : ℕ → Bytes → Bots → Run Bot
  line_received srv line h =
      execute_callbacks call callback_server_recv (params (Arg.srv srv ∷ Arg.str line ∷ [])) h

  -- The `while` over the tokens: the rounds left, and what `save` points to.
  unfoldable pub recv_lines : ℕ → ℕ → Bytes → Bots → Run Bot
  recv_lines zero srv s h = spent
  recv_lines (suc fuel) srv s h = elim (strtok is_line_end s) [
    | none ↦ done (pos 0) h
    | some token ↦
        then_run (line_received srv token.0 h) (λ res after. recv_lines fuel srv token.1 after)
  ]

  -- A text too long to be escaped leaves the copy unset; the fuel is above the number of tokens.
  abbrev pub recv_escaped : ℕ → Escaped → Bots → Run Bot
  recv_escaped srv (escaped text) h = recv_lines (suc (length text)) srv text h
  recv_escaped srv too_long h = fault
  recv_escaped srv overrun h = fault

  -- A full buffer has no room for the zero byte.
  unfoldable pub recv_chunk : ℕ → Bytes → Bots → Run Bot
  recv_chunk srv chunk h = with_server srv h λ v.
      if leb tmpbuf_size (length chunk)
      then fault
      else recv_escaped srv (bcirc_escape_buf (c_string chunk))
          (set_server h srv (λ u. record u { recvd_len = (u.recvd_len + length chunk) % size_mod }))

  abbrev pub return_null : Run Bot → Run Bot
  return_null r = then_run r (λ res after. done (pos 0) after)

  -- The `for (;;)`, one answer to each round; where the answers run out, the thread is still there.
  unfoldable pub server_recv : ℕ → List Answer → Bots → Run Bot
  server_recv srv [] h = spent
  server_recv srv (select_fails ∷ answers) h = done (pos 0) h
  server_recv srv (timed_out ∷ answers) h =
      return_null (server_disconnect call net srv server_timeout h)
  server_recv srv (recv_ends ∷ answers) h =
      return_null (server_disconnect call net srv server_closed_connection h)
  server_recv srv (received chunk ∷ answers) h =
      then_run (recv_chunk srv chunk h) (λ res after. server_recv srv answers after)
