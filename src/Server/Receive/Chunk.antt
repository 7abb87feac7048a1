-- ===== src/Server/Receive/Chunk.antt =====
-- server_recv of src/server.c: which callbacks run for a received chunk, and how the thread ends.
use bcirc.Base.{
  ℕ, zero, suc, ◌+◌, ◌%◌, ◌<◌, Bytes, [], ◌∷◌, ◌++◌, some, ◌≡◌, ◌≢◌, refl, sym, ap, ◌∙◌, inl, inr,
  ℤ, Bool, false, arith, leb, if◌then◌else◌, length, length-append, All, All-append,
}
use bcirc.Log.{Escaped, escaped, drop_last, bcirc_escape_buf}
use bcirc.Log.Escape.{doubled, bcirc_escape_buf_lem}
use bcirc.Log.Format.{doubled_last, drop_last-append}
use bcirc.PluginHandler.{Params}
use bcirc.PluginHandler.Execute.{Run, done, fault, spent}
use bcirc.Server.{Server, Bot, Bots, Sockets, find_server, then_run, set_server, size_mod}
use bcirc.Server.Connection.{with_server_found}
use bcirc.Server.Receive.{
  tmpbuf_size, c_string, is_line_end, line_received, recv_lines, recv_escaped, recv_chunk,
}
use bcirc.Server.Receive.Lines.{lines, strtok-tokens, for_each}

then_run_cong :
    (r : Run Bot) {k l : ℤ → Bots → Run Bot}
    → ((res : ℤ) (h : Bots) → k res h ≡ l res h)
    → then_run r k ≡ then_run r l
then_run_cong (done res h) same = same res h
then_run_cong fault same = refl
then_run_cong spent same = refl

c_string_whole : (s : Bytes) → All (λ c. c ≢ 0) s → c_string s ≡ s
c_string_whole [] nonzero = refl
c_string_whole (c ∷ s) nonzero = ground (arith, c_string_whole s nonzero.1, nonzero.0)

-- The state once a chunk is counted.
abbrev pub counted : ℕ → Bytes → Bots → Bots
counted srv chunk h =
    set_server h srv (λ u. record u { recvd_len = (u.recvd_len + length chunk) % size_mod })

module _ (call : ℕ → Params → Bots → Run Bot) (net : Sockets) where
  -- With more rounds than the text has bytes, the loop over the tokens runs the callbacks once for
  -- each non-empty line of the text, in order.
  recv_lines-lines :
      (fuel srv : ℕ) (s : Bytes) (h : Bots)
      → length s < fuel
      → recv_lines call net fuel srv s h ≡ for_each call net srv (lines s) h
  unfolding recv_lines
  recv_lines-lines zero srv s h enough = absurd (omega (arith, enough))
  recv_lines-lines (suc fuel) srv s h enough = elim (strtok-tokens is_line_end s) [
    | inl (over, nothing) ↦
        rw (over, recv_lines) (ap (λ l. for_each call net srv l h) (sym nothing))
    | inr (token, rest, more, cut, shorter) ↦
        rw (more, recv_lines)
          (then_run_cong (line_received call net srv token h)
              (λ res after. recv_lines-lines fuel srv rest after (omega (arith, shorter, enough)))
            ∙ ap (λ l. for_each call net srv l h) (sym cut))
  ]

  -- A chunk of at most 511 bytes, none of them zero, that ends in a line feed: it is added to
  -- `recvd_len`, and the callbacks of `callback_server_recv` run once for each non-empty line of the
  -- text with its percent signs doubled, in order.
  pub recv_chunk-lines :
      (srv : ℕ) (text : Bytes) (h : Bots) (v : Server)
      → find_server srv h.world.servers ≡ some v
      → All (λ c. c ≢ 0) text
      → length text + 1 < tmpbuf_size
      → recv_chunk call net srv (text ++ 10 ∷ []) h
        ≡ for_each call net srv (lines (doubled text)) (counted srv (text ++ 10 ∷ []) h)
  unfolding recv_chunk
  recv_chunk-lines srv text h v found nonzero short =
      let chunk : Bytes = text ++ 10 ∷ [] in
      let count : length chunk ≡ length text + 1 = length-append text (10 ∷ []) in
      let room : leb tmpbuf_size (length chunk) ≡ false = rw count (ground (arith, short)) in
      let whole : c_string chunk ≡ chunk =
        c_string_whole chunk (All-append _ text (10 ∷ []) nonzero ((λ e. omega (arith, e)), tt)) in
      let result : bcirc_escape_buf (c_string chunk) ≡ escaped (doubled text) =
        ap bcirc_escape_buf whole
        ∙ ((bcirc_escape_buf_lem chunk (λ e. omega (arith, ap length e, count))
              (omega (arith, count, short))).0
            ∙ ap escaped
                (ap drop_last (doubled_last text 10 refl) ∙ drop_last-append (doubled text) 10)) in
      with_server_found srv h _ found
      ∙ (ap
            (λ (b : Bool).
              if b
              then fault
              else recv_escaped call net srv (bcirc_escape_buf (c_string chunk))
                  (counted srv chunk h))
            room
          ∙ (ap (λ (e : Escaped). recv_escaped call net srv e (counted srv chunk h)) result
              ∙ recv_lines-lines (suc (length (doubled text))) srv (doubled text)
                  (counted srv chunk h) (omega arith)))
