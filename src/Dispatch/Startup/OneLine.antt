-- ===== src/Dispatch/Startup/OneLine.antt =====
-- One printable line in what recv() gives in src/server.c.
use bcirc.Base.{
  ℕ, ◌+◌, ◌%◌, ◌<◌, Bytes, codes, [], ◌∷◌, ◌++◌, append_assoc, some, ◌≡◌, ◌≢◌, refl, sym, ap, ◌∙◌,
  pos, true, false, arith, ◌==◌, leb, All, All-append, length, length-append, is_space, keep,
}
use bcirc.Log.{percent, pair}
use bcirc.Log.Escape.{doubled, doubled_single}
use bcirc.Log.Format.{doubled_last}
use bcirc.PluginHandler.{Params}
use bcirc.PluginHandler.Execute.{Run, done}
use bcirc.Server.{Server, Bot, Bots, Sockets, find_server, then_run, size_mod}
use bcirc.Server.Connection.{set_server_found}
use bcirc.Server.Receive.{is_line_end, line_received, recv_chunk}
use bcirc.Server.Receive.Lines.{pieces, filled, cons_head, lines, for_each}
use bcirc.Server.Receive.Chunk.{counted, recv_chunk-lines}
use bcirc.Events.Words.{IsWord}

-- A printable byte, spaces included, that is no percent sign; and one that is no space either.
abbrev pub IsText : ℕ → Type 0
IsText x = (leb 32 x ≡ true) × ((x == percent) ≡ false)

abbrev pub IsVisible : ℕ → Type 0
IsVisible x = (leb 33 x ≡ true) × ((x == percent) ≡ false)

pub visible-IsText : (s : Bytes) → All IsVisible s → All IsText s × IsWord is_space s
visible-IsText [] h = (tt, tt)
visible-IsText (c ∷ s) h =
    let (text, word) = visible-IsText s h.1 in
    (((ground (arith, h.0.0), h.0.1), text), (ground (arith, h.0.0), word))

text_plain : (s : Bytes) → All IsText s → IsWord is_line_end s × All (λ c. c ≢ 0) s
text_plain [] h = (tt, tt)
text_plain (c ∷ s) h =
    let (whole, nonzero) = text_plain s h.1 in
    ((ground (arith, h.0.0), whole), ((λ e. ground (arith, h.0.0, e)), nonzero))

doubled_text : (s : Bytes) → All IsText s → doubled s ≡ s
doubled_text [] h = unfold doubled in refl
doubled_text (c ∷ []) h = unfold doubled in rw h.0.1 refl
doubled_text (c ∷ d ∷ s) h =
    let rest = doubled_text (d ∷ s) h.1 in
    let alone : pair c d ≡ false = ground (arith, h.0.1) in
    doubled_single c d s alone ∙ rw h.0.1 (ap (λ (t : Bytes). c ∷ t) rest)

pieces_word :
    (w : Bytes) (d : ℕ) (s : Bytes)
    → IsWord is_line_end w
    → is_line_end d ≡ true
    → pieces is_line_end (w ++ d ∷ s) ≡ w ∷ pieces is_line_end s
pieces_word [] d s word ends = rw (ends, pieces) refl
pieces_word (c ∷ w) d s word ends =
    let rest = pieces_word w d s word.1 ends in rw (word.0, pieces) (ap (cons_head c) rest)

-- One line and its carriage return.
one_line :
    (c : ℕ) (w : Bytes) → All IsText (c ∷ w) → lines (doubled ((c ∷ w) ++ 13 ∷ [])) ≡ (c ∷ w) ∷ []
one_line c w text =
    let same : doubled ((c ∷ w) ++ 13 ∷ []) ≡ (c ∷ w) ++ 13 ∷ [] =
      doubled_last (c ∷ w) 13 refl ∙ ap (λ (t : Bytes). t ++ 13 ∷ []) (doubled_text (c ∷ w) text) in
    ap lines same ∙ ap (keep filled) (pieces_word (c ∷ w) 13 [] (text_plain (c ∷ w) text).0 refl)

module _ (call : ℕ → Params → Bots → Run Bot) (net : Sockets) (srv : ℕ) where
  -- A chunk that is one printable line of less than 510 bytes, without percent signs, is that line.
  -- What has been received is counted first, and the server is still there.
  pub recv_chunk-one_line :
      (c : ℕ) (w : Bytes) (now : Bots) (v : Server)
      → All IsText (c ∷ w)
      → length (c ∷ w) < 510
      → find_server srv now.world.servers ≡ some v
      → let start = counted srv (((c ∷ w) ++ 13 ∷ []) ++ 10 ∷ []) now in
        (recv_chunk call net srv ((c ∷ w) ++ codes "\r\n") now
          ≡ then_run (line_received call net srv (c ∷ w) start) (λ res after. done (pos 0) after))
        × ((k : ℕ) × (find_server srv start.world.servers ≡ some (record v { recvd_len = k })))
        × (start.index_list ≡ now.index_list)
  recv_chunk-one_line c w now v text short found =
      let line : Bytes = c ∷ w in
      let cut : line ++ codes "\r\n" ≡ (line ++ 13 ∷ []) ++ 10 ∷ [] =
        sym (append_assoc line (13 ∷ []) (10 ∷ [])) in
      let chunk : Bytes = (line ++ 13 ∷ []) ++ 10 ∷ [] in
      let nonzero : All (λ x. x ≢ 0) (line ++ 13 ∷ []) =
        All-append _ line (13 ∷ []) (text_plain line text).1 ((λ z. omega (arith, z)), tt) in
      (
        ap (λ (s : Bytes). recv_chunk call net srv s now) cut
            ∙ (recv_chunk-lines call net srv (line ++ 13 ∷ []) now v found nonzero
                  (omega (arith, short, length-append line (13 ∷ [])))
                ∙ ap (λ ls. for_each call net srv ls (counted srv chunk now)) (one_line c w text)),
        (
          _,
          set_server_found srv
              (λ u. record u { recvd_len = (u.recvd_len + length chunk) % size_mod }) now v
              (λ u. refl) found,
        ),
        refl,
      )
