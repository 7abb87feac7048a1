-- ===== src/Log/Escape.antt =====
-- bcirc_escape_buf of src/log.c against a description of what it writes, its bounds, and what its
-- result means as a format.
use bcirc.Base.{
  ℕ, ◌+◌, ◌*◌, ◌≤◌, Bytes, [], ◌∷◌, ◌++◌, ◌≡◌, ◌≢◌, refl, sym, ap, ◌∙◌, inl, inr, true, false,
  arith, ◌==◌, length, length-append, append_assoc, append-nil, Bool-cases, if◌then◌else◌,
}
use bcirc.Log.{
  max_len, percent, room, push, pair, escaped, escape_loop, drop_last, terminate, bcirc_escape_buf,
}

-- What stands for one byte.
abbrev pub one : ℕ → Bytes
one c = if c == percent then percent ∷ percent ∷ [] else c ∷ []

-- The whole text: a percent sign, and also a pair of them, becomes a pair.
unfoldable pub doubled : Bytes → Bytes
doubled [] = []
doubled (c ∷ []) = one c
doubled (c ∷ d ∷ s) = elim (pair c d) [
  | true ↦ one c ++ doubled s
  | false ↦ one c ++ doubled (d ∷ s)
]

pub doubled_both :
    (c d : ℕ) (s : Bytes) → pair c d ≡ true → doubled (c ∷ d ∷ s) ≡ one c ++ doubled s
unfolding doubled
doubled_both c d s h = rw (h, doubled)

pub doubled_single :
    (c d : ℕ) (s : Bytes) → pair c d ≡ false → doubled (c ∷ d ∷ s) ≡ one c ++ doubled (d ∷ s)
unfolding doubled
doubled_single c d s h = rw (h, doubled)

length-one : (c : ℕ) → length (one c) ≤ 2
length-one c = ground arith

length-doubled : (s : Bytes) → length (doubled s) ≤ 2 * length s
unfolding doubled
length-doubled [] = omega arith
length-doubled (c ∷ []) = ground arith
length-doubled (c ∷ d ∷ s) = ground (arith, length-doubled s, length-doubled (d ∷ s))

push_room :
    (c : ℕ) (out : Bytes) → length out + length (one c) ≤ max_len → push c out ≡ room (out ++ one c)
unfolding push
push_room c out h = ground arith

module _ (c d : ℕ) (s out out' : Bytes) (pushed : push c out ≡ room out') where
  loop_last : escape_loop (c ∷ []) out ≡ escaped out'
  unfolding escape_loop
  loop_last = rw (pushed, escape_loop)

  loop_both : pair c d ≡ true → escape_loop (c ∷ d ∷ s) out ≡ escape_loop s out'
  unfolding escape_loop
  loop_both h = rw (pushed, escape_loop) (rw h)

  loop_single : pair c d ≡ false → escape_loop (c ∷ d ∷ s) out ≡ escape_loop (d ∷ s) out'
  unfolding escape_loop
  loop_single h = rw (pushed, escape_loop) (rw h)

-- While the text fits, the loop appends what is described.
escape_loop-doubled :
    (s out : Bytes)
    → length out + length (doubled s) ≤ max_len
    → escape_loop s out ≡ escaped (out ++ doubled s)
escape_loop-doubled [] out h = unfold escape_loop doubled in rw append-nil
escape_loop-doubled (c ∷ []) out h =
    unfold doubled in loop_last c 0 [] out _ (push_room c out (unfold doubled in h))
escape_loop-doubled (c ∷ d ∷ s) out h = elim (Bool-cases (pair c d)) [
  | inl both ↦
      let whole : length (doubled (c ∷ d ∷ s)) ≡ length (one c) + length (doubled s) =
        ap length (doubled_both c d s both) ∙ length-append (one c) (doubled s) in
      let sofar : length (out ++ one c) ≡ length out + length (one c) = length-append out (one c) in
      loop_both c d s out _ (push_room c out (omega arith)) both
      ∙ (escape_loop-doubled s (out ++ one c) (omega arith)
          ∙ ap escaped (
              append_assoc out (one c) (doubled s)
              ∙ ap (λ (t : Bytes). out ++ t) (sym (doubled_both c d s both))))
  | inr single ↦
      let whole : length (doubled (c ∷ d ∷ s)) ≡ length (one c) + length (doubled (d ∷ s)) =
        ap length (doubled_single c d s single) ∙ length-append (one c) (doubled (d ∷ s)) in
      let sofar : length (out ++ one c) ≡ length out + length (one c) = length-append out (one c) in
      loop_single c d s out _ (push_room c out (omega arith)) single
      ∙ (escape_loop-doubled (d ∷ s) (out ++ one c) (omega arith)
          ∙ ap escaped (
              append_assoc out (one c) (doubled (d ∷ s))
              ∙ ap (λ (t : Bytes). out ++ t) (sym (doubled_single c d s single))))
]

length-drop_last : (c : ℕ) (s : Bytes) → length (drop_last (c ∷ s)) + 1 ≡ length (c ∷ s)
length-drop_last c [] = omega arith
length-drop_last c (d ∷ s) = omega (arith, length-drop_last d s)

terminate_some :
    (t : Bytes)
    → t ≢ []
    → (terminate (escaped t) ≡ escaped (drop_last t)) × (length (drop_last t) + 1 ≡ length t)
unfolding terminate
terminate_some [] h = absurd (h refl)
terminate_some (c ∷ s) h = (refl, length-drop_last c s)

doubled-ne-nil : (s : Bytes) → s ≢ [] → doubled s ≢ []
unfolding doubled
doubled-ne-nil [] h = absurd (h refl)
doubled-ne-nil (c ∷ []) h = ground arith
doubled-ne-nil (c ∷ d ∷ s) h = ground arith

-- A text of 1 to 1024 bytes never overruns the local array and is never refused: the result is the
-- text with its percent signs doubled, without its last byte, and with its terminating zero it
-- takes at most twice the bytes of the text (1024 for the 512 that server_recv reads).
pub bcirc_escape_buf_lem :
    (str : Bytes)
    → str ≢ []
    → length str ≤ 1024
    → (bcirc_escape_buf str ≡ escaped (drop_last (doubled str)))
      × (length (drop_last (doubled str)) + 1 ≤ 2 * length str)
unfolding bcirc_escape_buf
bcirc_escape_buf_lem str some_text short =
    let fits : length (doubled str) ≤ 2 * length str = length-doubled str in
    let (ends, size) = terminate_some (doubled str) (doubled-ne-nil str some_text) in
    (ap terminate (escape_loop-doubled str [] (omega arith)) ∙ ends, omega arith)
