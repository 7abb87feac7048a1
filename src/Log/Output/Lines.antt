-- ===== src/Log/Output/Lines.antt =====
-- What a line of bcirc_printf in src/log.c leaves on the screen and in the log file.
use bcirc.Base.{
  ℕ, zero, suc, ◌+◌, ◌≤◌, Bytes, codes, [], ◌∷◌, ◌++◌, Option, none, some, ◌≡◌, refl, sym, ap, ◌∙◌,
  ◌⊎◌, inl, inr, ℤ, pos, negsuc, true, false, arith, ◌==◌, All, length, length-append, Option-cases,
}
use bcirc.Log.{percent, escaped, drop_last, bcirc_escape_buf}
use bcirc.Log.Escape.{doubled, bcirc_escape_buf_lem}
use bcirc.Log.Format.{printed, collapse, printed-doubled, doubled_last, drop_last-append}
use bcirc.Log.Output.{
  Environment, Written, Logging, wrote, faulty, spent, stamped, file_to_write, then_screen, not_set,
  bcirc_log, bcirc_printf,
}

-- No percent sign.
abbrev pub IsPlain : Bytes → Type 0
IsPlain s = All (λ c. (c == percent) ≡ false) s

printed-append : (p s r : Bytes) → IsPlain p → printed s ≡ some r → printed (p ++ s) ≡ some (p ++ r)
unfolding printed
printed-append [] s r plain h = h
printed-append (c ∷ []) [] r plain h = ground (arith, plain.0, h)
printed-append (c ∷ []) (d ∷ s) r plain h = rw (plain.0, printed) (rw h refl)
printed-append (c ∷ d ∷ p) s r plain h =
    let rest = printed-append (d ∷ p) s r plain.1 h in rw (plain.0, printed) (rw rest refl)

printed-stamped :
    (e : Environment) (text r : Bytes)
    → IsPlain e.time_prefix
    → printed text ≡ some r
    → printed (stamped e text) ≡ some (stamped e r)
printed-stamped e text r plain h =
    printed-append e.time_prefix (codes " | " ++ text) (codes " | " ++ r) plain
      (printed-append (codes " | ") text r (refl, (refl, (refl, tt))) h)

-- A call that did not return.
abbrev pub IsLost : Logging → Type 0
IsLost r = (r ≡ spent) ⊎ (r ≡ faulty)

then_screen-IsLost :
    (text : Bytes) (value : ℤ) (r : Logging) → IsLost r → IsLost (then_screen text value r)
then_screen-IsLost text value r (inl h) = inl (rw h refl)
then_screen-IsLost text value r (inr h) = inr (rw h refl)

bcirc_log_unset :
    (fuel : ℕ) (e : Environment) (str : Bytes) (file : Option Bytes) (w : Written)
    → e.log_dir ≡ none
    → IsLost (bcirc_log fuel e str file w)
unfolding bcirc_log
bcirc_log_unset zero e str file w unset = inl refl
bcirc_log_unset (suc fuel) e str file w unset = elim (Option-cases (printed str)) [
  | inl asks ↦ rw (asks, bcirc_log) (inr refl)
  | inr (output, h) ↦
      rw (h, bcirc_log)
        (rw unset (
          then_screen-IsLost (stamped e not_set) (negsuc 0) _
            (bcirc_log_unset fuel e (stamped e not_set) none w unset)))
]

-- Without a log directory bcirc_printf does not return, whatever the text and however deep its calls
-- may nest.
pub bcirc_printf_unset :
    (fuel : ℕ) (e : Environment) (text : Bytes) (w : Written)
    → e.log_dir ≡ none
    → IsLost (bcirc_printf fuel e text w)
unfolding bcirc_printf
bcirc_printf_unset fuel e text w unset =
    then_screen-IsLost (stamped e text) (pos 1) (bcirc_log fuel e (stamped e text) none w)
      (bcirc_log_unset fuel e (stamped e text) none w unset)

module _ (e : Environment) (dir : Bytes) (plain : IsPlain e.time_prefix)
    (set : e.log_dir ≡ some dir) (ready : e.dir_ready ≡ true) (opens : e.file_opens ≡ true) where
  bcirc_log_once :
      (fuel : ℕ) (str output : Bytes) (w : Written)
      → printed str ≡ some output
      → bcirc_log (suc fuel) e str none w
        ≡ wrote
            (pos 1)
            (record w { files = w.files ++ (file_to_write dir (codes "mainlog") e, output) ∷ [] })
  unfolding bcirc_log
  bcirc_log_once fuel str output w h = rw (h, bcirc_log) (rw set (rw ready (rw opens refl)))

  -- A text of at most 1024 bytes with its last byte, which is no percent sign: printed as the logger
  -- prints what bcirc_escape_buf makes of it, with a line feed behind, it is one line on the screen,
  -- with its percent signs doubled, and one line in the main log file, with each pair of percent
  -- signs as one.
  pub bcirc_printf-bcirc_escape_buf :
      (fuel : ℕ) (text : Bytes) (last : ℕ) (w : Written)
      → (last == percent) ≡ false
      → length text + 1 ≤ 1024
      → (t : Bytes) × (bcirc_escape_buf (text ++ last ∷ []) ≡ escaped t)
        × (bcirc_printf (suc fuel) e (t ++ codes "\n") w
            ≡ wrote (pos 1) (record {
              screen = w.screen ++ stamped e (doubled text ++ codes "\n");
              files =
                  w.files
                  ++ (
                    file_to_write dir (codes "mainlog") e,
                    stamped e (collapse (text ++ codes "\n")),
                  )
                    ∷ [];
            }))
  unfolding bcirc_printf
  bcirc_printf-bcirc_escape_buf fuel text last w other short =
      let size = length-append text (last ∷ []) in
      let result =
        (bcirc_escape_buf_lem (text ++ last ∷ []) (λ e. omega (arith, ap length e, size))
          (omega (arith, short, size))).0 in
      let doubles : printed (doubled text ++ codes "\n") ≡ some (collapse (text ++ codes "\n")) =
        ap printed (sym (doubled_last text 10 refl)) ∙ printed-doubled (text ++ codes "\n") in
      let line : Bytes = doubled text ++ codes "\n" in
      (
        doubled text,
        result
            ∙ ap escaped (
                ap drop_last (doubled_last text last other) ∙ drop_last-append (doubled text) last),
        ap (then_screen (stamped e line) (pos 1)) (
            bcirc_log_once fuel (stamped e line) (stamped e (collapse (text ++ codes "\n"))) w
              (printed-stamped e line (collapse (text ++ codes "\n")) plain doubles)),
      )
