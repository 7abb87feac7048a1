-- ===== src/Log/Tests.antt =====
-- bcirc_escape_buf at concrete texts.
use bcirc.Base.{◌+◌, ◌*◌, ◌≤◌, Bytes, codes, [], ◌∷◌, ◌++◌, some, ◌≡◌, refl, arith, length}
use bcirc.Log.{escaped, overrun, drop_last, bcirc_escape_buf}
use bcirc.Log.Escape.{doubled, bcirc_escape_buf_lem}
use bcirc.Base.{Option, none, true, pos}
use bcirc.Log.Output.{Environment, Written, wrote, stamped, bcirc_printf}
use bcirc.Log.Output.Lines.{IsLost, bcirc_printf_unset, bcirc_printf-bcirc_escape_buf}
use bcirc.Log.Format.{collapse}

-- The empty text is written in front of the array.
empty_text : bcirc_escape_buf [] ≡ overrun
unfolding bcirc_escape_buf
empty_text = refl

-- A percent sign at the end loses half of its pair.
percent_at_end : bcirc_escape_buf (codes "5%") ≡ escaped (codes "5%")
unfolding bcirc_escape_buf
percent_at_end = refl

bcirc_escape_buf_lem_example :
    (bcirc_escape_buf (codes "5%d\n") ≡ escaped (drop_last (doubled (codes "5%d\n"))))
    × (length (drop_last (doubled (codes "5%d\n"))) + 1 ≤ 2 * 4)
bcirc_escape_buf_lem_example = bcirc_escape_buf_lem (codes "5%d\n") (λ e. cc) (omega arith)

abbrev log_to : Option Bytes → Environment
log_to dir = record {
  time_prefix = codes "12:00:00";
  log_name_time = codes "01-02-2016";
  log_dir = dir;
  dir_ready = true;
  file_opens = true;
}

abbrev nothing : Written
nothing = record { screen = []; files = [] }

bcirc_printf_unset_example : IsLost (bcirc_printf 100 (log_to none) (codes "hi\n") nothing)
bcirc_printf_unset_example = bcirc_printf_unset 100 (log_to none) (codes "hi\n") nothing refl

bcirc_printf-bcirc_escape_buf_example :
    (t : Bytes) × (bcirc_escape_buf (codes "5%d" ++ 10 ∷ []) ≡ escaped t)
    × (bcirc_printf 1 (log_to (some (codes "/log"))) (t ++ codes "\n") nothing
        ≡ wrote (pos 1) (record {
          screen = stamped (log_to (some (codes "/log"))) (doubled (codes "5%d") ++ codes "\n");
          files =
              (
                codes "/log/mainlog.01-02-2016.log",
                stamped (log_to (some (codes "/log"))) (collapse (codes "5%d" ++ codes "\n")),
              )
              ∷ [];
        }))
bcirc_printf-bcirc_escape_buf_example =
    bcirc_printf-bcirc_escape_buf (log_to (some (codes "/log"))) (codes "/log")
      (refl, (refl, (refl, (refl, (refl, (refl, (refl, (refl, tt)))))))) refl refl refl 0
      (codes "5%d") 10 nothing refl (omega arith)
