-- ===== src/Log/Output.antt =====
-- bcirc_printf and bcirc_log of src/log.c. The text of bcirc_printf is what its format gives; the
-- clock, the date and the file system are an environment.
pub mod Lines
use bcirc.Base.{
  ℕ, zero, suc, Bytes, codes, List, [], ◌∷◌, ◌++◌, Option, none, some, ℤ, pos, negsuc, Bool, true,
  false, if◌then◌else◌,
}
use bcirc.Log.Format.{printed}

-- What strftime gives for the prefix of a line and for a file's name, BCIRC_LOG_DIR, whether that is a
-- directory or can be made one, and whether the file can be opened.
pub record Environment : Type 0 where
  pub time_prefix : Bytes
  pub log_name_time : Bytes
  pub log_dir : Option Bytes
  pub dir_ready : Bool
  pub file_opens : Bool

-- What was written to the screen and, with the files' names, to the log files.
pub record Written : Type 0 where
  pub screen : Bytes
  pub files : List (Bytes × Bytes)

-- A value returned, the end of the process, undefined behaviour, or (not a behaviour of the code) no
-- fuel left.
pub data Logging : Type 0 where
  wrote : ℤ → Written → Logging
  exited : Logging
  faulty : Logging
  spent : Logging

-- `new_output`.
abbrev pub stamped : Environment → Bytes → Bytes
stamped e text = e.time_prefix ++ (codes " | " ++ text)

-- `file_to_write`.
abbrev pub file_to_write : Bytes → Bytes → Environment → Bytes
file_to_write dir file e = dir ++ codes "/" ++ file ++ codes "." ++ e.log_name_time ++ codes ".log"

abbrev pub file_or_main : Option Bytes → Bytes
file_or_main none = codes "mainlog"
file_or_main (some file) = file

-- The `printf` behind a call of bcirc_log, whose value is dropped.
abbrev pub then_screen : Bytes → ℤ → Logging → Logging
then_screen text value (wrote res w) = wrote value (record w { screen = w.screen ++ text })
then_screen text value exited = exited
then_screen text value faulty = faulty
then_screen text value spent = spent

abbrev pub to_file : Environment → Bytes → Bytes → Bytes → Written → Logging
to_file e dir file output w =
    if e.dir_ready
    then (if e.file_opens
        then wrote (pos 1) (record w { files = w.files ++ (file_to_write dir file e, output) ∷ [] })
        else faulty)
    else exited

abbrev pub not_set : Bytes
not_set = codes "BCIRC_LOG_DIR is not set!\n"

-- `str` is a format without arguments. Without a directory bcirc_printf is called, which calls
-- bcirc_log.
unfoldable pub bcirc_log : ℕ → Environment → Bytes → Option Bytes → Written → Logging
bcirc_log zero e str file w = spent
bcirc_log (suc fuel) e str file w = elim (printed str) [
  | none ↦ faulty
  | some output ↦ elim e.log_dir [
    | none ↦
        then_screen (stamped e not_set) (negsuc 0) (bcirc_log fuel e (stamped e not_set) none w)
    | some dir ↦ to_file e dir (file_or_main file) output w
  ]
]

unfoldable pub bcirc_printf : ℕ → Environment → Bytes → Written → Logging
unfolding bcirc_log
bcirc_printf fuel e text w =
    then_screen (stamped e text) (pos 1) (bcirc_log fuel e (stamped e text) none w)
