-- ===== src/Python/Overflow.antt =====
-- The object of a script in plugins/src/python/pymain.c, which malloc is asked for with the size of a
-- pointer.
use bcirc.Base.{codes, Bool, not, ◌&&◌, str_eq}
use bcirc.PluginHandler.Load.{DirEntry}
use bcirc.Python.{Python}

-- The file is taken for a script.
abbrev pub is_taken : DirEntry → Bool
is_taken d = d.is_regular && not (str_eq d.d_name (codes "__init__"))
