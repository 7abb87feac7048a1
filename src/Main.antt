-- ===== src/Main.antt =====
-- The start of the program, src/main.c. The environment's variables, the directory of plugins and the
-- configuration file are parameters.
pub mod LogIn
mod Tests
use bcirc.Base.{ℕ, Bytes, codes, List, [], ◌∷◌, ◌++◌, Option, none, some, ℤ}
use bcirc.PluginHandler.{Arg, Params, params}
use bcirc.PluginHandler.Index.{init_index}
use bcirc.PluginHandler.Names.{callback_got_input}
use bcirc.PluginHandler.Execute.{Run, fault, spent, execute_callbacks}
use bcirc.PluginHandler.Load.{SharedObject, DirEntry, get_plugins}
use bcirc.Scripts.{no_scripts}
use bcirc.Server.{Bot, Bots, Sockets, then_run}
use bcirc.Server.Pool.{ServerSetting, load_servers}

-- The globals once they are initialised.
abbrev pub first_state : Bots
first_state = record {
  plugin_list = [];
  index_list = init_index;
  next_addr = 1;
  world = record {
    servers = [];
    server_list = [];
    threads = [];
    channels = record { channel_list = []; next_addr = 1 };
    wire = [];
    scripts = no_scripts;
  };
}

-- What main() takes from its surroundings: BCIRC_PLUGINS_BIN and the directory there,
-- BCIRC_CONFIG_DIR, and what the configuration library finds in a file.
pub record Outside : Type 0 where
  pub plugin_dir : Option Bytes
  pub entries : Option (List DirEntry)
  pub configdir : Option Bytes
  pub read_config : Bytes → Option (Option (List ServerSetting))
  pub thread_result : ℕ

module _ (call : ℕ → Params → Bots → Run Bot) where
  -- One line to each round; where they run out, the program waits for the next.
  unfoldable pub get_input : List Bytes → Bots → Run Bot
  get_input [] h = spent
  get_input (input ∷ inputs) h =
      then_run (execute_callbacks call callback_got_input (params (Arg.str input ∷ [])) h)
        (λ res after. get_input inputs after)

  module _ (net : Sockets) (dl_open : Bytes → Option (SharedObject Bot)) where
    -- Up to get_input. The length of a null pointer's text is taken where there is no
    -- configuration directory.
    abbrev pub configured : Outside → Option Bytes → Bots → Run Bot
    configured o none h = fault
    configured o (some dir) h =
        load_servers call net o.thread_result (o.read_config (dir ++ codes "/bcirc.conf")) h

    -- `none` is the exit for no directory of plugins.
    unfoldable pub start : Outside → Option (Run Bot)
    start o = elim o.plugin_dir [
      | none ↦ none
      | some dir ↦ some (configured o o.configdir (get_plugins dl_open dir o.entries first_state).1)
    ]

    abbrev pub then_input : List Bytes → Option (Run Bot) → Option (Run Bot)
    then_input inputs none = none
    then_input inputs (some r) = some (then_run r (λ res after. get_input inputs after))

    unfoldable pub main : Outside → List Bytes → Option (Run Bot)
    unfolding start get_input
    main o inputs = then_input inputs (start o)
