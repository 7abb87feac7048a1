-- ===== src/Lib.antt =====
-- BCIRC, an IRC bot in C with loadable plugins.
--
-- The parts of the program and the modules that model them:
--   PluginHandler (src/plugin_handler.c, headers/plugin_handler.h, headers/callback_defines.h):
--     plugins register callbacks for named events. Index has the table from an event's name to its
--     callbacks (index_callback, remove_index, get_cb_index), Registry the
--     plugins (register_callback, pause_plugin, remove_plugin), Execute the dispatch of an event
--     (execute_callbacks), Load the loading of shared objects (load_plugin, get_plugins), Names the
--     event names.
--   MessageQueue (src/irc.c): add_to_privmsg_queue, called by plugins, and handle_privmsg_queue, the
--     thread that sends at a limited rate. MessageQueue.System lets the two take turns in any order.
--   Log (src/log.c): bcirc_escape_buf, through which everything goes that is received, and
--     bcirc_printf with bcirc_log (Log.Output), which write to the screen and the log file.
--   Channel (src/channel.c, headers/channel.h): the list of channels and the users of a channel.
--   Server (src/server.c, headers/server.h): connecting, sending and disconnecting; Server.Pool has
--     the list of servers and the configuration that fills it, Server.Receive a server's thread,
--     from recv() to the callbacks for each line.
--   IrcCmds (src/irc_cmds.c): the texts of the bot's commands, the buffers that they are printed to,
--     and sending them.
--   Events (plugins/src/events-handler/events.c): get_privmsg, get_numeric and get_chan_event
--     (Events.ChanEvent), which make events of received lines.
--   Core (plugins/src/core/core.c): the callbacks for pings, log-in (Core.Registration), refused
--     nicks, joining the configured channels and connecting again (Core.Rejoin), and the signal
--     handler (Core.Shutdown).
--   ChannelHandler (plugins/src/channel-handler/channelhandler.c): topics and users from numeric
--     replies.
--   Plugins: nick (NickCommand), autojoin (Invites), autoload (Reload), benis (Benis), logger
--     (Logger) and weather (Weather) under plugins/src.
--   Title (plugins/src/title): the filter of addresses (Urls, urls.c), the search for an address in a
--     message (Search) and the requests for its title (Requests, title.c).
--   Python (plugins/src/python): pymain.c, the loading of scripts and the events that reach them
--     (Python.Events, Python.Loading), and pyapi.c, what scripts call (Python.Api); Scripts has the
--     data (pyapi.h).
--   Dispatch puts the plugins behind the function pointers of execute_callbacks: a number stands for
--     a callback, which reads its parameters and is run. Dispatch.Startup has what the plugins
--     register in plugin_init and what the loaded plugins do with received lines (Dispatch.Ping, Command
--     and Refusal), and Dispatch.ScriptEvents what scripts hear of other plugins' events.
--   Main (main.c): start, which loads the plugins and connects the configured servers, and get_input.
--   Base has the shared names: tests and lists over the native numbers, signed integers, and the
--     string functions of the C library.
--
-- How the state corresponds: a global variable is a field of a record (Handler, Queue, Channels,
-- Bot), an array with its count is a list, a pointer is the number of the object, an `int` that is
-- returned is a pos or negsuc. A call that reads out of an array's range or through a bad pointer
-- ends in a value of its own (fault, out_of_range, undefined, overrun). What a callback does is a
-- parameter, a function of its arguments and the whole state, which it may change. The sockets, the
-- clock, qsort, dlopen, the configuration library and the Python interpreter are
-- parameters too; of qsort only is assumed that it keeps the elements. The state is that of the
-- thread that runs: a server_recv thread that it starts is noted in the state, and is modelled by itself
-- (Server.Receive). The queue of messages, which several threads use, is modelled as the steps that
-- its mutex makes (MessageQueue.System); a wait without that mutex is counted.
--
-- Some sources write one byte past an array. There the room that a buffer really has is a parameter,
-- `room`, and a theorem that needs the byte says so.
--
-- Fuel: execute takes one for each level of nested calls, and two are enough; recv_lines takes one
-- for each line, and one more than the bytes of the text is enough; remove_loop of Channel stands
-- for a loop that need not end. check_loop takes two more than the bytes of the filter's text, and
-- never runs out. call_plugin has a depth, one for each callback within a callback;
-- bcirc_log one for each call of bcirc_printf within it. py_loop takes one for each callback and
-- script, and one more; unload_loop of Reload takes as many as there are plugins. Where the answers of the outside are a list (server_recv,
-- connect_loop, http_request), its end stands for a program that is still running.
--
-- Not modelled: allocations that fail (they end the process) and most of what is freed; the end of
-- the standard input; misc.c, which prints the call stack; the vendored files entities.c and
-- numeric.h, but for the numbers used; the scripts under src/py, which are in another language.
pub mod Base
pub mod PluginHandler
pub mod MessageQueue
pub mod Log
pub mod Channel
pub mod Scripts
pub mod Server
pub mod IrcCmds
pub mod Python
pub mod Events
pub mod Core
pub mod ChannelHandler
pub mod Plugins
pub mod Title
pub mod Dispatch
pub mod Main
