-- ===== src/Lib.antt =====
-- demotool: a verification library for the remote execution tool for the Amiga. A client sends a
-- header and a file over a stream socket; a server takes the header apart, chooses a plugin by it,
-- and lets the plugin receive the file and execute it, or send memory back. A request without a
-- file, of four bytes, makes the server quit or reboot. A program of its own, the graphics searcher,
-- shows the memory as pictures, changes the view by keys, and saves it.
--
-- The parts, and the modules that model them:
-- - inc/protocol.h, the header and the codes that both programs know: Protocol. Protocol/Layout
--   has the header in memory, on a host of either byte order; Protocol/Words has `htonl`. A header
--   is a record whose numbers are those that the host reads.
-- - `recv_safe` and `send_safe` of client/demotool.c and of server/demotool.c: Socket. The socket
--   is the environment: a run is given the answers of `recv` and of `send`, and the bytes that the
--   socket took are kept. Where the answers have come to an end and the code still asks for one,
--   the run is `waiting` (Base/Run), which is no value of the program.
-- - client/demotool.c: Client has the options, Client/Header `add_extension` and `prepare_header`,
--   Client/Arguments the loop of `main` over the options, Client/Commands the functions
--   `handshake`, `lsg0`, `adf0`, `peek`, `quit_remote`, `reboot_remote` and `validate_command`.
--   The functions of stdio are inputs: what `fopen`, `ftell`, `fread`, `feof` and `fwrite` give.
--   Client/Connect is `open_connection`, with the answers of the system as inputs and the calls
--   that concern the socket in order, and Client/Main the whole of `main`.
-- - server/demotool.c: Server/Header has `check_dt_ver_len`, Server/Loader `loader_main`, one
--   function for each part of it between two calls, Server/Listen `init_with_open` and
--   `start_server`, and Server/Main `main`. The functions of a plugin are a parameter, `Functions`, that work on the
--   network and on the rest of the machine; the calls of `loader_main` are noted in a trace.
-- - server/plugin.c: Server/Plugins. A pointer to a plugin is the chain that its `next` leads
--   through. `qsort` is a parameter, of which the theorem asks that it sorts by `comp`; insertion
--   sort (Tests/Sorting) is one. The calls of dos.library in `load_plugins` are inputs.
-- - plugins/utils.c: Plugins/Utils. plugins/peek_plugin.c: Plugins/Peek. plugins/addr_plugin.c:
--   Plugins/Addr. plugins/adf_plugin.c: Plugins/Adf, with `local_exec` in Plugins/Adf/Disk; the
--   bytes of a track are a parameter, as they are those of devices/trackdisk.h.
--   plugins/loadseg_plugin.c: Plugins/Loadseg. The callbacks that a plugin is given are
--   those of server/demotool.c, Server/Callbacks: `recv_callback` is one call of `recv`, which may
--   give fewer bytes than were asked for, none at the end of the stream, or -1 where there are none
--   now; `send_callback` is `send_safe`.
-- - searcher/searcher.c, the graphics searcher: Searcher. A state, `cop_cfg_t`, is a record
--   (Searcher/View); each function that a key calls gives the state after it with the bits of what
--   changed (Searcher/Geometry, Searcher/Planes, Searcher/Colours), and Searcher/Keys has
--   `main_key_loop`. searcher/colfind.c: Searcher/Finder. The memory is a function.
--   searcher/iffhandle.c: Searcher/File, where the bytes that Write takes are kept in order and
--   its results are a parameter. searcher/ilbmw.c: Searcher/Ilbm, which lists the calls of the
--   file; `handle_filesave` of searcher/searcher.c: Searcher/Save. `setup_copper` of
--   searcher/screen.c: Searcher/Copper, the list that it builds; `update_head_texts` and
--   `update_pal_texts`: Searcher/Head, the texts that they draw, with the conversions of `sprintf`
--   in Searcher/Head/Numbers; the sprites: Searcher/Sprites. `main` of searcher/searcher.c:
--   Searcher/Main, with the messages of the window as inputs, in the batches in which they come.
-- - What two programs make of each other's bytes: Wire.
--
-- Numbers are natural numbers; where the code can leave the range of a machine word, the
-- wrap-around is written out. Loops over sockets are recursions on the answers, or on fuel: the
-- loop of `peek` in the client has a round for each answer of `recv`, as every round takes one,
-- and so has that of the plugin for absolute addresses, with one more for the last test. The loops
-- of the other plugins have a round for each byte of the size and one more, as every round that
-- goes on moves the counter. The padding of a header takes three rounds at most, and has four. The search for a
-- palette has a round for each word of the chip memory, round which it goes once.
--
-- Not modelled: what is printed; client/getopt_long.c (a copy of a C library's); of the graphics
-- searcher the structures that describe its window, and the exchange of the copper list with that of
-- the display; startup/sm.s (assembly); and the drafts in tmp/. The searcher has six planes: where the code reads
-- or writes a seventh one behind its arrays, the model has none.
pub mod Base
pub mod Protocol
pub mod Socket
pub mod Client
pub mod Server
pub mod Plugins
pub mod Searcher
pub mod Wire
pub mod Tests
