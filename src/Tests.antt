-- ===== src/Tests.antt =====
-- The theorems at concrete inputs, and runs of the definitions.
pub mod Sorting
pub mod Commands
pub mod Plugins
pub mod Searcher
pub mod Ilbm
pub mod Header
pub mod Client
use demotool.Base.{
  ℕ, sym, append-nil, ◌+◌, ◌*◌, ◌/◌, ◌<◌, ◌≤◌, ◌≡◌, ◌≢◌, refl, Bool, true, false, Option, none,
  some, List, [], ◌∷◌, ◌++◌, arith,
}
use demotool.Base.{All, length, take, drop, if◌then◌else◌}
use demotool.Base.Int.{pos, negate}
use demotool.Base.Run.{ok, waiting, pure}
use demotool.Socket.{Recv, got, Sent, took, Net, recv_safe, send_safe}
use demotool.Socket.Receive.{
  Delivers, done, stall, piece, IsShorter, recv_safe-Delivers, recv_safe-closed,
}
use demotool.Socket.Transmit.{Takes, last, part, send_safe-Takes}
use demotool.Protocol.{Endian, little, big}
use demotool.Protocol.Flag
use demotool.Protocol.Flag.{has_flag}
use demotool.Protocol.Layout.{store_header, load_header}
use demotool.Protocol.Err
use demotool.Client.{Options}
use demotool.Client.Header.{fill_header, extension_bytes}
use demotool.Client.Header.Length.{HasShortTexts}
use demotool.Server.Header.{check_dt_ver_len}
use demotool.Base.CString.{strncpy, same_prefix}
use demotool.Protocol.{be32, htonl}
use demotool.Server.Plugins.{
  Plugin, Info, Directory, plugin_magic, plugin_tagver, version, find_plugin, load_plugins,
  release_plugins,
}
use demotool.Server.Plugins.{Pointer, collect, prune_plugin_list}
use demotool.Server.Plugins.Prune.{HasIncreasingIds, IsServed, prune_plugin_list_lem}
use demotool.Tests.Sorting.{insertion_sort, insertion_sort-Sorts}
use demotool.Server.Plugins.Find.{Outcome, find_plugin-Outcome}
use demotool.Server.Plugins.Load.{
  IsReadable, count, loaded, plugins, load_plugins-release_plugins, load_plugins-plugins,
}
use demotool.Server.Loader
use demotool.Server.Listen.{Service}
use demotool.Server.Main.{Amiga}
use demotool.Server.Main
use demotool.Server.Main.Releases.{Ends, main-Ends}
use demotool.Protocol.{dt_hdr_tag_cmd_quit}
use demotool.Server.Loader.{Functions, Server, Config, loader_main, select_plugin}
use demotool.Server.Loader.Phases.{After}
use demotool.Wire.Handshake.{served, loader_main_request}
use demotool.Wire.Extensions.{device-load_header}
use demotool.Plugins.Loadseg.{device}
use demotool.Wire.Request.{AreWords, requested, load-fill_header, check-fill_header}

abbrev options : Options
options = record {
  addr = 0x50000;
  jump = 0;
  flags = 4;
  size = 1000;
  device = some (b'd' ∷ b'f' ∷ b'0' ∷ []);
  plugin = b'l' ∷ b's' ∷ b'g' ∷ b'0' ∷ [];
  named_plugin = none;
  file = none;
  cmdline = some (b'-' ∷ b'x' ∷ []);
  major = 1;
  minor = 2;
}

options-HasShortTexts : HasShortTexts options
options-HasShortTexts = omega arith

options-AreWords : AreWords options
options-AreWords = omega arith

load-fill_header_example :
    load_header big (store_header little (fill_header little options)) ≡ requested options
load-fill_header_example = load-fill_header little options options-AreWords

check-fill_header_example :
    check_dt_ver_len (fill_header big options).hdr_tag_len_ver
    ≡ record { code = Err.ok; len_ver = some (24 + length (extension_bytes options), 0) }
check-fill_header_example = check-fill_header big options options-HasShortTexts

whole : {rest : List Recv} (bs : List ℕ) → 0 < length bs → Delivers rest bs (got bs ∷ rest)
whole bs h = piece bs h (sym (append-nil bs)) done

-- A network that brings the request in two pieces, and takes four bytes at a time.
abbrev requesting : Net
requesting = record {
  inbox =
      got (take 4 (store_header little (fill_header little options)))
      ∷ got (drop 4 (store_header little (fill_header little options)))
      ∷ [];
  outlet = took 4 ∷ took 4 ∷ [];
  sent = [];
}

-- A plugin whose functions all succeed.
abbrev functions : Functions ℕ
functions = record {
  init = λ h. pure (some 1);
  exec = λ ctx. pure 0;
  run = λ ctx. pure 0;
  done = λ ctx. pure 0;
  errno = λ ctx. pure 0;
}

abbrev lsg0_plugin : Plugin (Functions ℕ)
lsg0_plugin = record {
  magic = plugin_magic;
  tag_ver = plugin_tagver;
  seglist = 700;
  info = record { plugin_id = 0x6c73_6730; major = 1; minor = 3; functions = functions };
}

abbrev lsg0_old_plugin : Plugin (Functions ℕ)
lsg0_old_plugin = record lsg0_plugin {
  seglist = 800;
  info = record { plugin_id = 0x6c73_6730; major = 1; minor = 0; functions = functions };
}

abbrev config : Config ℕ
config = record { delay = 2; memory = true; list = lsg0_old_plugin ∷ lsg0_plugin ∷ [] }

abbrev server : Net → Server ℕ
server net = record { host = record { net = net; machine = 0 }; active_socket = some 5; trace = [] }

loader_main_request_example :
    loader_main config (server requesting)
    ≡ select_plugin config (requested options) (served config (server requesting) [])
unfolding store_header fill_header strncpy
loader_main_request_example =
    loader_main_request config little options (server requesting) options-HasShortTexts
      options-AreWords refl (whole _ (omega arith)) (whole _ (omega arith))

-- The request finds the later version of the two, and the session ends offline.
loader_main_runs :
    After
      (λ r s'. (r ≡ 0) × (s'.active_socket ≡ none) × (s'.host.net.sent ≡ 0 ∷ 0 ∷ 0 ∷ 0 ∷ []))
      (loader_main config (server requesting))
unfolding loader_main select_plugin Loader.recv_data Loader.with_tag Loader.check_header
    Loader.with_length Loader.read_header Loader.with_header Loader.start_plugin Loader.with_context
    Loader.execute Loader.run_plugin Loader.send_response Loader.recv_safe Loader.send_safe
    Loader.on_net Loader.on_host Loader.note Loader.close_connection recv_safe send_safe fill_header
    store_header load_header extension_bytes find_plugin version strncpy same_prefix
    check_dt_ver_len demotool.Client.Header.extension_room demotool.Client.Header.ver_len
    demotool.Client.Header.pad_loop demotool.Client.Header.device_bytes
    demotool.Client.Header.cmdline_bytes demotool.Client.Header.add_extension
    demotool.Client.Header.copy_text demotool.Client.Header.device_room
    demotool.Client.Header.cmdline_room be32 htonl demotool.Protocol.be16 demotool.Protocol.of_be16
    demotool.Server.Header.header_len
loader_main_runs = (refl, refl, refl)

find_plugin-Outcome_example :
    Outcome (b'l' ∷ b's' ∷ b'g' ∷ b'0' ∷ []) 0x102 false (lsg0_old_plugin ∷ lsg0_plugin ∷ []) (
      find_plugin (lsg0_old_plugin ∷ lsg0_plugin ∷ []) (b'l' ∷ b's' ∷ b'g' ∷ b'0' ∷ []) 0x102 false)
find_plugin-Outcome_example =
    find_plugin-Outcome (b'l' ∷ b's' ∷ b'g' ∷ b'0' ∷ []) 0x102 false
      (lsg0_old_plugin ∷ lsg0_plugin ∷ [])

abbrev directory : Directory (Functions ℕ)
directory = record {
  fib_allocated = true;
  locked = true;
  examined = true;
  is_directory = true;
  entries =
      record { is_file = true; segment = some lsg0_plugin }
      ∷ record { is_file = true; segment = some (record lsg0_plugin { magic = 0; seglist = 900 }) }
      ∷ record { is_file = false; segment = none }
      ∷ [];
  no_more_entries = true;
}

directory-IsReadable : IsReadable directory
directory-IsReadable = record {
  fib_allocated = refl;
  locked = refl;
  examined = refl;
  is_directory = refl;
}

-- A server that is told to quit by its first connection.
abbrev amiga : Amiga ℕ
amiga = record {
  read_args = some (record {
    plugins = none;
    port = none;
    address = none;
    device = none;
    prune = true;
    delay = some 1;
  });
  directory = λ path. directory;
  table_memory = true;
  header_memory = true;
  qsort = insertion_sort;
  at_zero = [];
  library = true;
  opening = λ settings. record {
    socket = some 3;
    is_reusable = true;
    is_bound = true;
    is_listening = true;
  };
  connections =
      record {
        socket = 6;
        net = record { inbox = got dt_hdr_tag_cmd_quit ∷ []; outlet = took 4 ∷ []; sent = [] };
      }
      ∷ [];
}

abbrev idle : Service ℕ
idle = record { machine = 0; closed = [] }

main-Ends_example : Ends amiga 900 idle (demotool.Server.Main.main amiga idle)
main-Ends_example = main-Ends amiga 900 idle (λ args. directory-IsReadable)

load_plugins-plugins_example :
    ((load_plugins directory).1.chain ≡ plugins directory.entries)
    × ((load_plugins directory).0 ≡ (
        if directory.no_more_entries
        then pos (length (plugins directory.entries))
        else negate (length (plugins directory.entries))))
load_plugins-plugins_example = load_plugins-plugins directory directory-IsReadable

recv_safe-Delivers_example :
    recv_safe 3
      (record { inbox = got (7 ∷ []) ∷ Recv.again ∷ got (8 ∷ 9 ∷ []) ∷ []; outlet = []; sent = [] })
    ≡ ok (some (7 ∷ 8 ∷ 9 ∷ [])) (record { inbox = []; outlet = []; sent = [] })
recv_safe-Delivers_example =
    recv_safe-Delivers {bs = 7 ∷ 8 ∷ 9 ∷ []}
      (record { inbox = got (7 ∷ []) ∷ Recv.again ∷ got (8 ∷ 9 ∷ []) ∷ []; outlet = []; sent = [] })
      (piece (7 ∷ []) (omega arith) refl
        (stall (omega arith) (piece (8 ∷ 9 ∷ []) (omega arith) refl done)))

recv_safe-closed_example :
    recv_safe 4 (record {
      inbox = Recv.again ∷ got (7 ∷ []) ∷ Recv.again ∷ got (8 ∷ []) ∷ got [] ∷ [];
      outlet = [];
      sent = [];
    })
    ≡ waiting
recv_safe-closed_example =
    recv_safe-closed 4
      (record {
        inbox = Recv.again ∷ got (7 ∷ []) ∷ Recv.again ∷ got (8 ∷ []) ∷ got [] ∷ [];
        outlet = [];
        sent = [];
      })
      (IsShorter.stalled (
        IsShorter.part (7 ∷ []) refl (
          IsShorter.stalled (
            IsShorter.part (8 ∷ []) refl
              (IsShorter.part [] refl (IsShorter.nothing {n = 2} (omega arith)))))))

send_safe-Takes_example :
    send_safe (7 ∷ 8 ∷ 9 ∷ []) (record { inbox = []; outlet = took 1 ∷ took 2 ∷ []; sent = 6 ∷ [] })
    ≡ ok (some 3) (record { inbox = []; outlet = []; sent = 6 ∷ 7 ∷ 8 ∷ 9 ∷ [] })
send_safe-Takes_example =
    send_safe-Takes (7 ∷ 8 ∷ 9 ∷ [])
      (record { inbox = []; outlet = took 1 ∷ took 2 ∷ []; sent = 6 ∷ [] })
      (part 1 (omega arith) last)

device-load_header_example :
    device (load_header big (store_header little (fill_header little options)))
    ≡ some (b'd' ∷ b'f' ∷ b'0' ∷ [])
device-load_header_example =
    device-load_header little options (b'd' ∷ b'f' ∷ b'0' ∷ []) options-AreWords
      options-HasShortTexts refl refl

prune_plugin_list_lem_example :
    (table : List (Pointer (Functions ℕ))) × (size : ℕ) × (prune_plugin_list insertion_sort true
        (lsg0_old_plugin ∷ lsg0_plugin ∷ [])
      ≡ some (table, size))
    × HasIncreasingIds (take size table)
    × All (IsServed (take size table)) (collect (lsg0_old_plugin ∷ lsg0_plugin ∷ []))
prune_plugin_list_lem_example =
    prune_plugin_list_lem insertion_sort (lsg0_old_plugin ∷ lsg0_plugin ∷ []) insertion_sort-Sorts
