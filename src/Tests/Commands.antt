-- ===== src/Tests/Commands.antt =====
-- The theorems on the commands at concrete inputs.
use demotool.Base.{
  false, ℕ, ◌<◌, ◌≡◌, refl, sym, true, none, some, List, [], ◌∷◌, ◌++◌, append-nil, arith,
}
use demotool.Base.{length}
use demotool.Base.Int.{pos}
use demotool.Base.CString.{same_prefix, strncpy}
use demotool.Base.Run.{ok}
use demotool.Socket.{Recv, got, Sent, took}
use demotool.Socket.Receive.{Delivers, done, piece}
use demotool.Socket.Transmit.{last, part}
use demotool.Protocol.{Endian, little, big, be32, dt_hdr_tag_cmd_quit, dt_cmd_quit, dt_cmd_plugin}
use demotool.Protocol.Err
use demotool.Client.{Options}
use demotool.Client.Arguments.{Arg, defaults, set_options}
use demotool.Client.Arguments.Checked.{AllOf, IsChecked, set_options-defaults}
use demotool.Client.Header.Length.{HasShortTexts}
use demotool.Client.Commands.{InputFile, lsg0, recv_pieces, quit_remote}
use demotool.Client.Commands.Peek.{Ends, IsFailure, recv_pieces-IsFailure}
use demotool.Client.Commands.Transfer.{contents, nothing, one, request, lsg0-Delivers}
use demotool.Server.Header.{check_dt_ver_len}
use demotool.Server.Loader.{Server, Config, loader_main}
use demotool.Server.Listen.{Connection, Opening, Service, accepted, closed_by, closes, start_server}
use demotool.Server.Listen.Session.{Passes}
use demotool.Wire.Session.{start_server-command}
use demotool.Socket.{recv_safe}
use demotool.Wire.Commands.{
  quit, sends, tag_of, answered, sends-Delivers, loader_main-command, loader_main-refused,
}

whole : {rest : List Recv} (bs : List ℕ) → 0 < length bs → Delivers rest bs (got bs ∷ rest)
whole bs h = piece bs h (sym (append-nil bs)) done

abbrev options : Options
options = record {
  addr = 0;
  jump = 0;
  flags = 0;
  size = 0;
  device = none;
  plugin = b'l' ∷ b's' ∷ b'g' ∷ b'0' ∷ [];
  named_plugin = none;
  file = none;
  cmdline = none;
  major = 1;
  minor = 0;
}

options-HasShortTexts : HasShortTexts options
options-HasShortTexts = record { device_short = tt; cmdline_short = tt }

-- A file of five bytes, read in two pieces.
abbrev program : InputFile
program = record { offset = pos 5; pieces = (1 ∷ 2 ∷ 3 ∷ []) ∷ (4 ∷ 5 ∷ []) ∷ []; eof = true }

abbrev outlet : List Sent
outlet = took 28 ∷ took 1 ∷ took 2 ∷ took 2 ∷ []

lsg0-Delivers_example :
    lsg0 little true
      (some program)
      options
      (record { inbox = got (be32 0) ∷ got (be32 6) ∷ []; outlet = outlet; sent = [] })
    ≡ ok 6 (record {
      inbox = [];
      outlet = [];
      sent = request little options program ++ contents program.pieces;
    })
unfolding be32 demotool.Client.Commands.get_file_read_size demotool.Protocol.Layout.store_header
    demotool.Client.Header.fill_header demotool.Client.Header.extension_bytes strncpy
lsg0-Delivers_example =
    lsg0-Delivers little options program [] {inbox = got (be32 0) ∷ got (be32 6) ∷ []}
      {outlet = outlet} 6 options-HasShortTexts refl refl last (whole (be32 0) (omega arith))
      (one (part 1 (omega arith) last) (one last nothing)) (whole (be32 6) (omega arith))
      (omega arith)

recv_pieces-IsFailure_example :
    Ends IsFailure
      (recv_pieces length 2 [] 0 (record { inbox = Recv.failed ∷ []; outlet = []; sent = [] }))
recv_pieces-IsFailure_example =
    recv_pieces-IsFailure length 2 [] 0
      (record { inbox = Recv.failed ∷ []; outlet = []; sent = [] })

sends-Delivers_example :
    sends quit little
      (record { inbox = got (be32 0) ∷ []; outlet = took 1 ∷ took 3 ∷ []; sent = [] })
    ≡ ok 0 (record { inbox = []; outlet = []; sent = tag_of quit })
unfolding be32
sends-Delivers_example =
    sends-Delivers quit little {inbox = got (be32 0) ∷ []} {outlet = took 1 ∷ took 3 ∷ []} [] 0
      (part 1 (omega arith) last) (whole (be32 0) (omega arith)) (omega arith)

abbrev config : Config ℕ
config = record { delay = 0; memory = true; list = [] }

abbrev server : List ℕ → Server ℕ
server bytes = record {
  host = record {
    net = record { inbox = got bytes ∷ []; outlet = took 4 ∷ []; sent = [] };
    machine = 0;
  };
  active_socket = some 5;
  trace = [];
}

loader_main-command_example :
    loader_main config (server dt_hdr_tag_cmd_quit)
    ≡ ok dt_cmd_quit (answered (server dt_hdr_tag_cmd_quit) [] [] Err.ok)
loader_main-command_example =
    loader_main-command config (server dt_hdr_tag_cmd_quit) quit
      (whole dt_hdr_tag_cmd_quit (omega arith)) last

-- A header of version 1.
abbrev newer : List ℕ
newer = b'H' ∷ b'D' ∷ b'R' ∷ 0x1d ∷ []

loader_main-refused_example :
    loader_main config (server newer)
    ≡ ok dt_cmd_plugin (answered (server newer) [] [] (check_dt_ver_len newer).code)
unfolding same_prefix check_dt_ver_len demotool.Server.Header.header_len
loader_main-refused_example =
    loader_main-refused config (server newer) b'H' b'D' b'R' 0x1d (whole newer (omega arith)) last
      refl refl (omega arith)

-- A connection that the client closes at once, and one that brings the command to quit.
abbrev failing : Connection
failing = record { socket = 5; net = record { inbox = Recv.failed ∷ []; outlet = []; sent = [] } }

abbrev quitting : Connection
quitting = record {
  socket = 6;
  net = record { inbox = got dt_hdr_tag_cmd_quit ∷ []; outlet = took 4 ∷ []; sent = [] };
}

abbrev opening : Opening
opening = record { socket = some 3; is_reusable = true; is_bound = true; is_listening = true }

abbrev idle : Service ℕ
idle = record { machine = 0; closed = [] }

failing-Passes : Passes config (failing ∷ []) idle (record { machine = 0; closed = 5 ∷ [] })
unfolding loader_main demotool.Server.Loader.recv_data demotool.Server.Loader.recv_safe
    demotool.Server.Loader.on_net recv_safe demotool.Server.Loader.with_tag closed_by closes
failing-Passes =
    Passes.one
      (record (accepted failing 0) {
        host = record { net = record { inbox = []; outlet = []; sent = [] }; machine = 0 };
      })
      refl Passes.done

start_server-command_example :
    start_server true opening config (failing ∷ quitting ∷ failing ∷ []) idle
    ≡ ok (some dt_cmd_quit, false) (record { machine = 0; closed = 5 ∷ 6 ∷ 3 ∷ [] })
start_server-command_example =
    start_server-command config opening 3 quit quitting (failing ∷ [])
      (record { is_socket = refl; is_reusable = refl; is_bound = refl; is_listening = refl })
      failing-Passes (whole dt_hdr_tag_cmd_quit (omega arith)) last

abbrev arguments : List Arg
arguments =
    record { ch = b'd'; optarg = b'd' ∷ b'f' ∷ b'1' ∷ [] }
    ∷ record { ch = b's'; optarg = b'9' ∷ [] }
    ∷ []

set_options-defaults_example :
    AllOf IsChecked (set_options (λ text. some (1, 0)) (λ text. 9) arguments defaults)
set_options-defaults_example = set_options-defaults (λ text. some (1, 0)) (λ text. 9) arguments
