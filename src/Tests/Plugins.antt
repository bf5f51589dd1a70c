-- ===== src/Tests/Plugins.antt =====
-- The theorems on the plugins at concrete inputs.
use demotool.Base.{ℕ, ◌-◌, ◌≡◌, refl, true, false, List, [], ◌∷◌, ◌++◌, length, arith}
use demotool.Base.Run.{ok, waiting}
use demotool.Base.Int.{pos}
use demotool.Socket.{Recv, got, took, Net}
use demotool.Socket.Transmit.{last, part}
use demotool.Server.Callbacks.Brings.{Brings, nothing, piece, at_end, nothing_more}
use demotool.Protocol.{Header, be32}
use demotool.Protocol.Err
use demotool.Plugins.Loadseg
use demotool.Plugins.Loadseg.Exec as Load
use demotool.Plugins.Peek
use demotool.Plugins.Peek.{bytes_at}
use demotool.Plugins.Peek.Exec as Sends
use demotool.Plugins.Addr
use demotool.Plugins.Addr.Exec
use demotool.Plugins.Adf
use demotool.Plugins.Adf.{System, Resource, msg_port}
use demotool.Plugins.Adf.Resources.{count, released_in_all, local_init-released_in_all}
use demotool.Plugins.Adf.Disk
use demotool.Plugins.Adf.Format
use demotool.Plugins.Adf.Format.{placed, local_exec-BringsTracks}

abbrev header : ℕ → Header
header size = record {
  hdr_tag_len_ver = [];
  plugin_tag_ver = [];
  major = 0;
  minor = 0;
  reserved = 0;
  flags = 0;
  size = size;
  addr = 0x1000;
  jump = 0;
  extension = [];
}

abbrev memory : ℕ → ℕ
memory p = p - 0x1000

local_exec-TakesPortions_example :
    Peek.local_exec memory
      (header 1027)
      (record { inbox = []; outlet = took 1000 ∷ took 24 ∷ took 3 ∷ []; sent = [] })
    ≡ ok Err.ok (record { inbox = []; outlet = []; sent = [] ++ bytes_at memory 0x1000 1027 })
local_exec-TakesPortions_example =
    Sends.local_exec-TakesPortions memory (header 1027)
      (record { inbox = []; outlet = took 1000 ∷ took 24 ∷ took 3 ∷ []; sent = [] }) (omega arith)
      (omega arith)
      (Sends.one (omega arith) (part 1000 (omega arith) last)
        (Sends.one (omega arith) last Sends.nothing))

-- Three bytes in two pieces.
abbrev bytes : List ℕ
bytes = 7 ∷ 8 ∷ 9 ∷ []

abbrev pieces : List Recv
pieces = got (7 ∷ []) ∷ got (8 ∷ 9 ∷ []) ∷ []

-- A network that brings these pieces and takes an acknowledgement.
abbrev network : List Recv → Net
network behind = record { inbox = pieces ++ behind; outlet = took 4 ∷ []; sent = [] }

pieces-Brings :
    (missing : ℕ) (tail : List Recv) → Brings Exec.whole_buffer missing tail bytes (pieces ++ tail)
pieces-Brings missing tail =
    piece {bytes = []} (omega arith) (piece {bytes = 9 ∷ []} {more = []} (omega arith) nothing)

addr_local_exec-Brings_example :
    Addr.local_exec (header 3) (network [])
    ≡ ok (Err.ok, bytes) (record { inbox = []; outlet = []; sent = [] ++ be32 Err.ok })
addr_local_exec-Brings_example = Exec.local_exec-Brings (header 3) [] refl (pieces-Brings 0 []) last

addr_local_exec-IsEnded_example :
    (Addr.exec_loop 9 5 [] (network (got [] ∷ [])) ≡ waiting)
    × (Addr.local_exec (header 5) (network (got [] ∷ [])) ≡ waiting)
addr_local_exec-IsEnded_example =
    Exec.local_exec-IsEnded (header 5) 9 {missing = 2} (took 4 ∷ []) [] refl (omega arith)
      (omega arith) (pieces-Brings 2 _) (at_end nothing_more)

-- The port is created, and the request is not.
abbrev short_system : System
short_system = record {
  context_allocated = true;
  io_data_allocated = true;
  port_created = true;
  ioreq_created = false;
  device_opens = true;
}

local_init-released_in_all_example :
    count msg_port (released_in_all (Adf.local_init 5632 short_system (header 5632) (header 5632)))
    ≡ count msg_port (Adf.local_init 5632 short_system (header 5632) (header 5632)).acquired
local_init-released_in_all_example =
    local_init-released_in_all 5632 short_system (header 5632) (header 5632) msg_port

track-Brings : (tail : List Recv) → Brings Disk.portion 0 tail bytes (pieces ++ tail)
track-Brings tail =
    piece {bytes = []} (ground arith) (piece {bytes = 9 ∷ []} {more = []} (ground arith) nothing)

-- A disk of one track of three bytes.
local_exec-BringsTracks_example :
    Disk.local_exec 3 (λ cnt data'. 0) (header 3) (network [])
    ≡ ok
        (Err.ok, placed 3 0 (bytes ∷ []))
        (record { inbox = []; outlet = []; sent = [] ++ be32 Err.ok })
local_exec-BringsTracks_example =
    local_exec-BringsTracks 3 (λ cnt data'. 0) (λ cnt data'. refl) (header 3) [] (omega arith) refl
      (Format.one refl (track-Brings []) Format.none_left) last

-- A system on which all is well.
abbrev able : Loadseg.System
able = record { opens = true; write = λ cnt n. pos n; load_seg = λ bytes. length bytes }

abbrev before : Loadseg.Context
before = record { program = 0; filename = 0 ∷ []; cmdline = b'\n' ∷ 0 ∷ [] }

abbrev tmp_name : List ℕ
tmp_name = b'R' ∷ b'A' ∷ b'M' ∷ b':' ∷ b'5' ∷ b'0' ∷ b'0' ∷ b'0' ∷ b'0' ∷ b'0' ∷ b'0' ∷ b'0' ∷ []
