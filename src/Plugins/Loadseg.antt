-- ===== src/Plugins/Loadseg.antt =====
-- plugins/loadseg_plugin.c: a program is received into a temporary file, loaded from it and run with
-- a command line. `recv` and `send` are the callbacks of the server, `recv_callback` and `send_callback`. The bytes are counted without a
-- bound: the counter of the code is a LONG, so this is for sizes below 2 ^ 31.
pub mod Exec
use demotool.Base.{
  ℕ, zero, suc, Bool, true, false, not, ◌||◌, ◌&&◌, ◌+◌, ◌-◌, ◌%◌, ◌^◌, Option, none, some, List,
  [], ◌∷◌, ◌++◌,
}
use demotool.Base.{ltb, ◌==◌, if◌then◌else◌, bit_and, length, drop, get_or}
use demotool.Base.Int.{ℤ, is_negative, take_ℤ}
use demotool.Base.Run.{Run, ok, waiting, Cmd, ◌>>=◌, pure}
use demotool.Socket.{Net}
use demotool.Server.Callbacks.{recv_callback, send_callback}
use demotool.Protocol.{Header, be32, sizeof_header, dt_hdr_len_mask}
use demotool.Protocol.Err
use demotool.Protocol.Ext
use demotool.Protocol.Flag
use demotool.Protocol.Flag.{has_flag}
use demotool.Plugins.Utils.{find_extension, get_tmp_filename}

abbrev pub tmp_buf_len : ℕ
tmp_buf_len = 1024

abbrev pub loadseg_filename_len : ℕ
loadseg_filename_len = 15 + 8 + 1

-- The fields of `context_t` that change: the program, 0 where there is none, and the bytes of the
-- two texts that are set.
pub record Context : Type 0 where
  pub program : ℕ
  pub filename : List ℕ
  pub cmdline : List ℕ

-- `local_init`: the context, or NULL with the code in `g_errno`.
unfoldable pub local_init : Bool → Bool → Option Context × ℕ
local_init library_opens allocated =
    if library_opens
    then (if allocated
        then (some (record { program = 0; filename = 0 ∷ []; cmdline = b'\n' ∷ 0 ∷ [] }), Err.ok)
        else (none, Err.malloc))
    else (none, Err.openlibrary)

-- What `local_done` gives back.
pub data Release : Type 0 where
  unload_seg : ℕ → Release
  close_library free_vec : Release

unfoldable pub local_done : Bool → Option Context → List Release
local_done dos_base none = if dos_base then close_library ∷ [] else []
local_done dos_base (some ctx) =
    let unload = if ctx.program == 0 then [] else unload_seg ctx.program ∷ [] in
    (if dos_base then unload ++ (close_library ∷ []) else []) ++ (free_vec ∷ [])

-- What the system answers: whether Open succeeds, what Write returns for some bytes behind others,
-- and what LoadSeg returns for a file.
pub record System : Type 0 where
  pub opens : Bool
  pub write : ℕ → ℕ → ℤ
  pub load_seg : List ℕ → ℕ

abbrev found : Option (List ℕ) → List ℕ
found none = []
found (some bytes) = bytes

-- The length of the extensions as `local_exec` computes it: the mask is put on the sum.
unfoldable pub ext_len : Header → ℕ
ext_len h = bit_and (4 + get_or h.hdr_tag_len_ver 3 0) dt_hdr_len_mask - sizeof_header

-- The name of the device, if there is one.
unfoldable pub device : Header → Option (List ℕ)
unfolding ext_len
device h =
    if has_flag h.flags Flag.extension
    then find_extension h.extension (ext_len h) Ext.device_name
    else none

-- The command line. The second search starts as many bytes on as the name of the device has, and the
-- third as many more as the first part of the command line has.
unfoldable pub command_line : Header → List ℕ → List ℕ
unfolding device
command_line h cmdline =
    let m = length (found (device h)) in
    let first = found (find_extension (drop m h.extension) (ext_len h) Ext.cmdline1) in
    let o = length first in
    let second = find_extension (drop (m + o) h.extension) (ext_len h) Ext.cmdline0 in
    if has_flag h.flags Flag.extension
    then elim second [
      | none ↦ first ++ drop o cmdline
      | some bytes ↦ first ++ bytes ++ (b'\n' ∷ 0 ∷ [])
    ]
    else cmdline

unfoldable pub prefix_of : Option (List ℕ) → List ℕ
prefix_of none = b'R' ∷ b'A' ∷ b'M' ∷ b':' ∷ []
prefix_of (some name) = name ++ (b':' ∷ [])

-- The number of bytes to ask for, where `left` are missing.
abbrev pub portion : ℕ → ℕ
portion left = if ltb left tmp_buf_len then left else tmp_buf_len

-- The loop of `local_exec`: the code and the bytes of the file; `cnt` bytes have been received.
unfoldable pub exec_loop : System → ℕ → ℕ → ℕ → List ℕ → Cmd Net (ℕ × List ℕ)
exec_loop sys zero size cnt file = λ net. waiting
exec_loop sys (suc fuel) size cnt file =
    let next = λ (bytes : List ℕ).
      exec_loop sys fuel size (cnt + length bytes)
        (file ++ take_ℤ (sys.write cnt (length bytes)) bytes) in
    let more = (do
      r ← recv_callback (portion (size - cnt))
      elim r [
        | none ↦ pure (Err.recv, file)
        | some [] ↦ pure (Err.ok, file)
        | some (b ∷ bytes) ↦
            if is_negative (sys.write cnt (length (b ∷ bytes)))
            then pure (Err.file_io, file)
            else next (b ∷ bytes)
      ]) in
    if ltb cnt size then more else pure (Err.ok, file)

-- LoadSeg, after which the file is deleted.
unfoldable pub load : System → Context → ℕ × List ℕ → ℕ × Context
load sys ctx (ret, file) =
    let program = sys.load_seg file in
    if ret == Err.ok
    then (if program == 0 then Err.exec else Err.ok, record ctx { program = program })
    else (ret, ctx)

-- The acknowledgement, whose result is not looked at.
unfoldable pub acknowledge : ℕ × Context → Cmd Net (ℕ × Context)
acknowledge (ret, ctx) = do _ ← send_callback (be32 ret); pure (ret, ctx)

-- Behind the name of the file. A round that goes on has received a byte, so `size` rounds and the
-- last test are enough.
unfoldable pub receive : System → Header → Context → Cmd Net (ℕ × Context)
unfolding exec_loop load acknowledge
receive sys h ctx =
    if sys.opens
    then (do r ← exec_loop sys (h.size + 1) h.size 0 []; acknowledge (load sys ctx r))
    else acknowledge (Err.file_open, ctx)

-- `local_exec`: the code and the context. `fast_rand`, `address` and `seed` are those of
-- `get_tmp_filename`; where it fails, there is no acknowledgement.
unfoldable pub local_exec : System → (ℕ → ℕ) → ℕ → ℕ → Header → Context → Cmd Net (ℕ × Context)
unfolding command_line prefix_of receive
local_exec sys fast_rand address seed h ctx =
    let name =
      get_tmp_filename fast_rand address (prefix_of (device h)) loadseg_filename_len seed in
    let ctx' = record ctx { cmdline = command_line h ctx.cmdline } in
    elim name.0 [
      | none ↦ pure (Err.file_open, ctx')
      | some filename ↦ receive sys h (record ctx' { filename = filename })
    ]

-- `strlen` bytes of a text.
unfoldable pub c_string : List ℕ → List ℕ
c_string [] = []
c_string (c ∷ cs) = let rest = c_string cs in if c == 0 then [] else c ∷ rest

-- `local_run`: the code, and the program that RunCommand runs with its command line, if it does.
-- `is_cli` says whether Cli gives a structure.
unfoldable pub local_run : Bool → Context → ℕ × Option (ℕ × List ℕ)
unfolding c_string
local_run is_cli ctx =
    if not is_cli
    then (Err.run, none)
    else if ctx.program == 0
    then (Err.ok, none)
    else (Err.ok, some (ctx.program, c_string ctx.cmdline))

-- `local_errno`, for what `g_errno` holds.
unfoldable pub local_errno : ℕ → ℕ
local_errno g_errno = g_errno
