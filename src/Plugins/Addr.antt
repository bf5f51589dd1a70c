-- ===== src/Plugins/Addr.antt =====
-- plugins/addr_plugin.c: a file is loaded to an absolute address. `recv` and `send` are the callbacks
-- of the server, `recv_callback` and `send_callback`. Where `local_init` returns an error
-- code here, `g_errno` holds that code. The bytes are counted without a bound: the counter of the code
-- is a LONG, so this is for sizes below 2 ^ 31.
pub mod Exec
use demotool.Base.{
  ℕ, zero, suc, Bool, not, ◌||◌, ◌+◌, ◌%◌, ◌^◌, Option, none, some, List, [], ◌∷◌, ◌++◌,
}
use demotool.Base.{ltb, ◌==◌, if◌then◌else◌, bit_and, length}
use demotool.Base.Run.{Run, ok, waiting, Cmd, ◌>>=◌, pure}
use demotool.Socket.{Net}
use demotool.Server.Callbacks.{recv_callback, send_callback}
use demotool.Protocol.{Header, be32}
use demotool.Protocol.Err

abbrev pub tmp_buf_len : ℕ
tmp_buf_len = 1024

-- `local_init`: a code, which is `Err.ok` if there is a context. `allocated` says whether `AllocVec`
-- succeeds.
unfoldable pub local_init : Bool → Header → ℕ
local_init allocated h =
    if not (bit_and h.jump 1 == 0) || (h.addr == 0 || not (bit_and h.addr 1 == 0))
    then Err.hdr_invalid
    else if allocated
    then Err.ok
    else Err.malloc

-- The address that `local_run` calls.
unfoldable pub start_address : Header → ℕ
start_address h = if h.jump == 0 then h.addr else h.jump

-- The loop of `local_exec`: the code, with the bytes that lie in memory from the address of the
-- header on, behind the `loaded` ones; their number is `cnt`. At the end of the stream `recv` gives no
-- bytes, and the loop goes on.
unfoldable pub exec_loop : ℕ → ℕ → List ℕ → Cmd Net (ℕ × List ℕ)
exec_loop zero size loaded = λ net. waiting
exec_loop (suc fuel) size loaded =
    let next = λ (bytes : List ℕ). exec_loop fuel size (loaded ++ bytes) in
    let more = (do
      r ← recv_callback tmp_buf_len
      elim r [ none ↦ pure (Err.recv, loaded) | some bytes ↦ next bytes ]) in
    if ltb (length loaded) size then more else pure (Err.ok, loaded)

-- The acknowledgement, whose result is not looked at.
unfoldable pub acknowledge : ℕ × List ℕ → Cmd Net (ℕ × List ℕ)
acknowledge (ret, loaded) = do _ ← send_callback (be32 ret); pure (ret, loaded)

-- `local_exec`. A round takes an answer of `recv`, so a round for each of them and the last test are
-- all that there can be.
unfoldable pub local_exec : Header → Cmd Net (ℕ × List ℕ)
unfolding exec_loop acknowledge
local_exec h net = (do r ← exec_loop (length net.inbox + 1) h.size []; acknowledge r) net

-- `local_done`: whether there is a context, which is then freed. Its code is `Err.ok`.
unfoldable pub local_done : Bool → ℕ × Bool
local_done has_context = (Err.ok, has_context)

-- `local_errno`, for what `g_errno` holds.
unfoldable pub local_errno : ℕ → ℕ
local_errno g_errno = g_errno
