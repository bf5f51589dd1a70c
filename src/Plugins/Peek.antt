-- ===== src/Plugins/Peek.antt =====
-- plugins/peek_plugin.c: memory is sent to the client. The memory is a function from addresses, and
-- `send` is the callback of the server, `send_callback`. Where a function returns an
-- error code here, `g_errno` holds that code.
pub mod Exec
use demotool.Base.{Bool, ℕ, zero, suc, ◌+◌, ◌-◌, ◌%◌, ◌^◌, Option, none, some, List, [], ◌∷◌}
use demotool.Base.{ltb, leb, ◌==◌, if◌then◌else◌, bit_and}
use demotool.Base.Run.{Run, ok, waiting, Cmd, ◌>>=◌, pure}
use demotool.Socket.{Net}
use demotool.Server.Callbacks.{send_callback}
use demotool.Protocol.{Header}
use demotool.Protocol.Err

abbrev pub tmp_buf_len : ℕ
tmp_buf_len = 1024

-- The bytes at an address, whose pointer has 32 bits.
unfoldable pub bytes_at : (ℕ → ℕ) → ℕ → ℕ → List ℕ
bytes_at memory p zero = []
bytes_at memory p (suc n) = memory p ∷ bytes_at memory ((p + 1) % 2 ^ 32) n

-- `local_init`: a code, which is `Err.ok` if there is a context. `allocated` says whether `AllocVec`
-- succeeds.
unfoldable pub local_init : Bool → Header → ℕ
local_init allocated h =
    if h.size == 0 then Err.hdr_invalid else if allocated then Err.ok else Err.malloc

-- The number of bytes to send next, of those that are left.
abbrev pub portion : ℕ → ℕ
portion left = if leb tmp_buf_len left then tmp_buf_len else left

-- The loop of `local_exec`, at `cnt` of `size` bytes.
unfoldable pub exec_loop : (ℕ → ℕ) → ℕ → ℕ → ℕ → ℕ → Cmd Net ℕ
exec_loop memory zero size p_dst cnt = λ net. waiting
exec_loop memory (suc fuel) size p_dst cnt =
    let next =
      λ (len : ℕ). exec_loop memory fuel size ((p_dst + len) % 2 ^ 32) ((cnt + len) % 2 ^ 32) in
    let more = (do
      r ← send_callback (bytes_at memory p_dst (portion (size - cnt)))
      elim r [ none ↦ pure Err.send | some len ↦ next len ]) in
    if ltb cnt size then more else pure Err.ok

-- `local_exec`. A round sends a byte at least, so `size` rounds and the last test are enough.
unfoldable pub local_exec : (ℕ → ℕ) → Header → Cmd Net ℕ
unfolding exec_loop
local_exec memory h = exec_loop memory (h.size + 1) h.size h.addr 0

-- `local_done`: whether there is a context, which is then freed. Its code is `Err.ok`.
unfoldable pub local_done : Bool → ℕ × Bool
local_done has_context = (Err.ok, has_context)

-- `local_errno`, for what `g_errno` holds.
unfoldable pub local_errno : ℕ → ℕ
local_errno g_errno = g_errno

-- `local_run` does nothing.
unfoldable pub local_run : ℕ
local_run = Err.ok
