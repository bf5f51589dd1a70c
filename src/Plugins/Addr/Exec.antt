-- ===== src/Plugins/Addr/Exec.antt =====
-- `local_exec` of plugins/addr_plugin.c receives a file in whatever pieces `recv` gives.
use demotool.Base.{
  ℕ, zero, suc, ◌+◌, ◌≤◌, ◌<◌, ◌≡◌, refl, List, [], ◌∷◌, ◌++◌, append-nil, append_assoc, arith,
}
use demotool.Base.{length, length-append, le→ltb, lt→ltb}
use demotool.Base.Run.{ok, waiting}
use demotool.Socket.{Recv, got, Sent, Net}
use demotool.Socket.Transmit.{Takes, send_safe-Takes}
use demotool.Server.Callbacks.Brings.{
  Brings, nothing, piece, IsError, IsEnded, nothing_more, at_end, behind_next, recv_callback-got,
  recv_callback-IsError, recv_callback-none,
}
use demotool.Protocol.{Header, be32}
use demotool.Protocol.Err
use demotool.Plugins.Addr.{exec_loop, acknowledge, local_exec, tmp_buf_len}

-- The plugin asks for 1024 bytes, whatever is left.
abbrev pub whole_buffer : ℕ → ℕ
whole_buffer left = tmp_buf_len

module _ (size : ℕ) (outlet : List Sent) (sent : List ℕ) where
  abbrev net_of : List Recv → Net
  net_of inbox = record { inbox = inbox; outlet = outlet; sent = sent }

  last_round :
      (fuel : ℕ) (loaded : List ℕ) (net : Net)
      → size ≤ length loaded
      → exec_loop (suc fuel) size loaded net ≡ ok (Err.ok, loaded) net
  unfolding exec_loop
  last_round fuel loaded net h = rw (le→ltb (length loaded) size h) refl

  round :
      (inbox : List Recv) (fuel : ℕ) (loaded bytes : List ℕ)
      → length loaded < size
      → length bytes ≤ tmp_buf_len
      → exec_loop (suc fuel) size loaded (net_of (got bytes ∷ inbox))
        ≡ exec_loop fuel size (loaded ++ bytes) (net_of inbox)
  unfolding exec_loop
  round inbox fuel loaded bytes h e =
      rw (lt→ltb (length loaded) size h, recv_callback-got tmp_buf_len bytes (net_of inbox) e) refl

  error_round :
      {inbox : List Recv} (fuel : ℕ) (loaded : List ℕ)
      → length loaded < size
      → IsError inbox
      → exec_loop (suc fuel) size loaded (net_of inbox)
        ≡ ok (Err.recv, loaded) (net_of (behind_next inbox))
  unfolding exec_loop
  error_round {inbox} fuel loaded h e =
      rw (lt→ltb (length loaded) size h, recv_callback-IsError tmp_buf_len (net_of inbox) e) refl

  stuck_round :
      (fuel : ℕ) (loaded : List ℕ)
      → length loaded < size
      → exec_loop (suc fuel) size loaded (net_of []) ≡ waiting
  unfolding exec_loop
  stuck_round fuel loaded h =
      rw (lt→ltb (length loaded) size h, recv_callback-none tmp_buf_len (net_of [])) refl

  -- The rounds for the bytes that are brought.
  exec_loop-Brings :
      (fuel : ℕ) {missing : ℕ} {bytes : List ℕ} {tail inbox : List Recv} (loaded : List ℕ)
      → Brings whole_buffer missing tail bytes inbox
      → length loaded + length bytes + missing ≡ size
      → length inbox < fuel
      → (k : ℕ) × (exec_loop fuel size loaded (net_of inbox)
          ≡ exec_loop (suc k) size (loaded ++ bytes) (net_of tail))
  exec_loop-Brings zero loaded b e f = absurd (omega arith)
  exec_loop-Brings (suc fuel) loaded nothing e f = (fuel, rw append-nil refl)
  exec_loop-Brings (suc fuel) loaded (piece {b} {bytes} {more} {inbox} short bs) e f =
      let sizes = length-append loaded (b ∷ bytes) in
      let sizes' = length-append (b ∷ bytes) more in
      let (k, rest) =
        exec_loop-Brings fuel (loaded ++ (b ∷ bytes)) bs (omega (arith, sizes, sizes'))
          (omega arith) in
      (
        k,
        rw
            (
              round inbox fuel loaded (b ∷ bytes) (omega (arith, sizes')) short,
              rest,
              append_assoc loaded (b ∷ bytes) more,
            )
            refl,
      )

  -- The rounds at the end of the stream.
  exec_loop-IsEnded :
      (fuel : ℕ) {inbox : List Recv} (loaded : List ℕ)
      → length loaded < size
      → IsEnded inbox
      → exec_loop fuel size loaded (net_of inbox) ≡ waiting
  exec_loop-IsEnded zero loaded h c = unfold exec_loop in refl
  exec_loop-IsEnded (suc fuel) loaded h nothing_more = stuck_round fuel loaded h
  exec_loop-IsEnded (suc fuel) loaded h (at_end {inbox} c) =
      rw (round inbox fuel loaded [] h (omega arith), append-nil loaded)
        (exec_loop-IsEnded fuel loaded h c)

-- If `recv` brings as many bytes as the header says, in pieces of 1024 bytes at most, then they lie
-- in memory from the address on, in order, and the plugin acknowledges them and returns without an error.
pub local_exec-Brings :
    (h : Header) {bytes : List ℕ} {tail inbox : List Recv} {rest outlet : List Sent} (sent : List ℕ)
    → h.size ≡ length bytes
    → Brings whole_buffer 0 tail bytes inbox
    → Takes rest 4 outlet
    → local_exec h (record { inbox = inbox; outlet = outlet; sent = sent })
      ≡ ok (Err.ok, bytes) (record { inbox = tail; outlet = rest; sent = sent ++ be32 Err.ok })
unfolding local_exec acknowledge be32
local_exec-Brings h {bytes} {tail} {inbox} {outlet = outlet} sent e b t =
    let (k, rounds) =
      exec_loop-Brings h.size outlet sent (length inbox + 1) [] b (omega arith) (omega arith) in
    rw
      (
        rounds,
        last_round h.size outlet sent k bytes _ (omega arith),
        send_safe-Takes (be32 Err.ok) (record { inbox = tail; outlet = outlet; sent = sent }) t,
      )
      refl

-- If an answer of `recv` is -1 before all the bytes have come, also one that only says that there are
-- none now, then the plugin takes no more of them, acknowledges with DT_ERR_RECV and returns it.
pub local_exec-IsError :
    (h : Header) {missing : ℕ} {bytes : List ℕ} {tail inbox : List Recv} {rest outlet : List Sent}
    (sent : List ℕ)
    → h.size ≡ length bytes + missing
    → 0 < missing
    → Brings whole_buffer missing tail bytes inbox
    → IsError tail
    → Takes rest 4 outlet
    → local_exec h (record { inbox = inbox; outlet = outlet; sent = sent })
      ≡ ok
          (Err.recv, bytes)
          (record { inbox = behind_next tail; outlet = rest; sent = sent ++ be32 Err.recv })
unfolding local_exec acknowledge be32
local_exec-IsError h {bytes = bytes} {tail} {inbox} {outlet = outlet} sent e m b error t =
    let (k, rounds) =
      exec_loop-Brings h.size outlet sent (length inbox + 1) [] b (omega arith) (omega arith) in
    rw
      (
        rounds,
        error_round h.size outlet sent k bytes (omega arith) error,
        send_safe-Takes (be32 Err.recv)
            (record { inbox = behind_next tail; outlet = outlet; sent = sent }) t,
      )
      refl

-- If the client closes the connection before all the bytes have come, then the plugin never returns,
-- however often `recv` says that the stream is at its end; and however many rounds, more than there are
-- answers, its loop is given, it has not ended.
pub local_exec-IsEnded :
    (h : Header) (fuel : ℕ) {missing : ℕ} {bytes : List ℕ} {tail inbox : List Recv}
    (outlet : List Sent) (sent : List ℕ)
    → h.size ≡ length bytes + missing
    → 0 < missing
    → length inbox < fuel
    → Brings whole_buffer missing tail bytes inbox
    → IsEnded tail
    → (exec_loop fuel h.size [] (record { inbox = inbox; outlet = outlet; sent = sent }) ≡ waiting)
      × (local_exec h (record { inbox = inbox; outlet = outlet; sent = sent }) ≡ waiting)
unfolding local_exec
local_exec-IsEnded h fuel {bytes = bytes} {inbox = inbox} outlet sent e m f b c =
    let (k, rounds) = exec_loop-Brings h.size outlet sent fuel [] b (omega arith) f in
    let (k', rounds') =
      exec_loop-Brings h.size outlet sent (length inbox + 1) [] b (omega arith) (omega arith) in
    (
      rw (rounds, exec_loop-IsEnded h.size outlet sent (suc k) bytes (omega arith) c) refl,
      rw (rounds', exec_loop-IsEnded h.size outlet sent (suc k') bytes (omega arith) c) refl,
    )
