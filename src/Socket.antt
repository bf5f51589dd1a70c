-- ===== src/Socket.antt =====
-- `recv_safe` and `send_safe` of client/demotool.c, over a stream socket. The socket is the
-- environment: what the calls of `recv` and of `send` answer, in order, is given to a run.
pub mod Receive
pub mod Transmit
use demotool.Base.{ℕ, ◌+◌, Option, none, some, List, [], ◌∷◌, ◌++◌}
use demotool.Base.{ltb, if◌then◌else◌, length, take, drop}
use demotool.Base.Run.{Run, ok, waiting, Cmd}

-- An answer of `recv`: the bytes that it put into the buffer (none at the end of the stream), or -1
-- with `errno` EAGAIN or another.
pub data Recv : Type 0 where
  got : List ℕ → Recv
  again : Recv
  failed : Recv

-- An answer of `send`: the number of bytes that it took, or -1.
pub data Sent : Type 0 where
  took : ℕ → Sent
  again : Sent
  failed : Sent

-- The answers to come, and the bytes that the socket has taken so far.
pub record Net : Type 0 where
  pub inbox : List Recv
  pub outlet : List Sent
  pub sent : List ℕ

-- The loop of `recv_safe`; `buf` holds the `tot` bytes read so far. `none` is the result -1.
unfoldable pub recv_loop : ℕ → List ℕ → Cmd (List Recv) (Option (List ℕ))
recv_loop len buf [] = if ltb (length buf) len then waiting else ok (some buf) []
recv_loop len buf (got bs ∷ inbox) =
    if ltb (length buf) len then recv_loop len (buf ++ bs) inbox else ok (some buf) (got bs ∷ inbox)
recv_loop len buf (Recv.again ∷ inbox) =
    if ltb (length buf) len then recv_loop len buf inbox else ok (some buf) (Recv.again ∷ inbox)
recv_loop len buf (Recv.failed ∷ inbox) =
    if ltb (length buf) len then ok none inbox else ok (some buf) (Recv.failed ∷ inbox)

unfoldable pub recv_safe : ℕ → Cmd Net (Option (List ℕ))
unfolding recv_loop
recv_safe len net = elim (recv_loop len [] net.inbox) [
  | ok r inbox ↦ ok r (record net { inbox = inbox })
  | waiting ↦ waiting
]

-- The loop of `send_safe`, over the answers to come and the bytes taken before; `buf` is what is
-- left to send, behind `tot` bytes of `len`.
unfoldable pub send_loop : ℕ → ℕ → List ℕ → List ℕ → Cmd (List Sent) (Option ℕ × List ℕ)
send_loop len tot buf sent [] = waiting
send_loop len tot buf sent (took n ∷ outlet) =
    let rest = send_loop len (tot + n) (drop n buf) (sent ++ take n buf) outlet in
    if ltb (tot + n) len then rest else ok (some (tot + n), sent ++ take n buf) outlet
send_loop len tot buf sent (Sent.again ∷ outlet) =
    let rest = send_loop len tot buf sent outlet in
    if ltb tot len then rest else ok (some tot, sent) outlet
send_loop len tot buf sent (Sent.failed ∷ outlet) = ok (none, sent) outlet

unfoldable pub send_safe : List ℕ → Cmd Net (Option ℕ)
unfolding send_loop
send_safe buf net = elim (send_loop (length buf) 0 buf net.sent net.outlet) [
  | ok (r, sent) outlet ↦ ok r (record net { outlet = outlet; sent = sent })
  | waiting ↦ waiting
]
