-- ===== src/Server/Callbacks.antt =====
-- The callbacks that `loader_main` of server/demotool.c gives to a plugin: one call of `recv` on the
-- active socket, and `send_safe`.
pub mod Brings
use demotool.Base.{ℕ, Option, none, some, List, [], ◌∷◌}
use demotool.Base.{take}
use demotool.Base.Run.{Run, ok, waiting, Cmd}
use demotool.Socket.{Recv, got, Net, send_safe}

-- The next answer of `recv`, in a buffer of `len` bytes; `none` is the result -1, whatever `errno` is.
unfoldable pub recv : ℕ → Cmd (List Recv) (Option (List ℕ))
recv len [] = waiting
recv len (got bs ∷ inbox) = ok (some (take len bs)) inbox
recv len (Recv.again ∷ inbox) = ok none inbox
recv len (Recv.failed ∷ inbox) = ok none inbox

unfoldable pub recv_callback : ℕ → Cmd Net (Option (List ℕ))
unfolding recv
recv_callback len net = elim (recv len net.inbox) [
  | ok r inbox ↦ ok r (record net { inbox = inbox })
  | waiting ↦ waiting
]

abbrev pub send_callback : List ℕ → Cmd Net (Option ℕ)
send_callback buf = send_safe buf
