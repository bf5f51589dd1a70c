-- ===== src/Socket/Transmit.antt =====
-- `send_safe` of client/demotool.c sends every byte, in order, whatever `send` takes at a time.
use demotool.Base.{ℕ, ◌+◌, ◌-◌, ◌<◌, ◌≡◌, refl, ap, some, List, [], ◌∷◌, ◌++◌, arith}
use demotool.Base.{length, take, drop, length-drop, append_assoc}
use demotool.Base.{take-append-drop}
use demotool.Base.Run.{ok}
use demotool.Socket.{Sent, took, Net, send_loop, send_safe}

-- The answers take the `n` bytes that are left, in any portions and with stalls between them, and
-- `rest` is to come after.
pub data Takes (rest : List Sent) : ℕ → List Sent → Type 0 where
  last : {n : ℕ} → Takes rest n (took n ∷ rest)
  stall :
      {n : ℕ} {outlet : List Sent}
      → 0 < n
      → Takes rest n outlet
      → Takes rest n (Sent.again ∷ outlet)
  part :
      {n : ℕ} {outlet : List Sent} (k : ℕ)
      → k < n
      → Takes rest (n - k) outlet
      → Takes rest n (took k ∷ outlet)

pub take_all : (xs : List ℕ) → take (length xs) xs ≡ xs
take_all [] = refl
take_all (x ∷ xs) = ap (λ ys. x ∷ ys) (take_all xs)

send_loop-Takes :
    {rest outlet : List Sent} {n : ℕ} (len tot : ℕ) (buf sent : List ℕ)
    → Takes rest n outlet
    → n ≡ length buf
    → len ≡ tot + n
    → send_loop len tot buf sent outlet ≡ ok (some len, sent ++ buf) rest
unfolding send_loop
send_loop-Takes len tot buf sent last e f = rw (e, take_all buf) (ground arith)
send_loop-Takes len tot buf sent (stall h t) e f =
    ground (arith, send_loop-Takes len tot buf sent t e f)
send_loop-Takes len tot buf sent (part k h t) e f = ground (
  arith,
  send_loop-Takes len (tot + k) (drop k buf) (sent ++ take k buf) t
      (omega (arith, length-drop k buf)) (omega arith),
  append_assoc sent (take k buf) (drop k buf),
  take-append-drop k buf,
)

-- If the socket takes the bytes of a message, in portions of any size and with any stalls, then
-- `send_safe` returns their number, and the socket has taken them once each and in order.
pub send_safe-Takes :
    {rest : List Sent} (bs : List ℕ) (net : Net)
    → Takes rest (length bs) net.outlet
    → send_safe bs net ≡ ok (some (length bs)) (record net { outlet = rest; sent = net.sent ++ bs })
unfolding send_safe
send_safe-Takes bs net t =
    rw (send_loop-Takes (length bs) 0 bs net.sent t refl (omega arith), send_safe)
