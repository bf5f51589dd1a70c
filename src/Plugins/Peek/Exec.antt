-- ===== src/Plugins/Peek/Exec.antt =====
-- `local_exec` of plugins/peek_plugin.c sends the memory that the header asks for.
use demotool.Base.{
  ℕ, zero, suc, ◌+◌, ◌-◌, ◌%◌, ◌^◌, ◌≤◌, ◌<◌, ◌≡◌, refl, sym, ap, subst, List, ◌++◌, append-nil,
  append_assoc, arith,
}
use demotool.Base.{length, le→ltb, lt→ltb}
use demotool.Base.Run.{ok}
use demotool.Socket.{Recv, Sent, Net}
use demotool.Socket.Transmit.{Takes, send_safe-Takes}
use demotool.Protocol.{Header}
use demotool.Protocol.Err
use demotool.Plugins.Peek.{bytes_at, portion, exec_loop, local_exec}

-- The socket takes the bytes that the plugin sends, in its portions.
pub data TakesPortions (rest : List Sent) : ℕ → List Sent → Type 0 where
  nothing : TakesPortions rest 0 rest
  one :
      {n : ℕ} {mid outlet : List Sent}
      → 0 < n
      → Takes mid (portion n) outlet
      → TakesPortions rest (n - portion n) mid
      → TakesPortions rest n outlet

length-bytes_at : (memory : ℕ → ℕ) (p n : ℕ) → length (bytes_at memory p n) ≡ n
unfolding bytes_at
length-bytes_at memory p zero = refl
length-bytes_at memory p (suc n) = ap suc (length-bytes_at memory ((p + 1) % 2 ^ 32) n)

bytes_at-append :
    (memory : ℕ → ℕ) (p a b : ℕ)
    → p < 2 ^ 32
    → bytes_at memory p (a + b) ≡ bytes_at memory p a ++ bytes_at memory ((p + a) % 2 ^ 32) b
unfolding bytes_at
bytes_at-append memory p zero b h =
    let same : (p + 0) % 2 ^ 32 ≡ p = omega arith in
    let sum : 0 + b ≡ b = omega arith in rw (same, sum) refl
bytes_at-append memory p (suc a) b h =
    let place : ((p + 1) % 2 ^ 32 + a) % 2 ^ 32 ≡ (p + suc a) % 2 ^ 32 = omega arith in
    let sum : suc a + b ≡ suc (a + b) = omega arith in
    rw (sum, bytes_at, bytes_at-append memory ((p + 1) % 2 ^ 32) a b (omega arith), place) refl

portion_le : (n : ℕ) → 0 < n → (portion n ≤ n) × (0 < portion n)
portion_le n h = (ground arith, ground arith)

module _ (memory : ℕ → ℕ) (inbox : List Recv) (size : ℕ) where
  -- The rounds of the loop: the test that ends it, and a portion sent.
  last_round :
      (fuel p cnt : ℕ) (net : Net)
      → size ≤ cnt
      → exec_loop memory (suc fuel) size p cnt net ≡ ok Err.ok net
  unfolding exec_loop
  last_round fuel p cnt net h = rw (le→ltb cnt size h) refl

  round :
      {mid outlet : List Sent} (fuel p cnt k : ℕ) (sent : List ℕ)
      → cnt < size
      → portion (size - cnt) ≡ k
      → Takes mid k outlet
      → exec_loop memory
          (suc fuel)
          size
          p
          cnt
          (record { inbox = inbox; outlet = outlet; sent = sent })
        ≡ exec_loop memory fuel size
            ((p + k) % 2 ^ 32)
            ((cnt + k) % 2 ^ 32)
            (record { inbox = inbox; outlet = mid; sent = sent ++ bytes_at memory p k })
  unfolding exec_loop
  round {mid} {outlet} fuel p cnt k sent h e t =
      let bytes = bytes_at memory p k in
      let takes = subst (λ n. Takes mid n outlet) (sym (length-bytes_at memory p k)) t in
      let net : Net = record { inbox = inbox; outlet = outlet; sent = sent } in
      rw (lt→ltb cnt size h, e, send_safe-Takes bytes net takes, length-bytes_at memory p k) refl

module _ (memory : ℕ → ℕ) {rest : List Sent} (inbox : List Recv) (size : ℕ)
    (h : size < 2 ^ 32) where
  exec_loop-TakesPortions :
      (fuel : ℕ) {n : ℕ} {outlet : List Sent} (p cnt : ℕ) (sent : List ℕ)
      → TakesPortions rest n outlet
      → p < 2 ^ 32
      → cnt + n ≡ size
      → n < fuel
      → exec_loop memory fuel size p cnt (record { inbox = inbox; outlet = outlet; sent = sent })
        ≡ ok Err.ok (record { inbox = inbox; outlet = rest; sent = sent ++ bytes_at memory p n })
  unfolding bytes_at
  exec_loop-TakesPortions zero p cnt sent t hp e f = absurd (omega arith)
  exec_loop-TakesPortions (suc fuel) p cnt sent nothing hp e f =
      rw append-nil (last_round memory inbox size fuel p cnt _ (omega arith))
  exec_loop-TakesPortions (suc fuel) {n} p cnt sent (one {mid} {outlet} pos t ts) hp e f =
      let k = portion n in
      let bounds = portion_le n pos in
      let left : size - cnt ≡ n = omega arith in
      let cnt' : (cnt + k) % 2 ^ 32 ≡ cnt + k = omega (arith, bounds) in
      let whole : k + (n - k) ≡ n = omega (arith, bounds) in
      let place : (p + k) % 2 ^ 32 < 2 ^ 32 = omega arith in
      let rest_sent =
        exec_loop-TakesPortions fuel ((p + k) % 2 ^ 32) (cnt + k) (sent ++ bytes_at memory p k) ts
          place (omega (arith, bounds)) (omega (arith, bounds)) in
      rw
        (
          round memory inbox size fuel p cnt k sent (omega arith) (ap portion left) t,
          cnt',
          rest_sent,
          append_assoc sent (bytes_at memory p k) (bytes_at memory ((p + k) % 2 ^ 32) (n - k)),
          ← bytes_at-append memory p k (n - k) hp,
          whole,
        )
        refl

-- If the socket takes the portions that are sent, then the plugin returns without an error, and has
-- sent the bytes of memory from the address of the header on, as many as its size says.
pub local_exec-TakesPortions :
    (memory : ℕ → ℕ) (h : Header) (net : Net) {rest : List Sent}
    → h.size < 2 ^ 32
    → h.addr < 2 ^ 32
    → TakesPortions rest h.size net.outlet
    → local_exec memory h net
      ≡ ok Err.ok (record net { outlet = rest; sent = net.sent ++ bytes_at memory h.addr h.size })
unfolding local_exec
local_exec-TakesPortions memory h net hs ha t =
    exec_loop-TakesPortions memory net.inbox h.size hs (h.size + 1) h.addr 0 net.sent t ha
      (omega arith) (omega arith)
