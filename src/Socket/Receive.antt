-- ===== src/Socket/Receive.antt =====
-- `recv_safe` of client/demotool.c puts a message together from whatever pieces arrive.
use demotool.Base.{ℕ, refl, ap, ◌+◌, ◌≤◌, ◌<◌, ◌≡◌, some, List, [], ◌∷◌, ◌++◌, arith, length}
use demotool.Base.{length-append, append-nil, append_assoc}
use demotool.Base.Run.{ok, waiting}
use demotool.Socket.{Recv, got, Net, recv_loop, recv_safe}

-- The answers bring the bytes `bs` in pieces, with stalls between them, and `rest` is to come after.
pub data Delivers (rest : List Recv) : List ℕ → List Recv → Type 0 where
  done : Delivers rest [] rest
  stall :
      {bs : List ℕ} {inbox : List Recv}
      → 0 < length bs
      → Delivers rest bs inbox
      → Delivers rest bs (Recv.again ∷ inbox)
  piece :
      {bs more : List ℕ} {inbox : List Recv} (c : List ℕ)
      → 0 < length bs
      → bs ≡ c ++ more
      → Delivers rest more inbox
      → Delivers rest bs (got c ∷ inbox)

recv_loop_full :
    (len : ℕ) (buf : List ℕ) (inbox : List Recv)
    → len ≤ length buf
    → recv_loop len buf inbox ≡ ok (some buf) inbox
unfolding recv_loop
recv_loop_full len buf [] h = ground arith
recv_loop_full len buf (got bs ∷ inbox) h = ground arith
recv_loop_full len buf (Recv.again ∷ inbox) h = ground arith
recv_loop_full len buf (Recv.failed ∷ inbox) h = ground arith

recv_loop-Delivers :
    {rest inbox : List Recv} {bs : List ℕ} (len : ℕ) (buf : List ℕ)
    → Delivers rest bs inbox
    → len ≡ length buf + length bs
    → recv_loop len buf inbox ≡ ok (some (buf ++ bs)) rest
unfolding recv_loop
recv_loop-Delivers {rest} len buf done e = rw append-nil (recv_loop_full len buf rest (omega arith))
recv_loop-Delivers len buf (stall h d) e = ground (arith, recv_loop-Delivers len buf d e)
recv_loop-Delivers len buf (piece {more} c h eq d) e =
    let sizes = length-append c more in
    let sizes' = length-append buf c in
    ground (
      arith,
      eq,
      sizes,
      sizes',
      append_assoc buf c more,
      recv_loop-Delivers len (buf ++ c) d (omega (arith, sizes, sizes', ap length eq)),
    )

-- If the socket brings the bytes of a message, in pieces of any size and with any stalls, then
-- `recv_safe` returns exactly these bytes and leaves the answers behind them.
pub recv_safe-Delivers :
    {rest : List Recv} {bs : List ℕ} (net : Net)
    → Delivers rest bs net.inbox
    → recv_safe (length bs) net ≡ ok (some bs) (record net { inbox = rest })
unfolding recv_safe
recv_safe-Delivers {bs} net d = rw (recv_loop-Delivers (length bs) [] d (omega arith), recv_safe)

-- The answers bring fewer than `n` bytes in all, in pieces of any size and with any stalls; an end of
-- the stream is a piece without bytes.
pub data IsShorter : ℕ → List Recv → Type 0 where
  nothing : {n : ℕ} → 0 < n → IsShorter n []
  stalled : {n : ℕ} {inbox : List Recv} → IsShorter n inbox → IsShorter n (Recv.again ∷ inbox)
  part :
      {n m : ℕ} {inbox : List Recv} (bs : List ℕ)
      → length bs + m ≡ n
      → IsShorter m inbox
      → IsShorter n (got bs ∷ inbox)

IsShorter-positive : {n : ℕ} {inbox : List Recv} → IsShorter n inbox → 0 < n
IsShorter-positive (nothing h) = h
IsShorter-positive (stalled s) = IsShorter-positive s
IsShorter-positive (part bs e s) = let more = IsShorter-positive s in omega arith

recv_loop-IsShorter :
    (len : ℕ) {n : ℕ} {inbox : List Recv} (buf : List ℕ)
    → IsShorter n inbox
    → length buf + n ≡ len
    → recv_loop len buf inbox ≡ waiting
unfolding recv_loop
recv_loop-IsShorter len buf (nothing h) e = ground arith
recv_loop-IsShorter len buf (stalled s) e =
    ground (arith, IsShorter-positive s, recv_loop-IsShorter len buf s e)
recv_loop-IsShorter len buf (part bs f s) e =
    let more = IsShorter-positive s in
    let sizes = length-append buf bs in
    ground (arith, more, recv_loop-IsShorter len (buf ++ bs) s (omega (arith, sizes)))

-- If the answers of `recv` bring fewer bytes in all than `recv_safe` asks for, in pieces of any size
-- and with any stalls and ends of the stream among them, then it never returns: however many answers
-- the run is given, the loop asks for another.
pub recv_safe-closed : (len : ℕ) (net : Net) → IsShorter len net.inbox → recv_safe len net ≡ waiting
unfolding recv_safe
recv_safe-closed len net s = rw (recv_loop-IsShorter len [] s (omega arith), recv_safe) refl
