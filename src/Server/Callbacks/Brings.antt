-- ===== src/Server/Callbacks/Brings.antt =====
-- What `recv_callback` of server/demotool.c gives for the answers of `recv`.
use demotool.Base.{ℕ, zero, suc, ◌+◌, ◌≤◌, ◌≡◌, refl, ap, none, some, List, [], ◌∷◌, ◌++◌}
use demotool.Base.{arith, length, take}
use demotool.Base.Run.{ok, waiting}
use demotool.Socket.{Recv, got, Net}
use demotool.Server.Callbacks.{recv, recv_callback}

-- The answers bring bytes in pieces, none of which is larger than what is asked for where so many
-- bytes are left; `missing` bytes are left behind them, and `tail` is to come after.
pub data Brings (asked : ℕ → ℕ) (missing : ℕ) (tail : List Recv) : List ℕ → List Recv → Type 0 where
  nothing : Brings asked missing tail [] tail
  piece :
      {b : ℕ} {bytes more : List ℕ} {inbox : List Recv}
      → length (b ∷ bytes) ≤ asked (length ((b ∷ bytes) ++ more) + missing)
      → Brings asked missing tail more inbox
      → Brings asked missing tail ((b ∷ bytes) ++ more) (got (b ∷ bytes) ∷ inbox)

-- The next answer is -1: the socket has no bytes now, or it has failed.
pub data IsError : List Recv → Type 0 where
  stall : {inbox : List Recv} → IsError (Recv.again ∷ inbox)
  fault : {inbox : List Recv} → IsError (Recv.failed ∷ inbox)

-- The stream is at its end, however often it is asked.
pub data IsEnded : List Recv → Type 0 where
  nothing_more : IsEnded []
  at_end : {inbox : List Recv} → IsEnded inbox → IsEnded (got [] ∷ inbox)

-- What is to come behind the next answer.
abbrev pub behind_next : List Recv → List Recv
behind_next [] = []
behind_next (answer ∷ inbox) = inbox

take_short : (n : ℕ) (xs : List ℕ) → length xs ≤ n → take n xs ≡ xs
take_short zero [] h = refl
take_short (suc n) [] h = refl
take_short zero (x ∷ xs) h = absurd (omega arith)
take_short (suc n) (x ∷ xs) h = ap (λ ys. x ∷ ys) (take_short n xs (omega arith))

pub recv_callback-got :
    (len : ℕ) (bs : List ℕ) {inbox : List Recv} (net : Net)
    → length bs ≤ len
    → recv_callback len (record net { inbox = got bs ∷ inbox })
      ≡ ok (some bs) (record net { inbox = inbox })
unfolding recv_callback recv
recv_callback-got len bs net h = rw (take_short len bs h) refl

pub recv_callback-IsError :
    (len : ℕ) {inbox : List Recv} (net : Net)
    → IsError inbox
    → recv_callback len (record net { inbox = inbox })
      ≡ ok none (record net { inbox = behind_next inbox })
unfolding recv_callback recv
recv_callback-IsError len net stall = refl
recv_callback-IsError len net fault = refl

pub recv_callback-none :
    (len : ℕ) (net : Net) → recv_callback len (record net { inbox = [] }) ≡ waiting
unfolding recv_callback recv
recv_callback-none len net = refl
