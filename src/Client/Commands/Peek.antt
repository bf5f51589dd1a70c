-- ===== src/Client/Commands/Peek.antt =====
-- How `peek` of client/demotool.c ends.
use demotool.Base.{
  ℕ, zero, suc, ◌≤◌, ◌≡◌, ◌⊎◌, inl, inr, refl, Option, none, some, List, [], ◌∷◌, ◌++◌, arith,
}
use demotool.Base.{length, ltb, ◌==◌, if◌then◌else◌, Bool-cases}
use demotool.Base.Run.{Run, ok, waiting, Cmd, and_then}
use demotool.Socket.{Recv, got, Net, recv_loop, recv_safe}
use demotool.Protocol.Err
use demotool.Client.Commands.{client_error, recv_pieces}

-- A statement about the result that a run ends with.
abbrev pub Ends : {W A : Type 0} → (A → Type 0) → Run W A → Type 0
Ends P (ok a w) = P a
Ends P waiting = Unit

abbrev IsFull : ℕ → Option (List ℕ) → Type 0
IsFull len none = Unit
IsFull len (some bs) = len ≤ length bs

IsFull-or :
    (len : ℕ) (buf : List ℕ) (inbox : List Recv) (m : Run (List Recv) (Option (List ℕ)))
    → Ends (IsFull len) m
    → Ends (IsFull len) (if ltb (length buf) len then m else ok (some buf) inbox)
IsFull-or len buf inbox m h = elim (Bool-cases (ltb (length buf) len)) [
  | inl more ↦ rw more h
  | inr full ↦ rw full (ground arith)
]

recv_loop-IsFull :
    (len : ℕ) (buf : List ℕ) (inbox : List Recv) → Ends (IsFull len) (recv_loop len buf inbox)
unfolding recv_loop
recv_loop-IsFull len buf [] = IsFull-or len buf [] waiting tt
recv_loop-IsFull len buf (got bs ∷ inbox) =
    IsFull-or len buf (got bs ∷ inbox) (recv_loop len (buf ++ bs) inbox)
      (recv_loop-IsFull len (buf ++ bs) inbox)
recv_loop-IsFull len buf (Recv.again ∷ inbox) =
    IsFull-or len buf (Recv.again ∷ inbox) (recv_loop len buf inbox)
      (recv_loop-IsFull len buf inbox)
recv_loop-IsFull len buf (Recv.failed ∷ inbox) =
    IsFull-or len buf (Recv.failed ∷ inbox) (ok none inbox) tt

recv_safe-IsFull : (len : ℕ) (net : Net) → Ends (IsFull len) (recv_safe len net)
unfolding recv_safe
recv_safe-IsFull len net = lift (recv_loop len [] net.inbox) (recv_loop-IsFull len [] net.inbox)
  where
    lift :
        (r : Run (List Recv) (Option (List ℕ)))
        → Ends (IsFull len) r
        → Ends {W = Net}
            (IsFull len)
            (elim r [ ok a inbox ↦ ok a (record net { inbox = inbox }) | waiting ↦ waiting ])
    lift (ok a inbox) h = h
    lift waiting h = tt

Ends-bind :
    {W A B : Type 0} (P : A → Type 0) (Q : B → Type 0) (m : Run W A) (k : A → Cmd W B)
    → Ends P m
    → ((a : A) (w : W) → P a → Ends Q (k a w))
    → Ends Q (and_then m k)
Ends-bind P Q (ok a w) k h next = next a w h
Ends-bind P Q waiting k h next = tt

-- The two codes that the loop of `peek` can end with.
abbrev pub IsFailure : ℕ × List ℕ → Type 0
IsFailure r = (r.0 ≡ Err.recv) ⊎ (r.0 ≡ client_error Err.file_io)

-- The loop of `peek` never returns with what the server answered, however many rounds it makes: it
-- returns only when `recv` or `fwrite` has failed. Since `recv_safe` gives whole pieces of 1024
-- bytes or none, the end of the transfer is no end of the loop.
pub recv_pieces-IsFailure :
    (accepts : List ℕ → ℕ) (fuel : ℕ) (written : List ℕ) (ret : ℕ) (net : Net)
    → Ends IsFailure (recv_pieces accepts fuel written ret net)
unfolding recv_pieces
recv_pieces-IsFailure accepts zero written ret net = tt
recv_pieces-IsFailure accepts (suc fuel) written ret net =
    Ends-bind (IsFull 1024) IsFailure _ _ (recv_safe-IsFull 1024 net) (elim [
      | none ↦ λ w h. inl refl
      | some [] ↦ λ w h. absurd (omega arith)
      | some (b ∷ piece) ↦ λ w h. elim (Bool-cases (accepts (b ∷ piece) == length (b ∷ piece))) [
        | inl all ↦ rw all (recv_pieces-IsFailure accepts fuel (written ++ (b ∷ piece)) ret w)
        | inr some' ↦ rw some' (inr refl)
      ]
    ])
