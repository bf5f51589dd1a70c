-- ===== src/Plugins/Loadseg/Exec.antt =====
-- `local_exec` of plugins/loadseg_plugin.c receives a program and loads it.
use demotool.Base.{
  ℕ, zero, suc, ◌+◌, ◌-◌, ◌≤◌, ◌<◌, ◌≡◌, ap, ◌∙◌, subst, refl, true, Option, none, some, List, [],
  ◌∷◌, ◌++◌, append-nil, append_assoc, arith,
}
use demotool.Base.{length, length-append, take-length, lt→ltb}
use demotool.Base.Int.{pos}
use demotool.Base.Run.{ok, pure, Cmd}
use demotool.Socket.{Recv, got, Sent, Net}
use demotool.Socket.Transmit.{Takes, send_safe-Takes}
use demotool.Server.Callbacks.Brings.{
  Brings, nothing, piece, IsError, behind_next, recv_callback-got, recv_callback-IsError,
}
use demotool.Protocol.{Header, be32}
use demotool.Protocol.Err
use demotool.Plugins.Utils.{get_tmp_filename}
use demotool.Plugins.Loadseg.{
  System, Context, device, prefix_of, command_line, portion, exec_loop, load, acknowledge, receive,
  local_exec, loadseg_filename_len,
}

module _ (sys : System) (size : ℕ) (outlet : List Sent) (sent : List ℕ) where
  abbrev net_of : List Recv → Net
  net_of inbox = record { inbox = inbox; outlet = outlet; sent = sent }

  round :
      (inbox : List Recv) (fuel cnt : ℕ) (file : List ℕ) (b : ℕ) (bytes : List ℕ)
      → ((i n : ℕ) → sys.write i n ≡ pos n)
      → cnt < size
      → length (b ∷ bytes) ≤ portion (size - cnt)
      → exec_loop sys (suc fuel) size cnt file (net_of (got (b ∷ bytes) ∷ inbox))
        ≡ exec_loop sys fuel size (cnt + length (b ∷ bytes)) (file ++ (b ∷ bytes)) (net_of inbox)
  unfolding exec_loop
  round inbox fuel cnt file b bytes w h e =
      rw
        (
          lt→ltb cnt size h,
          recv_callback-got (portion (size - cnt)) (b ∷ bytes) (net_of inbox) e,
          w cnt (length (b ∷ bytes)),
          take-length (b ∷ bytes),
        )
        refl

  error_round :
      {inbox : List Recv} (fuel cnt : ℕ) (file : List ℕ)
      → cnt < size
      → IsError inbox
      → exec_loop sys (suc fuel) size cnt file (net_of inbox)
        ≡ ok (Err.recv, file) (net_of (behind_next inbox))
  unfolding exec_loop
  error_round {inbox} fuel cnt file h e =
      rw (lt→ltb cnt size h, recv_callback-IsError (portion (size - cnt)) (net_of inbox) e) refl

  -- The rounds for the bytes that are brought.
  exec_loop-Brings :
      (fuel cnt : ℕ) (file : List ℕ) {missing : ℕ} {bytes : List ℕ} {tail inbox : List Recv}
      → ((i n : ℕ) → sys.write i n ≡ pos n)
      → Brings portion missing tail bytes inbox
      → cnt + length bytes + missing ≡ size
      → length bytes < fuel
      → (k : ℕ) × (exec_loop sys fuel size cnt file (net_of inbox)
          ≡ exec_loop sys (suc k) size (cnt + length bytes) (file ++ bytes) (net_of tail))
  exec_loop-Brings zero cnt file w b e f = absurd (omega arith)
  exec_loop-Brings (suc fuel) cnt file w nothing e f =
      let none_more : cnt + 0 ≡ cnt = omega arith in (fuel, rw (append-nil, none_more) refl)
  exec_loop-Brings (suc fuel) cnt file {missing} w (piece {b} {bytes} {more} {inbox} short bs) e f =
      let sizes = length-append (b ∷ bytes) more in
      let left : length ((b ∷ bytes) ++ more) + missing ≡ size - cnt = omega (arith, e) in
      let counted : cnt + length (b ∷ bytes) + length more ≡ cnt + length ((b ∷ bytes) ++ more) =
        omega (arith, sizes) in
      let (k, rest) =
        exec_loop-Brings fuel (cnt + length (b ∷ bytes)) (file ++ (b ∷ bytes)) w bs
          (omega (arith, sizes)) (omega (arith, sizes)) in
      (
        k,
        rw
            (
              round inbox fuel cnt file b bytes w (omega (arith, sizes))
                  (subst (λ n. length (b ∷ bytes) ≤ portion n) left short),
              rest,
              counted,
              append_assoc file (b ∷ bytes) more,
            )
            refl,
      )

-- From the end of the loop to that of the plugin.
receive-loop :
    (sys : System) (h : Header) (ctx ctx' : Context) (code ret : ℕ) (file : List ℕ) (net : Net)
    {tail : List Recv} {rest outlet : List Sent} (sent : List ℕ)
    → sys.opens ≡ true
    → exec_loop sys (h.size + 1) h.size 0 [] net
      ≡ ok (code, file) (record { inbox = tail; outlet = outlet; sent = sent })
    → load sys ctx (code, file) ≡ (ret, ctx')
    → Takes rest 4 outlet
    → receive sys h ctx net
      ≡ ok (ret, ctx') (record { inbox = tail; outlet = rest; sent = sent ++ be32 ret })
unfolding receive acknowledge be32
receive-loop sys h ctx ctx' code ret file net {tail} {outlet = outlet} sent opens loop loads t =
    rw
      (
        opens,
        loop,
        loads,
        send_safe-Takes (be32 ret) (record { inbox = tail; outlet = outlet; sent = sent }) t,
      )
      refl

-- What a run of the plugin is given: a name for the temporary file, which can be opened and takes
-- what is written to it.
pub record IsReady (sys : System) (fast_rand : ℕ → ℕ) (address seed : ℕ) (h : Header)
    (name : List ℕ) : Type 0 where
  pub named :
      (get_tmp_filename fast_rand address (prefix_of (device h)) loadseg_filename_len seed).0
      ≡ some name
  pub opens : sys.opens ≡ true
  pub writes : (i n : ℕ) → sys.write i n ≡ pos n

-- The context behind the name of the file and the command line.
abbrev pub prepared : Header → Context → List ℕ → Context
prepared h ctx name = record ctx { cmdline = command_line h ctx.cmdline; filename = name }

module _ (sys : System) (fast_rand : ℕ → ℕ) (address seed : ℕ) (h : Header) (ctx : Context)
    (name : List ℕ) where
  local_exec-receive :
      (net : Net)
      → IsReady sys fast_rand address seed h name
      → local_exec sys fast_rand address seed h ctx net ≡ receive sys h (prepared h ctx name) net
  unfolding local_exec
  local_exec-receive net ready =
      let ctx' = record ctx { cmdline = command_line h ctx.cmdline } in
      let named_run : Option (List ℕ) → Cmd Net (ℕ × Context) = λ name. elim name [
        | none ↦ pure (Err.file_open, ctx')
        | some filename ↦ receive sys h (record ctx' { filename = filename })
      ] in
      ap (λ name. named_run name net) ready.named

  module _ {bytes : List ℕ} {tail inbox : List Recv} {rest outlet : List Sent} (sent : List ℕ)
      (ready : IsReady sys fast_rand address seed h name) (taken : Takes rest 4 outlet) where
    pub local_exec-IsError :
        {missing : ℕ}
        → h.size ≡ length bytes + missing
        → 0 < missing
        → Brings portion missing tail bytes inbox
        → IsError tail
        → local_exec sys fast_rand address seed h ctx
            (record { inbox = inbox; outlet = outlet; sent = sent })
          ≡ ok
              (Err.recv, prepared h ctx name)
              (record { inbox = behind_next tail; outlet = rest; sent = sent ++ be32 Err.recv })
    unfolding load
    local_exec-IsError e m b error =
        let (k, rounds) =
          exec_loop-Brings sys h.size outlet sent (h.size + 1) 0 [] ready.writes b (omega arith)
            (omega arith) in
        local_exec-receive _ ready
        ∙ receive-loop sys h (prepared h ctx name) _ Err.recv Err.recv bytes _ sent ready.opens
            (rounds ∙ error_round sys h.size outlet sent k _ bytes (omega arith) error) refl taken
