-- ===== src/Plugins/Adf/Format.antt =====
-- `local_exec` of plugins/adf_plugin.c puts every track that arrives on the disk.
use demotool.Base.{
  ℕ, zero, suc, ◌+◌, ◌-◌, ◌*◌, ◌≤◌, ◌<◌, ◌≡◌, refl, false, some, List, [], ◌∷◌, ◌++◌, append-nil,
  append_assoc, arith,
}
use demotool.Base.{length, le→ltb, lt→ltb, ◌==◌, ==_refl}
use demotool.Base.Run.{ok, Cmd}
use demotool.Socket.{Recv, Sent, Net}
use demotool.Socket.Transmit.{Takes, send_safe-Takes}
use demotool.Server.Callbacks.Brings.{Brings, IsError, behind_next}
use demotool.Protocol.{Header, be32}
use demotool.Protocol.Err
use demotool.Plugins.Adf.Disk.{portion, format_track, exec_loop, acknowledge, local_exec}
use demotool.Plugins.Adf.Track.{read_track-Brings, read_track-IsError}

-- The answers of `recv` bring tracks, one after the other.
pub data BringsTracks (track_len : ℕ) (tail : List Recv) : List (List ℕ) → List Recv → Type 0 where
  none_left : BringsTracks track_len tail [] tail
  one :
      {track : List ℕ} {tracks : List (List ℕ)} {mid inbox : List Recv}
      → length track ≡ track_len
      → Brings portion 0 mid track inbox
      → BringsTracks track_len tail tracks mid
      → BringsTracks track_len tail (track ∷ tracks) inbox

-- The tracks at their offsets on the disk, from `cnt` on.
unfoldable pub placed : ℕ → ℕ → List (List ℕ) → List (ℕ × List ℕ)
placed track_len cnt [] = []
placed track_len cnt (track ∷ tracks) = (cnt, track) ∷ placed track_len (cnt + track_len) tracks

mul_enough : (n m : ℕ) → 0 < m → n ≤ n * m
mul_enough zero m h = omega arith
mul_enough (suc n) m h = omega (arith, mul_enough n m h)

differ : (a b : ℕ) → b < a → (a == b) ≡ false
differ a b h = ground arith

module _ (track_len : ℕ) (do_io : ℕ → List ℕ → ℕ)
    (works : (cnt : ℕ) (track : List ℕ) → do_io cnt track ≡ 0) (outlet : List Sent)
    (sent : List ℕ) where
  formatted :
      (cnt len : ℕ) (disk : List (ℕ × List ℕ)) (track : List ℕ)
      (next : ℕ → List (ℕ × List ℕ) → Cmd Net (ℕ × List (ℕ × List ℕ)))
      → 0 < len
      → length track ≡ track_len
      → format_track track_len do_io cnt disk next (some len, track)
        ≡ next (cnt + track_len) (disk ++ ((cnt, track) ∷ []))
  unfolding format_track
  formatted cnt len disk track next h e =
      rw (e, ==_refl track_len, works cnt track, differ len 0 h) refl

  last_test :
      (fuel size cnt : ℕ) (disk : List (ℕ × List ℕ)) (net : Net)
      → size ≤ cnt
      → exec_loop track_len do_io (suc fuel) size cnt disk net ≡ ok (Err.ok, disk) net
  unfolding exec_loop
  last_test fuel size cnt disk net h = rw (le→ltb cnt size h) refl

  abbrev net_of : List Recv → Net
  net_of inbox = record { inbox = inbox; outlet = outlet; sent = sent }

  round :
      {mid inbox : List Recv} (fuel size cnt : ℕ) (disk : List (ℕ × List ℕ)) (track : List ℕ)
      → cnt < size
      → 0 < track_len
      → length track ≡ track_len
      → Brings portion 0 mid track inbox
      → exec_loop track_len do_io (suc fuel) size cnt disk (net_of inbox)
        ≡ exec_loop track_len do_io fuel size
            (cnt + track_len)
            (disk ++ ((cnt, track) ∷ []))
            (net_of mid)
  unfolding exec_loop
  round fuel size cnt disk track h positive e d =
      let (len, some_bytes, read) =
        read_track-Brings track_len outlet sent track_len [] d (omega arith) (omega arith)
          (omega arith) in
      rw
        (
          lt→ltb cnt size h,
          read,
          formatted cnt len disk track (exec_loop track_len do_io fuel size) some_bytes e,
        )
        refl

  error_round :
      {tail inbox : List Recv} {missing : ℕ} (fuel size cnt : ℕ) (disk : List (ℕ × List ℕ))
      (bytes : List ℕ)
      → cnt < size
      → 0 < missing
      → length bytes + missing ≡ track_len
      → Brings portion missing tail bytes inbox
      → IsError tail
      → exec_loop track_len do_io (suc fuel) size cnt disk (net_of inbox)
        ≡ ok (Err.recv, disk) (net_of (behind_next tail))
  unfolding exec_loop format_track
  error_round fuel size cnt disk bytes h m e d error =
      rw
        (
          lt→ltb cnt size h,
          read_track-IsError track_len outlet sent track_len [] d error (omega arith) m
              (omega arith),
        )
        refl

  -- The rounds for the tracks that are brought.
  exec_loop-BringsTracks :
      (fuel : ℕ) {tracks : List (List ℕ)} {tail inbox : List Recv} (size cnt missing : ℕ)
      (disk : List (ℕ × List ℕ))
      → BringsTracks track_len tail tracks inbox
      → cnt + length tracks * track_len + missing ≡ size
      → length tracks < fuel
      → 0 < track_len
      → (k : ℕ) × (exec_loop track_len do_io fuel size cnt disk (net_of inbox)
          ≡ exec_loop track_len do_io
              (suc k)
              size
              (cnt + length tracks * track_len)
              (disk ++ placed track_len cnt tracks)
              (net_of tail))
  unfolding placed
  exec_loop-BringsTracks zero size cnt missing disk d e f h = absurd (omega arith)
  exec_loop-BringsTracks (suc fuel) size cnt missing disk none_left e f h =
      let same : cnt + 0 * track_len ≡ cnt = omega arith in (fuel, rw (append-nil, same) refl)
  exec_loop-BringsTracks (suc fuel) size cnt missing disk (one {track} {tracks} l d ds) e f h =
      let product : suc (length tracks) * track_len ≡ track_len + length tracks * track_len =
        omega arith in
      let counted : cnt + track_len + length tracks * track_len
          ≡ cnt + suc (length tracks) * track_len =
        omega (arith, product) in
      let (k, rest) =
        exec_loop-BringsTracks fuel size (cnt + track_len) missing (disk ++ ((cnt, track) ∷ [])) ds
          (omega (arith, product)) (omega arith) h in
      (
        k,
        rw
            (
              round fuel size cnt disk track (omega (arith, product)) h l d,
              rest,
              counted,
              append_assoc disk ((cnt, track) ∷ []) (placed track_len (cnt + track_len) tracks),
            )
            refl,
      )

module _ (track_len : ℕ) (do_io : ℕ → List ℕ → ℕ)
    (works : (cnt : ℕ) (track : List ℕ) → do_io cnt track ≡ 0) where
  -- If `recv` brings as many tracks as the header asks for, in pieces that are not larger than what
  -- the plugin asks for, and DoIO formats every track, then each track is put at its offset, in
  -- order, and the plugin acknowledges the disk and returns without an error.
  pub local_exec-BringsTracks :
      (h : Header) {tracks : List (List ℕ)} {tail inbox : List Recv} {rest outlet : List Sent}
      (sent : List ℕ)
      → 0 < track_len
      → h.size ≡ length tracks * track_len
      → BringsTracks track_len tail tracks inbox
      → Takes rest 4 outlet
      → local_exec track_len do_io h (record { inbox = inbox; outlet = outlet; sent = sent })
        ≡ ok
            (Err.ok, placed track_len 0 tracks)
            (record { inbox = tail; outlet = rest; sent = sent ++ be32 Err.ok })
  unfolding local_exec acknowledge be32
  local_exec-BringsTracks h {tracks} {tail} {outlet = outlet} sent positive e d t =
      let enough : length tracks < h.size + 1 =
        omega (arith, mul_enough (length tracks) track_len positive) in
      let (k, rounds) =
        exec_loop-BringsTracks track_len do_io works outlet sent (h.size + 1) h.size 0 0 [] d
          (omega arith) enough positive in
      rw
        (
          rounds,
          last_test track_len do_io works outlet sent k h.size (0 + length tracks * track_len)
              (placed track_len 0 tracks) _ (omega arith),
          send_safe-Takes (be32 Err.ok) (record { inbox = tail; outlet = outlet; sent = sent }) t,
        )
        refl

  -- If an answer of `recv` is -1 while a track is being received, also one that only says that there
  -- are no bytes now, then the tracks before it are on the disk at their offsets, nothing of this one
  -- is, and the plugin acknowledges with DT_ERR_RECV and returns it. DoIO formats every track.
  pub local_exec-IsError :
      (h : Header) {tracks : List (List ℕ)} {missing : ℕ} {bytes : List ℕ}
      {tail mid inbox : List Recv} {rest outlet : List Sent} (sent : List ℕ)
      → 0 < missing
      → length bytes + missing ≡ track_len
      → length tracks * track_len < h.size
      → BringsTracks track_len mid tracks inbox
      → Brings portion missing tail bytes mid
      → IsError tail
      → Takes rest 4 outlet
      → local_exec track_len do_io h (record { inbox = inbox; outlet = outlet; sent = sent })
        ≡ ok
            (Err.recv, placed track_len 0 tracks)
            (record { inbox = behind_next tail; outlet = rest; sent = sent ++ be32 Err.recv })
  unfolding local_exec acknowledge be32
  local_exec-IsError h {tracks} {bytes = bytes} {tail} {outlet = outlet} sent m e l d b error t =
      let positive : 0 < track_len = omega arith in
      let enough : length tracks < h.size + 1 =
        omega (arith, mul_enough (length tracks) track_len positive) in
      let (k, rounds) =
        exec_loop-BringsTracks track_len do_io works outlet sent (h.size + 1) h.size 0
          (h.size - length tracks * track_len) [] d (omega arith) enough positive in
      rw
        (
          rounds,
          error_round track_len do_io works outlet sent k h.size (0 + length tracks * track_len)
              (placed track_len 0 tracks) bytes (omega arith) m e b error,
          send_safe-Takes (be32 Err.recv)
              (record { inbox = behind_next tail; outlet = outlet; sent = sent }) t,
        )
        refl
