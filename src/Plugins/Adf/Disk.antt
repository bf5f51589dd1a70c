-- ===== src/Plugins/Adf/Disk.antt =====
-- `local_exec` of plugins/adf_plugin.c. `do_io` is what DoIO answers to the command that formats a
-- track, 0 if it succeeds; the command that turns the motor off has no effect here.
use demotool.Base.{ℕ, zero, suc, ◌+◌, ◌-◌, ◌%◌, Option, none, some, List, [], ◌∷◌, ◌++◌, bit_or}
use demotool.Base.{ltb, ◌==◌, if◌then◌else◌, length}
use demotool.Base.Run.{waiting, Cmd, ◌>>=◌, pure}
use demotool.Socket.{Net}
use demotool.Server.Callbacks.{recv_callback, send_callback}
use demotool.Protocol.{Header, be32}
use demotool.Protocol.Err

-- The number of bytes to ask for, where `left` are missing of a track.
abbrev pub portion : ℕ → ℕ
portion left = if ltb 1024 left then 1024 else left

module _ (track_len : ℕ) where
  -- The inner loop: the last `len`, `none` for a negative one, with the bytes of the track. A round
  -- that goes on has received a byte, so `track_len` rounds are enough.
  unfoldable pub read_track : ℕ → List ℕ → Cmd Net (Option ℕ × List ℕ)
  read_track zero io_data = λ net. waiting
  read_track (suc fuel) io_data =
      let next = λ (bytes : List ℕ). read_track fuel (io_data ++ bytes) in
      do
        r ← recv_callback (portion (track_len - length io_data))
        elim r [
          | none ↦ pure (none, io_data)
          | some [] ↦ pure (some 0, io_data)
          | some (b ∷ bytes) ↦
              if ltb (length (io_data ++ (b ∷ bytes))) track_len
              then next (b ∷ bytes)
              else pure (some (length (b ∷ bytes)), io_data ++ (b ∷ bytes))
        ]

  -- Behind the inner loop. `next` is the rest of the outer one, once the track is on the disk.
  unfoldable pub format_track :
      (ℕ → List ℕ → ℕ)
      → ℕ
      → List (ℕ × List ℕ)
      → (ℕ → List (ℕ × List ℕ) → Cmd Net (ℕ × List (ℕ × List ℕ)))
      → Option ℕ × List ℕ
      → Cmd Net (ℕ × List (ℕ × List ℕ))
  format_track do_io cnt disk next (none, io_data) = pure (Err.recv, disk)
  format_track do_io cnt disk next (some len, io_data) =
      let error = do_io cnt io_data in
      let disk' = disk ++ ((cnt, io_data) ∷ []) in
      if length io_data == track_len
      then (if error == 0
          then (if len == 0 then pure (Err.ok, disk') else next (cnt + track_len) disk')
          else pure (bit_or Err.disk_io (error % 256), disk))
      else pure (Err.disk_sector_len, disk)

  -- The outer loop: the code, with the tracks that were formatted and their offsets.
  unfoldable pub exec_loop :
      (ℕ → List ℕ → ℕ) → ℕ → ℕ → ℕ → List (ℕ × List ℕ) → Cmd Net (ℕ × List (ℕ × List ℕ))
  unfolding read_track format_track
  exec_loop do_io zero size cnt disk = λ net. waiting
  exec_loop do_io (suc fuel) size cnt disk =
      let next = exec_loop do_io fuel size in
      let more = (do track ← read_track track_len []; format_track do_io cnt disk next track) in
      if ltb cnt size then more else pure (Err.ok, disk)

  -- The acknowledgement, whose result is not looked at.
  unfoldable pub acknowledge : ℕ × List (ℕ × List ℕ) → Cmd Net (ℕ × List (ℕ × List ℕ))
  acknowledge (ret, disk) = do _ ← send_callback (be32 ret); pure (ret, disk)

  -- `local_exec`. A round that goes on formats a track of a byte at least, so `size` rounds and the
  -- last test are enough.
  unfoldable pub local_exec : (ℕ → List ℕ → ℕ) → Header → Cmd Net (ℕ × List (ℕ × List ℕ))
  unfolding exec_loop acknowledge
  local_exec do_io h = do r ← exec_loop do_io (h.size + 1) h.size 0 []; acknowledge r
