-- ===== src/Plugins/Adf/Track.antt =====
-- The inner loop of `local_exec` of plugins/adf_plugin.c, which receives a track.
use demotool.Base.{
  subst, ℕ, zero, suc, ◌+◌, ◌-◌, ◌≤◌, ◌<◌, ◌≡◌, refl, none, some, List, [], ◌∷◌, ◌++◌, append-nil,
  append_assoc, arith,
}
use demotool.Base.{length, length-append, le→ltb, lt→ltb}
use demotool.Base.Run.{ok}
use demotool.Socket.{Recv, got, Sent, Net}
use demotool.Server.Callbacks.Brings.{
  Brings, nothing, piece, IsError, behind_next, recv_callback-got, recv_callback-IsError,
}
use demotool.Plugins.Adf.Disk.{portion, read_track}

module _ (track_len : ℕ) (outlet : List Sent) (sent : List ℕ) where
  abbrev net_of : List Recv → Net
  net_of inbox = record { inbox = inbox; outlet = outlet; sent = sent }

  last_portion :
      (inbox : List Recv) (fuel : ℕ) (io_data : List ℕ) (b : ℕ) (bytes : List ℕ)
      → length (b ∷ bytes) ≤ portion (track_len - length io_data)
      → track_len ≤ length (io_data ++ (b ∷ bytes))
      → read_track track_len (suc fuel) io_data (net_of (got (b ∷ bytes) ∷ inbox))
        ≡ ok (some (length (b ∷ bytes)), io_data ++ (b ∷ bytes)) (net_of inbox)
  unfolding read_track
  last_portion inbox fuel io_data b bytes p e =
      rw
        (
          recv_callback-got (portion (track_len - length io_data)) (b ∷ bytes) (net_of inbox) p,
          le→ltb (length (io_data ++ (b ∷ bytes))) track_len e,
        )
        refl

  more_portion :
      (inbox : List Recv) (fuel : ℕ) (io_data : List ℕ) (b : ℕ) (bytes : List ℕ)
      → length (b ∷ bytes) ≤ portion (track_len - length io_data)
      → length (io_data ++ (b ∷ bytes)) < track_len
      → read_track track_len (suc fuel) io_data (net_of (got (b ∷ bytes) ∷ inbox))
        ≡ read_track track_len fuel (io_data ++ (b ∷ bytes)) (net_of inbox)
  unfolding read_track
  more_portion inbox fuel io_data b bytes p e =
      rw
        (
          recv_callback-got (portion (track_len - length io_data)) (b ∷ bytes) (net_of inbox) p,
          lt→ltb (length (io_data ++ (b ∷ bytes))) track_len e,
        )
        refl

  error_portion :
      {inbox : List Recv} (fuel : ℕ) (io_data : List ℕ)
      → IsError inbox
      → read_track track_len (suc fuel) io_data (net_of inbox)
        ≡ ok (none, io_data) (net_of (behind_next inbox))
  unfolding read_track
  error_portion {inbox} fuel io_data e =
      rw (recv_callback-IsError (portion (track_len - length io_data)) (net_of inbox) e) refl

  -- A piece fits into what is left of the track.
  fits :
      (io_data : List ℕ) (n left : ℕ)
      → n ≤ portion left
      → left ≡ track_len - length io_data
      → n ≤ portion (track_len - length io_data)
  fits io_data n left h e = subst (λ m. n ≤ portion m) e h

  -- The bytes that are left of a track.
  pub read_track-Brings :
      {tail : List Recv} (fuel : ℕ) {bytes : List ℕ} {inbox : List Recv} (io_data : List ℕ)
      → Brings portion 0 tail bytes inbox
      → length io_data + length bytes ≡ track_len
      → 0 < length bytes
      → length bytes ≤ fuel
      → (len : ℕ) × (0 < len)
        × (read_track track_len fuel io_data (net_of inbox)
            ≡ ok (some len, io_data ++ bytes) (net_of tail))
  read_track-Brings fuel io_data nothing e h f = absurd (omega arith)
  read_track-Brings zero io_data (piece short bs) e h f = absurd (omega arith)
  read_track-Brings (suc fuel) io_data (piece {b} {bytes} {inbox = inbox} short nothing) e h f =
      let whole = append-nil bytes in
      let sizes = length-append io_data (b ∷ bytes) in
      let sizes' = length-append (b ∷ bytes) [] in
      (
        length (b ∷ bytes),
        omega arith,
        rw whole (
            last_portion inbox fuel io_data b bytes
              (fits io_data _ (length ((b ∷ bytes) ++ []) + 0) short (omega arith))
              (omega (arith, sizes, sizes'))),
      )
  read_track-Brings (suc fuel) io_data
        (piece {b} {bytes} {inbox = inbox} short (piece {b = c} {bytes = cs} {more} short' bs)) e h
        f =
      let others = (c ∷ cs) ++ more in
      let sizes = length-append io_data (b ∷ bytes) in
      let sizes' = length-append (b ∷ bytes) others in
      let (len, positive, rest) =
        read_track-Brings fuel (io_data ++ (b ∷ bytes))
          (piece {b = c} {bytes = cs} {more = more} short' bs) (omega (arith, sizes, sizes'))
          (omega arith) (omega (arith, sizes')) in
      (
        len,
        positive,
        rw
            (
              more_portion inbox fuel io_data b bytes
                  (fits io_data _ (length ((b ∷ bytes) ++ others) + 0) short (omega arith))
                  (omega (arith, sizes, sizes')),
              rest,
              append_assoc io_data (b ∷ bytes) others,
            )
            refl,
      )

  -- An error before the track is whole.
  pub read_track-IsError :
      (fuel : ℕ) {missing : ℕ} {bytes : List ℕ} {tail inbox : List Recv} (io_data : List ℕ)
      → Brings portion missing tail bytes inbox
      → IsError tail
      → length io_data + length bytes + missing ≡ track_len
      → 0 < missing
      → length bytes < fuel
      → read_track track_len fuel io_data (net_of inbox)
        ≡ ok (none, io_data ++ bytes) (net_of (behind_next tail))
  read_track-IsError zero io_data b error e m f = absurd (omega arith)
  read_track-IsError (suc fuel) io_data nothing error e m f =
      rw append-nil (error_portion fuel io_data error)
  read_track-IsError (suc fuel) {missing} io_data (piece {b} {bytes} {more} {inbox} short bs) error
        e m f =
      let sizes = length-append io_data (b ∷ bytes) in
      let sizes' = length-append (b ∷ bytes) more in
      rw
        (
          more_portion inbox fuel io_data b bytes
              (fits io_data _ (length ((b ∷ bytes) ++ more) + missing) short (omega arith))
              (omega (arith, sizes, sizes')),
          read_track-IsError fuel (io_data ++ (b ∷ bytes)) bs error (omega (arith, sizes, sizes')) m
              (omega (arith, sizes')),
          append_assoc io_data (b ∷ bytes) more,
        )
        refl
