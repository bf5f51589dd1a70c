-- ===== src/Client/Commands.antt =====
-- The commands of client/demotool.c: the handshake, the transfer of a file to the server and from
-- it, and the commands without a file. Printing is left out, and the host's byte order is `e`.
pub mod Peek
pub mod Transfer
use demotool.Base.{ℕ, zero, suc, ◌+◌, Bool, true, false, Option, none, some, List, [], ◌∷◌, ◌++◌}
use demotool.Base.{bit_and, bit_or, ltb, ◌==◌, if◌then◌else◌, length, take}
use demotool.Base.Int.{ℤ, pos, negsuc}
use demotool.Base.CString.{same_string}
use demotool.Base.Run.{Run, ok, waiting, Cmd, ◌>>=◌, ◌>>◌, pure}
use demotool.Socket.{Net, recv_safe, send_safe}
use demotool.Protocol.{Header, Endian, of_be32, htonl, load32}
use demotool.Protocol.{dt_hdr_tag_cmd_quit, dt_hdr_tag_cmd_reboot}
use demotool.Protocol.Layout.{store_header}
use demotool.Protocol.Flag
use demotool.Protocol.Flag.{has_flag}
use demotool.Protocol.Err
use demotool.Client.{Options}
use demotool.Client.Header.{prepare_header}

-- An error of the client itself.
abbrev pub client_error : ℕ → ℕ
client_error code = bit_or Err.client code

-- Whether the first argument is the number of bytes asked for.
abbrev pub is_count : Option ℕ → ℕ → Bool
is_count none n = false
is_count (some m) n = m == n

-- The number in the four bytes of an answer, or the error of an answer that is too short.
unfoldable pub answer_code : Option (List ℕ) → ℕ → ℕ
unfolding of_be32
answer_code none error = error
answer_code (some bytes) error = if length bytes == 4 then of_be32 bytes else error

unfoldable pub handshake : Endian → Header → ℕ → Cmd Net ℕ
unfolding answer_code
handshake e hdr hdr_len = do
  n ← send_safe (take hdr_len (store_header e hdr))
  if is_count n hdr_len
      then (do resp ← recv_safe 4; pure (answer_code resp (client_error Err.recv)))
      else pure (client_error Err.send)

-- A file that is open for reading: what `ftell` says of its end, the pieces that `fread` gives, each
-- of which has a byte at least, and whether `feof` holds behind them.
pub record InputFile : Type 0 where
  pub offset : ℤ
  pub pieces : List (List ℕ)
  pub eof : Bool

unfoldable pub get_file_read_size : Option InputFile → ℕ
get_file_read_size none = client_error Err.file_open
get_file_read_size (some fh) = elim fh.offset [
  | pos size ↦ size
  | negsuc n ↦ client_error Err.file_io
]

-- The four bytes of an acknowledgement, `ntohl` of what lies in `ret`.
unfoldable pub read_ack : Endian → ℕ → Cmd Net ℕ
read_ack e error = do
  ack ← recv_safe 4
  pure (elim ack [
    | none ↦ error
    | some bytes ↦ if length bytes == 4 then htonl e (load32 e bytes) else error
  ])

-- The loop that sends the file: `none` if it came to its end, or the result to return.
unfoldable pub send_pieces : Endian → List (List ℕ) → Cmd Net (Option ℕ)
unfolding read_ack
send_pieces e [] = pure none
send_pieces e (piece ∷ pieces) =
    let rest = send_pieces e pieces in
    do
      n ← send_safe piece
      if is_count n (length piece)
          then rest
          else (do ret ← read_ack e (client_error Err.send); pure (some ret))

-- Behind the loop: the acknowledgement is read if the file was read to its end.
unfoldable pub finish_send : Endian → InputFile → Option ℕ → Cmd Net ℕ
unfolding read_ack
finish_send e fh (some ret) = pure ret
finish_send e fh none =
    if fh.eof then read_ack e (client_error Err.recv) else pure (client_error Err.file_io)

unfoldable pub send_file : Endian → InputFile → Header × ℕ → Cmd Net ℕ
unfolding handshake send_pieces finish_send
send_file e fh (hdr, hdr_len) = do
  ret ← handshake e hdr hdr_len
  if ret == Err.ok then (do r ← send_pieces e fh.pieces; finish_send e fh r) else pure ret

-- `lsg0`, and with it `lsg1`, `adr0` and `send`. The file is `none` if it cannot be opened; the code
-- then calls `fclose` on a variable that was not set, which is left out.
unfoldable pub lsg0 : Endian → Bool → Option InputFile → Options → Cmd Net ℕ
lsg0 e memory none o = pure (get_file_read_size none)
lsg0 e memory (some fh) o =
    let size = get_file_read_size (some fh) in
    if has_flag size Err.client
    then pure size
    else elim (prepare_header e memory (record o { size = size })) [
      | none ↦ pure Err.malloc
      | some hdr ↦ send_file e fh hdr
    ]

-- `adf0`: nothing is run.
unfoldable pub adf0 : Endian → Bool → Option InputFile → Options → Cmd Net ℕ
adf0 e memory file o = lsg0 e memory file (record o { flags = bit_or o.flags Flag.no_run })

-- `quit_remote` and `reboot_remote`, which differ in the four bytes that they send.
unfoldable pub command_remote : Endian → List ℕ → Cmd Net ℕ
command_remote e command = do
  n ← send_safe (take 4 command)
  if is_count n 4 then read_ack e (client_error Err.recv) else pure (client_error Err.send)

unfoldable pub quit_remote : Endian → Cmd Net ℕ
quit_remote e = command_remote e dt_hdr_tag_cmd_quit

unfoldable pub reboot_remote : Endian → Cmd Net ℕ
reboot_remote e = command_remote e dt_hdr_tag_cmd_reboot

-- The loop of `peek`: pieces of 1024 bytes until `recv_safe` gives none or fails. `accepts` says how
-- many of the bytes of a piece `fwrite` writes; the result is the code, with the bytes written.
unfoldable pub recv_pieces : (List ℕ → ℕ) → ℕ → List ℕ → ℕ → Cmd Net (ℕ × List ℕ)
recv_pieces accepts zero written ret = λ net. waiting
recv_pieces accepts (suc fuel) written ret =
    let next = λ (piece : List ℕ). recv_pieces accepts fuel (written ++ piece) ret in
    do
      r ← recv_safe 1024
      elim r [
        | none ↦ pure (Err.recv, written)
        | some [] ↦ pure (ret, written)
        | some (b ∷ piece) ↦
            if accepts (b ∷ piece) == length (b ∷ piece)
            then next (b ∷ piece)
            else pure (client_error Err.file_io, written)
      ]

-- The header that `peek` sends: the flag is set in the host's order.
unfoldable pub without_run : Header → Header
without_run hdr = record hdr { flags = bit_or hdr.flags Flag.no_run }

-- Each round of the loop waits for an answer of `recv`, so the rounds are bounded by their number.
unfoldable pub receive_file : Endian → (List ℕ → ℕ) → Header × ℕ → Cmd Net (ℕ × List ℕ)
unfolding handshake recv_pieces without_run
receive_file e accepts (hdr, hdr_len) = do
  ret ← handshake e (without_run hdr) hdr_len
  if has_flag ret Err.client
      then pure (ret, [])
      else (λ net. recv_pieces accepts (suc (length net.inbox)) [] ret net)

-- `peek`, and with it `recv`: the code, with the bytes written to the file. `opened` says whether
-- the file can be opened for writing.
unfoldable pub peek : Endian → Bool → Bool → (List ℕ → ℕ) → Options → Cmd Net (ℕ × List ℕ)
unfolding receive_file
peek e memory opened accepts o =
    if opened
    then elim (prepare_header e memory o) [
      | none ↦ pure (Err.malloc, [])
      | some hdr ↦ receive_file e accepts hdr
    ]
    else pure (client_error Err.file_open, [])

-- The functions that a command can stand for.
pub data Action : Type 0 where
  do_lsg0 do_lsg1 do_adf0 do_adr0 do_peek do_quit do_reboot : Action

-- The action of a command, or `none` for NULL.
unfoldable pub validate_command : Options → Option Action
validate_command o =
    let name = λ (s : List ℕ). same_string s o.plugin in
    if name (b'l' ∷ b's' ∷ b'g' ∷ b'0' ∷ [])
    then some do_lsg0
    else if name (b'l' ∷ b's' ∷ b'g' ∷ b'1' ∷ [])
    then some do_lsg1
    else if name (b'a' ∷ b'd' ∷ b'f' ∷ b'0' ∷ [])
    then some do_adf0
    else if name (b'a' ∷ b'd' ∷ b'r' ∷ b'0' ∷ [])
    then some do_adr0
    else if name (b'p' ∷ b'e' ∷ b'e' ∷ b'k' ∷ [])
    then elim o.file [ none ↦ none | some file ↦ some do_peek ]
    else if name (b's' ∷ b'e' ∷ b'n' ∷ b'd' ∷ [])
    then some do_lsg0
    else if name (b'r' ∷ b'e' ∷ b'c' ∷ b'v' ∷ [])
    then some do_peek
    else if name (b'q' ∷ b'u' ∷ b'i' ∷ b't' ∷ [])
    then some do_quit
    else if name (b'r' ∷ b'e' ∷ b'b' ∷ b'o' ∷ b'o' ∷ b't' ∷ [])
    then some do_reboot
    else none
