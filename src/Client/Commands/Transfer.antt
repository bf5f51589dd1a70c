-- ===== src/Client/Commands/Transfer.antt =====
-- What the commands of client/demotool.c send, where the socket takes it, and what they return.
use demotool.Base.{
  ℕ, ◌+◌, ◌^◌, ◌<◌, ◌≡◌, refl, sym, subst, true, false, none, some, List, [], ◌∷◌, ◌++◌, arith,
}
use demotool.Base.{◌-◌, ltb, length, take, length-append, append_assoc, append-nil, ==_refl}
use demotool.Base.Run.{ok}
use demotool.Socket.{Recv, Sent, recv_safe}
use demotool.Socket.Receive.{Delivers, recv_safe-Delivers}
use demotool.Socket.Transmit.{Takes, take_all, send_safe-Takes}
use demotool.Protocol.{Header, Endian, be32, of_be32-be32, htonl-htonl, htonl, load32}
use demotool.Protocol.Layout.{store_header, length-store32}
use demotool.Protocol.Err
use demotool.Client.Commands.{client_error, answer_code, handshake, read_ack, send_pieces}
use demotool.Client.Commands.{finish_send, send_file, InputFile, get_file_read_size, lsg0}
use demotool.Base.CString.{length-strncpy}
use demotool.Client.{Options}
use demotool.Client.Header.{fill_header, prepare_header, extension_bytes, extension_room}
use demotool.Client.Header.Length.{HasShortTexts, extension_room-le}
use demotool.Protocol.{sizeof_header}
use demotool.Protocol.Flag.{has_flag}

-- The bytes of the pieces of a file, one after the other.
unfoldable pub contents : List (List ℕ) → List ℕ
contents [] = []
contents (p ∷ pieces) = p ++ contents pieces

-- The socket takes the pieces of a file, each in any portions.
pub data TakesAll (rest : List Sent) : List (List ℕ) → List Sent → Type 0 where
  nothing : TakesAll rest [] rest
  one :
      {p : List ℕ} {pieces : List (List ℕ)} {mid outlet : List Sent}
      → Takes mid (length p) outlet
      → TakesAll rest pieces mid
      → TakesAll rest (p ∷ pieces) outlet

send_pieces-TakesAll :
    (e : Endian) {rest outlet : List Sent} (pieces : List (List ℕ)) (inbox : List Recv)
    (sent : List ℕ)
    → TakesAll rest pieces outlet
    → send_pieces e pieces (record { inbox = inbox; outlet = outlet; sent = sent })
      ≡ ok none (record { inbox = inbox; outlet = rest; sent = sent ++ contents pieces })
unfolding send_pieces contents
send_pieces-TakesAll e [] inbox sent nothing = rw (append-nil sent) refl
send_pieces-TakesAll e {rest} (p ∷ pieces) inbox sent (one {mid} {outlet} t ts) =
    rw
      (
        send_safe-Takes p (record { inbox = inbox; outlet = outlet; sent = sent }) t,
        ==_refl (length p),
        send_pieces-TakesAll e pieces inbox (sent ++ p) ts,
        append_assoc sent p (contents pieces),
      )
      refl

-- An answer of the server: a number of 32 bits in network order.
pub length-be32 : (v : ℕ) → length (be32 v) ≡ 4
unfolding be32
length-be32 v = refl

ntohl-load32 : (e : Endian) (code : ℕ) → code < 2 ^ 32 → htonl e (load32 e (be32 code)) ≡ code
unfolding htonl load32
ntohl-load32 e code h = htonl-htonl e code h

take_whole : (n : ℕ) (bs : List ℕ) → length bs ≡ n → take n bs ≡ bs
take_whole n bs h = rw (← h) (take_all bs)

module _ (e : Endian) {inbox : List Recv} {outlet : List Sent} (sent : List ℕ) where
  recv_answer :
      {mid : List Recv} (code : ℕ)
      → Delivers mid (be32 code) inbox
      → recv_safe 4 (record { inbox = inbox; outlet = outlet; sent = sent })
        ≡ ok (some (be32 code)) (record { inbox = mid; outlet = outlet; sent = sent })
  recv_answer code d =
      rw (← length-be32 code)
        (recv_safe-Delivers (record { inbox = inbox; outlet = outlet; sent = sent }) d)

  pub read_ack-Delivers :
      {mid : List Recv} (code error : ℕ)
      → Delivers mid (be32 code) inbox
      → code < 2 ^ 32
      → read_ack e error (record { inbox = inbox; outlet = outlet; sent = sent })
        ≡ ok code (record { inbox = mid; outlet = outlet; sent = sent })
  unfolding read_ack
  read_ack-Delivers code error d h =
      rw (recv_answer code d, length-be32 code, ntohl-load32 e code h) refl

module _ (e : Endian) {inbox : List Recv} {outlet : List Sent} (sent : List ℕ) where
  pub handshake-Delivers :
      {mid : List Recv} {rest : List Sent} (hdr : Header) (hdr_len code : ℕ)
      → length (store_header e hdr) ≡ hdr_len
      → Takes rest hdr_len outlet
      → Delivers mid (be32 code) inbox
      → code < 2 ^ 32
      → handshake e hdr hdr_len (record { inbox = inbox; outlet = outlet; sent = sent })
        ≡ ok code (record { inbox = mid; outlet = rest; sent = sent ++ store_header e hdr })
  unfolding handshake answer_code
  handshake-Delivers {rest} hdr hdr_len code sizes t d h =
      let bytes = store_header e hdr in
      let takes = subst (λ n. Takes rest n outlet) (sym sizes) t in
      rw
        (
          take_whole hdr_len bytes sizes,
          send_safe-Takes bytes (record { inbox = inbox; outlet = outlet; sent = sent }) takes,
          sizes,
          ==_refl hdr_len,
          recv_answer e (sent ++ bytes) code d,
          length-be32 code,
          of_be32-be32 code h,
        )
        refl

module _ (e : Endian) (o : Options) (fh : InputFile) where
  -- The options, with the size that `lsg0` has found.
  abbrev pub sized : Options
  sized = record o { size = get_file_read_size (some fh) }

  -- The header of the request.
  abbrev pub request : List ℕ
  request = store_header e (fill_header e sized)

  length-request : HasShortTexts o → length request ≡ sizeof_header + length (extension_bytes o)
  unfolding store_header fill_header extension_bytes
  length-request short = simp (length-append, length-strncpy, length-store32) (omega arith)

  prepared :
      HasShortTexts o
      → prepare_header e true sized
        ≡ some (fill_header e sized, sizeof_header + length (extension_bytes o))
  unfolding prepare_header extension_bytes
  prepared short =
      let texts : HasShortTexts sized = record {
        device_short = short.device_short;
        cmdline_short = short.cmdline_short;
      } in
      let fits : ltb 256 (sizeof_header + extension_room sized - 4) ≡ false =
        ground (arith, extension_room-le sized texts) in
      rw fits refl

  read_to_end : fh.eof ≡ true → finish_send e fh none ≡ read_ack e (client_error Err.recv)
  unfolding finish_send
  read_to_end eof = simp eof refl

  module _ (sent : List ℕ) {inbox : List Recv} {outlet : List Sent} where
    -- Where the server accepts the request, and answers with a code when it has the file, the client
    -- has sent the header and then the bytes of the file, and `lsg0` returns that code.
    pub lsg0-Delivers :
        {inbox₁ inbox₂ : List Recv} {outlet₁ outlet₂ : List Sent} (code : ℕ)
        → HasShortTexts o
        → has_flag (get_file_read_size (some fh)) Err.client ≡ false
        → fh.eof ≡ true
        → Takes outlet₁ (length request) outlet
        → Delivers inbox₁ (be32 Err.ok) inbox
        → TakesAll outlet₂ fh.pieces outlet₁
        → Delivers inbox₂ (be32 code) inbox₁
        → code < 2 ^ 32
        → lsg0 e true (some fh) o (record { inbox = inbox; outlet = outlet; sent = sent })
          ≡ ok code (record {
            inbox = inbox₂;
            outlet = outlet₂;
            sent = (sent ++ request) ++ contents fh.pieces;
          })
    unfolding lsg0 send_file
    lsg0-Delivers {inbox₁} {outlet₁} code short size eof t d ts d' h =
        let hdr = fill_header e sized in
        let len = sizeof_header + length (extension_bytes o) in
        let sizes = length-request short in
        let takes = subst (λ n. Takes outlet₁ n outlet) sizes t in
        rw
          (
            size,
            prepared short,
            handshake-Delivers e sent hdr len Err.ok sizes takes d (omega arith),
            send_pieces-TakesAll e fh.pieces inbox₁ (sent ++ request) ts,
            read_to_end eof,
            read_ack-Delivers e ((sent ++ request) ++ contents fh.pieces) code
                (client_error Err.recv) d' h,
          )
          refl
