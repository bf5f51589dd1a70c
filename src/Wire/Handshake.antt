-- ===== src/Wire/Handshake.antt =====
-- The whole way of a request: the bytes that the client of client/demotool.c sends as its header,
-- received and taken apart by `loader_main` of server/demotool.c.
use demotool.Base.{ℕ, sym, ◌+◌, ◌≡◌, refl, ap, ◌∙◌, true, some, List, [], ◌∷◌, ◌++◌, arith}
use demotool.Base.{length, drop, take, length-append, ==_refl}
use demotool.Base.CString.{length-strncpy, same_prefix}
use demotool.Base.Run.{ok, Cmd}
use demotool.Socket
use demotool.Socket.{Recv, Net}
use demotool.Socket.Receive.{Delivers, recv_safe-Delivers}
use demotool.Protocol.{Endian, big}
use demotool.Protocol.Layout.{store_header, load_header, length-store32}
use demotool.Protocol.Err
use demotool.Client.{Options}
use demotool.Client.Header.{fill_header, ver_len, extension_bytes}
use demotool.Client.Header.Length.{HasShortTexts}
use demotool.Server.Header.{check_dt_ver_len}
use demotool.Server.Loader
use demotool.Server.Loader.{Host, Server, Config, Call, on_net, note, recv_data, loader_main}
use demotool.Server.Loader.{
  with_tag, with_header, with_length, read_header, check_header, select_plugin,
}
use demotool.Wire.Request.{AreWords, requested, check-fill_header, load-fill_header}

-- What the client sends behind the four bytes of the tag.
body : Endian → Options → List ℕ
body e o = drop 4 (store_header e (fill_header e o))

wire :
    (e : Endian) (o : Options)
    → store_header e (fill_header e o) ≡ (b'H' ∷ b'D' ∷ b'R' ∷ ver_len o ∷ []) ++ body e o
unfolding body store_header fill_header
wire e o = refl

length-body : (e : Endian) (o : Options) → length (body e o) ≡ 24 + length (extension_bytes o)
unfolding body store_header fill_header
length-body e o = simp (length-append, length-strncpy, length-store32) (omega arith)

abbrev tag : Options → List ℕ
tag o = b'H' ∷ b'D' ∷ b'R' ∷ ver_len o ∷ []

module _ {W : Type 0} (cfg : Config W) where
  -- The state with other answers of `recv` to come.
  abbrev pub with_inbox : Server W → List Recv → Server W
  with_inbox s inbox = record s {
    host = record {
      net = record { inbox = inbox; outlet = s.host.net.outlet; sent = s.host.net.sent };
      machine = s.host.machine;
    };
  }

  pub on_net-ok :
      {A : Type 0} (m : Cmd Net A) (s : Server W) {a : A} {net : Net}
      → m s.host.net ≡ ok a net
      → on_net m s ≡ ok a (record s { host = record { net = net; machine = s.host.machine } })
  unfolding on_net
  on_net-ok m s h = rw (h, on_net)

  pub recv_data_lem :
      {rest : List Recv} {bs : List ℕ} (s : Server W)
      → Delivers rest bs s.host.net.inbox
      → recv_data (length bs) s ≡ ok (some bs) (with_inbox s rest)
  unfolding recv_data Loader.recv_safe
  recv_data_lem {bs} s d =
      on_net-ok (Socket.recv_safe (length bs)) s (recv_safe-Delivers s.host.net d)

  tag_accepted :
      (e : Endian) (o : Options) (s : Server W)
      → HasShortTexts o
      → cfg.memory ≡ true
      → with_tag cfg (some (tag o)) s ≡ read_header cfg (tag o) (24 + length (extension_bytes o)) s
  unfolding with_tag check_header with_length same_prefix
  tag_accepted e o s short memory =
      let accepted : check_dt_ver_len (tag o)
          ≡ record { code = Err.ok; len_ver = some (24 + length (extension_bytes o), 0) } =
        unfold fill_header in check-fill_header e o short in
      simp (accepted, memory)

  -- The state when the header has been read.
  abbrev pub served : Server W → List Recv → Server W
  served s rest = with_inbox (record s { trace = Call.alloc_header ∷ s.trace }) rest

  header_read :
      (e : Endian) (o : Options) (s : Server W) {rest : List Recv}
      → AreWords o
      → Delivers rest (body e o) s.host.net.inbox
      → read_header cfg (tag o) (24 + length (extension_bytes o)) s
        ≡ select_plugin cfg (requested o) (served s rest)
  unfolding read_header with_header note
  header_read e o s {rest} words d =
      let got = recv_data_lem (record s { trace = Call.alloc_header ∷ s.trace }) d in
      let whole : load_header big (tag o ++ body e o) ≡ requested o =
        ap (load_header big) (sym (wire e o)) ∙ load-fill_header e o words in
      rw (← length-body e o, got, ==_refl (length (body e o)), whole) refl

  -- If the network brings the header that the client makes of its options, in pieces of any size,
  -- then the server goes on to choose a plugin for exactly what the options ask for, whatever the
  -- byte order of the client.
  pub loader_main_request :
      (e : Endian) (o : Options) (s : Server W) {mid rest : List Recv}
      → HasShortTexts o
      → AreWords o
      → cfg.memory ≡ true
      → Delivers mid (take 4 (store_header e (fill_header e o))) s.host.net.inbox
      → Delivers rest (drop 4 (store_header e (fill_header e o))) mid
      → loader_main cfg s ≡ select_plugin cfg (requested o) (served s rest)
  unfolding loader_main
  loader_main_request e o s {mid} {rest} short words memory d d' =
      let first : recv_data 4 s ≡ ok (some (tag o)) (with_inbox s mid) =
        unfold store_header fill_header in recv_data_lem s d in
      rw first (
        tag_accepted e o (with_inbox s mid) short memory
        ∙ header_read e o (with_inbox s mid) words (unfold body in d'))
