-- ===== src/Server/Loader.antt =====
-- `loader_main` of server/demotool.c, which serves one connection. The plugin functions are given:
-- they work on the network and on the rest of the machine, `W`. The calls that matter to the order
-- of events are noted, the last one first.
pub mod Phases
pub mod Order
use demotool.Base.{
  ℕ, ◌*◌, ◌+◌, Bool, true, false, not, ◌&&◌, Option, none, some, List, [], ◌∷◌, ◌++◌,
}
use demotool.Base.{◌==◌, if◌then◌else◌, length}
use demotool.Base.CString.{same_prefix}
use demotool.Base.Run.{Run, ok, waiting, Cmd, ◌>>=◌, ◌>>◌, pure}
use demotool.Socket
use demotool.Socket.{Net}
use demotool.Protocol.{Header, big, be32, dt_hdr_tag_cmd_quit, dt_hdr_tag_cmd_reboot}
use demotool.Protocol.{dt_cmd_plugin, dt_cmd_quit, dt_cmd_reboot}
use demotool.Protocol.Layout.{load_header}
use demotool.Protocol.Flag
use demotool.Protocol.Flag.{has_flag}
use demotool.Protocol.Err
use demotool.Server.Header.{check_dt_ver_len}
use demotool.Server.Plugins.{Plugin, Info, find_plugin}

-- What the functions of a plugin work on.
pub record Host (W : Type 0) : Type 0 where
  pub net : Net
  pub machine : W

-- The functions of `struct plugin_common`. A context is an address, and NULL is `none`.
pub record Functions (W : Type 0) : Type 0 where
  pub init : Header → Cmd (Host W) (Option ℕ)
  pub exec : ℕ → Cmd (Host W) ℕ
  pub run : ℕ → Cmd (Host W) ℕ
  pub done : Option ℕ → Cmd (Host W) ℕ
  pub errno : Option ℕ → Cmd (Host W) ℕ

pub data Call : Type 0 where
  alloc_header free_header close delay run : Call
  respond : ℕ → Call
  -- With the header, and whether there is a context.
  init : Header → Bool → Call
  exec : ℕ → Call
  -- Whether it is given a context, and not NULL.
  done : Bool → Call

-- The state of the server while it serves a connection; `active_socket` is none for -1.
pub record Server (W : Type 0) : Type 0 where
  pub host : Host W
  pub active_socket : Option ℕ
  pub trace : List Call

-- The parts of `dt_cfg_t` and of the machine that a connection does not change: the delay, whether
-- `AllocVec` succeeds, and the loaded plugins.
pub record Config (W : Type 0) : Type 0 where
  pub delay : ℕ
  pub memory : Bool
  pub list : List (Plugin (Functions W))

module _ {W : Type 0} where
  unfoldable pub note : Call → Cmd (Server W) (Unit {0})
  note c s = ok tt (record s { trace = c ∷ s.trace })

  -- A call of a plugin function.
  unfoldable pub on_host : {A : Type 0} → Cmd (Host W) A → Cmd (Server W) A
  on_host m s = elim (m s.host) [ ok a h ↦ ok a (record s { host = h }) | waiting ↦ waiting ]

  unfoldable pub on_net : {A : Type 0} → Cmd Net A → Cmd (Server W) A
  on_net m s = elim (m s.host.net) [
    | ok a n ↦ ok a (record s { host = record { net = n; machine = s.host.machine } })
    | waiting ↦ waiting
  ]

  -- `recv_safe` and `send_safe` of the server, on its active socket.
  unfoldable pub recv_safe : ℕ → Cmd (Server W) (Option (List ℕ))
  recv_safe len = on_net (Socket.recv_safe len)

  unfoldable pub send_safe : List ℕ → Cmd (Server W) (Option ℕ)
  send_safe buf = on_net (Socket.send_safe buf)

  unfoldable pub recv_data : ℕ → Cmd (Server W) (Option (List ℕ))
  recv_data len = recv_safe len

  -- The result of `send_safe` is not looked at.
  unfoldable pub send_response : ℕ → Cmd (Server W) (Unit {0})
  send_response resp = do _ ← send_safe (be32 resp); note (respond resp)

  unfoldable pub close_connection : Cmd (Server W) (Unit {0})
  close_connection s = ok tt (record s { active_socket = none; trace = close ∷ s.trace })

  -- The ends of `loader_main` that answer the client and go on to the next one.
  unfoldable pub refuse : ℕ → Cmd (Server W) ℕ
  refuse resp = do send_response resp; pure dt_cmd_plugin

  unfoldable pub free_and_refuse : ℕ → Cmd (Server W) ℕ
  free_and_refuse resp = do note free_header; refuse resp

  -- `plugin->run`, after the delay, unless it is not to be called.
  unfoldable pub run_plugin : Config W → Functions W → Header → ℕ → ℕ → Cmd (Server W) (Unit {0})
  run_plugin cfg f h ctx ret =
      let start : Cmd (Server W) (Unit {0}) = (do _ ← on_host (f.run ctx); note run) in
      if not (has_flag h.flags Flag.no_run) && ret == Err.ok
      then (if cfg.delay == 0 then start else (do note delay; start))
      else pure tt

  -- From the acknowledgement of `init` on.
  unfoldable pub execute : Config W → Functions W → Header → ℕ → Cmd (Server W) ℕ
  execute cfg f h ctx = do
    send_response Err.ok
    ret ← on_host (f.exec ctx)
    note (exec ret)
    close_connection
    run_plugin cfg f h ctx ret
    ret ← on_host (f.done (some ctx))
    note (done true)
    note free_header
    pure (
        if ret == Err.ok && has_flag h.flags Flag.reboot_on_exit
        then dt_cmd_reboot
        else dt_cmd_plugin)

  unfoldable pub init_failed : Functions W → Cmd (Server W) ℕ
  init_failed f = do
    init_error ← on_host (f.errno none)
    _ ← on_host (f.done none)
    note (done false)
    free_and_refuse init_error

  unfoldable pub with_context : Config W → Functions W → Header → Option ℕ → Cmd (Server W) ℕ
  with_context cfg f h none = do note (init h false); init_failed f
  with_context cfg f h (some ctx) = do note (init h true); execute cfg f h ctx

  -- What becomes of a request, with the plugin that was found for it.
  unfoldable pub start_plugin : Config W → Header → Option (Info (Functions W)) → Cmd (Server W) ℕ
  start_plugin cfg h none = free_and_refuse Err.no_plugin
  start_plugin cfg h (some info) = do
    ctx ← on_host (info.functions.init h)
    with_context cfg info.functions h ctx

  -- With the whole header read: the choice of the plugin.
  unfoldable pub select_plugin : Config W → Header → Cmd (Server W) ℕ
  select_plugin cfg h =
      let exact_version = has_flag h.flags Flag.exact_version in
      let version = h.major * 256 + h.minor in
      start_plugin cfg h (find_plugin cfg.list h.plugin_tag_ver version exact_version)

  -- With what `recv_data` brought of the rest of the header.
  unfoldable pub with_header : Config W → List ℕ → ℕ → Option (List ℕ) → Cmd (Server W) ℕ
  with_header cfg tag hdr_len none = free_and_refuse Err.recv
  with_header cfg tag hdr_len (some bytes) =
      if length bytes == hdr_len
      then select_plugin cfg (load_header big (tag ++ bytes))
      else free_and_refuse Err.recv

  -- With the tag and the length of the header known.
  unfoldable pub read_header : Config W → List ℕ → ℕ → Cmd (Server W) ℕ
  read_header cfg tag hdr_len = do
    note alloc_header
    ret ← recv_data hdr_len
    with_header cfg tag hdr_len ret

  -- With the length that the tag gives. There is one wherever the tag is accepted.
  unfoldable pub with_length : Config W → List ℕ → Option (ℕ × ℕ) → Cmd (Server W) ℕ
  with_length cfg tag none = refuse Err.hdr_tag
  with_length cfg tag (some (hdr_len, hdr_ver)) =
      if cfg.memory then read_header cfg tag hdr_len else refuse Err.malloc

  unfoldable pub check_header : Config W → List ℕ → Cmd (Server W) ℕ
  check_header cfg tag =
      let check = check_dt_ver_len tag in
      if check.code == Err.ok then with_length cfg tag check.len_ver else refuse check.code

  unfoldable pub answer_command : ℕ → Cmd (Server W) ℕ
  answer_command cmd = do send_response Err.ok; pure cmd

  -- With what `recv_data` brought of the first four bytes.
  unfoldable pub with_tag : Config W → Option (List ℕ) → Cmd (Server W) ℕ
  with_tag cfg none = pure dt_cmd_plugin
  with_tag cfg (some tag) =
      if length tag == 4
      then (if same_prefix tag dt_hdr_tag_cmd_quit 4
          then answer_command dt_cmd_quit
          else if same_prefix tag dt_hdr_tag_cmd_reboot 4
          then answer_command dt_cmd_reboot
          else check_header cfg tag)
      else pure dt_cmd_plugin

  unfoldable pub loader_main : Config W → Cmd (Server W) ℕ
  loader_main cfg = do ret ← recv_data 4; with_tag cfg ret
