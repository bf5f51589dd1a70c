-- ===== src/Plugins/Adf.antt =====
-- plugins/adf_plugin.c: the image of a disk is written to it. The number of bytes of a track is that
-- of devices/trackdisk.h, and what the calls of the system give is an input of a run.
pub mod Resources
pub mod Disk
pub mod Track
pub mod Format
use demotool.Base.{
  ℕ, zero, suc, Bool, true, false, not, ◌||◌, ◌+◌, ◌*◌, Option, none, some, List, [], ◌∷◌, ◌++◌,
}
use demotool.Base.{◌==◌, if◌then◌else◌}
use demotool.Base.Int.{ℤ, pos, negsuc}
use demotool.Base.CString.{same_prefix}
use demotool.Protocol.{Header}
use demotool.Protocol.Flag
use demotool.Protocol.Flag.{has_flag}
use demotool.Protocol.Ext
use demotool.Protocol.Err
use demotool.Plugins.Utils.{find_extension, get_extensions_len}

-- What the plugin asks the system for.
pub data Resource : Type 0 where
  context io_data msg_port io_request device : Resource

-- Which of these calls succeed.
pub record System : Type 0 where
  pub context_allocated : Bool
  pub io_data_allocated : Bool
  pub port_created : Bool
  pub ioreq_created : Bool
  pub device_opens : Bool

-- `context_t`: the unit that was opened, and which of its fields are set; `io_data` always is.
pub record Context : Type 0 where
  pub drive : ℕ
  pub p_port : Bool
  pub p_ioreq : Bool
  pub device_opened : Bool

-- What `local_init` leaves: the context or NULL, the code that it puts into `g_errno` (`Err.ok` if it
-- puts none there), and the calls that it made to get resources and to release them.
pub record Init : Type 0 where
  pub ctx : Option Context
  pub errno : ℕ
  pub acquired : List Resource
  pub released : List Resource

abbrev pub s_drives : List (List ℕ)
s_drives =
    (b'd' ∷ b'f' ∷ b'0' ∷ [])
    ∷ (b'd' ∷ b'f' ∷ b'1' ∷ [])
    ∷ (b'd' ∷ b'f' ∷ b'2' ∷ [])
    ∷ (b'd' ∷ b'f' ∷ b'3' ∷ [])
    ∷ []

-- The loop over the names of drives: the place of a name, or their number. A name has at most 15
-- characters, so 16 of them with the zero are all that `strcmp` looks at.
unfoldable pub find_drive : List (List ℕ) → List ℕ → ℕ
find_drive [] drv_str = 0
find_drive (d ∷ drives) drv_str =
    let rest = find_drive drives drv_str in if same_prefix d drv_str 16 then 0 else rest + 1

-- The number of the named drive; `none` if there is no such drive.
unfoldable pub drive_of_name : Option (List ℕ) → Option ℕ
unfolding find_drive
drive_of_name none = some 0
drive_of_name (some []) = some 0
drive_of_name (some (c ∷ drv_str)) =
    let drv_num = find_drive s_drives (c ∷ drv_str) in if drv_num == 4 then none else some drv_num

-- The choice of the drive. `user` is what lies where the last argument of `local_init` points: the
-- length of the extensions is read there, and not in the header `h`.
unfoldable pub choose_drive : Header → Header → Option ℕ
unfolding drive_of_name
choose_drive h user =
    if has_flag h.flags Flag.extension
    then elim (get_extensions_len user) [
      | pos ext_len ↦ drive_of_name (find_extension h.extension ext_len Ext.device_name)
      | negsuc n ↦ some 0
    ]
    else some 0

-- `local_done` with a context: the resources that it releases, in order.
unfoldable pub local_done : Context → List Resource
local_done ctx =
    (io_data ∷ [])
    ++ ((if ctx.device_opened then device ∷ [] else [])
        ++ ((if ctx.p_ioreq then io_request ∷ [] else [])
            ++ ((if ctx.p_port then msg_port ∷ [] else []) ++ (context ∷ []))))

-- An end of `local_init` at `local_init_exit`.
unfoldable pub give_up : ℕ → Context → List Resource → Init
unfolding local_done
give_up errno ctx acquired = record {
  ctx = none;
  errno = errno;
  acquired = acquired;
  released = local_done ctx;
}

-- The calls that open the device.
unfoldable pub open_drive : Bool → Bool → Bool → ℕ → Init
unfolding give_up
open_drive port ioreq opens drive =
    let empty : Context = record {
      drive = drive;
      p_port = false;
      p_ioreq = false;
      device_opened = false;
    } in
    if port
    then (if ioreq
        then (if opens
            then record {
              ctx = some (record empty { p_port = true; p_ioreq = true; device_opened = true });
              errno = Err.ok;
              acquired = context ∷ io_data ∷ msg_port ∷ io_request ∷ device ∷ [];
              released = [];
            }
            else give_up Err.opendevice (record empty { p_port = true; p_ioreq = true })
                (context ∷ io_data ∷ msg_port ∷ io_request ∷ []))
        else give_up Err.create_ioreq (record empty { p_port = true })
            (context ∷ io_data ∷ msg_port ∷ []))
    else give_up Err.create_msgport empty (context ∷ io_data ∷ [])

-- With the drive chosen.
unfoldable pub with_drive : System → Option ℕ → Init
unfolding open_drive give_up
with_drive sys (some drive) = open_drive sys.port_created sys.ioreq_created sys.device_opens drive
with_drive sys none =
    give_up Err.disk_device
      (record { drive = 4; p_port = false; p_ioreq = false; device_opened = false })
      (context ∷ io_data ∷ [])

-- An early end of `local_init`, which frees what it has.
unfoldable pub fail_early : ℕ → List Resource → Init
fail_early errno rs = record { ctx = none; errno = errno; acquired = rs; released = rs }

-- `local_init`; `track_len` is TRACK_LEN.
unfoldable pub local_init : ℕ → System → Header → Header → Init
unfolding with_drive choose_drive fail_early
local_init track_len sys h user =
    if h.size == track_len * 160 || h.size == track_len
    then (if sys.context_allocated
        then (if sys.io_data_allocated
            then with_drive sys (choose_drive h user)
            else fail_early Err.malloc (context ∷ []))
        else fail_early Err.malloc [])
    else fail_early Err.adf_file_size []

-- `local_run` does nothing.
unfoldable pub local_run : ℕ
local_run = Err.ok

-- `local_errno`, for what `g_errno` holds.
unfoldable pub local_errno : ℕ → ℕ
local_errno g_errno = g_errno
