-- ===== src/Server/Main.antt =====
-- `main` of server/demotool.c: the settings, the plugins that are loaded and served, and what is
-- released. What is printed is left out. The host is big-endian, so `htons` keeps a number.
pub mod Releases
use demotool.Base.{ℕ, ◌%◌, ◌^◌, Bool, true, false, Option, none, some, List, [], ◌∷◌, ◌++◌}
use demotool.Base.{◌==◌, if◌then◌else◌}
use demotool.Base.Int.{ℤ, is_positive}
use demotool.Base.CString.{codes}
use demotool.Base.Run.{Run, ok, waiting, Cmd}
use demotool.Server.Plugins.{
  Plugin, Pointer, Directory, Scan, load_plugins, prune_plugin_list, release_plugins,
}
use demotool.Server.Loader.{Functions, Config}
use demotool.Server.Listen.{Opening, Connection, Service, start_server}

-- What `ReadArgs` leaves in `rdat_array`, without DEBUG.
pub record RdatArray : Type 0 where
  pub plugins : Option (List ℕ)
  pub port : Option ℕ
  pub address : Option (List ℕ)
  pub device : Option (List ℕ)
  pub prune : Bool
  pub delay : Option ℕ

-- The directory of the plugins, and `dt_cfg_t` as `main` sets it; a device can be NULL.
pub record ServerSettings : Type 0 where
  pub plugin_path : List ℕ
  pub port : ℕ
  pub delay : ℕ
  pub addr : List ℕ
  pub backlog : ℕ
  pub device : Option (List ℕ)

abbrev or_default {ℓ} : {A : Type ℓ} → Option A → A → A
or_default none d = d
or_default (some a) d = a

unfoldable pub server_settings : RdatArray → ServerSettings
server_settings a = record {
  plugin_path = or_default a.plugins (codes "PROGDIR:plugins");
  port = or_default a.port 9999 % 2 ^ 16;
  delay = or_default a.delay 2 % 2 ^ 16;
  addr = or_default a.address (codes "0.0.0.0");
  backlog = 1;
  device = elim a.device [ none ↦ some (codes "df0") | some device ↦ a.address ];
}

-- The end of the program: its code, the segments that were unloaded, and whether the machine was
-- rebooted.
pub record ServerEnd : Type 0 where
  pub code : ℕ
  pub unloaded : List ℕ
  pub is_rebooted : Bool

-- What the system answers: the arguments or NULL, the directories, whether there is memory for the
-- table of plugins and for headers, `qsort`, the chain that the pointer at address 0 leads through,
-- the network library and what its calls answer.
pub record Amiga (W : Type 0) : Type 0 where
  pub read_args : Option RdatArray
  pub directory : List ℕ → Directory (Functions W)
  pub table_memory : Bool
  pub header_memory : Bool
  pub qsort : List (Pointer (Functions W)) → List (Pointer (Functions W))
  pub at_zero : List (Plugin (Functions W))
  pub library : Bool
  pub opening : ServerSettings → Opening
  pub connections : List Connection

module _ {W : Type 0} where
  -- `*pruned_plugin_list ? *pruned_plugin_list : plugin_list`, for a table that is not NULL.
  unfoldable pub first_entry :
      List (Pointer (Functions W)) → List (Plugin (Functions W)) → List (Plugin (Functions W))
  first_entry [] chain = chain
  first_entry ((p, list) ∷ table) chain = p ∷ list

  -- The same for NULL, which is address 0.
  unfoldable pub entry_at_zero :
      List (Plugin (Functions W)) → List (Plugin (Functions W)) → List (Plugin (Functions W))
  entry_at_zero [] chain = chain
  entry_at_zero (p ∷ list) chain = p ∷ list

  -- The plugins that the server is given.
  unfoldable pub served_plugins :
      Amiga W → Bool → List (Plugin (Functions W)) → List (Plugin (Functions W))
  unfolding first_entry entry_at_zero
  served_plugins amiga prune chain =
      let at_zero = entry_at_zero amiga.at_zero chain in
      if prune
      then elim (prune_plugin_list amiga.qsort amiga.table_memory chain) [
        | none ↦ at_zero
        | some (table, num_plugins) ↦ first_entry table chain
      ]
      else at_zero

  -- Behind the server: the plugins are released, unless the machine was rebooted.
  unfoldable pub end_server :
      Scan (Functions W) → Run (Service W) (Option ℕ × Bool) → Run (Service W) ServerEnd
  end_server scan waiting = waiting
  end_server scan (ok (ret, true) s) =
      ok (record { code = 0; unloaded = scan.unloaded; is_rebooted = true }) s
  end_server scan (ok (ret, false) s) =
      ok
        (record {
          code = 0;
          unloaded = scan.unloaded ++ release_plugins scan.chain;
          is_rebooted = false;
        })
        s

  -- `Exit(20)`
  unfoldable pub exit_20 : List ℕ → Cmd (Service W) ServerEnd
  exit_20 unloaded s = ok (record { code = 20; unloaded = unloaded; is_rebooted = false }) s

  -- Behind the arguments.
  unfoldable pub run_server : Amiga W → RdatArray → Cmd (Service W) ServerEnd
  unfolding server_settings served_plugins end_server exit_20
  run_server amiga a s =
      let settings = server_settings a in
      let loaded = load_plugins (amiga.directory settings.plugin_path) in
      let scan = loaded.1 in
      let cfg : Config W = record {
        delay = settings.delay;
        memory = amiga.header_memory;
        list = served_plugins amiga a.prune scan.chain;
      } in
      if is_positive loaded.0
      then end_server scan
          (start_server amiga.library (amiga.opening settings) cfg amiga.connections s)
      else exit_20 scan.unloaded s

  unfoldable pub read_arguments : Amiga W → Option RdatArray → Cmd (Service W) ServerEnd
  unfolding exit_20 run_server
  read_arguments amiga none = exit_20 []
  read_arguments amiga (some a) = run_server amiga a

  unfoldable pub main : Amiga W → Cmd (Service W) ServerEnd
  unfolding read_arguments
  main amiga = read_arguments amiga amiga.read_args
