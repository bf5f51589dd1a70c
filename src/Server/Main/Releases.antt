-- ===== src/Server/Main/Releases.antt =====
-- What the server has released when it ends.
use demotool.Base.{ℕ, ◌≡◌, refl, Bool, true, false, Option, none, some, List, []}
use demotool.Base.{inl, inr, Bool-cases}
use demotool.Base.Int.{is_positive}
use demotool.Base.Run.{Run, ok, waiting, Cmd}
use demotool.Server.Plugins.{Directory, load_plugins}
use demotool.Server.Plugins.Load.{IsReadable, count, loaded, load_plugins-release_plugins}
use demotool.Server.Loader.{Functions}
use demotool.Server.Listen.{Service, start_server}
use demotool.Server.Main.{read_arguments}
use demotool.Server.Main.{
  RdatArray, server_settings, ServerEnd, Amiga, served_plugins, end_server, exit_20, run_server,
  main,
}

module _ {W : Type 0} where
  -- The directory that the arguments name.
  abbrev pub plugin_directory : Amiga W → RdatArray → Directory (Functions W)
  plugin_directory amiga a = amiga.directory (server_settings a).plugin_path

  -- What the server runs with, for those arguments.
  abbrev pub serving : Amiga W → RdatArray → Cmd (Service W) (Option ℕ × Bool)
  serving amiga a =
      start_server amiga.library (amiga.opening (server_settings a))
        (record {
          delay = (server_settings a).delay;
          memory = amiga.header_memory;
          list = served_plugins amiga a.prune (load_plugins (plugin_directory amiga a)).1.chain;
        })
        amiga.connections

  -- The ends of `main`: without arguments; without plugins, or with a directory that was not read to
  -- its end, where the plugins that were found stay loaded; behind the server, where the segment `a`
  -- was unloaded as often as it was loaded; with a reboot; and none, where the server waits.
  pub data Ends (amiga : Amiga W) (a : ℕ) (s : Service W) : Run (Service W) ServerEnd → Type 0 where
    no_arguments :
        amiga.read_args ≡ none
        → Ends amiga a s (ok (record { code = 20; unloaded = []; is_rebooted = false }) s)
    no_plugins :
        (args : RdatArray)
        → amiga.read_args ≡ some args
        → is_positive (load_plugins (plugin_directory amiga args)).0 ≡ false
        → Ends amiga a s (
            ok
              (record {
                code = 20;
                unloaded = (load_plugins (plugin_directory amiga args)).1.unloaded;
                is_rebooted = false;
              })
              s)
    served :
        {unloaded : List ℕ} {ret : Option ℕ} {s' : Service W} (args : RdatArray)
        → amiga.read_args ≡ some args
        → is_positive (load_plugins (plugin_directory amiga args)).0 ≡ true
        → serving amiga args s ≡ ok (ret, false) s'
        → count a unloaded ≡ count a (loaded (plugin_directory amiga args).entries)
        → Ends amiga a s (ok (record { code = 0; unloaded = unloaded; is_rebooted = false }) s')
    rebooted :
        {unloaded : List ℕ} {ret : Option ℕ} {s' : Service W} (args : RdatArray)
        → amiga.read_args ≡ some args
        → is_positive (load_plugins (plugin_directory amiga args)).0 ≡ true
        → serving amiga args s ≡ ok (ret, true) s'
        → Ends amiga a s (ok (record { code = 0; unloaded = unloaded; is_rebooted = true }) s')
    waits :
        (args : RdatArray)
        → amiga.read_args ≡ some args
        → is_positive (load_plugins (plugin_directory amiga args)).0 ≡ true
        → serving amiga args s ≡ waiting
        → Ends amiga a s waiting

  module _ (amiga : Amiga W) (a : ℕ) (s : Service W)
      (readable : (args : RdatArray) → IsReadable (plugin_directory amiga args)) where
    end_server-Ends :
        (args : RdatArray) (r : Run (Service W) (Option ℕ × Bool))
        → amiga.read_args ≡ some args
        → is_positive (load_plugins (plugin_directory amiga args)).0 ≡ true
        → serving amiga args s ≡ r
        → Ends amiga a s (end_server (load_plugins (plugin_directory amiga args)).1 r)
    unfolding end_server
    end_server-Ends args waiting e p r = waits args e p r
    end_server-Ends args (ok (ret, true) s') e p r = rebooted args e p r
    end_server-Ends args (ok (ret, false) s') e p r =
        served args e p r
          (load_plugins-release_plugins (plugin_directory amiga args) a (readable args))

    run_server-Ends :
        (args : RdatArray) → amiga.read_args ≡ some args → Ends amiga a s (run_server amiga args s)
    unfolding run_server exit_20
    run_server-Ends args e =
        elim (Bool-cases (is_positive (load_plugins (plugin_directory amiga args)).0)) [
          | inl p ↦ rw p (end_server-Ends args (serving amiga args s) e p refl)
          | inr p ↦ rw p (no_plugins args e p)
        ]

    read_arguments-Ends :
        (r : Option RdatArray) → amiga.read_args ≡ r → Ends amiga a s (read_arguments amiga r s)
    unfolding read_arguments exit_20
    read_arguments-Ends none e = no_arguments e
    read_arguments-Ends (some args) e = run_server-Ends args e

  -- If the directory of the plugins can be read, the server ends with 20 and without a connection if
  -- its arguments are wrong, or if it found no plugin or did not read the directory to its end, where
  -- it has released none of the plugins found; or with 0 behind its service, where every segment that
  -- LoadSeg gave was unloaded exactly as often, or with a reboot; or it waits in its service.
  pub main-Ends :
      (amiga : Amiga W) (a : ℕ) (s : Service W)
      → ((args : RdatArray) → IsReadable (plugin_directory amiga args))
      → Ends amiga a s (main amiga s)
  unfolding main
  main-Ends amiga a s readable = read_arguments-Ends amiga a s readable amiga.read_args refl
