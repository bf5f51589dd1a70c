-- ===== src/Server/Listen/Session.antt =====
-- How the service of `start_server` in server/demotool.c ends at a command.
use demotool.Base.{ℕ, ◌≡◌, refl, false, Option, some, List, [], ◌∷◌, ◌++◌}
use demotool.Base.{◌==◌}
use demotool.Base.Run.{Cmd, ok}
use demotool.Protocol.{dt_cmd_plugin}
use demotool.Server.Loader.{Server, Config, loader_main}
use demotool.Server.Listen.{Connection, Service, accepted, behind, go_on, serve}

module _ {W : Type 0} (cfg : Config W) where
  -- Connections that are served one after the other, each of which ends with DT_CMD_PLUGIN.
  pub data Passes : List Connection → Service W → Service W → Type 0 where
    done : {s : Service W} → Passes [] s s
    one :
        {c : Connection} {connections : List Connection} {s last : Service W} (served : Server W)
        → loader_main cfg (accepted c s.machine) ≡ ok dt_cmd_plugin served
        → Passes connections (behind c served s) last
        → Passes (c ∷ connections) s last

  go_on_last :
      (c : Connection) (next : Option ℕ → Cmd (Service W) (Option ℕ)) (s : Service W) (code : ℕ)
      (served : Server W)
      → (code == dt_cmd_plugin) ≡ false
      → go_on c next s (ok code served) ≡ ok (some code) (behind c served s)
  unfolding go_on
  go_on_last c next s code served n = rw n refl

  pub serve-Passes :
      {connections : List Connection} {s last : Service W} (ret : Option ℕ) (c : Connection)
      (later : List Connection) (code : ℕ) (served : Server W)
      → Passes connections s last
      → loader_main cfg (accepted c last.machine) ≡ ok code served
      → (code == dt_cmd_plugin) ≡ false
      → serve cfg (connections ++ (c ∷ later)) ret s ≡ ok (some code) (behind c served last)
  unfolding serve
  serve-Passes ret c later code served done e n = rw (e, go_on_last c _ _ code served n) refl
  serve-Passes ret c later code served (one served' e' p) e n =
      rw e' (serve-Passes (some dt_cmd_plugin) c later code served p e n)
