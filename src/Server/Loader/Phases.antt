-- ===== src/Server/Loader/Phases.antt =====
-- The order of events that `loader_main` of server/demotool.c has to keep, by the rules that
-- plugins/plugin_header.h gives for the functions of a plugin, and how its parts move along it.
use demotool.Base.{ℕ, ◌≡◌, refl, not, ◌&&◌, Bool, true, false, Option, none, some, List, [], ◌∷◌}
use demotool.Base.{◌==◌, if◌then◌else◌}
use demotool.Base.Run.{Run, ok, waiting, Cmd, and_then}
use demotool.Socket.{Net}
use demotool.Protocol.Flag
use demotool.Protocol.Flag.{has_flag}
use demotool.Protocol.Err
use demotool.Server.Loader.{Host, Call, Server, note, on_host, on_net}
use demotool.Server.Loader.{send_safe, send_response, refuse}
use demotool.Server.Loader.{free_and_refuse}

-- How far the service of a connection has come. `initialised` and `acknowledged` hold whether the
-- header forbids to run the plugin, and `executed` also the result of `exec`.
pub data Phase : Type 0 where
  connected holding broken freed offline ready delayed ran finished over : Phase
  initialised acknowledged : Bool → Phase
  executed : Bool → ℕ → Phase

-- The phase behind the end of the connection: the plugin is to be run, or not.
unfoldable pub closed : Bool → ℕ → Phase
closed no_run ret = if not no_run && ret == Err.ok then ready else offline

-- The calls that are allowed: a header is freed once, after everything that uses it; `init` comes
-- first, and only if it succeeded `exec`, on the acknowledged connection; behind the end of the
-- connection the plugin is run exactly if `exec` succeeded and DT_FLG_NO_RUN is not set, with a delay
-- at most before it; `done` with the context is the last call of a plugin whose `init` succeeded; and
-- nothing is sent after the one response. The call of `done` with NULL after a failed `init` is no
-- call of these rules: plugin_header.h has `done` only after an `init` that succeeded. It stands here
-- as what the code does instead.
unfoldable pub allowed : Phase → Call → Option Phase
unfolding closed
allowed connected (Call.respond e) = some over
allowed connected Call.alloc_header = some holding
allowed holding Call.free_header = some freed
allowed freed (Call.respond e) = some over
allowed holding (Call.init h true) = some (initialised (has_flag h.flags Flag.no_run))
allowed holding (Call.init h false) = some broken
allowed broken (Call.done false) = some holding
allowed (initialised no_run) (Call.respond e) =
    if e == Err.ok then some (acknowledged no_run) else none
allowed (acknowledged no_run) (Call.exec ret) = some (executed no_run ret)
allowed (executed no_run ret) Call.close = some (closed no_run ret)
allowed ready Call.delay = some delayed
allowed ready Call.run = some ran
allowed delayed Call.run = some ran
allowed offline (Call.done true) = some finished
allowed ran (Call.done true) = some finished
allowed finished Call.free_header = some over
allowed _ _ = none

-- The phase after the noted calls, if each of them was allowed.
unfoldable pub phase : List Call → Option Phase
phase [] = some connected
phase (c ∷ trace) = elim (phase trace) [ none ↦ none | some p ↦ allowed p c ]

-- The service of a connection can end only here: with nothing received, or over.
unfoldable pub is_end : Phase → Bool
is_end connected = true
is_end over = true
is_end _ = false

-- A statement about the result and the state that a run ends with.
abbrev pub After : {W A : Type 0} → (A → Server W → Type 0) → Run (Server W) A → Type 0
After P (ok a s) = P a s
After P waiting = Unit

module _ {W : Type 0} where
  -- The state is in a phase.
  abbrev pub Is : Phase → Server W → Type 0
  Is p s = phase s.trace ≡ some p

  -- The service has come to an end.
  abbrev pub IsEnd : Server W → Type 0
  IsEnd s = (p : Phase) × (phase s.trace ≡ some p) × (is_end p ≡ true)

  pub After-bind :
      {A B : Type 0} (P : A → Server W → Type 0) (Q : B → Server W → Type 0) (m : Run (Server W) A)
      (k : A → Cmd (Server W) B)
      → After P m
      → ((a : A) (s : Server W) → P a s → After Q (k a s))
      → After Q (and_then m k)
  After-bind P Q (ok a s) k h next = next a s h
  After-bind P Q waiting k h next = tt

  pub After-mono :
      {A : Type 0} {P Q : A → Server W → Type 0} (m : Run (Server W) A)
      → After P m
      → ((a : A) (s : Server W) → P a s → Q a s)
      → After Q m
  After-mono (ok a s) h f = f a s h
  After-mono waiting h f = tt

  pub note_lem :
      (c : Call) (p q : Phase) (s : Server W)
      → Is p s
      → allowed p c ≡ some q
      → After (λ _ s'. Is q s') (note c s)
  unfolding note phase
  note_lem c p q s h a = rw h a

  pub on_host_lem :
      {A : Type 0} (m : Cmd (Host W) A) (p : Phase) (s : Server W)
      → Is p s
      → After (λ _ s'. Is p s') (on_host m s)
  unfolding on_host
  on_host_lem m p s h =
      elim (m s.host)
        as (λ r.
          After {W = W} (λ _ s'. Is p s')
            (elim r [ ok a h ↦ ok a (record s { host = h }) | waiting ↦ waiting ])) [
              | ok a h' ↦ h
              | waiting ↦ tt
            ]

  pub on_net_lem :
      {A : Type 0} (m : Cmd Net A) (p : Phase) (s : Server W)
      → Is p s
      → After (λ _ s'. Is p s') (on_net m s)
  unfolding on_net
  on_net_lem m p s h =
      elim (m s.host.net)
        as (λ r.
          After {W = W} (λ _ s'. Is p s')
            (elim r [
              | ok a n ↦ ok a (record s { host = record { net = n; machine = s.host.machine } })
              | waiting ↦ waiting
            ])) [ ok a h' ↦ h | waiting ↦ tt ]

  pub send_response_lem :
      (e : ℕ) (p q : Phase) (s : Server W)
      → Is p s
      → allowed p (Call.respond e) ≡ some q
      → After (λ _ s'. Is q s') (send_response e s)
  unfolding send_response send_safe
  send_response_lem e p q s h a =
      After-bind (λ _ s'. Is p s') (λ _ s'. Is q s') _ _ (on_net_lem _ p s h)
        (λ _ s' h'. note_lem (Call.respond e) p q s' h' a)

  pub refuse_lem :
      (e : ℕ) (p : Phase) (s : Server W)
      → Is p s
      → allowed p (Call.respond e) ≡ some over
      → After (λ _ s'. IsEnd s') (refuse e s)
  unfolding refuse
  refuse_lem e p s h a =
      After-bind (λ _ s'. Is over s') (λ _ s'. IsEnd s') _ _ (send_response_lem e p over s h a)
        (λ _ s' h'. (over, h', unfold is_end in refl))

  pub free_and_refuse_lem :
      (e : ℕ) (s : Server W) → Is holding s → After (λ _ s'. IsEnd s') (free_and_refuse e s)
  unfolding free_and_refuse
  free_and_refuse_lem e s h =
      After-bind (λ _ s'. Is freed s') (λ _ s'. IsEnd s') _ _
        (note_lem Call.free_header holding freed s h (unfold allowed in refl))
        (λ _ s' h'. refuse_lem e freed s' h' (unfold allowed in refl))
