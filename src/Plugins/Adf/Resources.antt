-- ===== src/Plugins/Adf/Resources.antt =====
-- What `local_init` of plugins/adf_plugin.c gets from the system, it or `local_done` gives back.
use demotool.Base.{
  ℕ, ◌+◌, ◌*◌, ◌≡◌, inl, inr, refl, Bool, true, false, ◌||◌, Option, none, some, List, [], ◌∷◌,
  ◌++◌, arith,
}
use demotool.Base.{◌==◌, if◌then◌else◌, Bool-cases}
use demotool.Protocol.{Header}
use demotool.Plugins.Adf.{
  Resource, context, io_data, msg_port, io_request, device, System, Context, Init,
}
use demotool.Plugins.Adf.{local_done, give_up, open_drive, with_drive, choose_drive, local_init}

abbrev pub number : Resource → ℕ
number context = 0
number io_data = 1
number msg_port = 2
number io_request = 3
number device = 4

-- How often a resource stands in a list.
unfoldable pub count : Resource → List Resource → ℕ
count r [] = 0
count r (x ∷ xs) = let rest = count r xs in if number r == number x then rest + 1 else rest

-- All that is released when the plugin is done: by `local_init`, and by `local_done` if there is a
-- context.
unfoldable pub released_in_all : Init → List Resource
released_in_all i = i.released ++ elim i.ctx [ none ↦ [] | some ctx ↦ local_done ctx ]

Balanced : Resource → Init → Type 0
Balanced r i = count r (released_in_all i) ≡ count r i.acquired

open_drive-Balanced :
    (r : Resource) (port ioreq opens : Bool) (drive : ℕ)
    → Balanced r (open_drive port ioreq opens drive)
unfolding Balanced open_drive released_in_all give_up local_done count
open_drive-Balanced r true true true drive = ground arith
open_drive-Balanced r true true false drive = ground arith
open_drive-Balanced r true false opens drive = ground arith
open_drive-Balanced r false ioreq opens drive = ground arith

with_drive-Balanced :
    (r : Resource) (sys : System) (drive : Option ℕ) → Balanced r (with_drive sys drive)
unfolding with_drive
with_drive-Balanced r sys (some drive) =
    open_drive-Balanced r sys.port_created sys.ioreq_created sys.device_opens drive
with_drive-Balanced r sys none =
    unfold Balanced released_in_all give_up local_done count in ground arith

-- However `local_init` ends, each resource that it got is released exactly as often: by itself if it
-- returns NULL, and by `local_done` if it returns a context.
pub local_init-released_in_all :
    (track_len : ℕ) (sys : System) (h user : Header) (r : Resource)
    → count r (released_in_all (local_init track_len sys h user))
      ≡ count r (local_init track_len sys h user).acquired
unfolding Balanced local_init released_in_all count demotool.Plugins.Adf.fail_early
local_init-released_in_all track_len sys h user r =
    let served = with_drive-Balanced r sys (choose_drive h user) in
    elim (Bool-cases (h.size == track_len * 160 || h.size == track_len)) [
      | inr e ↦ rw e refl
      | inl e ↦ rw e (elim (Bool-cases sys.context_allocated) [
        | inr f ↦ simp f refl
        | inl f ↦ elim (Bool-cases sys.io_data_allocated) [
          | inr g ↦ simp (f, g) refl
          | inl g ↦ simp (f, g) served
        ]
      ])
    ]
