-- ===== src/Client/Arguments/Checked.antt =====
-- What the loop over the options of client/demotool.c lets through.
use demotool.Base.{
  ℕ, ◌%◌, ◌^◌, ◌≤◌, ◌<◌, ◌≡◌, Bool, true, false, Option, none, some, List, [], ◌∷◌, inl, inr, arith,
}
use demotool.Base.{bit_or, ltb, ◌==◌, if◌then◌else◌, length, Bool-cases}
use demotool.Protocol.Flag
use demotool.Client.Header.Length.{IsShort}
use demotool.Client.Arguments.{Arg, Settings, defaults, set_version, set_option, set_options}

-- What holds of the settings, if the program goes on.
pub data AllOf (P : Settings → Type 0) : Option Settings → Type 0 where
  stop : AllOf P none
  go : {s : Settings} → P s → AllOf P (some s)

-- A named plugin has four characters.
abbrev pub IsName : Option (List ℕ) → Type 0
IsName none = Unit
IsName (some name) = length name ≡ 4

-- The texts are short enough for a header, a named plugin has four characters, and the numbers of
-- the header are words.
pub record IsChecked (s : Settings) : Type 0 where
  pub device_short : IsShort 15 s.opts.device
  pub cmdline_short : IsShort 30 s.opts.cmdline
  pub name : IsName s.opts.named_plugin
  pub addr_u32 : s.opts.addr < 2 ^ 32
  pub jump_u32 : s.opts.jump < 2 ^ 32
  pub size_u32 : s.opts.size < 2 ^ 32

if_AllOf :
    (b : Bool) (x y : Option Settings)
    → AllOf IsChecked x
    → AllOf IsChecked y
    → AllOf IsChecked (if b then x else y)
if_AllOf true x y h k = h
if_AllOf false x y h k = k

-- The tests on the length of an argument.
limited_AllOf :
    (n : ℕ) (xs : List ℕ) (s : Settings)
    → (length xs ≤ n → IsChecked s)
    → AllOf IsChecked (if ltb n (length xs) then none else some s)
limited_AllOf n xs s h = elim (Bool-cases (ltb n (length xs))) [
  | inl e ↦ rw e stop
  | inr e ↦ rw e (go (h (ground arith)))
]

named_AllOf :
    (xs : List ℕ) (s : Settings)
    → (length xs ≡ 4 → IsChecked s)
    → AllOf IsChecked (if length xs == 4 then some s else none)
named_AllOf xs s h = elim (Bool-cases (length xs == 4)) [
  | inl e ↦ rw e (go (h (ground arith)))
  | inr e ↦ rw e stop
]

module _ (sscanf : List ℕ → Option (ℕ × ℕ)) (strtoul : List ℕ → ℕ) where
  set_version-IsChecked :
      (v : Option (ℕ × ℕ)) (s : Settings)
      → IsChecked s
      → AllOf IsChecked (set_version sscanf strtoul v s)
  unfolding set_version
  set_version-IsChecked none s h = stop
  set_version-IsChecked (some v) s h = go (record {
    device_short = h.device_short;
    cmdline_short = h.cmdline_short;
    name = h.name;
    addr_u32 = h.addr_u32;
    jump_u32 = h.jump_u32;
    size_u32 = h.size_u32;
  })

  word : (xs : List ℕ) → strtoul xs % 2 ^ 32 < 2 ^ 32
  word xs = omega arith

  named-IsChecked :
      (s : Settings) (xs : List ℕ)
      → length xs ≡ 4
      → IsChecked s
      → IsChecked (record s { opts = record s.opts { named_plugin = some xs } })
  named-IsChecked s xs e h = record {
    device_short = h.device_short;
    cmdline_short = h.cmdline_short;
    name = e;
    addr_u32 = h.addr_u32;
    jump_u32 = h.jump_u32;
    size_u32 = h.size_u32;
  }

  cmdline-IsChecked :
      (s : Settings) (xs : List ℕ)
      → length xs ≤ 30
      → IsChecked s
      → IsChecked (record s {
        opts = record s.opts { flags = bit_or s.opts.flags Flag.extension; cmdline = some xs };
      })
  cmdline-IsChecked s xs e h = record {
    device_short = h.device_short;
    cmdline_short = e;
    name = h.name;
    addr_u32 = h.addr_u32;
    jump_u32 = h.jump_u32;
    size_u32 = h.size_u32;
  }

  device-IsChecked :
      (s : Settings) (xs : List ℕ)
      → length xs ≤ 15
      → IsChecked s
      → IsChecked (record s {
        opts = record s.opts { flags = bit_or s.opts.flags Flag.extension; device = some xs };
      })
  device-IsChecked s xs e h = record {
    device_short = e;
    cmdline_short = h.cmdline_short;
    name = h.name;
    addr_u32 = h.addr_u32;
    jump_u32 = h.jump_u32;
    size_u32 = h.size_u32;
  }

  addr-IsChecked :
      (s : Settings) (xs : List ℕ)
      → IsChecked s
      → IsChecked (record s { opts = record s.opts { addr = strtoul xs % 2 ^ 32 } })
  addr-IsChecked s xs h = record {
    device_short = h.device_short;
    cmdline_short = h.cmdline_short;
    name = h.name;
    addr_u32 = word xs;
    jump_u32 = h.jump_u32;
    size_u32 = h.size_u32;
  }

  jump-IsChecked :
      (s : Settings) (xs : List ℕ)
      → IsChecked s
      → IsChecked (record s { opts = record s.opts { jump = strtoul xs % 2 ^ 32 } })
  jump-IsChecked s xs h = record {
    device_short = h.device_short;
    cmdline_short = h.cmdline_short;
    name = h.name;
    addr_u32 = h.addr_u32;
    jump_u32 = word xs;
    size_u32 = h.size_u32;
  }

  size-IsChecked :
      (s : Settings) (xs : List ℕ)
      → IsChecked s
      → IsChecked (record s { opts = record s.opts { size = strtoul xs % 2 ^ 32 } })
  size-IsChecked s xs h = record {
    device_short = h.device_short;
    cmdline_short = h.cmdline_short;
    name = h.name;
    addr_u32 = h.addr_u32;
    jump_u32 = h.jump_u32;
    size_u32 = word xs;
  }

  flag-IsChecked :
      (s : Settings) (f : ℕ)
      → IsChecked s
      → IsChecked (record s { opts = record s.opts { flags = bit_or s.opts.flags f } })
  flag-IsChecked s f h = record {
    device_short = h.device_short;
    cmdline_short = h.cmdline_short;
    name = h.name;
    addr_u32 = h.addr_u32;
    jump_u32 = h.jump_u32;
    size_u32 = h.size_u32;
  }

  file-IsChecked :
      (s : Settings) (xs : List ℕ)
      → IsChecked s
      → IsChecked (record s { opts = record s.opts { file = some xs } })
  file-IsChecked s xs h = record {
    device_short = h.device_short;
    cmdline_short = h.cmdline_short;
    name = h.name;
    addr_u32 = h.addr_u32;
    jump_u32 = h.jump_u32;
    size_u32 = h.size_u32;
  }

  port-IsChecked : (s : Settings) (p : ℕ) → IsChecked s → IsChecked (record s { port = p })
  port-IsChecked s p h = record {
    device_short = h.device_short;
    cmdline_short = h.cmdline_short;
    name = h.name;
    addr_u32 = h.addr_u32;
    jump_u32 = h.jump_u32;
    size_u32 = h.size_u32;
  }

  set_option-IsChecked :
      (a : Arg) (s : Settings) → IsChecked s → AllOf IsChecked (set_option sscanf strtoul a s)
  unfolding set_option
  set_option-IsChecked a s h =
      let xs = a.optarg in
      if_AllOf _ _ _ (set_version-IsChecked (sscanf xs) s h) (
        if_AllOf _ _ _ (named_AllOf xs _ (λ e. named-IsChecked s xs e h)) (
          if_AllOf _ _ _ (go (flag-IsChecked s Flag.no_run h)) (
            if_AllOf _ _ _ (go (file-IsChecked s xs h)) (
              if_AllOf _ _ _ (limited_AllOf 30 xs _ (λ e. cmdline-IsChecked s xs e h)) (
                if_AllOf _ _ _ (go (addr-IsChecked s xs h)) (
                  if_AllOf _ _ _ (go (jump-IsChecked s xs h)) (
                    if_AllOf _ _ _ (go (size-IsChecked s xs h)) (
                      if_AllOf _ _ _ (go (flag-IsChecked s Flag.reboot_on_exit h)) (
                        if_AllOf _ _ _ (go (flag-IsChecked s Flag.exact_version h)) (
                          if_AllOf _ _ _ (go (port-IsChecked s _ h)) (
                            if_AllOf _ _ _ (limited_AllOf 15 xs _ (λ e. device-IsChecked s xs e h))
                              stop)))))))))))

  bind_AllOf :
      (m : Option Settings) (k : Settings → Option Settings)
      → AllOf IsChecked m
      → ((s : Settings) → IsChecked s → AllOf IsChecked (k s))
      → AllOf IsChecked (elim m [ none ↦ none | some s ↦ k s ])
  bind_AllOf none k h next = stop
  bind_AllOf (some s) k (go h) next = next s h

  set_options-IsChecked :
      (args : List Arg) (s : Settings)
      → IsChecked s
      → AllOf IsChecked (set_options sscanf strtoul args s)
  unfolding set_options
  set_options-IsChecked [] s h = go h
  set_options-IsChecked (a ∷ args) s h =
      bind_AllOf (set_option sscanf strtoul a s) (set_options sscanf strtoul args)
        (set_option-IsChecked a s h) (λ s' h'. set_options-IsChecked args s' h')

  -- Whatever the options on the command line are: if the program goes on with them, then a device
  -- name has at most 15 characters and a command line at most 30, a named plugin has four
  -- characters, and the addresses and the size are words of 32 bits.
  pub set_options-defaults :
      (args : List Arg) → AllOf IsChecked (set_options sscanf strtoul args defaults)
  set_options-defaults args = set_options-IsChecked args defaults (record {
    device_short = tt;
    cmdline_short = tt;
    name = tt;
    addr_u32 = omega arith;
    jump_u32 = omega arith;
    size_u32 = omega arith;
  })
