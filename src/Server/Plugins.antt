-- ===== src/Server/Plugins.antt =====
-- server/plugin.c: the plugins that the server has loaded. A pointer to a `struct plugin_header` is
-- the chain that its `next` fields lead through: the header at the head of a list, and those behind
-- it. The `info` of a plugin has its functions as a value of a type `F`.
pub mod Find
pub mod Load
pub mod Prune
use demotool.Base.{ℕ, ◌+◌, ◌*◌, Bool, true, false, not, ◌&&◌, ◌||◌, Option, none, some}
use demotool.Base.{List, [], ◌∷◌, ◌++◌, ltb, leb, ◌==◌, if◌then◌else◌, length, drop}
use demotool.Base.Int.{ℤ, pos, negate}
use demotool.Base.CString.{same_prefix}
use demotool.Protocol.{be32}

-- The identification of `struct plugin_common`.
pub record Info (F : Type 0) : Type 0 where
  pub plugin_id : ℕ
  pub major : ℕ
  pub minor : ℕ
  pub functions : F

-- `struct plugin_header` without its `next`.
pub record Plugin (F : Type 0) : Type 0 where
  pub magic : ℕ
  pub tag_ver : ℕ
  pub seglist : ℕ
  pub info : Info F

-- A pointer to a header that is not NULL: the header, and the chain behind it.
abbrev pub Pointer : Type 0 → Type 0
Pointer F = Plugin F × List (Plugin F)

-- The results -1, 0 and 1 of `comp`.
pub data Order : Type 0 where
  before level behind : Order

-- What `ExNext` and `LoadSeg` give for an entry of the plugin directory: whether it is a file, and
-- the header at the start of its first segment, if it can be loaded.
pub record Entry (F : Type 0) : Type 0 where
  pub is_file : Bool
  pub segment : Option (Plugin F)

-- The directory as `load_plugins` meets it: which calls of dos.library succeed, the entries, and
-- whether `ExNext` stopped for want of more of them.
pub record Directory (F : Type 0) : Type 0 where
  pub fib_allocated : Bool
  pub locked : Bool
  pub examined : Bool
  pub is_directory : Bool
  pub entries : List (Entry F)
  pub no_more_entries : Bool

-- The state of the loop of `load_plugins`: the number found, their chain, and the segments that were
-- unloaded again.
pub record Scan (F : Type 0) : Type 0 where
  pub num_found : ℕ
  pub chain : List (Plugin F)
  pub unloaded : List ℕ

abbrev pub plugin_magic : ℕ
plugin_magic = 0x70ff_4e75

abbrev pub plugin_tagver : ℕ
plugin_tagver = 0x504c_4730

abbrev pub invalid_plugin_id : ℕ
invalid_plugin_id = 0

module _ {F : Type 0} where
  -- `major << 8 | minor`; both are bytes, which do not overlap.
  unfoldable pub version : Info F → ℕ
  version i = i.major * 256 + i.minor

  -- `comp`, for two headers: whether the first sorts before, with or behind the second.
  unfoldable pub comp : Plugin F → Plugin F → Order
  comp a b =
      if ltb a.info.plugin_id b.info.plugin_id
      then before
      else if ltb b.info.plugin_id a.info.plugin_id
      then behind
      else if ltb (version a.info) (version b.info)
      then behind
      else if ltb (version b.info) (version a.info)
      then before
      else level

  unfoldable pub find_plugin : List (Plugin F) → List ℕ → ℕ → Bool → Option (Info F)
  find_plugin [] tag ver exact = none
  find_plugin (p ∷ list) tag ver exact =
      let next = find_plugin list tag ver exact in
      if same_prefix (be32 p.info.plugin_id) tag 4
      then (if leb ver (version p.info) && not exact
          then some p.info
          else if version p.info == ver && exact
          then some p.info
          else next)
      else next

  -- The loop that collects the headers of a chain: a pointer to each of them.
  unfoldable pub collect : List (Plugin F) → List (Pointer F)
  collect [] = []
  collect (p ∷ list) = (p, list) ∷ collect list

  -- The loop that picks the first of each run of equal ids; `tag` is the id picked last.
  unfoldable pub pick : ℕ → List (Pointer F) → List (Pointer F)
  pick tag [] = []
  pick tag ((p, list) ∷ table) =
      let same = pick tag table in
      let next = (p, list) ∷ pick p.info.plugin_id table in
      if tag == p.info.plugin_id then same else next

  -- The table, with the picked entries written over its front, and their number. `memory` says
  -- whether `AllocVec` succeeds, and `qsort` is the library's, for `comp`.
  unfoldable pub prune_plugin_list :
      (List (Pointer F) → List (Pointer F)) → Bool → List (Plugin F) → Option (List (Pointer F) × ℕ)
  unfolding collect pick
  prune_plugin_list qsort memory head =
      let table = qsort (collect head) in
      let picked = pick invalid_plugin_id table in
      if memory then some (picked ++ drop (length picked) table, length picked) else none

  -- The segments that `release_plugins` unloads, in order; its result is their number.
  unfoldable pub release_plugins : List (Plugin F) → List ℕ
  release_plugins [] = []
  release_plugins (p ∷ list) = p.seglist ∷ release_plugins list

  -- Whether a loaded file is a plugin.
  unfoldable pub is_plugin : Plugin F → Bool
  is_plugin hdr = hdr.magic == plugin_magic && hdr.tag_ver == plugin_tagver

  -- The body of the loop over the entries.
  unfoldable pub load_entry : Entry F → Scan F → Scan F
  unfolding is_plugin
  load_entry e s =
      if e.is_file
      then elim e.segment [
        | none ↦ s
        | some hdr ↦
            if is_plugin hdr
            then record s { num_found = s.num_found + 1; chain = s.chain ++ (hdr ∷ []) }
            else record s { unloaded = s.unloaded ++ (hdr.seglist ∷ []) }
      ]
      else s

  unfoldable pub load_entries : List (Entry F) → Scan F → Scan F
  unfolding load_entry
  load_entries [] s = s
  load_entries (e ∷ entries) s = load_entries entries (load_entry e s)

  -- The result of `load_plugins`, with what its loop has done.
  unfoldable pub load_plugins : Directory F → ℤ × Scan F
  unfolding load_entries
  load_plugins d =
      let none_found : Scan F = record { num_found = 0; chain = []; unloaded = [] } in
      let scan = load_entries d.entries none_found in
      if d.fib_allocated && (d.locked && (d.examined && d.is_directory))
      then (if d.no_more_entries then pos scan.num_found else negate scan.num_found, scan)
      else (pos 0, none_found)
