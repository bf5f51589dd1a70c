-- ===== src/Server/Plugins/Load.antt =====
-- No segment is lost: what `load_plugins` of server/plugin.c loads is unloaded by it again, or is in
-- the chain that `release_plugins` unloads.
use demotool.Base.{
  ℕ, inl, inr, sym, append-nil, Bool-cases, ◌+◌, ◌≡◌, refl, ap, ◌∙◌, Bool, true, false, Option,
  none, some, List, [], ◌∷◌, ◌++◌,
}
use demotool.Base.{◌==◌, if◌then◌else◌, arith, length, length-append, append_assoc}
use demotool.Base.Int.{pos, negate}
use demotool.Server.Plugins.{Plugin, Entry, Scan, Directory, is_plugin, load_entry, load_entries}
use demotool.Server.Plugins.{load_plugins, release_plugins}

-- How often a segment stands in a list.
unfoldable pub count : ℕ → List ℕ → ℕ
count a [] = 0
count a (x ∷ xs) = (if x == a then 1 else 0) + count a xs

count-append : (a : ℕ) (xs ys : List ℕ) → count a (xs ++ ys) ≡ count a xs + count a ys
unfolding count
count-append a [] ys = omega arith
count-append a (x ∷ xs) ys = omega (arith, count-append a xs ys)

module _ {F : Type 0} where
  -- The segments that `LoadSeg` gives for the files of a directory.
  unfoldable pub loaded : List (Entry F) → List ℕ
  loaded [] = []
  loaded (e ∷ entries) =
      (if e.is_file then elim e.segment [ none ↦ [] | some hdr ↦ hdr.seglist ∷ [] ] else [])
      ++ loaded entries

  -- The headers of the plugins among the files of a directory, in order.
  unfoldable pub plugins : List (Entry F) → List (Plugin F)
  plugins [] = []
  plugins (e ∷ entries) =
      (if e.is_file
        then elim e.segment [ none ↦ [] | some hdr ↦ if is_plugin hdr then hdr ∷ [] else [] ]
        else [])
      ++ plugins entries

  release_plugins-append :
      (xs ys : List (Plugin F))
      → release_plugins (xs ++ ys) ≡ release_plugins xs ++ release_plugins ys
  unfolding release_plugins
  release_plugins-append [] ys = refl
  release_plugins-append (x ∷ xs) ys = ap (λ l. x.seglist ∷ l) (release_plugins-append xs ys)

  -- The segments that a state of the loop accounts for.
  abbrev held : ℕ → Scan F → ℕ
  held a s = count a s.unloaded + count a (release_plugins s.chain)

  -- The segment of one entry.
  abbrev segments : Entry F → List ℕ
  segments e = if e.is_file then elim e.segment [ none ↦ [] | some hdr ↦ hdr.seglist ∷ [] ] else []

  load_segment-held :
      (a : ℕ) (hdr : Plugin F) (s : Scan F)
      → held a (load_entry (record { is_file = true; segment = some hdr }) s)
        ≡ held a s + count a (hdr.seglist ∷ [])
  unfolding load_entry release_plugins count
  load_segment-held a hdr s = ground (
    arith,
    count-append a s.unloaded (hdr.seglist ∷ []),
    release_plugins-append s.chain (hdr ∷ []),
    count-append a (release_plugins s.chain) (hdr.seglist ∷ []),
  )

  load_entry-held :
      (a : ℕ) (file : Bool) (segment : Option (Plugin F)) (s : Scan F)
      → let e : Entry F = record { is_file = file; segment = segment } in
        held a (load_entry e s) ≡ held a s + count a (segments e)
  load_entry-held a false segment s = unfold load_entry count in omega arith
  load_entry-held a true none s = unfold load_entry count in omega arith
  load_entry-held a true (some hdr) s = load_segment-held a hdr s

  load_entries-held :
      (a : ℕ) (entries : List (Entry F)) (s : Scan F)
      → held a (load_entries entries s) ≡ held a s + count a (loaded entries)
  unfolding load_entries loaded
  load_entries-held a [] s = unfold count in omega arith
  load_entries-held a (e ∷ entries) s = omega (
    arith,
    load_entries-held a entries (load_entry e s),
    load_entry-held a e.is_file e.segment s,
    count-append a (segments e) (loaded entries),
  )

  -- The calls of dos.library that `load_plugins` makes before its loop succeed, on a directory.
  pub record IsReadable (d : Directory F) : Type 0 where
    pub fib_allocated : d.fib_allocated ≡ true
    pub locked : d.locked ≡ true
    pub examined : d.examined ≡ true
    pub is_directory : d.is_directory ≡ true

  -- Every segment that `LoadSeg` gave is unloaded exactly as often, by `load_plugins` itself or by
  -- `release_plugins` of the chain that it returns.
  pub load_plugins-release_plugins :
      (d : Directory F) (a : ℕ)
      → IsReadable d
      → count a ((load_plugins d).1.unloaded ++ release_plugins (load_plugins d).1.chain)
        ≡ count a (loaded d.entries)
  unfolding load_plugins count release_plugins
  load_plugins-release_plugins d a r =
      let start : Scan F = record { num_found = 0; chain = []; unloaded = [] } in
      let scan = load_entries d.entries start in
      rw (r.fib_allocated, r.locked, r.examined, r.is_directory)
        (omega (
          arith,
          load_entries-held a d.entries start,
          count-append a scan.unloaded (release_plugins scan.chain),
        ))

  -- The plugin of one entry.
  abbrev kept : Entry F → List (Plugin F)
  kept e =
      if e.is_file
      then elim e.segment [ none ↦ [] | some hdr ↦ if is_plugin hdr then hdr ∷ [] else [] ]
      else []

  -- What an entry does to the chain and to the number found.
  record Grows (s s' : Scan F) (more : List (Plugin F)) : Type 0 where
    chain : s'.chain ≡ s.chain ++ more
    num_found : s'.num_found ≡ s.num_found + length more

  Grows-none : (s : Scan F) → Grows s s []
  Grows-none s = record { chain = sym (append-nil s.chain); num_found = omega arith }

  load_entry-Grows :
      (file : Bool) (segment : Option (Plugin F)) (s : Scan F)
      → let e : Entry F = record { is_file = file; segment = segment } in
        Grows s (load_entry e s) (kept e)
  unfolding load_entry
  load_entry-Grows false segment s = Grows-none s
  load_entry-Grows true none s = Grows-none s
  load_entry-Grows true (some hdr) s = elim (Bool-cases (is_plugin hdr)) [
    | inl yes' ↦ rw yes' (record { chain = refl; num_found = refl })
    | inr no' ↦ rw no' (record { chain = sym (append-nil s.chain); num_found = omega arith })
  ]

  load_entries-Grows :
      (entries : List (Entry F)) (s : Scan F) → Grows s (load_entries entries s) (plugins entries)
  unfolding load_entries plugins
  load_entries-Grows [] s = Grows-none s
  load_entries-Grows (e ∷ entries) s =
      let one = load_entry-Grows e.is_file e.segment s in
      let more = load_entries-Grows entries (load_entry e s) in
      record {
        chain =
            more.chain
            ∙ ap (λ l. l ++ plugins entries) one.chain
            ∙ append_assoc s.chain (kept e) (plugins entries);
        num_found =
            omega (arith, more.num_found, one.num_found, length-append (kept e) (plugins entries));
      }

  -- Of a readable directory `load_plugins` chains the plugins among the files, in their order, and
  -- its result is their number, negative if the directory was not read to its end.
  pub load_plugins-plugins :
      (d : Directory F)
      → IsReadable d
      → ((load_plugins d).1.chain ≡ plugins d.entries)
        × ((load_plugins d).0 ≡ (
            if d.no_more_entries
            then pos (length (plugins d.entries))
            else negate (length (plugins d.entries))))
  unfolding load_plugins
  load_plugins-plugins d r =
      let start : Scan F = record { num_found = 0; chain = []; unloaded = [] } in
      let all = load_entries-Grows d.entries start in
      let size : (load_entries d.entries start).num_found ≡ length (plugins d.entries) =
        omega (arith, all.num_found) in
      rw (r.fib_allocated, r.locked, r.examined, r.is_directory) (all.chain, rw size)
