-- ===== src/Server/Plugins/Prune.antt =====
-- `prune_plugin_list` of server/plugin.c leaves one plugin of each id, the one of highest version.
use demotool.Base.{
  ℕ, ap, ==_refl, ◌∙◌, sym, inl, inr, Bool-cases, ◌≤◌, ◌<◌, ◌≡◌, ◌≢◌, refl, true, Option, none,
  some, List, [], ◌∷◌, ◌++◌,
}
use demotool.Base.{◌==◌, if◌then◌else◌, arith, All, length, take, drop, take-append_left}
use demotool.Server.Plugins.{Plugin, Pointer, behind, version, comp, collect, pick}
use demotool.Server.Plugins.{invalid_plugin_id, prune_plugin_list}

module _ {F : Type 0} where
  -- The id and the version behind a pointer.
  abbrev pub id : Pointer F → ℕ
  id e = e.0.info.plugin_id

  abbrev pub version_of : Pointer F → ℕ
  version_of e = version e.0.info

  -- A table in the order of `comp`.
  abbrev pub IsSorted : List (Pointer F) → Type 0
  IsSorted [] = Unit {0}
  IsSorted (e ∷ table) = All (λ x. comp e.0 x.0 ≢ behind) table × IsSorted table

  -- The ids of a table, each below those behind it.
  abbrev pub HasIncreasingIds : List (Pointer F) → Type 0
  HasIncreasingIds [] = Unit {0}
  HasIncreasingIds (e ∷ table) = All (λ x. id e < id x) table × HasIncreasingIds table

  -- The first entry with an id.
  unfoldable pub find_id : ℕ → List (Pointer F) → Option (Pointer F)
  find_id i [] = none
  find_id i (e ∷ table) = let next = find_id i table in if id e == i then some e else next

  -- What `qsort` documents: the result is in the order of `comp`, and has the same entries.
  pub record Sorts (qsort : List (Pointer F) → List (Pointer F)) : Type 1 where
    pub sorted : (table : List (Pointer F)) → IsSorted (qsort table)
    pub entries :
        (table : List (Pointer F)) (P : Pointer F → Type 0) → All P (qsort table) → All P table

  All-map :
      {P Q : Pointer F → Type 0} (table : List (Pointer F))
      → ((e : Pointer F) → P e → Q e)
      → All P table
      → All Q table
  All-map [] f h = tt
  All-map (e ∷ table) f (h, hs) = (f e h, All-map table f hs)

  comp_order :
      (p q : Plugin F)
      → comp p q ≢ behind
      → (p.info.plugin_id ≤ q.info.plugin_id)
        × (p.info.plugin_id ≡ q.info.plugin_id → version q.info ≤ version p.info)
  unfolding comp
  comp_order p q h = (ground arith, λ e. ground arith)

  find_id-pick :
      (i tag : ℕ) (table : List (Pointer F))
      → i ≢ tag
      → find_id i (pick tag table) ≡ find_id i table
  unfolding find_id pick
  find_id-pick i tag [] h = refl
  find_id-pick i tag (e ∷ table) h =
      ground (arith, find_id-pick i tag table, find_id-pick i (id e) table)

  -- In a sorted table the first entry with an id has the highest version of all with that id.
  find_id-IsSorted :
      (i : ℕ) (table : List (Pointer F)) {e : Pointer F}
      → IsSorted table
      → find_id i table ≡ some e
      → All (λ x. id x ≡ i → version_of x ≤ version_of e) table
  unfolding find_id
  find_id-IsSorted i [] s h = tt
  find_id-IsSorted i (x ∷ table) {e} (s, ss) h = elim (Bool-cases (id x == i)) [
    | inl here ↦
        let same : x ≡ e = ground arith in
        let top : id x ≡ i = ground arith in
        let level = ap version_of same in
        (
          λ k. omega (arith, level),
          All-map table (λ y c k. omega (arith, level, (comp_order x.0 y.0 c).1 (top ∙ sym k))) s,
        )
    | inr there ↦ (λ j. absurd (ground arith), find_id-IsSorted i table ss (rw there at h))
  ]

  All-trans :
      (a b : ℕ) (table : List (Pointer F))
      → a < b
      → All (λ x. b < id x) table
      → All (λ x. a < id x) table
  All-trans a b table h = All-map table (λ x k. omega arith)

  pick-HasIncreasingIds :
      (tag : ℕ) (table : List (Pointer F))
      → All (λ x. tag ≤ id x) table
      → IsSorted table
      → All (λ x. tag < id x) (pick tag table) × HasIncreasingIds (pick tag table)
  unfolding pick
  pick-HasIncreasingIds tag [] h s = (tt, tt)
  pick-HasIncreasingIds tag (e ∷ table) (h, hs) (s, ss) = elim (Bool-cases (tag == id e)) [
    | inl same ↦ rw same (pick-HasIncreasingIds tag table hs ss)
    | inr new ↦
        let above : tag < id e = ground arith in
        let order = All-map table (λ x c. (comp_order e.0 x.0 c).0) s in
        let (low, up) = pick-HasIncreasingIds (id e) table order ss in
        rw new ((above, All-trans tag (id e) _ above low), (low, up))
  ]

  data In (e : Pointer F) : List (Pointer F) → Type 0 where
    first : {table : List (Pointer F)} → In e (e ∷ table)
    later : {x : Pointer F} {table : List (Pointer F)} → In e table → In e (x ∷ table)

  All-of_In :
      {P : Pointer F → Type 0} (table : List (Pointer F))
      → ((e : Pointer F) → In e table → P e)
      → All P table
  All-of_In [] f = tt
  All-of_In (e ∷ table) f = (f e first, All-of_In table (λ x m. f x (later m)))

  In-All :
      (P : Pointer F → Type 0) {e : Pointer F} {table : List (Pointer F)}
      → In e table
      → All P table
      → P e
  In-All P first (h, hs) = h
  In-All P (later m) (h, hs) = In-All P m hs

  find_id-In :
      {e : Pointer F} {table : List (Pointer F)}
      → In e table
      → (best : Pointer F) × (find_id (id e) table ≡ some best)
  unfolding find_id
  find_id-In {e} first = (e, rw (==_refl (id e)))
  find_id-In {e} (later {x} m) = elim (Bool-cases (id x == id e)) [
    | inl here ↦ (x, rw here)
    | inr there ↦ let (best, h) = find_id-In m in (best, rw (there, h))
  ]

  -- Some entry of the table has the id of `e`, if that is valid, and its version is no lower.
  abbrev pub IsServed : List (Pointer F) → Pointer F → Type 0
  IsServed table e =
      id e ≢ invalid_plugin_id
      → (best : Pointer F) × (find_id (id e) table ≡ some best) × (version_of e ≤ version_of best)

  pick-IsServed :
      (table : List (Pointer F))
      → IsSorted table
      → All (IsServed (pick invalid_plugin_id table)) table
  pick-IsServed table s = All-of_In table λ e m valid.
      let (best, h) = find_id-In m in
      (
        best,
        find_id-pick (id e) invalid_plugin_id table valid ∙ h,
        In-All (λ x. id x ≡ id e → version_of x ≤ version_of best) m
            (find_id-IsSorted (id e) table s h) refl,
      )

  -- The table that `prune_plugin_list` returns begins with `size` entries of which no two have one
  -- id; and for each plugin of the chain whose id is not 0, one of them has its id and a version that is no
  -- lower. `qsort` sorts.
  pub prune_plugin_list_lem :
      (qsort : List (Pointer F) → List (Pointer F)) (head : List (Plugin F))
      → Sorts qsort
      → (table : List (Pointer F)) × (size : ℕ) × (prune_plugin_list qsort true head
          ≡ some (table, size))
        × HasIncreasingIds (take size table)
        × All (IsServed (take size table)) (collect head)
  unfolding prune_plugin_list
  prune_plugin_list_lem qsort head q =
      let sorted = qsort (collect head) in
      let picks = pick invalid_plugin_id sorted in
      let front : take (length picks) (picks ++ drop (length picks) sorted) ≡ picks =
        take-append_left picks (drop (length picks) sorted) (length picks) refl in
      let ids =
        pick-HasIncreasingIds invalid_plugin_id sorted (All-of_In sorted (λ e m. omega arith))
          (q.sorted (collect head)) in
      let best = pick-IsServed sorted (q.sorted (collect head)) in
      (
        picks ++ drop (length picks) sorted,
        length picks,
        refl,
        rw front ids.1,
        rw front (q.entries (collect head) (IsServed picks) best),
      )
