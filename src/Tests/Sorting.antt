-- ===== src/Tests/Sorting.antt =====
-- A sort by `comp` of server/plugin.c, which shows that what is asked of `qsort` can be met.
use demotool.Base.{
  inl, inr, List, [], ◌∷◌, All, ◌≡◌, ◌≢◌, arith, true, false, Bool, Bool-cases, if◌then◌else◌,
}
use demotool.Server.Plugins.{Plugin, Pointer, behind, comp}
use demotool.Server.Plugins.Prune.{IsSorted, Sorts}

module _ {F : Type 0} where
  goes_behind : Pointer F → Pointer F → Bool
  goes_behind a b = elim (comp a.0 b.0) [ behind ↦ true | _ ↦ false ]

  insert_sorted : Pointer F → List (Pointer F) → List (Pointer F)
  insert_sorted e [] = e ∷ []
  insert_sorted e (x ∷ table) =
      let rest = insert_sorted e table in if goes_behind e x then x ∷ rest else e ∷ x ∷ table

  unfoldable pub insertion_sort : List (Pointer F) → List (Pointer F)
  unfolding insert_sorted goes_behind
  insertion_sort [] = []
  insertion_sort (e ∷ table) = insert_sorted e (insertion_sort table)

  comp_trans : (p q r : Plugin F) → comp p q ≢ behind → comp q r ≢ behind → comp p r ≢ behind
  unfolding comp
  comp_trans p q r h k = ground arith

  comp_total : (p q : Plugin F) → comp p q ≡ behind → comp q p ≢ behind
  unfolding comp
  comp_total p q h = ground arith

  goes_behind-true : (a b : Pointer F) → goes_behind a b ≡ true → comp a.0 b.0 ≡ behind
  unfolding goes_behind
  goes_behind-true a b h = ground arith

  goes_behind-false : (a b : Pointer F) → goes_behind a b ≡ false → comp a.0 b.0 ≢ behind
  unfolding goes_behind
  goes_behind-false a b h = ground arith

  All-insert :
      (P : Pointer F → Type 0) (e : Pointer F) (table : List (Pointer F))
      → P e
      → All P table
      → All P (insert_sorted e table)
  unfolding insert_sorted
  All-insert P e [] h hs = (h, tt)
  All-insert P e (x ∷ table) h (hx, hs) = elim (Bool-cases (goes_behind e x)) [
    | inl b ↦ rw b (hx, All-insert P e table h hs)
    | inr b ↦ rw b (h, (hx, hs))
  ]

  insert-IsSorted :
      (e : Pointer F) (table : List (Pointer F)) → IsSorted table → IsSorted (insert_sorted e table)
  unfolding insert_sorted
  insert-IsSorted e [] s = (tt, tt)
  insert-IsSorted e (x ∷ table) (s, ss) = elim (Bool-cases (goes_behind e x)) [
    | inl b ↦ rw b (
      All-insert (λ y. comp x.0 y.0 ≢ behind) e table (comp_total e.0 x.0 (goes_behind-true e x b))
          s,
      insert-IsSorted e table ss,
    )
    | inr b ↦ let first = goes_behind-false e x b in rw b ((first, weaken table s first), (s, ss))
  ]
    where
      weaken :
          (rest : List (Pointer F))
          → All (λ y. comp x.0 y.0 ≢ behind) rest
          → comp e.0 x.0 ≢ behind
          → All (λ y. comp e.0 y.0 ≢ behind) rest
      weaken [] h f = tt
      weaken (y ∷ rest) (h, hs) f = (comp_trans e.0 x.0 y.0 f h, weaken rest hs f)

  All-of_insert :
      (P : Pointer F → Type 0) (e : Pointer F) (table : List (Pointer F))
      → All P (insert_sorted e table)
      → P e × All P table
  unfolding insert_sorted
  All-of_insert P e [] h = h
  All-of_insert P e (x ∷ table) h = elim (Bool-cases (goes_behind e x)) [
    | inl b ↦
        let (hx, hs) = rw b at h in let (he, ht) = All-of_insert P e table hs in (he, (hx, ht))
    | inr b ↦ rw b at h
  ]

  insertion_sort-IsSorted : (table : List (Pointer F)) → IsSorted (insertion_sort table)
  unfolding insertion_sort
  insertion_sort-IsSorted [] = tt
  insertion_sort-IsSorted (e ∷ table) =
      insert-IsSorted e (insertion_sort table) (insertion_sort-IsSorted table)

  insertion_sort-entries :
      (table : List (Pointer F)) (P : Pointer F → Type 0)
      → All P (insertion_sort table)
      → All P table
  unfolding insertion_sort
  insertion_sort-entries [] P h = tt
  insertion_sort-entries (e ∷ table) P h =
      let (he, ht) = All-of_insert P e (insertion_sort table) h in
      (he, insertion_sort-entries table P ht)

  pub insertion_sort-Sorts : Sorts insertion_sort
  insertion_sort-Sorts = record {
    sorted = insertion_sort-IsSorted;
    entries = insertion_sort-entries;
  }
