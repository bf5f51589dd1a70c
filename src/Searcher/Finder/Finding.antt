-- ===== src/Searcher/Finder/Finding.antt =====
-- The moves that the search for a palette has counted.
use demotool.Base.{
  sym, subst, ℕ, zero, suc, ◌+◌, ◌*◌, ◌^◌, ◌%◌, ◌<◌, ◌≡◌, ◌∙◌, ap, refl, inl, inr, Bool, true,
  false, not, ◌&&◌, Option, some, arith,
}
use demotool.Base.{Bool-cases, ltb, ◌==◌, if◌then◌else◌}
use demotool.Base.Bits.{low_ones}
use mathlib.Core.Option.{some-injective}
use native.Mathlib.Nat.{mod-lt, mod-eq_of_lt, mod-add-mod}
use demotool.Protocol.Flag.{has_flag}
use demotool.Searcher.Finder.{
  Search, is_color_move, is_rgb, color_of, at_move, at_rgb, search_step, search_loop,
}
use demotool.Searcher.Finder.Ends.{search_step-current_pos}

module _ (mem : ℕ → ℕ) (size : ℕ) where
  -- The word `i` words behind a position, round the memory.
  abbrev pub word : ℕ → ℕ → ℕ
  word pos i = mem ((pos + i) % size)

  -- From a position on, `n` moves of a colour to its register.
  abbrev pub IsPalette : ℕ → ℕ → Type 0
  IsPalette pos n =
      (i : ℕ)
      → i < n
      → (is_color_move (word pos (i * 2)) ≡ true) × (is_rgb (word pos (i * 2 + 1)) ≡ true)

  -- The moves that the search has counted, and the word that it is at: the one behind them, or, if it
  -- waits for a colour, the one behind another register.
  pub record IsFinding (s : Search) : Type 0 where
    pub below : s.current_pos < size
    pub palette : IsPalette s.found_pos s.found
    pub behind : s.move ≡ true → 0 < s.found → (s.found_pos + s.found * 2) % size ≡ s.current_pos
    pub register :
        s.move ≡ false
        → (is_color_move (word s.found_pos (s.found * 2)) ≡ true)
          × ((s.found_pos + (s.found * 2 + 1)) % size ≡ s.current_pos)

  module _ (s : Search) (h : IsFinding s) where
    next_word :
        (pos i : ℕ)
        → (pos + i) % size ≡ s.current_pos
        → (s.current_pos + 1) % size ≡ (pos + (i + 1)) % size
    next_word pos i e =
        ap (λ n. (n + 1) % size) (sym e)
        ∙ mod-add-mod (pos + i) size 1
        ∙ ap (λ n. n % size) (omega arith)

    step_below : (s.current_pos + 1) % size < size
    step_below = mod-lt (s.current_pos + 1) (omega (arith, h.below))

    -- The search starts again.
    none-IsFinding :
        (colpal idx : ℕ)
        → IsFinding (record s {
          current_pos = (s.current_pos + 1) % size;
          found = 0;
          colpal = colpal;
          move = true;
          idx = idx;
        })
    none-IsFinding colpal idx = record {
      below = step_below;
      palette = λ i less. absurd (omega (arith, less));
      behind = λ e less. absurd (omega (arith, less));
      register = λ e. absurd (ground (arith, e));
    }

    -- The first register.
    first-IsFinding :
        (n idx : ℕ)
        → n ≡ 0
        → is_color_move (mem s.current_pos) ≡ true
        → IsFinding (record s {
          current_pos = (s.current_pos + 1) % size;
          found_pos = s.current_pos;
          found = n;
          move = false;
          idx = idx;
        })
    first-IsFinding n idx z e =
        let here : (s.current_pos + 0) % size ≡ s.current_pos =
          ap (λ n. n % size) (omega arith) ∙ mod-eq_of_lt h.below in
        record {
          below = step_below;
          palette = λ i less. absurd (omega (arith, less, z));
          behind = λ e less. absurd (omega (arith, less, z));
          register = λ _. rw z (rw here e, refl);
        }

    -- One more register.
    more-IsFinding :
        (idx : ℕ)
        → 0 < s.found
        → s.move ≡ true
        → is_color_move (mem s.current_pos) ≡ true
        → IsFinding (record s { current_pos = (s.current_pos + 1) % size; move = false; idx = idx })
    more-IsFinding idx p m e =
        let here = h.behind m p in
        record {
          below = step_below;
          palette = h.palette;
          behind = λ e. absurd (ground (arith, e));
          register = λ _. (rw here e, sym (next_word s.found_pos (s.found * 2) here));
        }

    -- The colour of the register.
    colour-IsFinding :
        (colpal : ℕ)
        → s.move ≡ false
        → is_rgb (mem s.current_pos) ≡ true
        → IsFinding (record s {
          current_pos = (s.current_pos + 1) % size;
          found = s.found + 1;
          colpal = colpal;
          move = true;
        })
    colour-IsFinding colpal m e =
        let (reg, here) = h.register m in
        record {
          below = step_below;
          palette = λ i less. elim (Bool-cases (ltb i s.found)) [
            | inl old ↦ h.palette i (ground (arith, old))
            | inr new ↦
                let last : i ≡ s.found = ground (arith, new, less) in rw last (reg, rw here e)
          ];
          behind = λ _ _. sym (
              next_word s.found_pos (s.found * 2 + 1) here
              ∙ ap (λ n. (s.found_pos + n) % size) (omega arith));
          register = λ e. absurd (ground (arith, e));
        }

    after_move :
        s.move ≡ true
        → IsFinding
            (record (at_move (mem s.current_pos) s) { current_pos = (s.current_pos + 1) % size })
    unfolding at_move
    after_move m =
        let idx = color_of (mem s.current_pos) in
        elim (Bool-cases (is_color_move (mem s.current_pos) && not (has_flag s.colpal (2 ^ idx)))) [
          | inl e ↦ rw e (elim (Bool-cases (s.found == 0)) [
            | inl z ↦ rw z (first-IsFinding s.found idx (ground (arith, z)) (ground (arith, e)))
            | inr n ↦ rw n (more-IsFinding idx (ground (arith, n)) m (ground (arith, e)))
          ])
          | inr e ↦ rw (e, m) (none-IsFinding 0 idx)
        ]

    after_rgb :
        s.move ≡ false
        → IsFinding
            (record (at_rgb (mem s.current_pos) s) { current_pos = (s.current_pos + 1) % size })
    unfolding at_rgb
    after_rgb m = elim (Bool-cases (is_rgb (mem s.current_pos))) [
      | inl e ↦ rw e (colour-IsFinding _ m e)
      | inr e ↦ rw e (none-IsFinding 0 s.idx)
    ]

if_IsFinding :
    (mem : ℕ → ℕ) (size pos : ℕ) (b : Bool) (x y : Search)
    → (b ≡ true → IsFinding mem size (record x { current_pos = pos }))
    → (b ≡ false → IsFinding mem size (record y { current_pos = pos }))
    → IsFinding mem size (record (if b then x else y) { current_pos = pos })
if_IsFinding mem size pos true x y h k = h refl
if_IsFinding mem size pos false x y h k = k refl

of_if :
    (P : Search → Type 0) (b : Bool) (x : Option Search) (s : Search) {s' : Search}
    → (x ≡ some s' → P s')
    → P s
    → (if b then x else some s) ≡ some s'
    → P s'
of_if P true x s h p e = h e
of_if P false x s h p e = subst P (some-injective _ _ e) p

module _ (mem : ℕ → ℕ) (k : ℕ) where
  search_step-IsFinding :
      (s : Search)
      → IsFinding mem (low_ones (suc k) + 1) s
      → IsFinding mem (low_ones (suc k) + 1) (search_step mem (low_ones (suc k)) s)
  unfolding search_step
  search_step-IsFinding s h =
      let size = low_ones (suc k) + 1 in
      let word = mem s.current_pos in
      let s' = if s.move then at_move word s else at_rgb word s in
      subst (λ p. IsFinding mem size (record s' { current_pos = p }))
        (sym (search_step-current_pos mem k s))
        (if_IsFinding mem size _ s.move _ _ (after_move mem size s h) (after_rgb mem size s h))

  search_loop-IsFinding :
      (fuel end_pos min_num : ℕ) (s s' : Search)
      → IsFinding mem (low_ones (suc k) + 1) s
      → search_loop mem (low_ones (suc k)) end_pos min_num fuel s ≡ some s'
      → IsFinding mem (low_ones (suc k) + 1) s'
  unfolding search_loop
  search_loop-IsFinding zero end_pos min_num s s' h e = absurd (ground (arith, e))
  search_loop-IsFinding (suc fuel) end_pos min_num s s' h e =
      let h' = search_step-IsFinding s h in
      of_if (IsFinding mem (low_ones (suc k) + 1)) _ _ _
        (λ e'. search_loop-IsFinding fuel end_pos min_num _ s' h' e') h' e

pub search_loop-IsPalette :
    (mem : ℕ → ℕ) (k mask min_num fuel end_pos : ℕ) (s s' : Search)
    → mask ≡ low_ones (suc k)
    → IsFinding mem (mask + 1) s
    → search_loop mem mask end_pos min_num fuel s ≡ some s'
    → IsPalette mem (mask + 1) s'.found_pos s'.found
search_loop-IsPalette mem k mask min_num fuel end_pos s s' m h e =
    let found = search_loop-IsFinding mem k fuel end_pos min_num s s' (rw m at h) (rw m at e) in
    rw m found.palette
