-- ===== src/Searcher/Ilbm/Form.antt =====
-- `save_iff` writes a form of the size that it returns.
use demotool.Base.{
  sym, ap, inl, inr, append_assoc, ◌≡◌, ◌∙◌, ◌<◌, ◌≤◌, arith, true, false, ℕ, ◌+◌, ◌*◌, Bool, List,
  ◌++◌, map,
}
use demotool.Base.{
  Bool-cases, length, take, if◌then◌else◌, flatten, length-append, length-take, ltb, ◌==◌,
}
use demotool.Base.Int.{ℤ, pos, negsuc, is_negative}
use native.Mathlib.Nat.{mul_assoc}
use demotool.Protocol.Flag.{has_flag}
use demotool.Searcher.Mode
use demotool.Searcher.View.{View}
use demotool.Searcher.File.{Dos, File, buffer_size}
use demotool.Searcher.File.Written.{TakesAll, content, IsOpen, Appends, appends}
use demotool.Searcher.Keys.Kept.{IsView}
use demotool.Searcher.Ilbm.{
  put_all, save_iff, ViewModes, all_planes, playfield, nbplanes, body_size, form_size, view_mode,
  head_puts, rows, bytes_per_row,
}
use demotool.Searcher.Ilbm.Puts.{bytes_of, put_all-Appends}
use demotool.Searcher.Ilbm.Sizes.{
  size_of, length-flatten, size_of-head_puts, size_of-body_puts, saved_planes, saved_planes_all,
  saved_planes_odd, saved_planes_even,
}
use demotool.Searcher.Ilbm.Short.{head_puts-IsShort, body_puts-IsShort}

-- A picture with six planes at most, six in HAM, and two at least for two playfields.
pub record IsSavable (v : View) : Type 0 where
  pub six : v.num_bpl ≤ 6
  pub ham : has_flag v.flags Mode.ham ≡ true → v.num_bpl ≡ 6
  pub playfields : has_flag v.flags Mode.dualpf ≡ true → 1 < v.num_bpl

all_planes_lem : (v : View) → IsSavable v → all_planes v ≡ v.num_bpl
unfolding all_planes
all_planes_lem v h = elim (Bool-cases (has_flag v.flags Mode.ham)) [
  | inl e ↦ rw e (sym (h.ham e))
  | inr e ↦ rw e (let most = h.six in ground arith)
]

saved_planes-playfield :
    (v : View) (odd : Bool)
    → has_flag v.flags Mode.dualpf ≡ true
    → v.num_bpl ≤ 6
    → saved_planes v odd 0 v.num_bpl ≡ playfield v odd v.num_bpl
unfolding playfield
saved_planes-playfield v true e h = saved_planes_odd v v.num_bpl e h
saved_planes-playfield v false e h = saved_planes_even v v.num_bpl e h

-- The planes that are written are those of the header.
saved_planes-nbplanes :
    (v : View) (odd : Bool) → IsSavable v → saved_planes v odd 0 v.num_bpl ≡ nbplanes v odd
unfolding nbplanes
saved_planes-nbplanes v odd h = elim (Bool-cases (has_flag v.flags Mode.dualpf)) [
  | inl e ↦
      let two : ltb 1 v.num_bpl ≡ true = let least = h.playfields e in ground (arith, least) in
      rw (e, two, all_planes_lem v h) (saved_planes-playfield v odd e h.six)
  | inr e ↦ rw (e, all_planes_lem v h) (saved_planes_all v odd 0 v.num_bpl e)
]

size_of-rows :
    (mem : ℕ → ℕ) (v : View) (odd : Bool)
    → IsView v
    → IsSavable v
    → size_of (rows mem v odd) ≡ body_size v odd
unfolding rows body_size
size_of-rows mem v odd w h =
    let planes = take v.num_bpl v.bpl_ptr in
    let n : length planes ≡ v.num_bpl =
      omega (arith, length-take v.num_bpl v.bpl_ptr, w.planes, h.six) in
    let size = size_of-body_puts mem v odd v.scr_height planes in
    size
    ∙ ap (λ k. v.scr_height * (k * bytes_per_row v))
        (ap (saved_planes v odd 0) n ∙ saved_planes-nbplanes v odd h)
    ∙ sym (mul_assoc v.scr_height (nbplanes v odd) (bytes_per_row v))

-- A call that returns a number after it has written bytes to an open file.
pub data Saved (bs : List ℕ) (f : File) (n : ℕ) : ℤ × File → Type 0 where
  saved : {f' : File} → IsOpen f' → content f' ≡ content f ++ bs → Saved bs f n (pos n, f')

rows_after :
    (bs cs : List ℕ) (f f' : File) (n : ℕ)
    → content f' ≡ content f ++ bs
    → (r : ℤ × File) → Appends cs f' r
    → Saved (bs ++ cs) f n (if is_negative r.0 then (negsuc 0, r.1) else (pos n, r.1))
rows_after bs cs f f' n e r (appends opened e') =
    saved opened (e' ∙ ap (λ xs. xs ++ cs) e ∙ append_assoc (content f) bs cs)

body_after :
    {bs cs : List ℕ} {f : File} (n : ℕ) (r : ℤ × File) (next : File → ℤ × File)
    → Appends bs f r
    → ((f' : File) → IsOpen f' → Appends cs f' (next f'))
    → Saved (bs ++ cs) f n (
        if is_negative r.0
        then r
        else if is_negative (next r.1).0
        then (negsuc 0, (next r.1).1)
        else (pos n, (next r.1).1))
body_after {bs} {cs} {f} n r next (appends {f' = g} opened e) h =
    rows_after bs cs f g n e (next g) (h g opened)

-- The bytes of a picture, before its rows and in them.
abbrev pub form_bytes : ViewModes → (ℕ → ℕ) → View → Bool → List ℕ
form_bytes modes mem v odd =
    flatten (map bytes_of (head_puts modes v odd)) ++ flatten (map bytes_of (rows mem v odd))

-- Where the disk takes what it is given and the picture can be saved, `save_iff` appends the form to
-- the open file and returns the size of the form with its first eight bytes. As many bytes are
-- written, but twelve fewer where no mode of the view is set.
pub save_iff-Saved :
    (dos : Dos) (modes : ViewModes) (mem : ℕ → ℕ) (v : View) (odd : Bool) (f : File)
    → TakesAll dos
    → IsOpen f
    → IsView v
    → IsSavable v
    → Saved (form_bytes modes mem v odd) f (form_size v odd + 8) (save_iff dos modes mem v odd f)
      × (length (form_bytes modes mem v odd) + (if view_mode modes v == 0 then 12 else 0)
          ≡ form_size v odd + 8)
unfolding save_iff
save_iff-Saved dos modes mem v odd f all opened w h =
    let head = head_puts modes v odd in
    let width = w.width_max in
    let row : bytes_per_row v ≤ buffer_size = omega (arith, width) in
    let rows_IsShort = body_puts-IsShort mem v odd v.scr_height (take v.num_bpl v.bpl_ptr) row in
    (
      body_after (form_size v odd + 8) (put_all dos head f) (λ f'. put_all dos (rows mem v odd) f')
          (put_all-Appends dos all head f opened (head_puts-IsShort modes v odd))
          (λ f' opened'. put_all-Appends dos all (rows mem v odd) f' opened' rows_IsShort),
      omega (
        arith,
        length-append (flatten (map bytes_of head)) (flatten (map bytes_of (rows mem v odd))),
        length-flatten head,
        length-flatten (rows mem v odd),
        size_of-head_puts modes v odd,
        size_of-rows mem v odd w h,
      ),
    )
