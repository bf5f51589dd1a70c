-- ===== src/Searcher/Ilbm/Sizes.antt =====
-- The sizes of what `save_iff` writes.
use demotool.Base.{
  refl, inl, inr, ◌≡◌, ◌≤◌, arith, true, false, ℕ, zero, suc, ◌+◌, ◌-◌, ◌*◌, ◌/◌, ◌%◌, Bool, List,
  [], ◌∷◌, ◌++◌, map,
}
use demotool.Base.{Bool-cases, length, if◌then◌else◌, flatten, length-append, ◌==◌}
use demotool.Protocol.{be32}
use demotool.Protocol.Flag.{has_flag}
use demotool.Searcher.Mode
use demotool.Searcher.View.{View}
use demotool.Searcher.Ilbm.{
  id_form, id_ilbm, id_body, Put, num, ViewModes, ncolors, body_size, form_size, bmhd_puts,
  cmap_puts, camg_puts, color_puts, view_mode, head_puts, read_bytes, row_puts, next_row, body_puts,
  is_saved, bytes_per_row, first_color,
}
use demotool.Searcher.Ilbm.Puts.{bytes_of}

-- The number of bytes of calls.
unfoldable pub size_of : List Put → ℕ
size_of [] = 0
size_of (p ∷ ps) = length (bytes_of p) + size_of ps

pub length-flatten : (ps : List Put) → length (flatten (map bytes_of ps)) ≡ size_of ps
unfolding size_of
length-flatten [] = refl
length-flatten (p ∷ ps) =
    omega (arith, length-append (bytes_of p) (flatten (map bytes_of ps)), length-flatten ps)

pub size_of-append : (ps qs : List Put) → size_of (ps ++ qs) ≡ size_of ps + size_of qs
unfolding size_of
size_of-append [] qs = omega arith
size_of-append (p ∷ ps) qs = omega (arith, size_of-append ps qs)

-- The head.
size_of-color_puts : (pal : List ℕ) (n i : ℕ) → size_of (color_puts pal i n) ≡ n * 3
unfolding size_of color_puts bytes_of
size_of-color_puts pal zero i = omega arith
size_of-color_puts pal (suc n) i = omega (arith, size_of-color_puts pal n (i + 1))

size_of-cmap_puts : (v : View) (odd : Bool) → size_of (cmap_puts v odd) ≡ 8 + ncolors v odd * 3
unfolding size_of cmap_puts bytes_of be32
size_of-cmap_puts v odd =
    omega (arith, size_of-color_puts v.pal (ncolors v odd) (first_color v odd))

-- CAMG is written where there is a mode.
size_of-camg_puts :
    (modes : ViewModes) (v : View)
    → size_of (camg_puts modes v) + (if view_mode modes v == 0 then 12 else 0) ≡ 12
unfolding size_of camg_puts bytes_of be32
size_of-camg_puts modes v = elim (Bool-cases (view_mode modes v == 0)) [
  | inl e ↦ rw e refl
  | inr e ↦ rw e refl
]

size_of-form :
    (n : ℕ) (v : View) (odd : Bool)
    → size_of (num id_form 4 ∷ num n 4 ∷ num id_ilbm 4 ∷ bmhd_puts v odd) ≡ 40
unfolding size_of bmhd_puts bytes_of be32
size_of-form n v odd = refl

size_of-body : (n : ℕ) → size_of (num id_body 4 ∷ num n 4 ∷ []) ≡ 8
unfolding size_of bytes_of be32
size_of-body n = refl

pub size_of-head_puts :
    (modes : ViewModes) (v : View) (odd : Bool)
    → size_of (head_puts modes v odd) + body_size v odd + (if view_mode modes v == 0 then 12 else 0)
      ≡ form_size v odd + 8
unfolding head_puts form_size
size_of-head_puts modes v odd =
    let form = num id_form 4 ∷ num (form_size v odd) 4 ∷ num id_ilbm 4 ∷ bmhd_puts v odd in
    let cmap = cmap_puts v odd in
    let camg = camg_puts modes v in
    let body = num id_body 4 ∷ num (body_size v odd) 4 ∷ [] in
    let whole : size_of (head_puts modes v odd) ≡ size_of form + size_of (cmap ++ camg ++ body) =
      size_of-append form (cmap ++ camg ++ body) in
    omega (
      arith,
      whole,
      size_of-append (cmap ++ camg) body,
      size_of-append cmap camg,
      size_of-form (form_size v odd) v odd,
      size_of-cmap_puts v odd,
      size_of-camg_puts modes v,
      size_of-body (body_size v odd),
    )

-- The rows.
unfoldable pub saved_planes : View → Bool → ℕ → ℕ → ℕ
saved_planes v odd m zero = 0
saved_planes v odd m (suc n) = (if is_saved v odd m then 1 else 0) + saved_planes v odd (m + 1) n

pub length-read_bytes : (mem : ℕ → ℕ) (n p : ℕ) → length (read_bytes mem p n) ≡ n
unfolding read_bytes
length-read_bytes mem zero p = refl
length-read_bytes mem (suc n) p = omega (arith, length-read_bytes mem n (p + 1))

length-next_row :
    (v : View) (m : ℕ) (planes : List ℕ) → length (next_row v m planes) ≡ length planes
unfolding next_row
length-next_row v m [] = refl
length-next_row v m (p ∷ planes) = omega (arith, length-next_row v (m + 1) planes)

size_of-row_puts :
    (mem : ℕ → ℕ) (v : View) (odd : Bool) (m : ℕ) (planes : List ℕ)
    → size_of (row_puts mem v odd m planes) ≡ saved_planes v odd m (length planes) * bytes_per_row v
unfolding size_of row_puts saved_planes bytes_of
size_of-row_puts mem v odd m [] = omega arith
size_of-row_puts mem v odd m (p ∷ planes) =
    let rest = size_of-row_puts mem v odd (m + 1) planes in
    let n = length-read_bytes mem (bytes_per_row v) p in
    elim (Bool-cases (is_saved v odd m)) [
      | inl e ↦ rw e (omega (arith, rest, n))
      | inr e ↦ rw e (omega (arith, rest))
    ]

pub size_of-body_puts :
    (mem : ℕ → ℕ) (v : View) (odd : Bool) (h : ℕ) (planes : List ℕ)
    → size_of (body_puts mem v odd h planes)
      ≡ h * (saved_planes v odd 0 (length planes) * bytes_per_row v)
unfolding size_of body_puts
size_of-body_puts mem v odd zero planes = omega arith
size_of-body_puts mem v odd (suc h) planes =
    let row = size_of-row_puts mem v odd 0 planes in
    let next = next_row v 0 planes in
    let rest = rw (length-next_row v 0 planes) at (size_of-body_puts mem v odd h next) in
    omega
      (arith, size_of-append (row_puts mem v odd 0 planes) (body_puts mem v odd h next), row, rest)

-- The planes of a playfield, by whether there are two, which of them, and the number of planes.
pub saved_planes_all :
    (v : View) (odd : Bool) (m n : ℕ)
    → has_flag v.flags Mode.dualpf ≡ false
    → saved_planes v odd m n ≡ n
unfolding saved_planes
saved_planes_all v odd m zero e = refl
saved_planes_all v odd m (suc n) e = rw e (omega (arith, saved_planes_all v odd (m + 1) n e))

pub saved_planes_odd :
    (v : View) (n : ℕ)
    → has_flag v.flags Mode.dualpf ≡ true
    → n ≤ 6
    → saved_planes v true 0 n ≡ n % 2 + n / 2
unfolding saved_planes
saved_planes_odd v zero e h = refl
saved_planes_odd v (suc zero) e h = rw e refl
saved_planes_odd v (suc (suc zero)) e h = rw e refl
saved_planes_odd v (suc (suc (suc zero))) e h = rw e refl
saved_planes_odd v (suc (suc (suc (suc zero)))) e h = rw e refl
saved_planes_odd v (suc (suc (suc (suc (suc zero))))) e h = rw e refl
saved_planes_odd v (suc (suc (suc (suc (suc (suc zero)))))) e h = rw e refl
saved_planes_odd v (suc (suc (suc (suc (suc (suc (suc n))))))) e h = absurd (omega (arith, h))

pub saved_planes_even :
    (v : View) (n : ℕ)
    → has_flag v.flags Mode.dualpf ≡ true
    → n ≤ 6
    → saved_planes v false 0 n ≡ n - (n % 2 + n / 2)
unfolding saved_planes
saved_planes_even v zero e h = refl
saved_planes_even v (suc zero) e h = rw e refl
saved_planes_even v (suc (suc zero)) e h = rw e refl
saved_planes_even v (suc (suc (suc zero))) e h = rw e refl
saved_planes_even v (suc (suc (suc (suc zero)))) e h = rw e refl
saved_planes_even v (suc (suc (suc (suc (suc zero))))) e h = rw e refl
saved_planes_even v (suc (suc (suc (suc (suc (suc zero)))))) e h = rw e refl
saved_planes_even v (suc (suc (suc (suc (suc (suc (suc n))))))) e h = absurd (omega (arith, h))
