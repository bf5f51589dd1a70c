-- ===== src/Searcher/Save/Playfields.antt =====
-- What `handle_filesave` leaves on the disk.
use demotool.Base.{
  ℕ, ◌+◌, ◌<◌, ◌≡◌, ◌∙◌, ap, sym, subst, refl, inl, inr, Bool, true, false, ◌&&◌, some, List, [],
  ◌∷◌, ◌++◌, arith,
}
use demotool.Base.{Bool-cases, ltb, ◌==◌, if◌then◌else◌, length}
use demotool.Base.Int.{ℤ, pos, negsuc, is_negative}
use demotool.Protocol.Flag.{has_flag}
use demotool.Searcher.Mode
use demotool.Searcher.View.{View, idx_save_iff, idx_status_saveok}
use demotool.Searcher.File.{Dos, File, s_ioerr, s_open, s_close}
use demotool.Searcher.File.Written.{TakesAll, content, IsOpen, Closes, shut, s_close-Closes}
use demotool.Searcher.Keys.Kept.{IsView}
use demotool.Searcher.Ilbm.{ViewModes, save_iff, form_size}
use demotool.Searcher.Ilbm.Form.{IsSavable, Saved, saved, form_bytes, save_iff-Saved}
use demotool.Searcher.Save.{
  Attempt, with_status, save_as_format, save_file, save_second, handle_filesave,
}

-- A try that has put the bytes into a file of that name.
data Success (name bs : List ℕ) : Attempt → Type 0 where
  success :
      {n : ℕ} {f f' : File}
      → f'.handle ≡ 0
      → Success name bs
          (record { opened = true; ret = pos n; before = f; after = f'; saved = (name, bs) ∷ [] })

closed_save :
    (name bs : List ℕ) (n : ℕ) (g : File) {xs : List ℕ} (r : ℤ × File)
    → xs ≡ bs
    → Closes xs r
    → Success name bs (record {
      opened = true;
      ret = pos n;
      before = g;
      after = r.1;
      saved = (name, r.1.taken) ∷ [];
    })
closed_save name bs n g r e (shut free e') = rw (e', e) (success free)

if_not_Success :
    {name bs : List ℕ} (b : Bool) (x y : Attempt)
    → b ≡ false
    → Success name bs y
    → Success name bs (if b then x else y)
if_not_Success true x y e h = absurd (ground (arith, e))
if_not_Success false x y e h = h

if_yes : {A : Type 0} (b : Bool) (x y : A) → b ≡ true → (if b then x else y) ≡ x
if_yes true x y e = refl
if_yes false x y e = absurd (ground (arith, e))

module _ (dos : Dos) (modes : ViewModes) (mem : ℕ → ℕ) (v : View) (all : TakesAll dos)
    (w : IsView v) (h : IsSavable v) (iff : v.save_as ≡ idx_save_iff) where
  after_save :
      (name bs : List ℕ) (f : File) (n : ℕ) (r : ℤ × File)
      → content f ≡ []
      → Saved bs f n r
      → Success name bs (record {
        opened = true;
        ret = r.0;
        before = r.1;
        after = (s_close dos r.1).1;
        saved = (name, (s_close dos r.1).1.taken) ∷ [];
      })
  after_save name bs f n r empty (saved {f' = g} opened e) =
      closed_save name bs n g (s_close dos g) (e ∙ ap (λ xs. xs ++ bs) empty)
        (s_close-Closes dos all g opened.opened)

  -- The file as Open leaves it.
  abbrev fresh : ℕ → File → File
  fresh handle f = record f { handle = handle; last_ioerr = 0; buffer = []; taken = [] }

  s_open_lem :
      (handle : ℕ) (f : File) → f.handle ≡ 0 → s_open dos handle f ≡ (handle, fresh handle f)
  unfolding s_open
  s_open_lem handle f free = if_yes (f.handle == 0) _ _ (ground (arith, free))

  save_as_format_lem :
      (odd : Bool) (f : File)
      → save_as_format dos modes mem v odd f ≡ save_iff dos modes mem v odd f
  unfolding save_as_format
  save_as_format_lem odd f = if_yes (v.save_as == idx_save_iff) _ _ (ground (arith, iff))

  -- What follows Open.
  abbrev behind_open : Bool → List ℕ → ℕ × File → Attempt
  behind_open odd name o =
      if o.0 == 0
      then record { opened = false; ret = negsuc 0; before = o.1; after = o.1; saved = [] }
      else record {
        opened = true;
        ret = (save_as_format dos modes mem v odd o.1).0;
        before = (save_as_format dos modes mem v odd o.1).1;
        after = (s_close dos (save_as_format dos modes mem v odd o.1).1).1;
        saved = (name, (s_close dos (save_as_format dos modes mem v odd o.1).1).1.taken) ∷ [];
      }

  save_file-Success :
      (odd : Bool) (handle : ℕ) (name : List ℕ) (f : File)
      → (handle == 0) ≡ false
      → f.handle ≡ 0
      → Success name (form_bytes modes mem v odd) (save_file dos modes mem v odd handle name f)
  unfolding save_file
  save_file-Success odd handle name f opens free =
      let room : IsOpen (fresh handle f) = record { opened = opens; room = omega arith } in
      let format = save_iff-Saved dos modes mem v odd (fresh handle f) all room w h in
      subst (λ o. Success name (form_bytes modes mem v odd) (behind_open odd name o))
        (sym (s_open_lem handle f free))
        (if_not_Success (handle == 0) _ _ opens (
          after_save name (form_bytes modes mem v odd) (fresh handle f) (form_size v odd + 8) _ refl
            (subst
              (λ r. Saved (form_bytes modes mem v odd) (fresh handle f) (form_size v odd + 8) r)
              (sym (save_as_format_lem odd (fresh handle f))) format.0)))

  with_status_lem : with_status v true ≡ v
  with_status_lem = rw iff refl

  -- What follows the second try.
  abbrev behind_second : List (List ℕ × List ℕ) → Attempt → View × List (List ℕ × List ℕ)
  behind_second files second = (
    if second.opened && is_negative second.ret
        then record (with_status v second.opened) { ioerr = (s_ioerr dos second.before).0 }
        else with_status v second.opened,
    files ++ second.saved,
  )

  after_second :
      {name bs : List ℕ} (files : List (List ℕ × List ℕ)) (second : Attempt)
      → Success name bs second
      → behind_second files second ≡ (v, files ++ ((name, bs) ∷ []))
  after_second {name} {bs} files second (success free) =
      ap (λ v. (v, files ++ ((name, bs) ∷ []))) with_status_lem

  save_second-Success :
      (handle : ℕ) (tmp_name name bs : List ℕ) (first : Attempt)
      → (handle == 0) ≡ false
      → Success name bs first
      → save_second dos modes mem v handle tmp_name first ≡ (
        v,
        (name, bs)
            ∷ (tmp_name ++ (b'_' ∷ b'p' ∷ b'f' ∷ b'2' ∷ []), form_bytes modes mem v false)
            ∷ [],
      )
  unfolding save_second
  save_second-Success handle tmp_name name bs first opens (success {f' = f'} free) =
      after_second ((name, bs) ∷ []) _ (save_file-Success false handle _ f' opens free)

  -- What follows the first try.
  after_first :
      (handle : ℕ) (tmp_name name bs : List ℕ) (first : Attempt)
      → (handle == 0) ≡ false
      → Success name bs first
      → (if is_negative first.ret
          then (
            record (with_status v first.opened) { ioerr = (s_ioerr dos first.after).0 },
            first.saved,
          )
          else if has_flag v.flags Mode.dualpf
          then save_second dos modes mem v handle tmp_name first
          else (with_status v first.opened, first.saved))
        ≡ (
          v,
          if has_flag v.flags Mode.dualpf
              then (name, bs)
                ∷ (tmp_name ++ (b'_' ∷ b'p' ∷ b'f' ∷ b'2' ∷ []), form_bytes modes mem v false)
                ∷ []
              else (name, bs) ∷ [],
        )
  after_first handle tmp_name name bs first opens (success {n} {f} {f'} free) =
      elim (Bool-cases (has_flag v.flags Mode.dualpf)) [
        | inl e ↦ rw e (
            save_second-Success handle tmp_name name bs _ opens
              (success {n = n} {f = f} {f' = f'} free))
        | inr e ↦ rw e (ap (λ v. (v, (name, bs) ∷ [])) with_status_lem)
      ]

-- The view behind a picture that was saved.
abbrev pub ready : View → View
ready v = record v { status = idx_status_saveok; ioerr = 0 }

-- The name of the first file.
abbrev pub first_name : View → List ℕ → List ℕ
first_name v tmp_name =
    tmp_name ++ (if has_flag v.flags Mode.dualpf then b'_' ∷ b'p' ∷ b'f' ∷ b'1' ∷ [] else [])

ready-IsView : (v : View) → IsView v → IsView (ready v)
ready-IsView v w = ground arith

ready-IsSavable : (v : View) → IsSavable v → IsSavable (ready v)
ready-IsSavable v h = record { six = h.six; ham = h.ham; playfields = h.playfields }

-- Where there is a name, memory for a handle, files that can be opened and a disk that takes what it
-- is given, a picture that can be saved as IFF is in the file of that name as a form; of two
-- playfields, each is in a file of its own, with `_pf1` and `_pf2` behind the name. The view says that
-- the picture was saved, without an error.
pub handle_filesave-saved :
    (dos : Dos) (modes : ViewModes) (mem : ℕ → ℕ) (fh : File) (handle1 handle2 : ℕ)
    (tmp_name : List ℕ) (v : View)
    → TakesAll dos
    → IsView v
    → IsSavable v
    → v.save_as ≡ idx_save_iff
    → 0 < length tmp_name
    → fh.handle ≡ 0
    → (handle1 == 0) ≡ false
    → (handle2 == 0) ≡ false
    → handle_filesave dos modes mem (some fh) handle1 handle2 tmp_name v ≡ (
      ready v,
      if has_flag v.flags Mode.dualpf
          then (first_name v tmp_name, form_bytes modes mem (ready v) true)
            ∷ (tmp_name ++ (b'_' ∷ b'p' ∷ b'f' ∷ b'2' ∷ []), form_bytes modes mem (ready v) false)
            ∷ []
          else (first_name v tmp_name, form_bytes modes mem (ready v) true) ∷ [],
    )
unfolding handle_filesave
handle_filesave-saved dos modes mem fh handle1 handle2 tmp_name v all w h iff named free opens1
      opens2 =
    let w' = ready-IsView v w in
    let h' = ready-IsSavable v h in
    if_yes (ltb 0 (length tmp_name)) _ _ (ground (arith, named))
    ∙ after_first dos modes mem (ready v) all w' h' iff handle2 tmp_name (first_name v tmp_name)
        (form_bytes modes mem (ready v) true) _ opens2
        (save_file-Success dos modes mem (ready v) all w' h' iff true handle1
          (first_name v tmp_name) fh opens1 free)
