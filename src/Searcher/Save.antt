-- ===== src/Searcher/Save.antt =====
-- `handle_filesave` of searcher/searcher.c: the view is saved to a file, or each playfield to its own.
pub mod Playfields
use demotool.Base.{ℕ, Bool, true, false, not, ◌&&◌, Option, none, some, List, [], ◌∷◌, ◌++◌}
use demotool.Base.{ltb, ◌==◌, if◌then◌else◌, length}
use demotool.Base.Int.{ℤ, negsuc, is_negative}
use demotool.Protocol.Flag.{has_flag}
use demotool.Searcher.Mode
use demotool.Searcher.View.{View, idx_save_iff, idx_save_raw, idx_save_pal, idx_save_max}
use demotool.Searcher.View.{
  idx_status_nosave, idx_status_saveok, idx_status_noram, idx_status_fault,
}
use demotool.Searcher.File.{Dos, File, s_open, s_close, s_ioerr}
use demotool.Searcher.Ilbm.{ViewModes, save_iff, save_raw, save_pal}

-- One try to save: whether the file was opened, the result, the file before and after it was closed,
-- and the name with the bytes that the disk has.
pub record Attempt : Type 0 where
  pub opened : Bool
  pub ret : ℤ
  pub before : File
  pub after : File
  pub saved : List (List ℕ × List ℕ)

-- The switch over `save_as`.
unfoldable pub save_as_format : Dos → ViewModes → (ℕ → ℕ) → View → Bool → File → ℤ × File
save_as_format dos modes mem v odd f =
    if v.save_as == idx_save_iff
    then save_iff dos modes mem v odd f
    else if v.save_as == idx_save_raw
    then save_raw dos mem v odd f
    else if v.save_as == idx_save_pal
    then save_pal dos v odd f
    else (negsuc 0, f)

-- `handle` is what Open returns. The result of the close is not looked at.
unfoldable pub save_file : Dos → ViewModes → (ℕ → ℕ) → View → Bool → ℕ → List ℕ → File → Attempt
unfolding save_as_format
save_file dos modes mem v odd handle name f =
    let (opened, f1) = s_open dos handle f in
    let (ret, f2) = save_as_format dos modes mem v odd f1 in
    let f3 = (s_close dos f2).1 in
    if opened == 0
    then record { opened = false; ret = negsuc 0; before = f1; after = f1; saved = [] }
    else record { opened = true; ret = ret; before = f2; after = f3; saved = (name, f3.taken) ∷ [] }

-- The status, where a try has been made.
abbrev pub with_status : View → Bool → View
with_status v opened =
    if opened && ltb idx_save_max v.save_as then record v { status = idx_status_fault } else v

-- The second playfield, behind the first.
unfoldable pub save_second :
    Dos → ViewModes → (ℕ → ℕ) → View → ℕ → List ℕ → Attempt → View × List (List ℕ × List ℕ)
unfolding save_file
save_second dos modes mem v handle tmp_name first =
    let name = tmp_name ++ (b'_' ∷ b'p' ∷ b'f' ∷ b'2' ∷ []) in
    let second = save_file dos modes mem v false handle name first.after in
    let v' = with_status v second.opened in
    (
      if second.opened && is_negative second.ret
          then record v' { ioerr = (s_ioerr dos second.before).0 }
          else v',
      first.saved ++ second.saved,
    )

-- `handle_filesave`: the view, and the files on the disk with their names. `new` is the handle, or
-- NULL; `handle1` and `handle2` are what Open returns.
unfoldable pub handle_filesave :
    Dos → ViewModes → (ℕ → ℕ) → Option File → ℕ → ℕ → List ℕ → View → View × List (List ℕ × List ℕ)
unfolding save_second
handle_filesave dos modes mem new handle1 handle2 tmp_name v =
    if ltb 0 (length tmp_name)
    then elim new [
      | none ↦ (record v { ioerr = 0; status = idx_status_noram }, [])
      | some fh ↦
          let v' = record v { status = idx_status_saveok; ioerr = 0 } in
          let dual = has_flag v.flags Mode.dualpf in
          let postfix = if dual then b'_' ∷ b'p' ∷ b'f' ∷ b'1' ∷ [] else [] in
          let first = save_file dos modes mem v' true handle1 (tmp_name ++ postfix) fh in
          let second = save_second dos modes mem v' handle2 tmp_name first in
          let v'' = with_status v' first.opened in
          if is_negative first.ret
          then (record v'' { ioerr = (s_ioerr dos first.after).0 }, first.saved)
          else if dual
          then second
          else (v'', first.saved)
    ]
    else (record v { ioerr = 0; status = idx_status_nosave }, [])
