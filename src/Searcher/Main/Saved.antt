-- ===== src/Searcher/Main/Saved.antt =====
-- `handle_filesave` changes the status of the view and nothing else.
use demotool.Base.{ℕ, Bool, true, false, ◌&&◌, Option, none, some, List, [], ◌∷◌, ◌++◌}
use demotool.Base.{ltb, length, if◌then◌else◌, Bool-cases, inl, inr}
use demotool.Base.Int.{is_negative}
use demotool.Protocol.Flag.{has_flag}
use demotool.Searcher.Mode
use demotool.Searcher.View.{
  View, idx_save_max, idx_status_fault, idx_status_saveok, idx_status_nosave, idx_status_noram,
}
use demotool.Searcher.File.{Dos, File, s_ioerr}
use demotool.Searcher.Ilbm.{ViewModes}
use demotool.Searcher.Save.{Attempt, with_status, save_file, save_second, handle_filesave}

-- A view that differs in the status only.
pub data Reported (v : View) : View → Type 0 where
  reported : (i s : ℕ) → Reported v (record v { ioerr = i; status = s })

if_Reported :
    {v : View} (b : Bool) (x y : View)
    → Reported v x
    → Reported v y
    → Reported v (if b then x else y)
if_Reported true x y h k = h
if_Reported false x y h k = k

-- The view of a result.
pub data ReportedIn (v : View) : View × List (List ℕ × List ℕ) → Type 0 where
  reported_in :
      {v' : View} {files : List (List ℕ × List ℕ)} → Reported v v' → ReportedIn v (v', files)

if_ReportedIn :
    {v : View} (b : Bool) (x y : View × List (List ℕ × List ℕ))
    → ReportedIn v x
    → ReportedIn v y
    → ReportedIn v (if b then x else y)
if_ReportedIn true x y h k = h
if_ReportedIn false x y h k = k

with_status-Reported : (v w : View) (b : Bool) → Reported v w → Reported v (with_status w b)
with_status-Reported v w b (reported i s) = elim (Bool-cases (b && ltb idx_save_max v.save_as)) [
  | inl e ↦ rw e (reported i idx_status_fault)
  | inr e ↦ rw e (reported i s)
]

error-Reported : (v w : View) (n : ℕ) → Reported v w → Reported v (record w { ioerr = n })
error-Reported v w n (reported i s) = reported n s

save_second-Reported :
    (dos : Dos) (modes : ViewModes) (mem : ℕ → ℕ) (v w : View) (handle : ℕ) (name : List ℕ)
    (first : Attempt)
    → Reported v w
    → ReportedIn v (save_second dos modes mem w handle name first)
unfolding save_second
save_second-Reported dos modes mem v w handle tmp_name first h =
    let name = tmp_name ++ (b'_' ∷ b'p' ∷ b'f' ∷ b'2' ∷ []) in
    let second = save_file dos modes mem w false handle name first.after in
    let w' = with_status w second.opened in
    let saved = with_status-Reported v w second.opened h in
    let n = (s_ioerr dos second.before).0 in
    reported_in (
      if_Reported (second.opened && is_negative second.ret) (record w' { ioerr = n }) w'
        (error-Reported v w' n saved) saved)

pub handle_filesave-Reported :
    (dos : Dos) (modes : ViewModes) (mem : ℕ → ℕ) (new : Option File) (handle1 handle2 : ℕ)
    (name : List ℕ) (v : View)
    → ReportedIn v (handle_filesave dos modes mem new handle1 handle2 name v)
unfolding handle_filesave
handle_filesave-Reported dos modes mem none handle1 handle2 name v =
    if_ReportedIn (ltb 0 (length name)) (record v { ioerr = 0; status = idx_status_noram }, [])
      (record v { ioerr = 0; status = idx_status_nosave }, [])
      (reported_in (reported 0 idx_status_noram)) (reported_in (reported 0 idx_status_nosave))
handle_filesave-Reported dos modes mem (some fh) handle1 handle2 name v =
    let v' = record v { status = idx_status_saveok; ioerr = 0 } in
    let dual = has_flag v.flags Mode.dualpf in
    let postfix = if dual then b'_' ∷ b'p' ∷ b'f' ∷ b'1' ∷ [] else [] in
    let first = save_file dos modes mem v' true handle1 (name ++ postfix) fh in
    let second = save_second dos modes mem v' handle2 name first in
    let v'' = with_status v' first.opened in
    let n = (s_ioerr dos first.after).0 in
    let failed : View × List (List ℕ × List ℕ) = (record v'' { ioerr = n }, first.saved) in
    let single : View × List (List ℕ × List ℕ) = (v'', first.saved) in
    let saved : Reported v v' = reported 0 idx_status_saveok in
    let reached = with_status-Reported v v' first.opened saved in
    if_ReportedIn (ltb 0 (length name))
      (if is_negative first.ret then failed else if dual then second else single)
      (record v { ioerr = 0; status = idx_status_nosave }, [])
      (if_ReportedIn (is_negative first.ret) failed (if dual then second else single)
        (reported_in (error-Reported v v'' n reached))
        (if_ReportedIn dual second single
          (save_second-Reported dos modes mem v v' handle2 name first saved) (reported_in reached)))
      (reported_in (reported 0 idx_status_nosave))
