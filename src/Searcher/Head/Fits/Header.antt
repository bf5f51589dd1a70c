-- ===== src/Searcher/Head/Fits/Header.antt =====
-- All texts of `update_head_texts` fit.
use demotool.Base.{ℕ}
use demotool.Base.{Bool, true, false}
use demotool.Base.{All}
use demotool.Searcher.View.{View}
use demotool.Searcher.Keys.Kept.{IsView}
use demotool.Searcher.Head.{static_texts, parts, draw_parts, update_head_texts}
use demotool.Searcher.Head.Fits.{Fits, IsShort, All-append}
use demotool.Searcher.Head.Fits.Parts.{draw_parts-Fits}
use demotool.Searcher.Head.Fits.Statics.{static_texts-Fits}

-- Every text of the header fits, if the colour that is shown has twelve bits, the addresses have 24,
-- the status is one of those that have a line and an error has six digits: no text is cut off or read
-- beyond its string, the buffer is large enough, and all is drawn in the window.
pub update_head_texts-Fits :
    (statics : Bool) (texts : ℕ) (v : View)
    → IsView v
    → IsShort v
    → All Fits (update_head_texts statics texts v)
unfolding update_head_texts
update_head_texts-Fits true texts v h s =
    All-append Fits static_texts (draw_parts texts v parts) static_texts-Fits
      (draw_parts-Fits texts v parts h s)
update_head_texts-Fits false texts v h s = draw_parts-Fits texts v parts h s
