-- ===== src/Searcher/Main/Parts.antt =====
-- A part of the header that is not drawn again would be drawn as it was.
use demotool.Base.{ℕ, ◌≡◌, refl, arith}
use demotool.Base.{Bool, false, ◌&&◌, ltb, leb, ◌==◌}
use demotool.Searcher.View.{View}
use demotool.Searcher.Head.{
  Part, screen, pf1width, pf2width, height, address, rgb, modeven, mododd, display, priority,
  saveas, bplanes, reso, bpllocks, bpladdrs, status, is_wanted, draw_part,
}
use demotool.Searcher.Head.Redrawn.{Redrawn}
use demotool.Searcher.Main.Seen.{seen}

-- The digits of the colour that is shown.
abbrev pub is_colour : ℕ → ℕ → Bool
is_colour x y = 10 == y && (leb 438 x && ltb x 462)

seen-rgb :
    (x y : ℕ) (v v' : View)
    → v'.rgb_idx ≡ v.rgb_idx
    → is_colour x y ≡ false
    → seen x y (draw_part v' rgb) ≡ seen x y (draw_part v rgb)
unfolding draw_part seen
seen-rgb x y v v' e h = rw (h, e) refl

pub seen-same :
    (x y u : ℕ) (v v' : View)
    → Redrawn v v' u
    → is_colour x y ≡ false
    → (part : Part) → is_wanted u part ≡ false
    → seen x y (draw_part v' part) ≡ seen x y (draw_part v part)
unfolding is_wanted draw_part
seen-same x y u v v' r h screen e = rw (r.screen e) refl
seen-same x y u v v' r h pf1width e =
    rw (r.pf1 (ground (arith, e)), r.mododd (ground (arith, e))) refl
seen-same x y u v v' r h pf2width e =
    rw (r.pf2 (ground (arith, e)), r.modeven (ground (arith, e))) refl
seen-same x y u v v' r h height e = rw (r.height e) refl
seen-same x y u v v' r h address e = rw (r.address e) refl
seen-same x y u v v' r h rgb e = seen-rgb x y v v' (r.rgb e) h
seen-same x y u v v' r h modeven e = rw (r.modeven e) refl
seen-same x y u v v' r h mododd e = rw (r.mododd e) refl
seen-same x y u v v' r h display e = rw (r.display e) refl
seen-same x y u v v' r h priority e = rw (r.priority e) refl
seen-same x y u v v' r h saveas e = rw (r.saveas e) refl
seen-same x y u v v' r h bplanes e = rw (r.bplanes e) refl
seen-same x y u v v' r h reso e = rw (r.reso e) refl
seen-same x y u v v' r h bpllocks e = rw (r.bpllocks e) refl
seen-same x y u v v' r h bpladdrs e = rw (r.bpladdrs e) refl
seen-same x y u v v' r h status e = rw (r.status e, r.ioerr e) refl
