-- ===== src/Searcher/Main/Shows.antt =====
-- The texts above the picture show the view, whatever messages come.
use demotool.Base.{ℕ, suc, ◌≤◌, ◌≡◌, refl, sym, ◌∙◌, ap, arith, none, some, Option}
use demotool.Base.{
  List, [], ◌∷◌, ◌++◌, Bool, true, false, inl, inr, Bool-cases, ◌==◌, if◌then◌else◌,
}
use demotool.Searcher.Text
use demotool.Searcher.Key
use demotool.Searcher.View.{View, init_cop_cfg}
use demotool.Searcher.File.{Dos}
use demotool.Searcher.Ilbm.{ViewModes}
use demotool.Searcher.Save.{handle_filesave}
use demotool.Searcher.Keys.{Outcome, main_key_loop}
use demotool.Base.{◌-◌, ◌/◌}
use demotool.Base.Bits.{low_ones}
use demotool.Searcher.Keys.Ends.{Ends, main_key_loop-Ends}
use demotool.Searcher.Keys.Kept.{IsView}
use demotool.Searcher.Keys.Shown.{Shown, shown}
use demotool.Searcher.Keys.Reach.{main_key_loop-Shown, start, Reach-IsView}
use demotool.Searcher.Head.{
  Drawn, Part, screen, pf1width, pf2width, height, address, rgb, modeven, mododd, display, priority,
  saveas, bplanes, reso, bpllocks, bpladdrs, status, parts, is_wanted, draw_parts, static_texts,
  update_head_texts, update_pal_texts,
}
use demotool.Searcher.Head.Redrawn.{Redrawn}
use demotool.Searcher.Head.Redrawn.Keys.{main_key_loop-Redrawn}
use demotool.Searcher.Main.{
  everything, Message, raw_key, gadget_up, other_message, Session, start_session, key_texts,
  handle_message, handle_messages, event_loop,
}
use demotool.Searcher.Main.Seen.{seen, or_else, or_else-none, or_else_assoc, seen-append}
use demotool.Searcher.Main.Places.{redraw}
use demotool.Searcher.Main.Numbers.{seen-update_pal_texts}
use demotool.Searcher.Main.Saved.{
  Reported, reported, ReportedIn, reported_in, handle_filesave-Reported,
}
use demotool.Searcher.Main.Parts.{is_colour, seen-same}

everything-wanted : (part : Part) → is_wanted everything part ≡ true
unfolding is_wanted
everything-wanted screen = refl
everything-wanted pf1width = refl
everything-wanted pf2width = refl
everything-wanted height = refl
everything-wanted address = refl
everything-wanted rgb = refl
everything-wanted modeven = refl
everything-wanted mododd = refl
everything-wanted display = refl
everything-wanted priority = refl
everything-wanted saveas = refl
everything-wanted bplanes = refl
everything-wanted reso = refl
everything-wanted bpllocks = refl
everything-wanted bpladdrs = refl
everything-wanted status = refl

-- Without a change nothing is drawn.
texts-updated :
    (o : Outcome)
    → (if o.update == 0 then [] else update_head_texts false o.update o.view)
      ≡ update_head_texts false o.update o.view
unfolding update_head_texts
texts-updated o = elim (Bool-cases (o.update == 0)) [
  | inl e ↦ let zero : o.update ≡ 0 = ground (arith, e) in rw (e, zero) refl
  | inr e ↦ rw e refl
]

module _ (memory : ℕ → ℕ) (dos : Dos) (modes : ViewModes) (k x y : ℕ) (right : 206 ≤ x)
    (other : is_colour x y ≡ false) where
  -- What is seen is what drawing the whole header shows.
  record Shows (s : Session) : Type 0 where
    ranges : IsView s.view
    chipmem : (s.view.max_chipmem - 1) / 2 ≡ low_ones (suc k)
    same : seen x y s.drawn ≡ seen x y (update_head_texts true everything s.view)

  -- Texts over what shows a view, of all that changed of it.
  draw_over :
      (ds : List Drawn) (v v' : View) (u : ℕ)
      → seen x y ds ≡ seen x y (update_head_texts true everything v)
      → Redrawn v v' u
      → seen x y (ds ++ update_head_texts false u v')
        ≡ seen x y (update_head_texts true everything v')
  unfolding update_head_texts
  draw_over ds v v' u e r =
      let statics = seen x y static_texts in
      let new = seen x y (draw_parts u v' parts) in
      let old = seen x y (draw_parts everything v parts) in
      let whole = redraw x y everything u v v' everything-wanted (seen-same x y u v v' r other) in
      seen-append x y ds (draw_parts u v' parts)
      ∙ ap (λ a. or_else new a) (e ∙ seen-append x y static_texts (draw_parts everything v parts))
      ∙ sym (or_else_assoc new old statics)
      ∙ ap (λ a. or_else a statics) whole
      ∙ sym (seen-append x y static_texts (draw_parts everything v' parts))

  -- A result that is a session that shows its view.
  data ShowsIf : Option Session → Type 0 where
    shows : {s : Session} → Shows s → ShowsIf (some s)

  -- The numbers of the colours are elsewhere.
  numbers-unseen :
      (key : ℕ) (on : Bool) → seen x y (if key == Key.np_fs then update_pal_texts on else []) ≡ none
  unfolding seen
  numbers-unseen key on = elim (Bool-cases (key == Key.np_fs)) [
    | inl e ↦ rw e (seen-update_pal_texts x y on right)
    | inr e ↦ rw e refl
  ]

  -- What a key draws shows the new view.
  seen-key_texts :
      (key : ℕ) (s : Session) (o : Outcome)
      → seen x y s.drawn ≡ seen x y (update_head_texts true everything s.view)
      → Redrawn s.view o.view o.update
      → seen x y (s.drawn ++ key_texts key s.onoff o)
        ≡ seen x y (update_head_texts true everything o.view)
  unfolding key_texts
  seen-key_texts key s o e r =
      let numbers = if key == Key.np_fs then update_pal_texts s.onoff else [] in
      let texts = update_head_texts false o.update o.view in
      let left = numbers-unseen key s.onoff in
      rw (texts-updated o) (
        seen-append x y s.drawn (numbers ++ texts)
        ∙ ap (λ a. or_else a (seen x y s.drawn))
            (seen-append x y numbers texts
              ∙ ap (λ a. or_else (seen x y texts) a) left
              ∙ or_else-none (seen x y texts))
        ∙ sym (seen-append x y s.drawn texts)
        ∙ draw_over s.drawn s.view o.view o.update e r)

  key-Shows :
      (key : ℕ) (s : Session) (o : Outcome)
      → IsView o.view
      → Redrawn s.view o.view o.update
      → Shows s
      → Shows (record {
        done = o.quit;
        onoff = o.onoff;
        view = o.view;
        drawn = s.drawn ++ key_texts key s.onoff o;
      })
  key-Shows key s o v r h = record {
    ranges = v;
    chipmem = rw r.chipmem h.chipmem;
    same = seen-key_texts key s o h.same r;
  }

  after_key :
      (key : ℕ) (s : Session) (r : Option Outcome)
      → Ends Outcome r
      → Shown (λ o. IsView o.view) r
      → Shown (λ o. Redrawn s.view o.view o.update) r
      → Shows s
      → ShowsIf (elim r [
        | none ↦ none
        | some o ↦ some (record {
          done = o.quit;
          onoff = o.onoff;
          view = o.view;
          drawn = s.drawn ++ key_texts key s.onoff o;
        })
      ])
  after_key key s none e v r h = elim e [ ]
  after_key key s (some o) e (shown v) (shown r) h = shows (key-Shows key s o v r h)

  -- The view that a file was saved from, with its status drawn.
  Reported-Shows :
      (s : Session) {v : View}
      → Reported s.view v
      → Shows s
      → Shows (record s { view = v; drawn = s.drawn ++ update_head_texts false Text.status v })
  Reported-Shows s (reported i st) h = record {
    ranges = let ranges = h.ranges in ground (arith, ranges);
    chipmem = h.chipmem;
    same =
        draw_over s.drawn s.view (record s.view { ioerr = i; status = st }) Text.status h.same
          (ground arith);
  }

  saved-Shows :
      (s : Session) (r : View × List (List ℕ × List ℕ))
      → ReportedIn s.view r
      → Shows s
      → ShowsIf (
          some
            (record s { view = r.0; drawn = s.drawn ++ update_head_texts false Text.status r.0 }))
  saved-Shows s (v, files) (reported_in k) h = shows (Reported-Shows s k h)

  message-Shows :
      (m : Message) (s : Session) → Shows s → ShowsIf (handle_message memory dos modes m s)
  unfolding handle_message
  message-Shows (raw_key key qual) s h =
      after_key key s (main_key_loop memory key qual s.onoff s.view)
        (main_key_loop-Ends memory key qual s.onoff s.view k h.chipmem)
        (main_key_loop-Shown memory key qual s.onoff s.view h.ranges)
        (main_key_loop-Redrawn memory key qual s.onoff s.view h.ranges) h
  message-Shows (gadget_up new handle1 handle2 name) s h =
      saved-Shows s (handle_filesave dos modes memory new handle1 handle2 name s.view)
        (handle_filesave-Reported dos modes memory new handle1 handle2 name s.view) h
  message-Shows other_message s h = shows h

  if_ShowsIf :
      (b : Bool) (r r' : Option Session) → ShowsIf r → ShowsIf r' → ShowsIf (if b then r else r')
  if_ShowsIf true r r' h k = h
  if_ShowsIf false r r' h k = k

  then_ShowsIf :
      (r : Option Session) (f : Session → Option Session)
      → ShowsIf r
      → ((s : Session) → Shows s → ShowsIf (f s))
      → ShowsIf (elim r [ none ↦ none | some s ↦ f s ])
  then_ShowsIf none f h next = elim h [ ]
  then_ShowsIf (some s) f (shows h) next = next s h

  messages-Shows :
      (ms : List Message) (s : Session) → Shows s → ShowsIf (handle_messages memory dos modes ms s)
  unfolding handle_messages
  messages-Shows [] s h = shows h
  messages-Shows (m ∷ ms) s h =
      then_ShowsIf (handle_message memory dos modes m s) (handle_messages memory dos modes ms)
        (message-Shows m s h) (messages-Shows ms)

  event_loop-ShowsIf :
      (batches : List (List Message)) (s : Session)
      → Shows s
      → ShowsIf (event_loop memory dos modes batches s)
  unfolding event_loop
  event_loop-ShowsIf [] s h = shows h
  event_loop-ShowsIf (batch ∷ batches) s h = if_ShowsIf s.done _ _ (shows h) (
      then_ShowsIf (handle_messages memory dos modes batch s) (event_loop memory dos modes batches)
        (messages-Shows batch s h) (event_loop-ShowsIf batches))

  start-Shows :
      (max_loc_mem : ℕ)
      → ((init_cop_cfg max_loc_mem).max_chipmem - 1) / 2 ≡ low_ones (suc k)
      → Shows (start_session max_loc_mem)
  unfolding start_session
  start-Shows max_loc_mem e = record {
    ranges = Reach-IsView memory max_loc_mem start;
    chipmem = e;
    same = refl;
  }

  of_ShowsIf :
      {r : Option Session}
      → ShowsIf r
      → (s : Session) × (r ≡ some s)
        × (seen x y s.drawn ≡ seen x y (update_head_texts true everything s.view))
  of_ShowsIf (shows {s} h) = (s, refl, h.same)

-- Where the chip memory is a power of two, the loop of the program answers any messages, and in every
-- column of the header's areas and of every line but for the digits of the colour, the text that is
-- then seen is the one that drawing the whole header for the present view shows: every key and every
-- file that is saved draws the texts of all that it changed.
pub event_loop-Shows :
    (memory : ℕ → ℕ) (dos : Dos) (modes : ViewModes) (max_loc_mem k : ℕ)
    (batches : List (List Message)) (x y : ℕ)
    → ((init_cop_cfg max_loc_mem).max_chipmem - 1) / 2 ≡ low_ones (suc k)
    → 206 ≤ x
    → is_colour x y ≡ false
    → (s : Session) × (event_loop memory dos modes batches (start_session max_loc_mem) ≡ some s)
      × (seen x y s.drawn ≡ seen x y (update_head_texts true everything s.view))
event_loop-Shows memory dos modes max_loc_mem k batches x y e right other =
    of_ShowsIf memory dos modes k x y right other (
      event_loop-ShowsIf memory dos modes k x y right other batches (start_session max_loc_mem)
        (start-Shows memory dos modes k x y right other max_loc_mem e))
