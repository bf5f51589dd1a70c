-- ===== src/Searcher/File/Written.antt =====
-- A file that is written through the buffer holds what was written to it.
use demotool.Base.{
  sym, ap, refl, append_assoc, append-nil, ◌≡◌, ◌∙◌, ◌<◌, ◌≤◌, inl, inr, arith, true, false, ℕ, ◌+◌,
  ◌-◌, Bool, List, [], ◌∷◌, ◌++◌,
}
use demotool.Base.{
  length, take, drop, ltb, ◌==◌, if◌then◌else◌, Bool-cases, length-append, length-take, length-drop,
  take-append-drop, take-length,
}
use demotool.Base.Int.{ℤ, pos, is_negative}
use demotool.Searcher.File.{
  Dos, File, buffer_size, dos_write, write_full, s_write, s_flush, s_close,
}

-- The disk takes whatever it is given.
abbrev pub TakesAll : Dos → Type 0
TakesAll dos = (i n : ℕ) → dos.write i n ≡ pos n

-- The specification: a file is the bytes that were written to it, of which the buffer holds the last.
abbrev pub content : File → List ℕ
content f = f.taken ++ f.buffer

-- An open file, with room in its buffer.
pub record IsOpen (f : File) : Type 0 where
  pub opened : (f.handle == 0) ≡ false
  pub room : length f.buffer < buffer_size

-- A call that writes bytes to an open file.
pub data Appends (bytes : List ℕ) (f : File) : ℤ × File → Type 0 where
  appends :
      {n : ℕ} {f' : File}
      → IsOpen f'
      → content f' ≡ content f ++ bytes
      → Appends bytes f (pos n, f')

-- A call that leaves nothing in the buffer.
data IsWritten (f : File) : ℤ × File → Type 0 where
  written :
      {f' : File}
      → f'.taken ≡ content f
      → f'.buffer ≡ []
      → f'.handle ≡ f.handle
      → IsWritten f (pos 0, f')

no_bytes : (xs : List ℕ) → ltb 0 (length xs) ≡ false → xs ≡ []
no_bytes [] e = refl
no_bytes (x ∷ xs) e = absurd (ground (arith, e))

-- A call that shut the file, with all its bytes on the disk.
pub data Closes (bytes : List ℕ) : ℤ × File → Type 0 where
  shut : {f' : File} → f'.handle ≡ 0 → f'.taken ≡ bytes → Closes bytes (pos 0, f')

if_not_Closes :
    {bs : List ℕ} (b : Bool) (x y : ℤ × File)
    → b ≡ false
    → Closes bs y
    → Closes bs (if b then x else y)
if_not_Closes true x y e h = absurd (ground (arith, e))
if_not_Closes false x y e h = h

after_flush :
    (f : File) (r : ℤ × File)
    → IsWritten f r
    → Closes (content f) (if is_negative r.0 then r else (pos 0, record r.1 { handle = 0 }))
after_flush f r (written e b o) = shut refl e

module _ (dos : Dos) (all : TakesAll dos) where
  dos_write_lem :
      (bytes : List ℕ) (f : File)
      → dos_write dos bytes f
        ≡ (pos (length bytes), record f { calls = f.calls + 1; taken = f.taken ++ bytes })
  unfolding dos_write
  dos_write_lem bytes f = rw (all f.calls (length bytes), take-length bytes) refl

  write_full-Appends :
      (bytes : List ℕ) (f : File)
      → IsOpen f
      → length bytes ≤ buffer_size
      → buffer_size ≤ length f.buffer + length bytes
      → Appends bytes f (write_full dos bytes f)
  unfolding write_full
  write_full-Appends bytes f h short full =
      let n = length f.buffer + length bytes - buffer_size in
      let fit = length bytes - n in
      let size : length (f.buffer ++ take fit bytes) ≡ buffer_size =
        omega (arith, length-append f.buffer (take fit bytes), length-take fit bytes, h.room) in
      let all_of = f.buffer ++ take fit bytes in
      let answer : dos.write f.calls (length all_of) ≡ pos buffer_size =
        all f.calls (length all_of) ∙ ap pos size in
      let whole : take buffer_size all_of ≡ all_of =
        ap (λ n. take n all_of) (sym size) ∙ take-length all_of in
      let split : (f.taken ++ all_of) ++ drop fit bytes ≡ (f.taken ++ f.buffer) ++ bytes =
        rw
          (
            append_assoc f.taken all_of (drop fit bytes),
            append_assoc f.buffer (take fit bytes) (drop fit bytes),
            take-append-drop fit bytes,
            append_assoc f.taken f.buffer bytes,
          )
          refl in
      rw answer (
        appends (record { opened = h.opened; room = omega (arith, length-drop fit bytes, h.room) })
          (ap (λ xs. (f.taken ++ xs) ++ drop fit bytes) whole ∙ split))

  pub s_write-Appends :
      (bytes : List ℕ) (f : File)
      → IsOpen f
      → length bytes ≤ buffer_size
      → Appends bytes f (s_write dos bytes f)
  unfolding s_write
  s_write-Appends bytes f h short =
      rw h.opened (elim (Bool-cases (ltb (length f.buffer + length bytes) buffer_size)) [
        | inl e ↦
            let room : length f.buffer + length bytes < buffer_size = ground (arith, e) in
            rw e (
              appends
                (record {
                  opened = h.opened;
                  room = omega (arith, length-append f.buffer bytes, room);
                })
                (sym (append_assoc f.taken f.buffer bytes)))
        | inr e ↦ rw e (write_full-Appends bytes f h short (ground (arith, e)))
      ])

  -- s_flush puts all the bytes of an open file on the disk.
  s_flush-IsWritten : (f : File) → (f.handle == 0) ≡ false → IsWritten f (s_flush dos f)
  unfolding s_flush
  s_flush-IsWritten f opened = rw opened (elim (Bool-cases (ltb 0 (length f.buffer))) [
    | inl e ↦ rw e (
        rw (all f.calls (length f.buffer))
          (written (ap (λ xs. f.taken ++ xs) (take-length f.buffer)) refl refl))
    | inr e ↦
        let none_left = no_bytes f.buffer e in
        rw e
          (written (sym (ap (λ xs. f.taken ++ xs) none_left ∙ append-nil f.taken)) none_left refl)
  ])

  -- s_close puts all the bytes on the disk.
  pub s_close-Closes : (f : File) → (f.handle == 0) ≡ false → Closes (content f) (s_close dos f)
  unfolding s_close
  s_close-Closes f opened =
      if_not_Closes (f.handle == 0) _ _ opened
        (after_flush f (s_flush dos f) (s_flush-IsWritten f opened))
