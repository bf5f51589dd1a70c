-- ===== src/Searcher/Ilbm/Puts.antt =====
-- Calls of a file in order put their bytes into it in order.
use demotool.Base.{
  sym, ap, subst, append_assoc, append-nil, ◌≡◌, ◌∙◌, ◌≤◌, arith, false, ℕ, ◌-◌, ◌*◌, ◌%◌, ◌^◌,
  List, [], ◌∷◌, ◌++◌, map,
}
use demotool.Base.{◌||◌, ltb, length-take, All, length, take, if◌then◌else◌, flatten}
use demotool.Base.Int.{ℤ, is_negative}
use demotool.Protocol.{be32}
use demotool.Searcher.File.{Dos, File, buffer_size, s_close}
use demotool.Searcher.File.Written.{
  TakesAll, content, IsOpen, Appends, appends, Closes, s_close-Closes, s_write-Appends,
}
use demotool.Searcher.Ilbm.{Put, num, char, bytes, put, put_all}

-- The bytes of a call.
unfoldable pub bytes_of : Put → List ℕ
bytes_of (num n len) = take len (be32 (n * 2 ^ ((4 - len) * 8) % 2 ^ 32))
bytes_of (char c) = c ∷ []
bytes_of (bytes bs) = bs

-- A number has one to four bytes, and other bytes fit into the buffer.
abbrev pub IsShort : Put → Type 0
IsShort (num n len) = (1 ≤ len) × (len ≤ 4)
IsShort (char c) = 0 ≤ c
IsShort (bytes bs) = length bs ≤ buffer_size

joined :
    (bs cs : List ℕ) (f f' : File)
    → content f' ≡ content f ++ bs
    → (r : ℤ × File) → Appends cs f' r
    → Appends (bs ++ cs) f r
joined bs cs f f' e r (appends opened e') =
    appends opened (e' ∙ ap (λ xs. xs ++ cs) e ∙ append_assoc (content f) bs cs)

-- A call and then others.
and_then :
    {bs cs : List ℕ} {f : File} (r : ℤ × File) (next : File → ℤ × File)
    → Appends bs f r
    → ((f' : File) → IsOpen f' → Appends cs f' (next f'))
    → Appends (bs ++ cs) f (if is_negative r.0 then r else next r.1)
and_then {bs} {cs} {f} r next (appends {n} {f'} opened e) h =
    joined bs cs f f' e (next f') (h f' opened)

module _ (dos : Dos) (all : TakesAll dos) where
  put-Appends : (p : Put) (f : File) → IsOpen f → IsShort p → Appends (bytes_of p) f (put dos p f)
  unfolding bytes_of put
  put-Appends (num n len) f h (least, most) =
      let fits : (ltb len 1 || ltb 4 len) ≡ false = ground (arith, least, most) in
      let size = length-take len (be32 (n * 2 ^ ((4 - len) * 8) % 2 ^ 32)) in
      rw fits (s_write-Appends dos all _ f h (omega (arith, size)))
  put-Appends (char c) f h short = s_write-Appends dos all (c ∷ []) f h (omega arith)
  put-Appends (bytes bs) f h short = s_write-Appends dos all bs f h short

  pub put_all-Appends :
      (ps : List Put) (f : File)
      → IsOpen f
      → All IsShort ps
      → Appends (flatten (map bytes_of ps)) f (put_all dos ps f)
  unfolding put_all
  put_all-Appends [] f h short = appends h (sym (append-nil (content f)))
  put_all-Appends (p ∷ ps) f h (short, rest) =
      and_then (put dos p f) (λ f'. put_all dos ps f') (put-Appends p f h short)
        (λ f' opened. put_all-Appends ps f' opened rest)

closed_after :
    (dos : Dos) (all : TakesAll dos) {bs : List ℕ} (f : File) (r : ℤ × File)
    → Appends bs f r
    → Closes (content f ++ bs) (s_close dos r.1)
closed_after dos all {bs} f r (appends {n} {f'} opened e) =
    subst (λ xs. Closes xs (s_close dos f')) e (s_close-Closes dos all f' opened.opened)

-- Where the disk takes what it is given, calls of an open file and then a close leave the bytes of the
-- calls on the disk, in order and behind those that were in the file, and the file closed.
pub put_all-Closes :
    (dos : Dos) (ps : List Put) (f : File)
    → TakesAll dos
    → IsOpen f
    → All IsShort ps
    → Closes (content f ++ flatten (map bytes_of ps)) (s_close dos (put_all dos ps f).1)
put_all-Closes dos ps f all opened short =
    closed_after dos all f (put_all dos ps f) (put_all-Appends dos all ps f opened short)
