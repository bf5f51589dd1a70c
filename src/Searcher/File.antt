-- ===== src/Searcher/File.antt =====
-- searcher/iffhandle.c: a file that is written through a buffer.
pub mod Written
use demotool.Base.{
  ℕ, ◌+◌, ◌-◌, ◌*◌, ◌/◌, ◌%◌, ◌^◌, Bool, ◌||◌, Option, none, some, List, [], ◌∷◌, ◌++◌,
}
use demotool.Base.{length, take, drop, ltb, ◌==◌, if◌then◌else◌}
use demotool.Base.Int.{take_ℤ, ℤ, pos, negsuc, is_negative, is_positive}
use demotool.Protocol.{be32}
use demotool.Searcher.Geometry.{max_bplane_width}

-- What dos.library does: what the i-th call of Write returns for `n` bytes, what IoErr returns, and
-- the error codes of dos/dos.h.
pub record Dos : Type 0 where
  pub write : ℕ → ℕ → ℤ
  pub io_err : ℕ → ℕ
  pub error_object_in_use : ℕ
  pub error_object_not_found : ℕ
  pub error_bad_number : ℕ

-- `IFFHandle_t_`. The buffer holds the bytes up to `buffer_pos`. `calls` counts the calls of Write,
-- and `taken` are the bytes that they have taken, in order.
pub record File : Type 0 where
  pub handle : ℕ
  pub last_ioerr : ℕ
  pub buffer : List ℕ
  pub calls : ℕ
  pub taken : List ℕ

abbrev pub buffer_size : ℕ
buffer_size = 12 * (max_bplane_width / 2 ^ 3)

-- `initIFFHandle`; `none` where there is no memory.
unfoldable pub init_iff_handle : Bool → Option File
init_iff_handle allocated =
    if allocated
    then some (record { handle = 0; last_ioerr = 0; buffer = []; calls = 0; taken = [] })
    else none

-- `s_open` with MODE_NEWFILE, where Open returns `opened`, and the file is empty.
unfoldable pub s_open : Dos → ℕ → File → ℕ × File
s_open dos opened f =
    if f.handle == 0
    then (opened, record f { handle = opened; last_ioerr = 0; buffer = []; taken = [] })
    else (0, record f { last_ioerr = dos.error_object_in_use })

-- Write takes as many of the bytes as it says.
unfoldable pub dos_write : Dos → List ℕ → File → ℤ × File
dos_write dos bytes f =
    let ret = dos.write f.calls (length bytes) in
    (ret, record f { calls = f.calls + 1; taken = f.taken ++ take_ℤ ret bytes })

unfoldable pub s_flush : Dos → File → ℤ × File
unfolding dos_write
s_flush dos f =
    if f.handle == 0
    then (negsuc 0, record f { last_ioerr = dos.error_object_not_found })
    else if ltb 0 (length f.buffer)
    then (let (ret, f') = dos_write dos f.buffer f in
        if is_negative ret then (negsuc 0, f') else (pos 0, record f' { buffer = [] }))
    else (pos 0, f)

unfoldable pub s_close : Dos → File → ℤ × File
unfolding s_flush
s_close dos f =
    if f.handle == 0
    then (negsuc 0, record f { last_ioerr = dos.error_object_not_found })
    else (let (ret, f') = s_flush dos f in
        if is_negative ret then (ret, f') else (pos 0, record f' { handle = 0 }))

-- `freeIFFHandle`
unfoldable pub free_iff_handle : Dos → File → File
unfolding s_close
free_iff_handle dos f = if f.handle == 0 then f else (s_close dos f).1

-- The branch of `s_write` in which the buffer is full: `n` bytes do not fit.
unfoldable pub write_full : Dos → List ℕ → File → ℤ × File
unfolding dos_write
write_full dos bytes f =
    let n = length f.buffer + length bytes - buffer_size in
    let fit = length bytes - n in
    let (ret, f') = dos_write dos (f.buffer ++ take fit bytes) f in
    if is_positive ret
    then (pos (length bytes), record f' { buffer = drop fit bytes })
    else (ret, f')

unfoldable pub s_write : Dos → List ℕ → File → ℤ × File
unfolding write_full
s_write dos bytes f =
    if f.handle == 0
    then (negsuc 0, record f { last_ioerr = dos.error_object_not_found })
    else if ltb (length f.buffer + length bytes) buffer_size
    then (pos (length bytes), record f { buffer = f.buffer ++ bytes })
    else write_full dos bytes f

unfoldable pub s_putc : Dos → ℕ → File → ℤ × File
unfolding s_write
s_putc dos ch f = s_write dos (ch ∷ []) f

-- The number stands at the end of its word, of which the first bytes are written.
unfoldable pub s_putnum : Dos → ℕ → ℕ → File → ℤ × File
unfolding s_write
s_putnum dos num len f =
    if ltb len 1 || ltb 4 len
    then (negsuc 0, record f { last_ioerr = dos.error_bad_number })
    else s_write dos (take len (be32 (num * 2 ^ ((4 - len) * 8) % 2 ^ 32))) f

-- `s_ioerr`, after which the error stays the same.
unfoldable pub s_ioerr : Dos → File → ℕ × File
s_ioerr dos f =
    let err = if f.last_ioerr == 0 then dos.io_err f.calls else f.last_ioerr in
    (err, record f { last_ioerr = err })

-- `s_seek`, where Seek returns `sought`.
unfoldable pub s_seek : Dos → ℤ → File → ℤ × File
unfolding s_flush
s_seek dos sought f =
    if f.handle == 0
    then (negsuc 0, record f { last_ioerr = dos.error_object_not_found })
    else if ltb 0 (length f.buffer)
    then (let (ret, f') = s_flush dos f in if is_negative ret then (ret, f') else (sought, f'))
    else (sought, f)
