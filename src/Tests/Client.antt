-- ===== src/Tests/Client.antt =====
-- The theorems on the whole client at concrete inputs.
use demotool.Base.{ℕ, ◌≡◌, refl, true, false, some, none, List, [], ◌∷◌, Option, length, subst, sym}
use mathlib.Core.Option.{some-injective}
use demotool.Base.Int.{pos}
use demotool.Protocol.{Endian}
use demotool.Protocol.Err
use demotool.Protocol.Flag.{has_flag}
use demotool.Socket.{Net, got, took}
use demotool.Client.Arguments.{Arg, defaults, set_options}
use demotool.Client.Connect.{System, in_progress, refused, open_connection}
use demotool.Client.Connect.Opening.{Settled, open_connection-Settled}
use demotool.Client.Main.{ClientHost, main}
use demotool.Client.Main.Exits.{Exits, main-Exits}

-- A system in which the connection is made after a while.
abbrev system : System
system = record {
  gethostbyname = λ name. some 0x7f00_0001;
  socket = some 3;
  get_flags = some 2;
  o_nonblock = 0x800;
  sets_nonblock = true;
  connect = λ address port. in_progress;
  select = pos 1;
  getsockopt = some 0;
  sets_flags = true;
}

-- One in which it is refused.
abbrev refusing : System
refusing = record system { connect = λ address port. refused }

abbrev host : ClientHost
host = record {
  endian = Endian.little;
  memory = true;
  file = none;
  opened = false;
  accepts = λ piece. length piece;
}

-- The server takes the four bytes of a command and answers that it is well.
abbrev answers : Net
answers = record { inbox = got (0 ∷ 0 ∷ 0 ∷ 0 ∷ []) ∷ []; outlet = took 4 ∷ []; sent = [] }

abbrev words : List (List ℕ)
words = (b'q' ∷ b'u' ∷ b'i' ∷ b't' ∷ []) ∷ (b'a' ∷ []) ∷ []

abbrev scan : List ℕ → Option (ℕ × ℕ)
scan s = none

abbrev number : List ℕ → ℕ
number s = 0

abbrev arguments : List Arg
arguments = record { ch = b'n'; optarg = [] } ∷ []

open_connection-Settled_example :
    Settled refusing (b'a' ∷ []) 9999 (open_connection refusing (b'a' ∷ []) 9999)
open_connection-Settled_example = open_connection-Settled refusing (b'a' ∷ []) 9999

descriptor : (sock : ℕ) → some sock ≡ some 3 → has_flag sock Err.client ≡ false
descriptor sock e = subst (λ s. has_flag s Err.client ≡ false) (sym (some-injective _ _ e)) refl

main-Exits_example :
    Exits
      (set_options scan number arguments defaults)
      host
      words
      answers
      (main scan number system host arguments words answers)
main-Exits_example =
    main-Exits scan number system host arguments words answers (λ sock e. descriptor sock (sym e))
