-- ===== src/Base/Run.antt =====
-- Code that changes a state `W` and may wait for its environment. `waiting` is no value of the
-- program: the answers of the environment that the run was given have come to an end while the code
-- still asks for one, so it has not returned.

pub data Run (W A : Type 0) : Type 0 where
  ok : A → W → Run W A
  waiting : Run W A

abbrev pub Cmd : Type 0 → Type 0 → Type 0
Cmd W A = W → Run W A

module _ {W A B : Type 0} where
  abbrev pub and_then : Run W A → (A → Cmd W B) → Run W B
  and_then (ok a w) k = k a w
  and_then waiting k = waiting

  infixl 5 ◌>>=◌ ◌>>◌
  abbrev pub ◌>>=◌ : Cmd W A → (A → Cmd W B) → Cmd W B
  m >>= k = λ w. and_then (m w) k

  abbrev pub ◌>>◌ : Cmd W A → Cmd W B → Cmd W B
  m >> k = m >>= λ _. k

abbrev pub pure : {W A : Type 0} → A → Cmd W A
pure a = λ w. ok a w
