-- ===== src/Server/Plugins/Find.antt =====
-- `find_plugin` of server/plugin.c finds the first plugin that serves a request.
use demotool.Base.{ℕ, ◌≡◌, refl, inl, inr, Bool, true, false, ◌&&◌, Option, none, some}
use demotool.Base.{List, [], ◌∷◌, ◌++◌, leb, ◌==◌, if◌then◌else◌, arith, All, ap, Bool-cases}
use demotool.Base.CString.{same_prefix}
use demotool.Protocol.{be32}
use demotool.Server.Plugins.{Info, Plugin, version, find_plugin}

module _ {F : Type 0} where
  -- A plugin serves a request if its id is the tag, and its version is the one asked for, or where
  -- an exact match is not asked for, that or a later one.
  unfoldable pub serves : List ℕ → ℕ → Bool → Plugin F → Bool
  serves tag ver exact p =
      same_prefix (be32 p.info.plugin_id) tag 4
      && (if exact then version p.info == ver else leb ver (version p.info))

  -- The two outcomes of a search of a chain.
  pub data Outcome (tag : List ℕ) (ver : ℕ) (exact : Bool)
      : List (Plugin F) → Option (Info F) → Type 0 where
    missing :
        {list : List (Plugin F)}
        → All (λ q. serves tag ver exact q ≡ false) list
        → Outcome tag ver exact list none
    found :
        {list : List (Plugin F)} (front : List (Plugin F)) (p : Plugin F) (back : List (Plugin F))
        → list ≡ front ++ (p ∷ back)
        → All (λ q. serves tag ver exact q ≡ false) front
        → serves tag ver exact p ≡ true
        → Outcome tag ver exact list (some p.info)

  Outcome-cons :
      {tag : List ℕ} {ver : ℕ} {exact : Bool} {list : List (Plugin F)} {r : Option (Info F)}
      (q : Plugin F)
      → serves tag ver exact q ≡ false
      → Outcome tag ver exact list r
      → Outcome tag ver exact (q ∷ list) r
  Outcome-cons q h (missing hs) = missing (h, hs)
  Outcome-cons q h (found front p back e hs s) =
      found (q ∷ front) p back (ap (λ l. q ∷ l) e) (h, hs) s

  find_plugin_step :
      (tag : List ℕ) (ver : ℕ) (exact : Bool) (q : Plugin F) (list : List (Plugin F))
      → find_plugin (q ∷ list) tag ver exact
        ≡ (if serves tag ver exact q then some q.info else find_plugin list tag ver exact)
  unfolding find_plugin serves
  find_plugin_step tag ver exact q list = ground arith

  -- `find_plugin` returns the first plugin of the chain that serves the request, and NULL exactly if
  -- none of them does.
  pub find_plugin-Outcome :
      (tag : List ℕ) (ver : ℕ) (exact : Bool) (list : List (Plugin F))
      → Outcome tag ver exact list (find_plugin list tag ver exact)
  find_plugin-Outcome tag ver exact [] = unfold find_plugin in missing tt
  find_plugin-Outcome tag ver exact (q ∷ list) =
      rw (find_plugin_step tag ver exact q list) (elim (Bool-cases (serves tag ver exact q)) [
        | inl s ↦ rw s (found [] q list refl tt s)
        | inr h ↦ rw h (Outcome-cons q h (find_plugin-Outcome tag ver exact list))
      ])
