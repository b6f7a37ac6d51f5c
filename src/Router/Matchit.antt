-- ===== src/Router/Matchit.antt =====
-- The radix trie of the `matchit` crate, which the router is built on, as an interface. `matches` says
-- whether a path has the shape of a pattern.
use typeway.Base.{ℕ, ◌≡◌, Bool, true, false, List, [], ◌∷◌, Option, none, some, In}

pub record Matchit (matches : List ℕ → List ℕ → Bool) (A : Type 0) : Type 1 where
  pub Trie : Type 0
  pub new : Trie
  -- `none` where the pattern conflicts with one that is there
  pub insert : List ℕ → A → Trie → Option Trie
  pub at : Trie → List ℕ → Option A
  -- the patterns held, with their values
  pub entries : Trie → List (List ℕ × A)
  pub entries-new : entries new ≡ []
  pub entries-insert :
      (pattern : List ℕ) (a : A) (t t' : Trie)
      → insert pattern a t ≡ some t'
      → entries t' ≡ (pattern, a) ∷ entries t
  -- a found value is held under a pattern that the path has the shape of
  pub at_sound :
      (t : Trie) (path : List ℕ) (a : A)
      → at t path ≡ some a
      → (pattern : List ℕ) × In (pattern, a) (entries t) × (matches pattern path ≡ true)
  -- a path is not found only if it has the shape of no pattern held
  pub at_complete :
      (t : Trie) (path pattern : List ℕ) (a : A)
      → at t path ≡ none
      → In (pattern, a) (entries t)
      → matches pattern path ≡ false
