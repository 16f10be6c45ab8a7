-- ===== src/Gates/Rule.antt =====
-- `Rule` of tools/dev-gates.py, and when a rule takes a path.
use modern_c.Prelude.{String, Bool, false, ◌&&◌, ◌||◌, not, List, [], ◌∷◌}
use modern_c.Gates.Match.{matches}

pub record Rule : Type 0 where
  pub patterns : List String
  pub gates : List String
  pub reason : String
  pub checks : List String
  pub excludes : List String

-- `any(matches(path, pattern) for pattern in patterns)`.
pub any_matches : String → List String → Bool
any_matches path [] = false
any_matches path (pattern ∷ patterns) = matches path pattern || any_matches path patterns

unfoldable pub takes : Rule → String → Bool
unfolding any_matches matches
takes rule path = any_matches path rule.patterns && not (any_matches path rule.excludes)
