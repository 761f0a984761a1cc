-- ===== src/Core/Syntax.antt =====
-- internal/core/agent.go: what `nameSyntax` accepts, without the regular expression.
use lac.Base.{
  ℕ, zero, suc, String, Bool, true, false, ◌&&◌, none, some, List, [], ◌∷◌, ◌≡◌, leb, not, length,
  exists, arith,
}
use lac.Core.Name.{codes, name_start, name_char, name_rest, matches_name, validate_name}

abbrev starts_well : List ℕ → Bool
starts_well [] = false
starts_well (c ∷ cs) = name_start c

abbrev pub is_name : List ℕ → Bool
is_name cs = starts_well cs && leb (length cs) 63 && not (exists (λ c. not (name_char c)) cs)

rest_lem :
    (n : ℕ) (cs : List ℕ)
    → name_rest n cs ≡ (leb (length cs) n && not (exists (λ c. not (name_char c)) cs))
unfolding name_rest exists
rest_lem n [] = ground arith
rest_lem zero (c ∷ cs) = ground arith
rest_lem (suc n) (c ∷ cs) = ground (arith, rest_lem n cs)

matches_lem : (cs : List ℕ) → matches_name cs ≡ is_name cs
unfolding matches_name exists
matches_lem [] = ground arith
matches_lem (c ∷ cs) = unfold name_char in ground (arith, rest_lem 62 cs)

abbrev pub accepts : String → Bool
accepts name = elim (validate_name name) [ none ↦ true | some _ ↦ false ]

-- `ValidateName` accepts exactly the names of 1 to 63 characters that begin with a lower-case letter
-- or a digit and of which every character is one of those, a dot, an underscore or a dash.
pub names_are_short_and_plain : (name : String) → accepts name ≡ is_name (codes name)
unfolding validate_name
names_are_short_and_plain name = ground (arith, matches_lem (codes name))
