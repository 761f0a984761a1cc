-- ===== src/Github/Tests.antt =====
-- A reference of this repository.
use lac.Base.{String, some, ◌≡◌, ◌≢◌, eq_iff, exists, refl, arith, pos}
use lac.Strings.{is_space}
use lac.Github.PullRequest.{reference}
use lac.Github.Reference.{parse_reference}
use lac.Github.Reference.RoundTrip.{parse_reference-reference}

no_owner : ◌≢◌ {A = String} "sadeq" ""
no_owner e = ground (arith, (eq_iff "sadeq" "").1 e)

no_repository : ◌≢◌ {A = String} "lac.go" ""
no_repository e = ground (arith, (eq_iff "lac.go" "").1 e)

parse_reference-reference_example :
    parse_reference (reference "sadeq" "lac.go" (pos 12)) ≡ some ("sadeq", "lac.go", pos 12)
unfolding is_space exists
parse_reference-reference_example =
    parse_reference-reference "sadeq" "lac.go" 12 (refl, (refl, (refl, (refl, (refl, tt)))))
      (refl, (refl, (refl, (refl, (refl, (refl, tt)))))) no_owner no_repository (omega arith)
      (omega arith)
