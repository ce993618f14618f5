-- ===== src/Tests/TextTests.antt =====
-- common/utils.hpp and common/utils.cpp at concrete inputs.
use libight.Prelude.{◌≡◌, refl, List, [], ◌∷◌, some, All}
use libight.Prelude.Bytes.{Bytes, codes}
use libight.Prelude.Search.{find}
use libight.Common.Text.Split.{split, join, IsPiece, split-join}

abbrev words : List Bytes
words = codes "ab" ∷ codes "c" ∷ []

words-IsPiece : All (IsPiece (codes " ")) words
unfolding find
words-IsPiece = ((λ e. cc, refl), ((λ e. cc, refl), tt))

split-join_example : split (join 32 words) (codes " ") ≡ some words
split-join_example = split-join 32 words words-IsPiece
