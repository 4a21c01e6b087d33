-- ===== src/Prelude/Texts.antt =====
-- What the program uses of the language's texts: toLowerCase, trim, startsWith, includes.
use Prim.Native.Nat.{ℕ, ◌+◌}
use mathlib.Core.Bool.{Bool, true, false, ◌&&◌, ◌||◌}
use mathlib.Core.List.{List, [], ◌∷◌, reverse}
use uam_backend.Prelude.Tests.{leb, ◌==◌, if◌then◌else◌}

-- toLowerCase, one code point at a time. Outside ASCII only U+0130 and U+212A have an ASCII letter
-- in their lower case; the others stand for themselves, so this serves comparisons with ASCII texts.
unfoldable pub to_lower : List ℕ → List ℕ
to_lower [] = []
to_lower (c ∷ cs) =
    let rest = to_lower cs in
    if leb b'A' c && leb c b'Z'
    then (c + 32) ∷ rest
    else if c == 0x212a
    then b'k' ∷ rest
    else if c == 0x130
    then b'i' ∷ 0x307 ∷ rest
    else c ∷ rest

-- The white space and line ends that `trim` and `\s` take away.
unfoldable pub is_space : ℕ → Bool
is_space c =
    (leb 9 c && leb c 13)
    || c == 32
    || c == 0xa0
    || c == 0x1680
    || (leb 0x2000 c && leb c 0x200a)
    || c == 0x2028
    || c == 0x2029
    || c == 0x202f
    || c == 0x205f
    || c == 0x3000
    || c == 0xfeff

unfoldable pub trim_start : List ℕ → List ℕ
unfolding is_space
trim_start [] = []
trim_start (c ∷ cs) = let rest = trim_start cs in if is_space c then rest else c ∷ cs

unfoldable pub trim : List ℕ → List ℕ
unfolding trim_start
trim s = reverse (trim_start (reverse (trim_start s)))

unfoldable pub starts_with : List ℕ → List ℕ → Bool
starts_with [] s = true
starts_with (p ∷ ps) [] = false
starts_with (p ∷ ps) (c ∷ cs) = p == c && starts_with ps cs

unfoldable pub includes : List ℕ → List ℕ → Bool
unfolding starts_with
includes part [] = starts_with part []
includes part (c ∷ cs) = starts_with part (c ∷ cs) || includes part cs
