-- ===== src/Go/Strings.antt =====
-- The functions of package `strings` that the program calls, on bytes.
pub mod Laws
use mathlib.Core.List.{reverse}
use runtime_class_manager.Base.{
  ℕ, zero, suc, ◌+◌, ◌-◌, Bool, true, false, ◌&&◌, ◌||◌, [], ◌∷◌, map, Text, text_eq, ◌==◌, ◌=ℕ◌,
  leb, if◌then◌else◌, length, drop,
}

-- `strings.HasPrefix(s, p)`
unfoldable pub has_prefix : Text → Text → Bool
has_prefix s [] = true
has_prefix [] (p ∷ ps) = false
has_prefix (c ∷ s) (p ∷ ps) = (c =ℕ p) && has_prefix s ps

-- `strings.TrimPrefix(s, p)`
unfoldable pub trim_prefix : Text → Text → Text
unfolding has_prefix
trim_prefix s p = if has_prefix s p then drop (length p) s else s

-- the text that `strings.CutSuffix(s, p)` returns
unfoldable pub cut_suffix : Text → Text → Text
unfolding trim_prefix
cut_suffix s p = reverse (trim_prefix (reverse s) (reverse p))

-- `strings.Contains(s, w)`
unfoldable pub includes : Text → Text → Bool
unfolding has_prefix
includes [] w = has_prefix [] w
includes (c ∷ s) w = has_prefix (c ∷ s) w || includes s w

-- One pass of `strings.ReplaceAll(s, old, "")`, with the number of bytes still to skip.
unfoldable pub remove_from : Text → ℕ → Text → Text
unfolding has_prefix
remove_from old k [] = []
remove_from old (suc k) (c ∷ s) = remove_from old k s
remove_from old zero (c ∷ s) =
    let skipped = remove_from old (length old - 1) s in
    let kept = c ∷ remove_from old zero s in if has_prefix (c ∷ s) old then skipped else kept

-- `strings.ReplaceAll(s, old, "")`
unfoldable pub remove_all : Text → Text → Text
unfolding remove_from
remove_all s [] = s
remove_all s (c ∷ old) = remove_from (c ∷ old) 0 s

lower : ℕ → ℕ
lower c = if leb b'A' c && leb c b'Z' then c + 32 else c

-- `strings.EqualFold(s, t)` on ASCII text; other bytes are compared as they are.
unfoldable pub equal_fold : Text → Text → Bool
unfolding lower text_eq
equal_fold s t = map lower s == map lower t
