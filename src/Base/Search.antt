-- ===== src/Base/Search.antt =====
-- Searching text: the regular expressions of the program are alternatives of plain words, tested
-- without regard to case.
use shared_deposit_monad.Base.Tests.{◌==◌, if◌then◌else◌}
use shared_deposit_monad.Base.Texts.{Text, text_eq, lower}
use mathlib.Core.Bool.{Bool, true, false, ◌&&◌, ◌||◌}
use mathlib.Core.List.{List, [], ◌∷◌}

pub starts_with : Text → Text → Bool
starts_with [] s = true
starts_with (c ∷ p) [] = false
starts_with (c ∷ p) (d ∷ s) = (c == d) && starts_with p s

-- `s.includes(p)`
unfoldable pub includes : Text → Text → Bool
unfolding starts_with
includes p [] = starts_with p []
includes p (d ∷ s) = starts_with p (d ∷ s) || includes p s

-- `/w1|w2|…/i.test(s)`
unfoldable pub mentions : List Text → Text → Bool
unfolding includes
mentions [] s = false
mentions (w ∷ ws) s = includes (lower w) (lower s) || mentions ws s

-- `s.split('\n')[0]`
unfoldable pub first_line : Text → Text
first_line [] = []
first_line (c ∷ s) = let rest = first_line s in if c == 10 then [] else c ∷ rest

-- `list.includes(t)`, `set.has(t)`
unfoldable pub has_text : List Text → Text → Bool
has_text [] t = false
has_text (s ∷ ss) t = text_eq s t || has_text ss t
