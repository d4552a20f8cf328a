-- ===== src/Normalize.antt =====
-- internal/normalize/normalize.go. NFKC and case folding come from golang.org/x/text and are
-- parameters; the whitespace passes of Go's `strings` package are written out.
pub mod Words
use Prim.Native.Char.{code}
use Prim.Native.String.{[], ◌∷◌}
use vidra_search.Prelude.{String, if◌then◌else◌}
use Words.{fields, join, is_space}

-- golang.org/x/text: `norm.NFKC.String` and the `String` of `cases.Fold()`
pub record TextForms : Type 0 where
  pub nfkc : String → String
  pub fold : String → String

unfoldable pub normalize : TextForms → String → String
unfolding fields join
normalize forms s = let s = forms.nfkc s in let s = forms.fold s in join (fields s)

-- strings.TrimSpace, as a pass from the left and one that keeps what a later word needs
trim_left : String → String
trim_left [] = []
trim_left (c ∷ s) = let rest = trim_left s in if is_space (code c) then rest else c ∷ s

trim_right : String → String
trim_right [] = []
trim_right (c ∷ s) = keep_char (trim_right s)
  where
    keep_char : String → String
    keep_char [] = if is_space (code c) then [] else c ∷ []
    keep_char (d ∷ t) = c ∷ d ∷ t

unfoldable pub trim_space : String → String
unfolding trim_left trim_right
trim_space s = trim_right (trim_left s)
