-- ===== src/Normalize/Words.antt =====
-- Go's `unicode.IsSpace`, `strings.Fields` and `strings.Join` with one space.
use Prim.Native.Char.{code}
use Prim.Native.String.{[], ◌∷◌}
use mathlib.Core.List.{List}
use vidra_search.Prelude.{ℕ, String, Bool, ◌&&◌, ◌||◌, ◌==◌, leb, if◌then◌else◌}

-- The code points of White_Space.
unfoldable pub is_space : ℕ → Bool
is_space c =
    leb 9 c && leb c 13
    || c == 32
    || c == 0x85
    || c == 0xA0
    || c == 0x1680
    || leb 0x2000 c && leb c 0x200A
    || c == 0x2028
    || c == 0x2029
    || c == 0x202F
    || c == 0x205F
    || c == 0x3000

abbrev pub cons_word : String → List String → List String
cons_word [] ws = ws
cons_word (c ∷ w) ws = List.◌∷◌ (c ∷ w) ws

-- The word that the text begins with, empty where it begins with a space, and the later words.
unfoldable pub split_word : String → String × List String
unfolding is_space
split_word [] = ([], List.[])
split_word (c ∷ s) =
    let rest = split_word s in
    if is_space (code c) then ([], cons_word rest.0 rest.1) else (c ∷ rest.0, rest.1)

unfoldable pub fields : String → List String
unfolding split_word
fields s = cons_word (split_word s).0 (split_word s).1

abbrev pub append : String → String → String
append [] t = t
append (c ∷ s) t = c ∷ append s t

unfoldable pub join : List String → String
join List.[] = []
join (List.◌∷◌ w List.[]) = w
join (List.◌∷◌ w (List.◌∷◌ v ws)) = append w (append " " (join (List.◌∷◌ v ws)))
