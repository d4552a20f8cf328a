-- ===== src/Index.antt =====
-- internal/index/index.go: the static visibility gate, and internal/pgconv: optional columns.
use Prim.Native.String.{◌++◌}
use vidra_search.Prelude.{String, Bool, true, false, not, Option, none, some, str_eq, if◌then◌else◌}

-- A placeholder for an empty dimension.
safe : String → String
safe s = if str_eq s "" then "unknown" else s

-- Whether a video is statically visible, and the suppression reason.
unfoldable pub eligible : (privacy state : String) → Bool × String
unfolding safe
eligible privacy state =
    if not (str_eq privacy "public")
    then (false, "privacy_" ++ safe privacy)
    else if not (str_eq state "published")
    then (false, "state_" ++ safe state)
    else (true, "")

-- pgconv.OptStr and pgconv.DerefStr
unfoldable pub opt_str : String → Option String
opt_str s = if str_eq s "" then none else some s

unfoldable pub deref_str : Option String → String
deref_str none = ""
deref_str (some s) = s
