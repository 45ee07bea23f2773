-- ===== src/Installer/Paths.antt =====
-- `rootPath` and `withinRoot` of internal/installer/inspect.go, on absolute roots in normal form.
use my_safe.Prelude.{Bool, ◌||◌, none, some, [], ◌∷◌, ◌++◌}
use my_safe.Prelude.Text.{Text, text_eq, has_prefix, cut_prefix}
use my_safe.Prelude.Text.Clean.{clean_rooted}

abbrev pub slash : Text
slash = b'/' ∷ []

abbrev without_slash : Text → Text
without_slash p = elim (cut_prefix p slash) [ none ↦ p | some rest ↦ rest ]

unfoldable pub root_path : Text → Text → Text
root_path root p = clean_rooted (root ++ slash ++ without_slash p)

-- `filepath.Rel` does not lead upwards: the path is the root, or below it.
unfoldable pub within_root : Text → Text → Bool
within_root root p = text_eq root slash || text_eq p root || has_prefix p (root ++ slash)
