-- ===== src/Security/Paths/Allowed.antt =====
-- The paths that validatePath calls safe.
use sagasmith.Common.{
  ◌≡◌, ◌≢◌, Bool, true, false, ◌&&◌, not, none, some, [], ◌∷◌, ◌++◌, Str, non_empty, ◌⊎◌,
}
use sagasmith.Security.Paths.{PathLib, has_null}

module _ (lib : PathLib) where
  open lib use {resolve, resolve_from, is_absolute, dirname, basename, join, sep, realpath}

  -- The path is the base, or the base, a separator and more.
  abbrev pub Inside : Str → Str → Type 0
  Inside base p = (p ≡ base) ⊎ ((rest : Str) × (p ≡ base ++ sep ∷ rest))

  -- The absolute path that is meant.
  abbrev pub Named : Str → Str → Str → Type 0
  Named file_path base_dir p =
      ((is_absolute file_path ≡ true) × (p ≡ resolve file_path))
      ⊎ ((is_absolute file_path ≡ false) × (p ≡ resolve_from base_dir file_path))

  -- What a path is without symlinks: its own real path, or its name below the real path of its
  -- directory, or itself where neither is there.
  abbrev pub IsTarget : Str → Str → Type 0
  IsTarget p q =
      (realpath p ≡ some q)
      ⊎ ((realpath p ≡ none)
          × (((d : Str) × (realpath (dirname p) ≡ some d) × (q ≡ join d (basename p)))
              ⊎ ((realpath (dirname p) ≡ none) × (q ≡ p))))

  abbrev pub IsBase : Str → Str → Type 0
  IsBase dir b =
      (realpath (resolve dir) ≡ some b) ⊎ ((realpath (resolve dir) ≡ none) × (b ≡ resolve dir))

  -- What a safe path meets.
  pub record IsAllowed (file_path base_dir : Str) (allow_absolute : Bool) : Type 0 where
    pub named : file_path ≢ []
    pub based : base_dir ≢ []
    pub no_null : has_null file_path ≡ false
    pub relative : (is_absolute file_path && not allow_absolute) ≡ false
    pub given : Str
    pub target : Str
    pub base : Str
    pub given_is : Named file_path base_dir given
    pub target_is : IsTarget given target
    pub base_is : IsBase base_dir base
    pub inside : Inside base target

  abbrev guards : Str → Str → Bool → Bool
  guards file_path base_dir allow_absolute =
      non_empty file_path
      && (non_empty base_dir
          && (not (has_null file_path) && not (is_absolute file_path && not allow_absolute)))
