-- ===== src/Security/Paths.antt =====
-- `validatePath` and `requireSafePath` of security.cjs. The functions of `path` and `fs.realpathSync`
-- are parameters.
pub mod Allowed
use mathlib.Core.List.{append_assoc}
use mathlib.Core.Path.{subst}
use sagasmith.Common.{
  ℕ, ap, sym, ◌∙◌, ◌≡◌, ◌↔◌, ◌≢◌, refl, Bool, true, false, ◌&&◌, ◌||◌, not, Option, none, some, [],
  ◌∷◌, ◌++◌, any, ◌==◌, arith, Str, str, str_eq, str_eq_iff, starts_with, starts_with_iff,
  non_empty, if◌then◌else◌, ◌⊎◌, inl, inr, Bool-cases,
}
use sagasmith.Common.Result.{Result, ok, thrown}

pub record PathLib : Type 0 where
  pub resolve : Str → Str
  pub resolve_from : Str → Str → Str
  pub is_absolute : Str → Bool
  pub dirname : Str → Str
  pub basename : Str → Str
  pub join : Str → Str → Str
  -- a slash or a backslash
  pub sep : ℕ
  -- none where the call throws
  pub realpath : Str → Option Str

pub record Checked : Type 0 where
  pub safe : Bool
  pub resolved : Str
  pub error : Option Str

abbrev pub refused : Str → Checked
refused message = record { safe = false; resolved = []; error = some message }

-- `s || t` on strings.
abbrev pub or_text : Str → Str → Str
or_text [] t = t
or_text (c ∷ s) t = c ∷ s

abbrev pub has_null : Str → Bool
has_null s = any (λ c. c == 0) s

module _ (lib : PathLib) where
  open lib use {resolve, resolve_from, is_absolute, dirname, basename, join, sep, realpath}

  abbrev or_resolved : Str → Option Str → Str
  or_resolved p none = p
  or_resolved p (some q) = q

  -- The base directory with its symlinks resolved.
  unfoldable pub resolve_base : Str → Str
  resolve_base dir = or_resolved (resolve dir) (realpath (resolve dir))

  abbrev links_from : Str → Option Str → Option Str → Str
  links_from p (some q) parent = q
  links_from p none (some d) = join d (basename p)
  links_from p none none = p

  -- The symlinks of a target resolved; of one that does not exist, those of its parent.
  unfoldable pub resolve_links : Str → Str
  resolve_links p = links_from p (realpath p) (realpath (dirname p))

  unfoldable pub target_of : Str → Str → Str
  unfolding resolve_links
  target_of file_path base_dir =
      resolve_links
        (if is_absolute file_path then resolve file_path else resolve_from base_dir file_path)

  unfoldable pub contains : Str → Str → Bool
  contains base p = str_eq p base || starts_with (p ++ sep ∷ []) (base ++ sep ∷ [])

  unfoldable pub check_target : Str → Str → Checked
  unfolding contains
  check_target base p =
      if not (contains base p)
      then record {
        safe = false;
        resolved = p;
        error =
            some (str "Path escapes allowed directory: " ++ (p ++ (str " is outside " ++ base)));
      }
      else record { safe = true; resolved = p; error = none }

  unfoldable pub validate_path : Str → Str → Bool → Checked
  unfolding check_target resolve_base target_of
  validate_path file_path base_dir allow_absolute =
      if not (non_empty file_path)
      then refused (str "Empty or invalid file path")
      else if not (non_empty base_dir)
      then refused (str "Empty or invalid base directory")
      else if has_null file_path
      then refused (str "Path contains null bytes")
      else if is_absolute file_path && not allow_absolute
      then refused (str "Absolute paths not allowed")
      else check_target (resolve_base base_dir) (target_of file_path base_dir)

  abbrev pub error_text : Option Str → Str
  error_text none = str "undefined"
  error_text (some e) = e

  unfoldable pub require_safe_path : Str → Str → Str → Bool → Result Str
  unfolding validate_path
  require_safe_path file_path base_dir label allow_absolute =
      let result = validate_path file_path base_dir allow_absolute in
      if not result.safe
      then thrown
          (or_text label (str "Path") ++ (str " validation failed: " ++ error_text result.error))
      else ok result.resolved
