-- ===== src/Ledger/Family.antt =====
-- Release families: their paths, their validation and their rendering in
-- mcp/ground-control/lib/release-identity-config.js.
use ground_control.Prelude.Text.{Text, text_eq, codes}
use ground_control.Prelude.{
  ℕ, List, Bool, if◌then◌else◌, not, false, any, leb, ◌||◌, ltb, ◌&&◌, ◌+◌, [], ◌++◌, ◌∷◌, length,
  ◌==◌, true, all, count, map,
}
use ground_control.Ledger.Names.{
  is_path_unit, is_letter_or_digit, is_safe_git_ref_name, starts_with, ends_with, split_path,
}
use ground_control.Ledger.Template.{
  Part, renders_above_zero, parse_template, renders_within, render_parts, literal, Parsed,
  template_parts, parsed,
}

-- `base_branch` is what the normalizer makes of it, the default in place of an absent one.
pub record Family : Type 0 where
  pub base_branch : Text
  pub sequence_floor : ℕ
  pub version_template : Text
  pub paths : List (Text × Text)

abbrev pub release_sequence_max : ℕ
release_sequence_max = 1000000000

abbrev pub release_version_max : ℕ
release_version_max = 64

abbrev pub release_rendered_path_max : ℕ
release_rendered_path_max = 480

abbrev pub values : {A : Type 0} → List (Text × A) → List A
values [] = []
values ((k, v) ∷ m) = v ∷ values m

abbrev pub keys : {A : Type 0} → List (Text × A) → List Text
keys [] = []
keys ((k, v) ∷ m) = k ∷ keys m

unfoldable pub to_lower_unit : ℕ → ℕ
to_lower_unit c = if leb b'A' c && leb c b'Z' then c + 32 else c

unfoldable pub is_safe_segment : Text → Bool
unfolding text_eq to_lower_unit
is_safe_segment s =
    not (text_eq s [])
    && not (text_eq s (codes "."))
    && not (text_eq s (codes ".."))
    && not (text_eq (map to_lower_unit s) (codes ".git"))

-- `isSafeRepoRelativePath`; its units are ASCII, so that lower case is that of ASCII.
unfoldable pub is_safe_repo_relative_path : Text → Bool
unfolding is_path_unit starts_with ends_with split_path is_safe_segment
is_safe_repo_relative_path path =
    all is_path_unit path
    && not (starts_with path (codes "/"))
    && not (ends_with path (codes "/"))
    && all is_safe_segment (split_path path)

-- `pathsOverlap`
unfoldable pub paths_overlap : Text → Text → Bool
unfolding text_eq starts_with
paths_overlap a b = text_eq a b || starts_with a (b ++ codes "/") || starts_with b (a ++ codes "/")

-- `releasePathsConflict` on the values
unfoldable pub release_paths_conflict : List Text → Bool
unfolding paths_overlap
release_paths_conflict [] = false
release_paths_conflict (a ∷ rest) = any (paths_overlap a) rest || release_paths_conflict rest

-- `releasePathSetsOverlap`
unfoldable pub release_path_sets_overlap : List Text → List Text → Bool
unfolding paths_overlap
release_path_sets_overlap left right = any (λ a. any (paths_overlap a) right) left

unfoldable pub is_safe_rendered_release_path : Text → Bool
unfolding is_safe_repo_relative_path
is_safe_rendered_release_path path =
    leb (length path) release_rendered_path_max && is_safe_repo_relative_path path

-- `[A-Za-z0-9._+-]`
unfoldable pub is_version_unit : ℕ → Bool
unfolding is_letter_or_digit
is_version_unit c = is_letter_or_digit c || (c == b'.') || (c == b'_') || (c == b'+') || (c == b'-')

unfoldable pub is_literal : Part → Bool
is_literal (literal s) = true
is_literal _ = false

unfoldable pub is_version_literal : Part → Bool
unfolding is_version_unit
is_version_literal (literal s) = all is_version_unit s
is_version_literal _ = true

unfoldable pub is_bounded_text : ℕ → Text → Bool
is_bounded_text max s = ltb 0 (length s) && leb (length s) max

unfoldable pub are_version_parts : ℕ → Parsed → Bool
unfolding is_literal is_version_literal renders_above_zero
are_version_parts floor (parsed parts) =
    (count (λ p. not (is_literal p)) parts == 1)
    && all is_version_literal parts
    && renders_above_zero parts floor
are_version_parts floor _ = false

-- Whether `validateVersionTemplate` reports no error, at a floor that is a positive number.
unfoldable pub is_version_template : ℕ → Text → Bool
unfolding is_bounded_text are_version_parts parse_template
is_version_template floor raw =
    is_bounded_text 64 raw && are_version_parts floor (parse_template false raw)

unfoldable pub are_path_parts : ℕ → Parsed → Bool
unfolding is_literal renders_above_zero is_safe_repo_relative_path render_parts
are_path_parts floor (parsed parts) =
    not (all is_literal parts)
    && is_safe_repo_relative_path (render_parts 1 (codes "1") parts)
    && renders_above_zero parts floor
are_path_parts floor _ = false

-- Whether `validatePathTemplate` reports no error, at such a floor.
unfoldable pub is_path_template : ℕ → Text → Bool
unfolding is_bounded_text are_path_parts parse_template
is_path_template floor raw =
    is_bounded_text 240 raw && are_path_parts floor (parse_template true raw)

unfoldable pub is_lower_or_digit : ℕ → Bool
is_lower_or_digit c = (leb b'a' c && leb c b'z') || (leb b'0' c && leb c b'9')

-- `PATH_KEY_RE`
unfoldable pub is_path_key : Text → Bool
unfolding is_lower_or_digit
is_path_key [] = false
is_path_key (c ∷ s) =
    leb b'a' c && leb c b'z' && all (λ d. is_lower_or_digit d || (d == b'_')) s && leb (length s) 39

-- `RELEASE_FAMILY_NAME_RE`
unfoldable pub is_family_name : Text → Bool
unfolding is_lower_or_digit
is_family_name [] = false
is_family_name (c ∷ s) =
    is_lower_or_digit c && all (λ d. is_lower_or_digit d || (d == b'-')) s && leb (length s) 39

unfoldable pub are_paths : ℕ → List (Text × Text) → Bool
unfolding is_path_key is_path_template
are_paths floor paths =
    ltb 0 (length paths)
    && leb (length paths) 16
    && all is_path_key (keys paths)
    && all (is_path_template floor) (values paths)

-- `releaseSequenceRenderable`
unfoldable pub release_sequence_renderable : Family → ℕ → Bool
unfolding renders_within parse_template template_parts
release_sequence_renderable family sequence =
    all (λ t. renders_within (template_parts (parse_template true t)) sequence release_sequence_max)
      (family.version_template ∷ values family.paths)

pub record Identity : Type 0 where
  pub version : Text
  pub paths : List (Text × Text)

unfoldable pub render_version : Family → ℕ → Text
unfolding render_parts template_parts parse_template
render_version family sequence =
    render_parts sequence [] (template_parts (parse_template false family.version_template))

unfoldable pub render_paths : ℕ → Text → List (Text × Text) → List (Text × Text)
unfolding render_parts template_parts parse_template
render_paths sequence version [] = []
render_paths sequence version ((key, template) ∷ paths) =
    (key, render_parts sequence version (template_parts (parse_template true template)))
    ∷ render_paths sequence version paths

-- `renderReleaseIdentity`
unfoldable pub render_release_identity : Family → ℕ → Identity
unfolding render_version render_paths
render_release_identity family sequence = record {
  version = render_version family sequence;
  paths = render_paths sequence (render_version family sequence) family.paths;
}

unfoldable pub renders_at_floor : Identity → Bool
unfolding is_safe_rendered_release_path release_paths_conflict
renders_at_floor i =
    leb (length i.version) release_version_max
    && all is_safe_rendered_release_path (values i.paths)
    && not (release_paths_conflict (values i.paths))

-- Whether `normalizeReleaseFamiliesConfig` accepts one family of known fields, and so returns it as
-- it is.
unfoldable pub is_normal_family : Text → Family → Bool
unfolding is_family_name is_safe_git_ref_name is_version_template are_paths
    release_sequence_renderable renders_at_floor render_release_identity
is_normal_family name family =
    is_family_name name
    && is_safe_git_ref_name family.base_branch
    && ltb 0 family.sequence_floor
    && leb family.sequence_floor release_sequence_max
    && is_version_template family.sequence_floor family.version_template
    && are_paths family.sequence_floor family.paths
    && release_sequence_renderable family family.sequence_floor
    && renders_at_floor (render_release_identity family family.sequence_floor)
