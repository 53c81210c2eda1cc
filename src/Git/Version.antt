-- ===== src/Git/Version.antt =====
-- internal/git/version.go: versions of Git, their parsing and their order. What a run of git-version(1)
-- has written, and how it ended, is given.
pub mod Order
pub mod Samples
use gitally.Prelude.{
  ℕ, zero, suc, ◌+◌, ◌-◌, ◌*◌, ◌^◌, Bool, true, false, not, ◌&&◌, ◌||◌, Option, none, some, List,
  [], ◌∷◌, ◌++◌, ltb, leb, ◌==◌, if◌then◌else◌, drop,
}
use gitally.Git.{Text, codes, eq_text, has_prefix}
use gitally.Git.Options.{cut}

pub record Version : Type 0 where
  pub version_string : Text
  pub major : ℕ
  pub minor : ℕ
  pub patch : ℕ
  pub rc : Bool
  pub gl : ℕ

release : Text → ℕ → ℕ → ℕ → Version
release s major minor patch = record {
  version_string = s;
  major = major;
  minor = minor;
  patch = patch;
  rc = false;
  gl = 0;
}

pub minimum_version : Version
unfolding release
minimum_version = release (codes "2.31.0") 2 31 0

pub less_than : Version → Version → Bool
less_than v other =
    if ltb v.major other.major
    then true
    else if ltb other.major v.major
    then false
    else if ltb v.minor other.minor
    then true
    else if ltb other.minor v.minor
    then false
    else if ltb v.patch other.patch
    then true
    else if ltb other.patch v.patch
    then false
    else if v.rc && not other.rc
    then true
    else if not v.rc && other.rc
    then false
    else if ltb v.gl other.gl
    then true
    else if ltb other.gl v.gl
    then false
    else false

pub is_supported : Version → Bool
unfolding less_than minimum_version
is_supported v = not (less_than v minimum_version)

pub supports_object_type_filter : Version → Bool
unfolding less_than release
supports_object_type_filter v = not (less_than v (release [] 2 32 0))

pub flushes_updateref_status : Version → Bool
flushes_updateref_status v =
    if v.major == 2 && v.minor == 33 && leb 3 v.gl
    then true
    else if v.major == 2 && leb 34 v.minor
    then true
    else leb 3 v.major

-- `strings.SplitN` with a separator of one character and a positive count.
pub split_n : ℕ → ℕ → Text → List Text
split_n c zero s = s ∷ []
split_n c (suc n) s = elim (cut c s) [
  | none ↦ s ∷ []
  | some (before, behind) ↦ before ∷ split_n c n behind
]

-- The value of decimal digits behind others of a value.
digits : ℕ → Text → Option ℕ
digits acc [] = some acc
digits acc (c ∷ s) =
    let rest = digits (acc * 10 + (c - 48)) s in if leb 48 c && leb c 57 then rest else none

within_32_bits : Option ℕ → Option ℕ
within_32_bits none = none
within_32_bits (some n) = if ltb n (2 ^ 32) then some n else none

-- `strconv.ParseUint(s, 10, 32)`
pub parse_uint32 : Text → Option ℕ
unfolding digits within_32_bits
parse_uint32 [] = none
parse_uint32 (c ∷ s) = within_32_bits (digits 0 (c ∷ s))

-- Whether a part behind a dash says that this is a release candidate.
is_candidate : List Text → Bool
is_candidate (a ∷ b ∷ []) = has_prefix b (codes "rc")
is_candidate _ = false

first_part : List Text → Text
first_part [] = []
first_part (a ∷ rest) = a

-- One round of the loop: the number, and whether it sets `rc`.
parse_part : Text → Option (ℕ × Bool)
unfolding is_candidate first_part parse_uint32
parse_part part =
    let rc_split = split_n 45 1 part in
    if eq_text part (codes "GIT")
    then some (0, false)
    else elim (parse_uint32 (first_part rc_split)) [
      | none ↦ none
      | some n ↦ some (n, is_candidate rc_split)
    ]

set_gl : Version → Option ℕ → Option Version
set_gl v none = none
set_gl v (some n) = some (record {
  version_string = v.version_string;
  major = v.major;
  minor = v.minor;
  patch = v.patch;
  rc = v.rc;
  gl = n;
})

set_rc : Version → Version
set_rc v = record {
  version_string = v.version_string;
  major = v.major;
  minor = v.minor;
  patch = v.patch;
  rc = true;
  gl = v.gl;
}

-- The fourth part.
parse_rest : Version → List Text → Option Version
unfolding set_gl set_rc parse_uint32
parse_rest v [] = some v
parse_rest v (part ∷ rest) =
    if has_prefix part (codes "rc")
    then some (set_rc v)
    else if has_prefix part (codes "gl")
    then set_gl v (parse_uint32 (drop 2 part))
    else some v

numbered :
    Text → List Text → Option (ℕ × Bool) → Option (ℕ × Bool) → Option (ℕ × Bool) → Option Version
unfolding parse_rest
numbered s rest (some (a, x)) (some (b, y)) (some (c, z)) =
    parse_rest
      (record { version_string = s; major = a; minor = b; patch = c; rc = x || y || z; gl = 0 })
      rest
numbered s rest _ _ _ = none

parse_split : Text → List Text → Option Version
unfolding numbered parse_part
parse_split s (a ∷ b ∷ c ∷ rest) = numbered s rest (parse_part a) (parse_part b) (parse_part c)
parse_split s _ = none

-- `none` is an error.
pub parse_version : Text → Option Version
unfolding parse_split split_n
parse_version s = parse_split s (split_n 46 3 s)

-- `strings.Trim(s, " \n")`
trim_left : Text → Text
trim_left [] = []
trim_left (c ∷ s) = let rest = trim_left s in if c == 32 || c == 10 then rest else c ∷ s

trim_right : Text → Text
trim_right [] = []
trim_right (c ∷ s) = elim (trim_right s) [
  | [] ↦ if c == 32 || c == 10 then [] else c ∷ []
  | d ∷ t ↦ c ∷ d ∷ t
]

pub data Output : Type 0 where
  read_failed : Output
  -- What was written, and whether the command has ended well.
  written : Text → Bool → Output

parse_words : List Text → Option Version
unfolding parse_version
parse_words (a ∷ b ∷ c ∷ []) = parse_version c
parse_words _ = none

pub parse_version_from_command : Output → Option Version
unfolding parse_words trim_left trim_right
parse_version_from_command read_failed = none
parse_version_from_command (written out false) = none
parse_version_from_command (written out true) =
    parse_words (split_n 32 2 (trim_right (trim_left out)))
