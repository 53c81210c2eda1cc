-- ===== src/Git/Options.antt =====
-- internal/git/command_options.go and staticargs.go: the options of commands and their validation. A
-- regular expression is a Boolean test with the same texts; the readers and writers are left out.
pub mod Pairs
use gitally.Prelude.{
  ℕ, Bool, true, false, not, ◌&&◌, ◌||◌, Option, none, some, List, [], ◌∷◌, ◌++◌, ◌==◌,
  if◌then◌else◌,
}
use gitally.Git.{Text, codes, is_alnum}

pub data CommandError : Type 0 where
  invalid_name invalid_action invalid_key invalid_flag invalid_positional : Text → CommandError
  invalid_config : Text → CommandError
  hook_payload_required : Text → CommandError

pub data Checked {ℓ} (A : Type ℓ) : Type ℓ where
  valid : A → Checked A
  invalid : CommandError → Checked A

infixl 5 ◌>>=◌
abbrev pub ◌>>=◌ {ℓ κ} : {A : Type ℓ} {B : Type κ} → Checked A → (A → Checked B) → Checked B
valid a >>= f = f a
invalid e >>= f = invalid e

-- `Origin` and `Scope` of a pair are not read here.
pub record ConfigPair : Type 0 where
  pub key : Text
  pub value : Text

-- `Flag`, `ValueFlag` and `ConfigPair`, which are `Option`s too.
pub data GlobalOption : Type 0 where
  flag : Text → GlobalOption
  value_flag : Text → Text → GlobalOption
  config_pair : ConfigPair → GlobalOption

-- `Option`, which `StaticOption` is.
pub data GitOption : Type 0 where
  global_option : GlobalOption → GitOption
  static_option : Text → GitOption

-- `[-[:alnum:]]*$`
is_name_rest : Text → Bool
unfolding is_alnum
is_name_rest [] = true
is_name_rest (c ∷ s) = (is_alnum c || c == 45) && is_name_rest s

-- `^[[:alnum:]]+[-[:alnum:]]*$`, which is `actionRegex`.
pub is_name : Text → Bool
unfolding is_name_rest is_alnum
is_name [] = false
is_name (c ∷ s) = is_alnum c && is_name_rest s

-- `(.+\.)+[[:alnum:]]+[-[:alnum:]]*$`, once something has been read where `seen`.
ends_in_name : Bool → Text → Bool
unfolding is_name
ends_in_name seen [] = false
ends_in_name seen (c ∷ s) = not (c == 10) && ((seen && c == 46 && is_name s) || ends_in_name true s)

-- The text before the first `c`, and the text behind it.
unfoldable pub cut : ℕ → Text → Option (Text × Text)
cut c [] = none
cut c (d ∷ s) =
    let rest = cut c s in
    if d == c
    then some ([], s)
    else elim rest [ none ↦ none | some (before, behind) ↦ some (d ∷ before, behind) ]

is_option_key_at : Option (Text × Text) → Bool
unfolding is_name ends_in_name
is_option_key_at none = false
is_option_key_at (some (section, rest)) =
    is_name section && (is_name rest || ends_in_name false rest)

-- `configKeyOptionRegex`: the first section has no dot.
pub is_option_key : Text → Bool
unfolding is_option_key_at cut
is_option_key s = is_option_key_at (cut 46 s)

-- How far a text has matched `^[[:alnum:]]+(\.[-/_a-zA-Z0-9]+)+$`.
pub data KeyState : Type 0 where
  at_start in_section at_dot in_part stuck : KeyState

-- `[-/_a-zA-Z0-9]`
unfoldable pub is_key_char : ℕ → Bool
unfolding is_alnum
is_key_char c = is_alnum c || c == 45 || c == 47 || c == 95

unfoldable pub key_step : KeyState → ℕ → KeyState
unfolding is_key_char is_alnum
key_step at_start c = if is_alnum c then in_section else stuck
key_step in_section c = if c == 46 then at_dot else if is_alnum c then in_section else stuck
key_step at_dot c = if is_key_char c then in_part else stuck
key_step in_part c = if c == 46 then at_dot else if is_key_char c then in_part else stuck
key_step stuck c = stuck

unfoldable pub match_key : KeyState → Text → KeyState
unfolding key_step
match_key s [] = s
match_key s (c ∷ cs) = match_key (key_step s c) cs

unfoldable pub is_in_part : KeyState → Bool
is_in_part in_part = true
is_in_part _ = false

-- `configKeyGlobalRegex`
unfoldable pub is_global_key : Text → Bool
unfolding match_key is_in_part
is_global_key s = is_in_part (match_key at_start s)

-- `flagRegex`
unfoldable pub is_flag : Text → Bool
unfolding is_alnum
is_flag [] = false
is_flag (c ∷ []) = false
is_flag (c ∷ d ∷ []) = c == 45 && is_alnum d
is_flag (c ∷ d ∷ e ∷ s) = c == 45 && (is_alnum d || (d == 45 && is_alnum e))

unfoldable pub flag_args : Text → List Text → Checked (List Text)
unfolding is_flag
flag_args n args = if is_flag n then valid args else invalid (invalid_flag n)

unfoldable pub option_args : GitOption → Checked (List Text)
unfolding flag_args is_option_key
option_args (global_option (flag n)) = flag_args n (n ∷ [])
option_args (global_option (value_flag n v)) = flag_args n (n ∷ v ∷ [])
option_args (global_option (config_pair p)) =
    if is_option_key p.key then valid (p.key ∷ p.value ∷ []) else invalid (invalid_key p.key)
option_args (static_option v) = valid (v ∷ [])

unfoldable pub global_args : GlobalOption → Checked (List Text)
unfolding flag_args is_global_key
global_args (flag n) = flag_args n (n ∷ [])
global_args (value_flag n v) = flag_args n (n ∷ v ∷ [])
global_args (config_pair p) =
    if is_global_key p.key
    then valid (codes "-c" ∷ (p.key ++ 61 ∷ p.value) ∷ [])
    else invalid (invalid_key p.key)

convert_pair : Text → Option (Text × Text) → Checked ConfigPair
convert_pair option none = invalid (invalid_config option)
convert_pair option (some (k, v)) = valid (record { key = k; value = v })

pub convert_config_options : List Text → Checked (List ConfigPair)
unfolding convert_pair cut
convert_config_options [] = valid []
convert_config_options (option ∷ options) = do
  p ← convert_pair option (cut 61 option)
  ps ← convert_config_options options
  valid (p ∷ ps)
