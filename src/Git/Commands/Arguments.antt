-- ===== src/Git/Commands/Arguments.antt =====
-- No argument of a command line is taken for an option that the caller did not give as one.
use gitally.Prelude.{
  ◌≡◌, ◌≢◌, ◌⊎◌, refl, sym, ap, ◌∙◌, subst, true, false, ◌||◌, List, [], ◌∷◌, ◌++◌, Bool-cases, inl,
  inr, All,
}
use gitally.Git.{Text, codes, eq_text, has_prefix}
use gitally.Git.Options.{
  invalid_positional, hook_payload_required, invalid_action, Checked, valid, invalid, ◌>>=◌,
  ConfigPair, GitOption, is_name,
}
use gitally.Git.Commands.{
  Validation, plain_args, rev_list_args, CommandDescription, description_of, may_update_ref,
  validate_positional_arg, validate_rev_list_arg, validate_arg, validate_args, all_option_args,
  end_of_options, separated, args, Cmd, sub_cmd, sub_sub_cmd, subcommand, check_action,
  command_args, CmdCfg, CmdOpt, apply_opts, check_hooks, combine_opts, all_global_args,
  combined_globals, combine_args, command_line,
}

valid_then {ℓ κ μ} :
    {A : Type ℓ} {B : Type κ} {C : Type μ} (m : Checked A) (f : A → Checked B) (b : B)
    → (m >>= f) ≡ valid b
    → ((a : A) → m ≡ valid a → f a ≡ valid b → C)
    → C
valid_then (valid a) f b h k = k a refl h
valid_then (invalid e) f b h k = absurd cc

valid_eq {ℓ} : {A : Type ℓ} (a b : A) → valid a ≡ valid b → a ≡ b
valid_eq a b h = cc

-- An argument that starts with a dash is one of the two that git-rev-list(1) is given.
abbrev pub IsPositional : Validation → Text → Type 0
IsPositional plain_args a = has_prefix a (codes "-") ≡ false
IsPositional rev_list_args a =
    ((eq_text a (codes "--all") || eq_text a (codes "--not")) ≡ true)
    ⊎ (has_prefix a (codes "-") ≡ false)

validate_positional_arg-inv :
    (a : Text) (u : Unit {0})
    → validate_positional_arg a ≡ valid u
    → has_prefix a (codes "-") ≡ false
unfolding validate_positional_arg
validate_positional_arg-inv a u h = elim (Bool-cases (has_prefix a (codes "-"))) [
  | inr b ↦ b
  | inl b ↦ absurd (clash (sym h ∙ rw b refl))
]
  where
    clash : valid u ≢ invalid (invalid_positional a)
    clash q = cc

validate_arg-IsPositional :
    (v : Validation) (a : Text) (u : Unit {0}) → validate_arg v a ≡ valid u → IsPositional v a
unfolding validate_arg validate_rev_list_arg
validate_arg-IsPositional plain_args a u h = validate_positional_arg-inv a u h
validate_arg-IsPositional rev_list_args a u h =
    elim (Bool-cases (eq_text a (codes "--all") || eq_text a (codes "--not"))) [
      | inl b ↦ inl b
      | inr b ↦ inr (validate_positional_arg-inv a u (sym (rw b refl) ∙ h))
    ]

validate_args-IsPositional :
    (v : Validation) (as' : List Text) (u : Unit {0})
    → validate_args v as' ≡ valid u
    → All (IsPositional v) as'
unfolding validate_args
validate_args-IsPositional v [] u h = tt
validate_args-IsPositional v (a ∷ rest) u h =
    valid_then (validate_arg v a) _ u h
      λ x e k. (validate_arg-IsPositional v a x e, validate_args-IsPositional v rest u k)

-- The flags, the positional arguments, and the ones behind the separator.
abbrev pub flags_of : Cmd → List GitOption
flags_of (sub_cmd name flags positional post) = flags
flags_of (sub_sub_cmd name action flags positional post) = flags

abbrev pub positional_of : Cmd → List Text
positional_of (sub_cmd name flags positional post) = positional
positional_of (sub_sub_cmd name action flags positional post) = positional

abbrev pub post_of : Cmd → List Text
post_of (sub_cmd name flags positional post) = post
post_of (sub_sub_cmd name action flags positional post) = post

-- The name, and the action, which is a name too.
abbrev pub IsHead : Cmd → List Text → Type 0
IsHead (sub_cmd name flags positional post) head = head ≡ name ∷ []
IsHead (sub_sub_cmd name action flags positional post) head =
    (head ≡ name ∷ action ∷ []) × (is_name action ≡ true)

pub record IsCommand (sc : Cmd) (c : CommandDescription) (line : List Text) : Type 0 where
  pub head : List Text
  pub options : List Text
  pub is_head : IsHead sc head
  pub options_eq : all_option_args (flags_of sc) ≡ valid options
  pub positional : All (IsPositional c.validation) (positional_of sc)
  pub line_eq :
      line ≡ head ++ options ++ end_of_options c ++ positional_of sc ++ separated (post_of sc)

args_inv :
    (c : CommandDescription) (flags : List GitOption) (positional post line : List Text)
    → args c flags positional post ≡ valid line
    → (options : List Text) × (all_option_args flags ≡ valid options)
      × All (IsPositional c.validation) positional
      × (line ≡ options ++ end_of_options c ++ positional ++ separated post)
unfolding args
args_inv c flags positional post line h =
    valid_then (all_option_args flags) _ line h λ options e h1.
      valid_then (validate_args c.validation positional) _ line h1 λ u k h2. (
        options,
        e,
        validate_args-IsPositional c.validation positional u k,
        sym (valid_eq (options ++ end_of_options c ++ positional ++ separated post) line h2),
      )

check_action_inv : (a : Text) (u : Unit {0}) → check_action a ≡ valid u → is_name a ≡ true
unfolding check_action
check_action_inv a u h = elim (Bool-cases (is_name a)) [
  | inl b ↦ b
  | inr b ↦ absurd (clash (sym h ∙ rw b refl))
]
  where
    clash : valid u ≢ invalid (invalid_action a)
    clash q = cc

command_args-IsCommand :
    (sc : Cmd) (line : List Text)
    → command_args sc ≡ valid line
    → (c : CommandDescription) × (description_of (subcommand sc) ≡ valid c) × IsCommand sc c line
unfolding command_args subcommand
command_args-IsCommand (sub_cmd name flags positional post) line h =
    valid_then (description_of name) _ line h λ c e h1.
      valid_then (args c flags positional post) _ line h1 λ rest k h2.
        let (options, o, p, q) = args_inv c flags positional post rest k in
        (
          c,
          e,
          record {
            head = name ∷ [];
            options = options;
            is_head = refl;
            options_eq = o;
            positional = p;
            line_eq = sym (valid_eq (name ∷ rest) line h2) ∙ ap (λ r. name ∷ r) q;
          },
        )
command_args-IsCommand (sub_sub_cmd name action flags positional post) line h =
    valid_then (description_of name) _ line h λ c e h1.
      valid_then (check_action action) _ line h1 λ u a h2.
        valid_then (args c flags positional post) _ line h2 λ rest k h3.
          let (options, o, p, q) = args_inv c flags positional post rest k in
          (
            c,
            e,
            record {
              head = name ∷ action ∷ [];
              options = options;
              is_head = (refl, check_action_inv action u a);
              options_eq = o;
              positional = p;
              line_eq =
                  sym (valid_eq (name ∷ action ∷ rest) line h3) ∙ ap (λ r. name ∷ action ∷ r) q;
            },
          )

check_hooks_inv :
    (name : Text) (c : CommandDescription) (config config' : CmdCfg)
    → check_hooks name c config ≡ valid config'
    → (config ≡ config') × ((may_update_ref c ≡ false) ⊎ (config.hooks_configured ≡ true))
unfolding check_hooks
check_hooks_inv name c config config' h = elim (Bool-cases config.hooks_configured) [
  | inl b ↦ (valid_eq config config' (sym (rw b refl) ∙ h), inr b)
  | inr b ↦ elim (Bool-cases (may_update_ref c)) [
    | inl m ↦ absurd (clash (sym h ∙ rw (b, m) refl))
    | inr m ↦ (valid_eq config config' (sym (rw (b, m) refl) ∙ h), inl m)
  ]
]
  where
    clash : valid config' ≢ invalid (hook_payload_required name)
    clash q = cc

-- What the options of a call are applied to.
abbrev pub no_options : CmdCfg
no_options = record { globals = []; hooks_configured = false }

-- When a command line is made: the subcommand is a known one; if it may update references, one of the
-- given options has configured hooks; and the line is the global options, the name and the action, the options made of the
-- flags, the end of options if the command knows it, the positional arguments, none of which starts
-- with a dash but `--all` and `--not` of git-rev-list(1), and the rest behind a separator.
pub command_line-IsCommand :
    (git_config : List ConfigPair) (sc : Cmd) (opts : List CmdOpt) (line : List Text)
    → command_line git_config sc opts ≡ valid line
    → (config : CmdCfg) × (c : CommandDescription) × (globals : List Text) × (command : List Text)
      × (apply_opts opts no_options ≡ valid config)
      × (description_of (subcommand sc) ≡ valid c)
      × ((may_update_ref c ≡ false) ⊎ (config.hooks_configured ≡ true))
      × (all_global_args (combined_globals git_config c config) ≡ valid globals)
      × IsCommand sc c command
      × (line ≡ globals ++ command)
unfolding command_line combine_opts combine_args
command_line-IsCommand git_config sc opts line h =
    valid_then (combine_opts sc opts) _ line h λ config e h1.
      valid_then (description_of (subcommand sc)) _ line h1 λ c d h2.
        valid_then (all_global_args (combined_globals git_config c config)) _ line h2
          λ globals g h3. valid_then (command_args sc) _ line h3 λ command a h4.
            valid_then (description_of (subcommand sc)) _ config e λ c1 d1 e1.
              valid_then (apply_opts opts _) _ config e1 λ config1 p e2.
                let (c2, d2, is) = command_args-IsCommand sc command a in
                let same1 : c1 ≡ c = valid_eq c1 c (sym d1 ∙ d) in
                let same2 : c2 ≡ c = valid_eq c2 c (sym d2 ∙ d) in
                let (same, hooks) = check_hooks_inv (subcommand sc) c1 config1 config e2 in
                (
                  config,
                  c,
                  globals,
                  command,
                  p ∙ ap valid same,
                  d,
                  hooked c1 c config1 config same1 same hooks,
                  g,
                  subst (λ x. IsCommand sc x command) same2 is,
                  sym (valid_eq (globals ++ command) line h4),
                )
  where
    hooked :
        (c c' : CommandDescription) (config config' : CmdCfg)
        → c ≡ c'
        → config ≡ config'
        → (may_update_ref c ≡ false) ⊎ (config.hooks_configured ≡ true)
        → (may_update_ref c' ≡ false) ⊎ (config'.hooks_configured ≡ true)
    hooked c c' config config' p q (inl b) = inl (ap may_update_ref (sym p) ∙ b)
    hooked c c' config config' p q (inr b) = inr (ap (λ x. x.hooks_configured) (sym q) ∙ b)
