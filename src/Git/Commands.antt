-- ===== src/Git/Commands.antt =====
-- internal/git/command.go, command_description.go and command_factory.go: the command line of a Git
-- command. What a command runs with besides (its directory, its environment) is left out.
pub mod Arguments
pub mod Samples
use gitally.Prelude.{
  ℕ, Bool, true, false, not, ◌&&◌, ◌||◌, Option, none, some, List, [], ◌∷◌, ◌++◌, ◌==◌,
  if◌then◌else◌, String,
}
use Prim.Native.Nat.{bit_and, bit_or}
use gitally.Git.{Text, codes, eq_text, is_alnum, has_prefix}
use gitally.Git.Options.{
  CommandError, invalid_name, invalid_action, invalid_positional, hook_payload_required, Checked,
  valid, invalid, ◌>>=◌, ConfigPair, GlobalOption, config_pair, GitOption, is_name, option_args,
  global_args,
}

abbrev pub no_ref_updates : ℕ
no_ref_updates = 1

abbrev pub no_end_of_options : ℕ
no_end_of_options = 2

abbrev pub generates_packfiles : ℕ
generates_packfiles = 4

-- `validatePositionalArgs`, which only git-rev-list(1) sets.
pub data Validation : Type 0 where
  plain_args rev_list_args : Validation

pub record CommandDescription : Type 0 where
  pub flags : ℕ
  pub opts : List GlobalOption
  pub validation : Validation

describe : ℕ → List GlobalOption → Validation → CommandDescription
describe flags opts validation = record { flags = flags; opts = opts; validation = validation }

pair : String → String → GlobalOption
pair k v = config_pair (record { key = codes k; value = codes v })

abbrev default_branch : String
default_branch = "main"

abbrev internal_ref_prefixes : List String
internal_ref_prefixes =
    "refs/environments/" ∷ "refs/keep-around/" ∷ "refs/merge-requests/" ∷ "refs/pipelines/" ∷ []

hidden_receive_pack_ref_prefixes : List String → List GlobalOption
unfolding pair
hidden_receive_pack_ref_prefixes [] = []
hidden_receive_pack_ref_prefixes (ns ∷ rest) =
    pair "receive.hideRefs" ns ∷ hidden_receive_pack_ref_prefixes rest

-- The entries up to "linguist".
first_descriptions : List (Text × CommandDescription)
unfolding describe pair
first_descriptions =
    (codes "am", describe 0 [] plain_args)
    ∷ (codes "apply", describe no_ref_updates [] plain_args)
    ∷ (codes "archive", describe (bit_or no_ref_updates no_end_of_options) [] plain_args)
    ∷ (codes "blame", describe (bit_or no_ref_updates no_end_of_options) [] plain_args)
    ∷ (codes "bundle", describe (bit_or no_ref_updates generates_packfiles) [] plain_args)
    ∷ (codes "cat-file", describe no_ref_updates [] plain_args)
    ∷ (codes "check-ref-format", describe (bit_or no_ref_updates no_end_of_options) [] plain_args)
    ∷ (codes "checkout", describe no_end_of_options [] plain_args)
    ∷ (codes "clone", describe generates_packfiles [] plain_args)
    ∷ (codes "commit", describe 0 [] plain_args)
    ∷ (codes "commit-graph", describe no_ref_updates [] plain_args)
    ∷ (codes "commit-tree", describe no_ref_updates [] plain_args)
    ∷ (codes "config", describe no_ref_updates [] plain_args)
    ∷ (codes "count-objects", describe no_ref_updates [] plain_args)
    ∷ (codes "diff", describe no_ref_updates [] plain_args)
    ∷ (codes "diff-tree", describe no_ref_updates [] plain_args)
    ∷ (
      codes "fetch",
      describe 0
          (pair "fetch.fsckObjects" "true"
            ∷ pair "fetch.fsck.badTimezone" "ignore"
            ∷ pair "fetch.fsck.missingSpaceBeforeDate" "ignore"
            ∷ pair "fetch.writeCommitGraph" "false"
            ∷ [])
          plain_args,
    )
    ∷ (codes "for-each-ref", describe no_ref_updates [] plain_args)
    ∷ (codes "format-patch", describe no_ref_updates [] plain_args)
    ∷ (codes "fsck", describe no_ref_updates [] plain_args)
    ∷ (codes "gc", describe (bit_or no_ref_updates generates_packfiles) [] plain_args)
    ∷ (codes "grep", describe (bit_or no_ref_updates no_end_of_options) [] plain_args)
    ∷ (codes "hash-object", describe no_ref_updates [] plain_args)
    ∷ (
      codes "init",
      describe no_ref_updates (pair "init.defaultBranch" default_branch ∷ []) plain_args,
    )
    ∷ (codes "linguist", describe no_end_of_options [] plain_args)
    ∷ []

later_descriptions : List (Text × CommandDescription)
unfolding describe pair hidden_receive_pack_ref_prefixes
later_descriptions =
    (codes "log", describe no_ref_updates [] plain_args)
    ∷ (codes "ls-remote", describe no_ref_updates [] plain_args)
    ∷ (codes "ls-tree", describe no_ref_updates [] plain_args)
    ∷ (codes "merge-base", describe no_ref_updates [] plain_args)
    ∷ (codes "merge-file", describe no_ref_updates [] plain_args)
    ∷ (codes "mktag", describe no_ref_updates [] plain_args)
    ∷ (codes "multi-pack-index", describe no_ref_updates [] plain_args)
    ∷ (codes "pack-refs", describe no_ref_updates [] plain_args)
    ∷ (codes "pack-objects", describe (bit_or no_ref_updates generates_packfiles) [] plain_args)
    ∷ (codes "push", describe no_ref_updates [] plain_args)
    ∷ (
      codes "receive-pack",
      describe 0
          ((pair "core.alternateRefsCommand" "exit 0 #"
              ∷ pair "receive.fsckObjects" "true"
              ∷ pair "receive.fsck.badTimezone" "ignore"
              ∷ pair "receive.fsck.missingSpaceBeforeDate" "ignore"
              ∷ pair "receive.advertisePushOptions" "true"
              ∷ [])
            ++ hidden_receive_pack_ref_prefixes internal_ref_prefixes)
          plain_args,
    )
    ∷ (codes "remote", describe no_end_of_options [] plain_args)
    ∷ (
      codes "repack",
      describe (bit_or no_ref_updates generates_packfiles) (pair "repack.writeBitmaps" "true" ∷ [])
          plain_args,
    )
    ∷ (codes "rev-list", describe (bit_or no_ref_updates no_end_of_options) [] rev_list_args)
    ∷ (codes "rev-parse", describe (bit_or no_ref_updates no_end_of_options) [] plain_args)
    ∷ (codes "show", describe no_ref_updates [] plain_args)
    ∷ (codes "show-ref", describe no_ref_updates [] plain_args)
    ∷ (codes "symbolic-ref", describe 0 [] plain_args)
    ∷ (codes "tag", describe 0 [] plain_args)
    ∷ (codes "update-ref", describe 0 [] plain_args)
    ∷ (codes "upload-archive", describe (bit_or no_ref_updates no_end_of_options) [] plain_args)
    ∷ (
      codes "upload-pack",
      describe (bit_or no_ref_updates generates_packfiles)
          (pair "uploadpack.allowFilter" "true" ∷ pair "uploadpack.allowAnySHA1InWant" "true" ∷ [])
          plain_args,
    )
    ∷ (codes "version", describe no_ref_updates [] plain_args)
    ∷ (codes "worktree", describe 0 [] plain_args)
    ∷ []

pub command_descriptions : List (Text × CommandDescription)
unfolding first_descriptions later_descriptions
command_descriptions = first_descriptions ++ later_descriptions

pub find_description : Text → List (Text × CommandDescription) → Option CommandDescription
find_description name [] = none
find_description name ((n, c) ∷ rest) =
    if eq_text n name then some c else find_description name rest

-- The lookup of a name, with the error of every caller.
describe_command : Text → Option CommandDescription → Checked CommandDescription
describe_command name none = invalid (invalid_name name)
describe_command name (some c) = valid c

pub description_of : Text → Checked CommandDescription
unfolding describe_command find_description command_descriptions
description_of name = describe_command name (find_description name command_descriptions)

pub may_update_ref : CommandDescription → Bool
may_update_ref c = bit_and c.flags no_ref_updates == 0

pub may_generate_packfiles : CommandDescription → Bool
may_generate_packfiles c = not (bit_and c.flags generates_packfiles == 0)

pub supports_end_of_options : CommandDescription → Bool
supports_end_of_options c = bit_and c.flags no_end_of_options == 0

pub validate_positional_arg : Text → Checked (Unit {0})
validate_positional_arg arg =
    if has_prefix arg (codes "-") then invalid (invalid_positional arg) else valid tt

validate_rev_list_arg : Text → Checked (Unit {0})
unfolding validate_positional_arg
validate_rev_list_arg arg =
    if eq_text arg (codes "--all") || eq_text arg (codes "--not")
    then valid tt
    else validate_positional_arg arg

validate_arg : Validation → Text → Checked (Unit {0})
unfolding validate_positional_arg validate_rev_list_arg
validate_arg plain_args arg = validate_positional_arg arg
validate_arg rev_list_args arg = validate_rev_list_arg arg

validate_args : Validation → List Text → Checked (Unit {0})
unfolding validate_arg
validate_args v [] = valid tt
validate_args v (arg ∷ args) = validate_arg v arg >>= λ u. validate_args v args

pub all_option_args : List GitOption → Checked (List Text)
all_option_args [] = valid []
all_option_args (o ∷ os) = do args ← option_args o; rest ← all_option_args os; valid (args ++ rest)

pub end_of_options : CommandDescription → List Text
unfolding supports_end_of_options
end_of_options c = if supports_end_of_options c then codes "--end-of-options" ∷ [] else []

pub separated : List Text → List Text
separated [] = []
separated (a ∷ rest) = codes "--" ∷ a ∷ rest

pub args : CommandDescription → List GitOption → List Text → List Text → Checked (List Text)
unfolding all_option_args validate_args end_of_options separated
args c flags positional post_sep = do
  options ← all_option_args flags
  _ ← validate_args c.validation positional
  valid (options ++ end_of_options c ++ positional ++ separated post_sep)

pub data Cmd : Type 0 where
  -- The name, the flags, the positional arguments, the ones behind the separator.
  sub_cmd : Text → List GitOption → List Text → List Text → Cmd
  -- The same, with the action behind the name.
  sub_sub_cmd : Text → Text → List GitOption → List Text → List Text → Cmd

pub subcommand : Cmd → Text
subcommand (sub_cmd name flags positional post) = name
subcommand (sub_sub_cmd name action flags positional post) = name

check_action : Text → Checked (Unit {0})
check_action action = if is_name action then valid tt else invalid (invalid_action action)

pub command_args : Cmd → Checked (List Text)
unfolding description_of check_action
command_args (sub_cmd name flags positional post) = do
  c ← description_of name
  rest ← args c flags positional post
  valid (name ∷ rest)
command_args (sub_sub_cmd name action flags positional post) = do
  c ← description_of name
  _ ← check_action action
  rest ← args c flags positional post
  valid (name ∷ action ∷ rest)

-- `cmdCfg`, of which the command line reads these.
pub record CmdCfg : Type 0 where
  pub globals : List GlobalOption
  pub hooks_configured : Bool

abbrev pub CmdOpt : Type 0
CmdOpt = CmdCfg → Checked CmdCfg

pub apply_opts : List CmdOpt → CmdCfg → Checked CmdCfg
apply_opts [] config = valid config
apply_opts (opt ∷ opts) config = opt config >>= λ c. apply_opts opts c

check_hooks : Text → CommandDescription → CmdCfg → Checked CmdCfg
unfolding may_update_ref
check_hooks name c config =
    if not config.hooks_configured && may_update_ref c
    then invalid (hook_payload_required name)
    else valid config

pub combine_opts : Cmd → List CmdOpt → Checked CmdCfg
unfolding apply_opts check_hooks description_of
combine_opts sc opts = do
  c ← description_of (subcommand sc)
  config ← apply_opts opts (record { globals = []; hooks_configured = false })
  check_hooks (subcommand sc) c config

global_options : List GlobalOption
unfolding pair
global_options =
    pair "core.fsyncObjectFiles" "true" ∷ pair "gc.auto" "0" ∷ pair "core.autocrlf" "input" ∷ []

packfile_options : CommandDescription → List GlobalOption
unfolding pair may_generate_packfiles
packfile_options c =
    if may_generate_packfiles c
    then pair "pack.windowMemory" "100m" ∷ pair "pack.writeReverseIndex" "true" ∷ []
    else []

admin_options : List ConfigPair → List GlobalOption
admin_options [] = []
admin_options (p ∷ ps) = config_pair p ∷ admin_options ps

pub all_global_args : List GlobalOption → Checked (List Text)
all_global_args [] = valid []
all_global_args (o ∷ os) = do a ← global_args o; rest ← all_global_args os; valid (a ++ rest)

pub combined_globals : List ConfigPair → CommandDescription → CmdCfg → List GlobalOption
unfolding global_options packfile_options admin_options
combined_globals git_config c cc =
    global_options ++ c.opts ++ packfile_options c ++ cc.globals ++ admin_options git_config

pub combine_args : List ConfigPair → Cmd → CmdCfg → Checked (List Text)
unfolding combined_globals all_global_args description_of
combine_args git_config sc cc = do
  c ← description_of (subcommand sc)
  globals ← all_global_args (combined_globals git_config c cc)
  sc_args ← command_args sc
  valid (globals ++ sc_args)

-- The arguments of `newCommand`, without the repository's path.
pub command_line : List ConfigPair → Cmd → List CmdOpt → Checked (List Text)
command_line git_config sc opts = do
  config ← combine_opts sc opts
  combine_args git_config sc config
