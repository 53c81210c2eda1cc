-- ===== src/Git/Commands/Samples.antt =====
-- A git-log(1) with a flag, a revision and a path, and the theorems at it.
use gitally.Prelude.{◌≡◌, ◌⊎◌, refl, true, false, List, [], ◌∷◌, ◌++◌}
use gitally.Git.{Text, codes, eq_text, is_alnum, has_prefix}
use gitally.Git.Options.{
  valid, ConfigPair, config_pair, global_option, flag, global_args, is_global_key, match_key,
  key_step, is_key_char, is_in_part, is_flag, flag_args, option_args, convert_config_options,
}
use gitally.Git.Options.Pairs.{as_argument, global_args-convert}
use gitally.Git.Commands.{
  CommandDescription, description_of, describe_command, find_description, command_descriptions,
  first_descriptions, later_descriptions, describe, pair, may_update_ref, supports_end_of_options,
  may_generate_packfiles, validate_positional_arg, validate_arg, validate_args, all_option_args,
  end_of_options, separated, args, Cmd, sub_cmd, subcommand, command_args, CmdCfg, apply_opts,
  check_hooks, combine_opts, global_options, packfile_options, admin_options, all_global_args,
  combined_globals, combine_args, command_line, hidden_receive_pack_ref_prefixes,
}
use gitally.Git.Commands.Arguments.{IsCommand, no_options, command_line-IsCommand}

abbrev log_cmd : Cmd
log_cmd =
    sub_cmd (codes "log") (global_option (flag (codes "--oneline")) ∷ []) (codes "main" ∷ [])
      (codes "README.md" ∷ [])

abbrev admin : List ConfigPair
admin = record { key = codes "core.bare"; value = codes "a=b" } ∷ []

abbrev globals : List Text
globals =
    codes "-c"
    ∷ codes "core.fsyncObjectFiles=true"
    ∷ codes "-c"
    ∷ codes "gc.auto=0"
    ∷ codes "-c"
    ∷ codes "core.autocrlf=input"
    ∷ codes "-c"
    ∷ codes "core.bare=a=b"
    ∷ []

abbrev command : List Text
command =
    codes "log"
    ∷ codes "--oneline"
    ∷ codes "--end-of-options"
    ∷ codes "main"
    ∷ codes "--"
    ∷ codes "README.md"
    ∷ []

made : command_line admin log_cmd [] ≡ valid (globals ++ command)
unfolding command_line combine_opts combine_args command_args subcommand description_of
    describe_command find_description command_descriptions first_descriptions later_descriptions
    describe pair may_update_ref supports_end_of_options may_generate_packfiles apply_opts
    check_hooks combined_globals global_options packfile_options admin_options all_global_args
    all_option_args args validate_args validate_arg validate_positional_arg end_of_options separated
    hidden_receive_pack_ref_prefixes eq_text is_alnum has_prefix global_args is_global_key match_key
    key_step is_key_char is_in_part option_args is_flag flag_args
made = refl

command_line-IsCommand_example :
    (config : CmdCfg) × (c : CommandDescription) × (globals' : List Text) × (command' : List Text)
    × (apply_opts [] no_options ≡ valid config)
    × (description_of (codes "log") ≡ valid c)
    × ((may_update_ref c ≡ false) ⊎ (config.hooks_configured ≡ true))
    × (all_global_args (combined_globals admin c config) ≡ valid globals')
    × IsCommand log_cmd c command'
    × (globals ++ command ≡ globals' ++ command')
unfolding subcommand
command_line-IsCommand_example = command_line-IsCommand admin log_cmd [] (globals ++ command) made

abbrev bare : ConfigPair
bare = record { key = codes "core.bare"; value = codes "a=b" }

bare_args : global_args (config_pair bare) ≡ valid (codes "-c" ∷ codes "core.bare=a=b" ∷ [])
unfolding global_args is_global_key match_key key_step is_key_char is_in_part is_alnum
bare_args = refl

global_args-convert_example :
    (codes "-c" ∷ codes "core.bare=a=b" ∷ [] ≡ codes "-c" ∷ as_argument bare ∷ [])
    × (convert_config_options (as_argument bare ∷ []) ≡ valid (bare ∷ []))
global_args-convert_example =
    global_args-convert bare (codes "-c" ∷ codes "core.bare=a=b" ∷ []) bare_args
