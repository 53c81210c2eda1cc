-- ===== src/Git/Version/Samples.antt =====
-- Two versions of Git, and the theorem at them.
use gitally.Prelude.{◌≡◌, refl, true, false, some, ltb}
use gitally.Git.{codes, eq_text, has_prefix}
use gitally.Git.Options.{cut}
use gitally.Git.Version.{
  Version, less_than, split_n, digits, within_32_bits, parse_uint32, is_candidate, first_part,
  parse_part, set_gl, parse_rest, numbered, parse_split, parse_version, trim_left, trim_right,
  written, parse_words, parse_version_from_command,
}
use gitally.Git.Version.Order.{rank, parsed-less_than}

abbrev candidate : Version
candidate = record {
  version_string = codes "2.33.0-rc1";
  major = 2;
  minor = 33;
  patch = 0;
  rc = true;
  gl = 0;
}

abbrev patched : Version
patched = record {
  version_string = codes "2.33.0.gl3";
  major = 2;
  minor = 33;
  patch = 0;
  rc = false;
  gl = 3;
}

parsed_candidate : parse_version (codes "2.33.0-rc1") ≡ some candidate
unfolding parse_version parse_split split_n numbered parse_part parse_uint32 within_32_bits digits
    is_candidate first_part parse_rest eq_text has_prefix cut
parsed_candidate = refl

parsed_patched : parse_version (codes "2.33.0.gl3") ≡ some patched
unfolding parse_version parse_split split_n numbered parse_part parse_uint32 within_32_bits digits
    is_candidate first_part parse_rest set_gl eq_text has_prefix cut
parsed_patched = refl

command_output :
    parse_version_from_command (written (codes "git version 2.33.0.gl3\n") true) ≡ some patched
unfolding parse_version_from_command parse_words trim_left trim_right parse_version parse_split
    split_n numbered parse_part parse_uint32 within_32_bits digits is_candidate first_part
    parse_rest set_gl eq_text has_prefix cut
command_output = refl

parsed-less_than_example : less_than candidate patched ≡ ltb (rank candidate) (rank patched)
parsed-less_than_example =
    parsed-less_than (codes "2.33.0-rc1") (codes "2.33.0.gl3") candidate patched parsed_candidate
      parsed_patched
