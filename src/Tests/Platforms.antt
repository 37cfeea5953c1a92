-- ===== src/Tests/Platforms.antt =====
-- A small standard library: enough of the parsers to run the validators on ordinary inputs.
use job_board.Prelude.{not, ◌&&◌, [], none, some, if◌then◌else◌, is_empty, all}
use job_board.Text.{txt, text_eq, has_prefix, drop_prefix, to_lower, is_digit}
use job_board.Domain.Values.{Platform}

abbrev pub ascii_platform : Platform
ascii_platform = record {
  lower_rune = λ c. c;
  equal_fold = λ s t. text_eq (to_lower (λ c. c) s) (to_lower (λ c. c) t);
  sprint_other = λ v. [];
  parses_float = λ s. not (is_empty s) && all is_digit s;
  parses_address = λ s. not (is_empty s);
  parse_request_uri = λ s.
      if has_prefix s (txt "https://")
      then some (txt "https", drop_prefix s (txt "https://"))
      else none;
}
