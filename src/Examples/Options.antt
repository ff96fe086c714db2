-- ===== src/Examples/Options.antt =====
-- Tests of the command line of main.cpp.
use Prim.Native.String.{String}
use text.Mathlib.Text
use contreap.Prelude.{ℕ, ◌≡◌, ◌<◌, refl, Option, none, some, List, [], ◌∷◌, if◌then◌else◌}
use mathlib.Core.Logic.{◌↔◌}
use contreap.CommandLine.{
  Settings, parsed, exit_with_hint, exception, kind, set_option, parse_options, parse_command_line,
  backend, new_pam,
}
use contreap.CommandLine.Accepted.{
  Accepted, parse_command_line-accepts, parse_command_line-batch_size,
}

-- A reader of two numbers.
abbrev pub stoi : String → Option ℕ
stoi text = if Text.◌==◌ text "4" then some 4 else if Text.◌==◌ text "0" then some 0 else none

abbrev pub arguments : List String
arguments = "contreap" ∷ "pam" ∷ "workload.data" ∷ "-clients" ∷ "4" ∷ "-batchsize" ∷ "0" ∷ []

abbrev pub settings : Settings
settings = record {
  dbname = "pam";
  filename = "workload.data";
  num_threads = 8;
  num_clients = 4;
  batch_size = 1;
}

pub parse_arguments : parse_command_line stoi 8 arguments ≡ parsed settings
unfolding parse_command_line parse_options set_option kind
parse_arguments = refl

no_value : parse_command_line stoi 8 ("contreap" ∷ "pam" ∷ "f" ∷ "-threads" ∷ []) ≡ exit_with_hint
unfolding parse_command_line parse_options
no_value = refl

no_number : parse_command_line stoi 8 ("contreap" ∷ "pam" ∷ "f" ∷ "-threads" ∷ "x" ∷ []) ≡ exception
unfolding parse_command_line parse_options kind
no_number = refl

backend_pam : backend "pam" ≡ some new_pam
unfolding backend
backend_pam = refl

parse_command_line-accepts_example :
    (parse_command_line stoi 8 arguments ≡ parsed settings) ↔ Accepted stoi 8 arguments settings
parse_command_line-accepts_example = parse_command_line-accepts stoi 8 arguments settings

parse_command_line-batch_size_example : 0 < settings.batch_size
parse_command_line-batch_size_example =
    parse_command_line-batch_size stoi 8 arguments settings parse_arguments
