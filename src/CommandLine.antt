-- ===== src/CommandLine.antt =====
-- main.cpp: the command line. `stoi` stands for the routine of the C++ library, with its result
-- converted to `size_t`; it throws (none) where the text is no number. A call of `ExitWithHint` and an
-- exception end the program.
pub mod Accepted
use Prim.Native.String.{String}
use text.Mathlib.Text
use text.Mathlib.Text.{starts_with}
use contreap.Prelude.{ℕ, ◌==◌, Bool, Option, none, some, List, [], ◌∷◌, true, false, if◌then◌else◌}

-- The variables that the command line sets.
pub record Settings : Type 0 where
  pub dbname : String
  pub filename : String
  pub num_threads : ℕ
  pub num_clients : ℕ
  pub batch_size : ℕ

pub data Parsed : Type 0 where
  exit_with_hint exception : Parsed
  parsed : Settings → Parsed

-- What an argument is: `plain` does not begin with a dash.
pub data Kind : Type 0 where
  threads clients batchsize unknown plain : Kind

unfoldable pub kind : String → Kind
kind arg =
    if starts_with arg "-"
    then if Text.◌==◌ arg "-threads"
      then threads
      else if Text.◌==◌ arg "-clients"
      then clients
      else if Text.◌==◌ arg "-batchsize"
      then batchsize
      else unknown
    else plain

abbrev pub positive_batch : ℕ → ℕ
positive_batch b = if b == 0 then 1 else b

-- The option of this kind with its number.
unfoldable pub set_option : Kind → ℕ → Settings → Settings
set_option threads n s = record s { num_threads = n }
set_option clients n s = record s { num_clients = n }
set_option batchsize n s = record s { batch_size = positive_batch n }
set_option unknown n s = s
set_option plain n s = s

-- Whether an option of this kind takes a number; the loop ends at any other argument.
abbrev pub takes_number : Kind → Bool
takes_number threads = true
takes_number clients = true
takes_number batchsize = true
takes_number unknown = false
takes_number plain = false

-- `cores` is what `hardware_concurrency` returns.
module _ (stoi : String → Option ℕ) (cores : ℕ) where
  -- The loop, and the test after it. An option at the end has no value.
  unfoldable pub parse_options : List String → Settings → Parsed
  parse_options [] s = parsed s
  parse_options (arg ∷ []) s = exit_with_hint
  parse_options (arg ∷ value ∷ rest) s = elim (takes_number (kind arg)) [
    | false ↦ exit_with_hint
    | true ↦ elim (stoi value) [
      | none ↦ exception
      | some n ↦ parse_options rest (set_option (kind arg) n s)
    ]
  ]

  abbrev pub defaults : String → String → Settings
  defaults dbname filename = record {
    dbname = dbname;
    filename = filename;
    num_threads = cores;
    num_clients = 1;
    batch_size = 1000;
  }

  -- `argv`, with the name of the program.
  unfoldable pub parse_command_line : List String → Parsed
  parse_command_line (program ∷ dbname ∷ filename ∷ options) =
      parse_options options (defaults dbname filename)
  parse_command_line argv = exit_with_hint

pub data Backend : Type 0 where
  new_sequential new_contreap new_pam : Backend

-- The object that `main` makes for this name.
unfoldable pub backend : String → Option Backend
backend dbname =
    if Text.◌==◌ dbname "sequential"
    then some new_sequential
    else if Text.◌==◌ dbname "contreap"
    then some new_contreap
    else if Text.◌==◌ dbname "pam"
    then some new_pam
    else none
