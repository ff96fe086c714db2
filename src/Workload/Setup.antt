-- ===== src/Workload/Setup.antt =====
-- ycsbc/ycsbc.cc: the command line of the generator and the start of its `main`, and
-- ycsbc/db/db_factory.hpp. The properties and their files are those of ycsbc/core: `P` is the type of a
-- `Properties`, `load` reads the file of this name into one, and throws (none) where it cannot be opened.
-- `stoi` throws (none) where a text is no number, and `wl_init` says whether `Init` of the workload
-- takes these properties, where it throws otherwise.
pub mod Usage
use Prim.Native.String.{String, ◌++◌ as ◌<>◌}
use text.Mathlib.Text
use text.Mathlib.Text.{starts_with}
use contreap.Prelude.{
  ℕ, Bool, ◌≡◌, ◌≢◌, Option, none, some, List, [], ◌∷◌, true, false, if◌then◌else◌,
}
use contreap.Workload.Export
use contreap.Workload.Export.{Export}

-- `Properties`: `get` is none for a key that is not there.
pub record Properties (P : Type 0) : Type 0 where
  pub empty : P
  pub get : P → String → Option String
  pub set : P → String → String → P
  pub get-empty : (key : String) → get empty key ≡ none
  pub get-set : (p : P) (key value : String) → get (set p key value) key ≡ some value
  pub get-set_other :
      (p : P) (key value other : String) → other ≢ key → get (set p key value) other ≡ get p other

-- The ends of `ParseCommandLine`: a call of `exit`, an exception that nothing catches, or the properties
-- with the name of the workload.
pub data Parsed (P : Type 0) : Type 0 where
  exits uncaught : Parsed P
  parsed : P → String → Parsed P

-- `StrStartWith`
abbrev pub str_start_with : String → String → Bool
str_start_with str pre = starts_with str pre

pub data Kind : Type 0 where
  threads db workload unknown plain : Kind

unfoldable pub kind : String → Kind
kind arg =
    if str_start_with arg "-"
    then if Text.◌==◌ arg "-threads"
      then threads
      else if Text.◌==◌ arg "-db"
      then db
      else if Text.◌==◌ arg "-P"
      then workload
      else unknown
    else plain

-- What `CreateDB` returns: a new `Export` with the name of its file, null, or nothing where an exception
-- is thrown, which is no string and so is not caught.
pub data Created : Type 0 where
  export_to : String → Export → Created
  no_database thrown : Created

-- What the first part of `main` comes to: an end of the program, or a backend with the name of the
-- workload and the number of threads.
pub data Setup : Type 0 where
  exits uncaught : Setup
  ready : String → Export → String → ℕ → Setup

module _ {P : Type 0} (props : Properties P) (load : String → P → Option P)
    (stoi : String → Option ℕ) (wl_init : P → Bool) where
  -- `GetProperty`
  abbrev pub get_property : P → String → String → String
  get_property p key default_value = elim (props.get p key) [
    | none ↦ default_value
    | some value ↦ value
  ]

  -- `props.Load` of the workload's file, and the property of its name.
  abbrev pub load_workload : String → Option P → (P → String → Parsed P) → Parsed P
  load_workload name none go_on = Parsed.uncaught
  load_workload name (some p) go_on = go_on (props.set p "filename" name) name

  -- An option with its value, and what the loop does after it.
  abbrev pub take_option : Kind → String → P → String → (P → String → Parsed P) → Parsed P
  take_option threads value p filename go_on = go_on (props.set p "threadcount" value) filename
  take_option db value p filename go_on = go_on (props.set p "dbname" value) filename
  take_option workload value p filename go_on =
      load_workload value (load ("workloads/" <> value <> ".spec") p) go_on
  take_option unknown value p filename go_on = Parsed.exits
  take_option plain value p filename go_on = Parsed.exits

  -- The loop over the options, and the tests after it. An option at the end has no value.
  unfoldable pub parse_options : List String → P → String → Parsed P
  parse_options [] p filename = Parsed.parsed p filename
  parse_options (arg ∷ []) p filename = Parsed.exits
  parse_options (arg ∷ value ∷ rest) p filename =
      take_option (kind arg) value p filename (λ p' filename'. parse_options rest p' filename')

  -- At least one option is asked for.
  unfoldable pub parse_command_line : List String → P → Parsed P
  parse_command_line [] p = Parsed.exits
  parse_command_line (program ∷ []) p = Parsed.exits
  parse_command_line (program ∷ arg ∷ rest) p = parse_options (arg ∷ rest) p ""

  -- The new `Export`, with the two numbers that `stoi` reads.
  abbrev pub new_export : P → String → Option ℕ → Option ℕ → Created
  new_export p filename (some records) (some transactions) =
      Created.export_to ("export/" <> filename <> ".data") (
        Export.create records transactions
          (Text.◌==◌ (get_property p "updatedelete" "false") "true"))
  new_export p filename _ _ = Created.thrown

  unfoldable pub create_db : P → Created
  create_db p = elim (props.get p "dbname") [
    | none ↦ Created.thrown
    | some name ↦
        if Text.◌==◌ name "export"
        then elim (props.get p "filename") [
          | none ↦ Created.thrown
          | some filename ↦
              new_export p filename (stoi (get_property p "recordcount" "0"))
                (stoi (get_property p "operationcount" "0"))
        ]
        else Created.no_database
  ]

  -- The number of threads, once the workload is initialised.
  abbrev pub with_workload : Bool → String → Export → P → String → Setup
  with_workload false file e p name = Setup.uncaught
  with_workload true file e p name = elim (stoi (get_property p "threadcount" "1")) [
    | none ↦ Setup.uncaught
    | some num_threads ↦ Setup.ready file e name num_threads
  ]

  -- After `CreateDB`: a null pointer ends the program.
  abbrev pub with_db : Created → P → String → Setup
  with_db Created.thrown p name = Setup.uncaught
  with_db Created.no_database p name = Setup.exits
  with_db (Created.export_to file e) p name = with_workload (wl_init p) file e p name

  -- `main` up to its threads.
  unfoldable pub setup : List String → Setup
  setup argv = elim (parse_command_line argv props.empty) [
    | Parsed.exits ↦ Setup.exits
    | Parsed.uncaught ↦ Setup.uncaught
    | Parsed.parsed p name ↦ with_db (create_db p) p name
  ]
