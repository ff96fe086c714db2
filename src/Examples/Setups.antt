-- ===== src/Examples/Setups.antt =====
-- Tests of the command line of ycsbc/ycsbc.cc, with functions as the properties.
use Prim.Native.String.{String}
use text.Mathlib.Text
use text.Mathlib.TextEquality.{eq_iff}
use contreap.Prelude.{
  Bool, ℕ, ◌≡◌, ◌≢◌, refl, false, Option, none, some, [], ◌∷◌, if◌then◌else◌, inl, inr, Bool-cases,
  true,
}
use contreap.Workload.Export
use contreap.Workload.Export.{Export}
use contreap.Workload.Setup.{
  Properties, Setup, kind, parse_options, parse_command_line, create_db, setup,
}
use contreap.Workload.Setup.Usage.{setup-ready, setup-usage}

abbrev Map : Type 0
Map = String → Option String

abbrev set : Map → String → String → Map
set p key value = λ k. if Text.◌==◌ k key then some value else p k

get-set : (p : Map) (key value : String) → set p key value key ≡ some value
get-set p key value = let same = (eq_iff key key).1 refl in rw same refl

get-set_other : (p : Map) (key value other : String) → other ≢ key → set p key value other ≡ p other
get-set_other p key value other ne = elim (Bool-cases (Text.◌==◌ other key)) [
  | inl e ↦ absurd (ne ((eq_iff other key).0 e))
  | inr e ↦ rw e refl
]

abbrev maps : Properties Map
maps = record {
  empty = λ k. none;
  get = λ p k. p k;
  set = set;
  get-empty = λ k. refl;
  get-set = get-set;
  get-set_other = get-set_other;
}

-- The only workload: two records and three operations.
abbrev load : String → Map → Option Map
load file p =
    if Text.◌==◌ file "workloads/small.spec"
    then some (set (set p "recordcount" "2") "operationcount" "3")
    else none

abbrev stoi : String → Option ℕ
stoi text =
    if Text.◌==◌ text "1"
    then some 1
    else if Text.◌==◌ text "2"
    then some 2
    else if Text.◌==◌ text "3"
    then some 3
    else none

-- The workload takes all properties.
abbrev wl_init : Map → Bool
wl_init p = true

-- A workload without a file ends the program by an exception that is not caught.
no_file :
    setup maps load stoi wl_init ("ycsbc" ∷ "-P" ∷ "other" ∷ "-db" ∷ "export" ∷ []) ≡ Setup.uncaught
unfolding setup parse_command_line parse_options kind
no_file = refl

-- So does a command line without `-db`.
no_database_name : setup maps load stoi wl_init ("ycsbc" ∷ "-P" ∷ "small" ∷ []) ≡ Setup.uncaught
unfolding setup parse_command_line parse_options kind create_db
no_database_name = refl

unknown_database :
    setup maps load stoi wl_init ("ycsbc" ∷ "-P" ∷ "small" ∷ "-db" ∷ "basic" ∷ []) ≡ Setup.exits
unfolding setup parse_command_line parse_options kind create_db
unknown_database = refl

setup_small :
    setup maps load stoi wl_init
      ("ycsbc" ∷ "-P" ∷ "small" ∷ "-threads" ∷ "1" ∷ "-db" ∷ "export" ∷ [])
    ≡ Setup.ready "export/small.data" (Export.create 2 3 false) "small" 1
unfolding setup parse_command_line parse_options kind create_db
setup_small = refl

setup-ready_example :
    (◌≡◌ {A = String} "export/small.data" "export/small.data")
    × ((Export.create 2 3 false).fs ≡ [])
    × ((Export.create 2 3 false).running ≡ false)
    × ((Export.create 2 3 false).inited ≡ false)
setup-ready_example =
    setup-ready maps load stoi wl_init
      ("ycsbc" ∷ "-P" ∷ "small" ∷ "-threads" ∷ "1" ∷ "-db" ∷ "export" ∷ []) "export/small.data"
      "small" (Export.create 2 3 false) 1 setup_small

setup-usage_example :
    setup maps load stoi wl_init ("ycsbc" ∷ "-db" ∷ "export" ∷ "-P" ∷ "small" ∷ [])
    ≡ Setup.ready "export/small.data" (Export.create 2 3 false) "small" 1
setup-usage_example =
    setup-usage maps load stoi wl_init "ycsbc" "small" "2" "3"
      (set (set (set (λ k. none) "dbname" "export") "recordcount" "2") "operationcount" "3") 2 3
      refl refl refl refl refl refl refl refl refl
