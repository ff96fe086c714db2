-- ===== src/Workload/Setup/Usage.antt =====
-- ycsbc/ycsbc.cc: what a command line of the generator leads to.
use Prim.Native.String.{String, ◌++◌ as ◌<>◌}
use text.Mathlib.Text
use mathlib.Core.Path.{subst}
use text.Mathlib.TextEquality.{eq_iff}
use contreap.Prelude.{
  true, false, Bool, ℕ, ◌≡◌, ◌≢◌, ◌⊎◌, inl, inr, refl, ap, ◌∙◌, Option, none, some, List, [], ◌∷◌,
  Bool-cases, Option-cases,
}
use contreap.Workload.Export
use contreap.Workload.Export.{Export}
use contreap.Workload.Setup.{
  Properties, Parsed, Kind, threads, db, workload, unknown, plain, kind, Created, Setup,
  get_property, load_workload, take_option, parse_options, parse_command_line, new_export,
  create_db, with_workload, with_db, setup,
}

differs : (s t : String) → Text.◌==◌ s t ≡ false → s ≢ t
differs s t h e = let same = (eq_iff s t).1 e in let both : ⊥ = cc (same, h) in both

module _ {P : Type 0} (props : Properties P) (load : String → P → Option P)
    (stoi : String → Option ℕ) (wl_init : P → Bool) where
  -- The workload that was named last is the property of its name, if there is one.
  abbrev Named : P → String → Type 0
  Named p filename = (props.get p "filename" ≡ some filename) ⊎ (props.get p "filename" ≡ none)

  Named-set :
      (p : P) (filename key value : String)
      → "filename" ≢ key
      → Named p filename
      → Named (props.set p key value) filename
  Named-set p filename key value other (inl e) =
      inl (props.get-set_other p key value "filename" other ∙ e)
  Named-set p filename key value other (inr e) =
      inr (props.get-set_other p key value "filename" other ∙ e)

  -- What holds of the properties and the name that are parsed.
  abbrev IfParsed : (P → String → Type 0) → Parsed P → Type 0
  IfParsed R Parsed.exits = Unit
  IfParsed R Parsed.uncaught = Unit
  IfParsed R (Parsed.parsed p name) = R p name

  load_workload-Named :
      (name : String) (o : Option P) (go_on : P → String → Parsed P)
      → ((p : P) (filename : String) → Named p filename → IfParsed Named (go_on p filename))
      → IfParsed Named (load_workload props load stoi wl_init name o go_on)
  load_workload-Named name none go_on later = tt
  load_workload-Named name (some p) go_on later =
      later (props.set p "filename" name) name (inl (props.get-set p "filename" name))

  take_option-Named :
      (k : Kind) (value : String) (p : P) (filename : String) (go_on : P → String → Parsed P)
      → Named p filename
      → ((p' : P) (filename' : String) → Named p' filename' → IfParsed Named (go_on p' filename'))
      → IfParsed Named (take_option props load stoi wl_init k value p filename go_on)
  take_option-Named threads value p filename go_on h later =
      later _ filename (Named-set p filename "threadcount" value (differs _ _ refl) h)
  take_option-Named db value p filename go_on h later =
      later _ filename (Named-set p filename "dbname" value (differs _ _ refl) h)
  take_option-Named workload value p filename go_on h later =
      load_workload-Named value (load ("workloads/" <> value <> ".spec") p) go_on later
  take_option-Named unknown value p filename go_on h later = tt
  take_option-Named plain value p filename go_on h later = tt

  parse_options-Named :
      (args : List String) (p : P) (filename : String)
      → Named p filename
      → IfParsed Named (parse_options props load stoi wl_init args p filename)
  unfolding parse_options
  parse_options-Named [] p filename h = h
  parse_options-Named (arg ∷ []) p filename h = tt
  parse_options-Named (arg ∷ value ∷ rest) p filename h =
      take_option-Named (kind arg) value p filename
        (λ p' filename'. parse_options props load stoi wl_init rest p' filename') h
        (λ p' filename' h'. parse_options-Named rest p' filename' h')

  parse_command_line-Named :
      (argv : List String)
      → IfParsed Named (parse_command_line props load stoi wl_init argv props.empty)
  unfolding parse_command_line
  parse_command_line-Named [] = tt
  parse_command_line-Named (program ∷ []) = tt
  parse_command_line-Named (program ∷ arg ∷ rest) =
      parse_options-Named (arg ∷ rest) props.empty "" (inr (props.get-empty "filename"))

  -- What a setup is ready to do.
  abbrev Fresh : String → Export → String → Type 0
  Fresh file e name =
      (file ≡ "export/" <> name <> ".data") × (e.fs ≡ []) × (e.running ≡ false) × (e.inited ≡ false)

  abbrev IfCreated : String → Created → Type 0
  IfCreated name (Created.export_to file e) = Fresh file e name
  IfCreated name Created.no_database = Unit
  IfCreated name Created.thrown = Unit

  new_export-Fresh :
      (p : P) (name : String) (n m : Option ℕ)
      → IfCreated name (new_export props load stoi wl_init p name n m)
  unfolding Export.create
  new_export-Fresh p name (some n) (some m) = (refl, refl, refl, refl)
  new_export-Fresh p name (some n) none = tt
  new_export-Fresh p name none m = tt

  create_db-Fresh :
      (p : P) (name : String) → Named p name → IfCreated name (create_db props load stoi wl_init p)
  unfolding create_db
  create_db-Fresh p name h = elim (Option-cases (props.get p "dbname")) [
    | inl e ↦ rw (e, create_db) tt
    | inr (dbname, e) ↦ elim (Bool-cases (Text.◌==◌ dbname "export")) [
      | inr f ↦ rw (e, f, create_db) tt
      | inl f ↦ elim h [
        | inl n ↦
            rw (e, f, n, create_db)
              (new_export-Fresh p name
                (stoi (get_property props load stoi wl_init p "recordcount" "0"))
                (stoi (get_property props load stoi wl_init p "operationcount" "0")))
        | inr n ↦ rw (e, f, n, create_db) tt
      ]
    ]
  ]

  -- What holds of a setup that is ready.
  abbrev IfReady : Setup → Type 0
  IfReady Setup.exits = Unit
  IfReady Setup.uncaught = Unit
  IfReady (Setup.ready file e name num_threads) = Fresh file e name

  with_workload-Ready :
      (taken : Bool) (file : String) (e : Export) (p : P) (name : String)
      → Fresh file e name
      → IfReady (with_workload props load stoi wl_init taken file e p name)
  with_workload-Ready false file e p name h = tt
  with_workload-Ready true file e p name h =
      elim (Option-cases (stoi (get_property props load stoi wl_init p "threadcount" "1"))) [
        | inl t ↦ rw (t, with_workload) tt
        | inr (n, t) ↦ rw (t, with_workload) h
      ]

  with_db-Ready :
      (c : Created) (p : P) (name : String)
      → IfCreated name c
      → IfReady (with_db props load stoi wl_init c p name)
  with_db-Ready Created.thrown p name h = tt
  with_db-Ready Created.no_database p name h = tt
  with_db-Ready (Created.export_to file e) p name h =
      with_workload-Ready (wl_init p) file e p name h

  setup-IfReady : (argv : List String) → IfReady (setup props load stoi wl_init argv)
  unfolding setup
  setup-IfReady argv =
      from_parsed (parse_command_line props load stoi wl_init argv props.empty)
        (parse_command_line-Named argv)
    where
      from_parsed :
          (r : Parsed P)
          → IfParsed Named r
          → IfReady (elim r [
            | Parsed.exits ↦ Setup.exits
            | Parsed.uncaught ↦ Setup.uncaught
            | Parsed.parsed p name ↦
                with_db props load stoi wl_init (create_db props load stoi wl_init p) p name
          ])
      from_parsed Parsed.exits h = tt
      from_parsed Parsed.uncaught h = tt
      from_parsed (Parsed.parsed p name) h =
          with_db-Ready (create_db props load stoi wl_init p) p name (create_db-Fresh p name h)

  -- Whatever the options are, their order and repetitions, and whatever the files of the workloads hold:
  -- a generator that comes to its threads has an `Export` that is neither running nor initialised, with
  -- nothing written, and its file is that of the workload whose name `main` prints, the last one named.
  pub setup-ready :
      (argv : List String) (file name : String) (e : Export) (num_threads : ℕ)
      → setup props load stoi wl_init argv ≡ Setup.ready file e name num_threads
      → (file ≡ "export/" <> name <> ".data")
        × (e.fs ≡ [])
        × (e.running ≡ false)
        × (e.inited ≡ false)
  setup-ready argv file name e num_threads h = subst IfReady h (setup-IfReady argv)

  setup-parts :
      (argv : List String) (p : P) (name file : String) (e : Export) (num_threads : ℕ)
      → parse_command_line props load stoi wl_init argv props.empty ≡ Parsed.parsed p name
      → create_db props load stoi wl_init p ≡ Created.export_to file e
      → stoi (get_property props load stoi wl_init p "threadcount" "1") ≡ some num_threads
      → wl_init p ≡ true
      → setup props load stoi wl_init argv ≡ Setup.ready file e name num_threads
  unfolding setup
  setup-parts argv p name file e num_threads parsed made counted taken =
      ap
        (λ (r : Parsed P). elim r [
          | Parsed.exits ↦ Setup.exits
          | Parsed.uncaught ↦ Setup.uncaught
          | Parsed.parsed q filename ↦
              with_db props load stoi wl_init (create_db props load stoi wl_init q) q filename
        ])
        parsed
      ∙ ap (λ c. with_db props load stoi wl_init c p name) made
      ∙ rw (taken, counted, with_workload) refl

  -- With the options of the README, `-db export -P name`: where the file of the workload is read and
  -- leaves the name of the database, and gives numbers of records and of operations and no number of
  -- threads, and where `Init` of the workload takes these properties, the generator comes to one thread and an `Export` with these two numbers.
  pub setup-usage :
      (program name records operations : String) (spec : P) (n m : ℕ)
      → load ("workloads/" <> name <> ".spec") (props.set props.empty "dbname" "export") ≡ some spec
      → props.get spec "dbname" ≡ some "export"
      → props.get spec "recordcount" ≡ some records
      → props.get spec "operationcount" ≡ some operations
      → props.get spec "threadcount" ≡ none
      → stoi records ≡ some n
      → stoi operations ≡ some m
      → stoi "1" ≡ some 1
      → wl_init (props.set spec "filename" name) ≡ true
      → setup props load stoi wl_init (program ∷ "-db" ∷ "export" ∷ "-P" ∷ name ∷ [])
        ≡ Setup.ready
            ("export/" <> name <> ".data")
            (Export.create n m
              (Text.◌==◌ (get_property props load stoi wl_init spec "updatedelete" "false") "true"))
            name
            1
  unfolding setup parse_command_line parse_options kind create_db
  setup-usage program name records operations spec n m loaded dbname recs ops one_thread n_eq m_eq
        one taken =
      let p = props.set spec "filename" name in
      let kept : (key : String) (o : Option String)
          → Text.◌==◌ key "filename" ≡ false
          → props.get spec key ≡ o
          → props.get p key ≡ o =
        λ key o other e.
          props.get-set_other spec "filename" name key (differs key "filename" other) ∙ e in
      let named = props.get-set spec "filename" name in
      let db1 = kept "dbname" (some "export") refl dbname in
      let recs1 = kept "recordcount" (some records) refl recs in
      let ops1 = kept "operationcount" (some operations) refl ops in
      let threads1 = kept "threadcount" none refl one_thread in
      let upd1 = kept "updatedelete" (props.get spec "updatedelete") refl refl in
      let default : Option String → String = λ o. elim o [ none ↦ "false" | some value ↦ value ] in
      let e : Export =
        Export.create n m (Text.◌==◌ (default (props.get spec "updatedelete")) "true") in
      let parsed : parse_command_line props load stoi wl_init
            (program ∷ "-db" ∷ "export" ∷ "-P" ∷ name ∷ []) props.empty
          ≡ Parsed.parsed p name =
        ap
          (λ o.
            load_workload props load stoi wl_init name o
              (λ p' filename'. Parsed.parsed p' filename'))
          loaded in
      let made : create_db props load stoi wl_init p
          ≡ Created.export_to ("export/" <> name <> ".data") e =
        rw (db1, named, recs1, ops1, n_eq, m_eq, upd1, create_db, get_property) refl in
      setup-parts (program ∷ "-db" ∷ "export" ∷ "-P" ∷ name ∷ []) p name
        ("export/" <> name <> ".data") e 1 parsed made (rw (threads1, get_property) one) taken
