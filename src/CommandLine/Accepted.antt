-- ===== src/CommandLine/Accepted.antt =====
-- The command lines that main.cpp accepts.
use Prim.Native.String.{String}
use contreap.Prelude.{
  ℕ, ◌≡◌, ◌<◌, refl, sym, ap, ◌∙◌, arith, Option, some, List, [], ◌∷◌, true, inl, inr, Bool-cases,
  Option-cases,
}
use mathlib.Core.Path.{subst}
use mathlib.Core.Logic.{◌↔◌}
use contreap.CommandLine.{
  Settings, exit_with_hint, exception, parsed, Kind, kind, set_option, takes_number, parse_options,
  defaults, parse_command_line, threads, clients, batchsize, unknown, plain,
}

-- An option, its value, and the number that this value stands for.
pub record Choice : Type 0 where
  pub name : String
  pub value : String
  pub number : ℕ

abbrev pub arguments : List Choice → List String
arguments [] = []
arguments (c ∷ cs) = c.name ∷ c.value ∷ arguments cs

-- Each option in its turn, a later one over an earlier one.
abbrev pub choose : List Choice → Settings → Settings
choose [] s = s
choose (c ∷ cs) s = choose cs (set_option (kind c.name) c.number s)

no_settings : {s : Settings} → ¬ (exit_with_hint ≡ parsed s)
no_settings h = cc h

no_number : {s : Settings} → ¬ (exception ≡ parsed s)
no_number h = cc h

module _ (stoi : String → Option ℕ) (cores : ℕ) where
  pub data AllRead : List Choice → Type 0 where
    no_choice : AllRead []
    a_choice :
        (c : Choice) (cs : List Choice)
        → takes_number (kind c.name) ≡ true
        → stoi c.value ≡ some c.number
        → AllRead cs
        → AllRead (c ∷ cs)

  parse_options-arguments :
      {cs : List Choice} (s : Settings)
      → AllRead cs
      → parse_options stoi cores (arguments cs) s ≡ parsed (choose cs s)
  unfolding parse_options
  parse_options-arguments s no_choice = refl
  parse_options-arguments s (a_choice c cs takes number others) =
      rw
        (
          takes,
          number,
          parse_options-arguments (set_option (kind c.name) c.number s) others,
          parse_options,
        )
        refl

  parse_options-parsed :
      (options : List String) (s s' : Settings)
      → parse_options stoi cores options s ≡ parsed s'
      → (cs : List Choice) × (options ≡ arguments cs) × AllRead cs × (s' ≡ choose cs s)
  unfolding parse_options
  parse_options-parsed [] s s' h = ([], refl, no_choice, cc h)
  parse_options-parsed (arg ∷ []) s s' h = absurd (no_settings h)
  parse_options-parsed (arg ∷ value ∷ rest) s s' h = elim (Bool-cases (takes_number (kind arg))) [
    | inr other ↦ absurd (no_settings (rw (other, parse_options) at h))
    | inl takes ↦
        let h1 = rw (takes, parse_options) at h in
        elim (Option-cases (stoi value)) [
          | inl bad ↦ absurd (no_number (rw bad at h1))
          | inr (n, good) ↦
              let h2 = rw good at h1 in
              let (cs, shape, read, same) =
                parse_options-parsed rest (set_option (kind arg) n s) s' h2 in
              let c : Choice = record { name = arg; value = value; number = n } in
              (c ∷ cs, ap (λ more. arg ∷ value ∷ more) shape, a_choice c cs takes good read, same)
        ]
  ]

  -- A name of the program, a method, a file, and options that all have a value which is a number.
  pub record Accepted (argv : List String) (s : Settings) : Type 0 where
    pub program : String
    pub dbname : String
    pub filename : String
    pub choices : List Choice
    pub shape : argv ≡ (program ∷ dbname ∷ filename ∷ arguments choices)
    pub read : AllRead choices
    pub settings : s ≡ choose choices (defaults stoi cores dbname filename)

  -- The program starts with some settings where its arguments are its name, a method, a file and then
  -- only known options, each with a value that is a number, and the settings are the defaults with
  -- these options set one after the other; for any other arguments it ends with the hint or with the
  -- exception of `stoi`.
  pub parse_command_line-accepts :
      (argv : List String) (s : Settings)
      → (parse_command_line stoi cores argv ≡ parsed s) ↔ Accepted argv s
  unfolding parse_command_line
  parse_command_line-accepts argv s = (accept argv, reject)
    where
      accept :
          (argv : List String) → parse_command_line stoi cores argv ≡ parsed s → Accepted argv s
      accept [] h = absurd (no_settings h)
      accept (program ∷ []) h = absurd (no_settings h)
      accept (program ∷ dbname ∷ []) h = absurd (no_settings h)
      accept (program ∷ dbname ∷ filename ∷ options) h =
          let (cs, shape, read, same) =
            parse_options-parsed options (defaults stoi cores dbname filename) s h in
          record {
            program = program;
            dbname = dbname;
            filename = filename;
            choices = cs;
            shape = ap (λ more. program ∷ dbname ∷ filename ∷ more) shape;
            read = read;
            settings = same;
          }

      reject : Accepted argv s → parse_command_line stoi cores argv ≡ parsed s
      reject a =
          ap (parse_command_line stoi cores) a.shape
          ∙ parse_options-arguments (defaults stoi cores a.dbname a.filename) a.read
          ∙ ap parsed (sym a.settings)

  set_option-batch_size :
      (k : Kind) (n : ℕ) (s : Settings) → 0 < s.batch_size → 0 < (set_option k n s).batch_size
  unfolding set_option
  set_option-batch_size threads n s pos = pos
  set_option-batch_size clients n s pos = pos
  set_option-batch_size batchsize n s pos = ground arith
  set_option-batch_size unknown n s pos = pos
  set_option-batch_size plain n s pos = pos

  choose-batch_size :
      (cs : List Choice) (s : Settings) → 0 < s.batch_size → 0 < (choose cs s).batch_size
  choose-batch_size [] s pos = pos
  choose-batch_size (c ∷ cs) s pos =
      choose-batch_size cs (set_option (kind c.name) c.number s)
        (set_option-batch_size (kind c.name) c.number s pos)

  -- Whatever the arguments are, the batch size that the backends divide by is positive.
  pub parse_command_line-batch_size :
      (argv : List String) (s : Settings)
      → parse_command_line stoi cores argv ≡ parsed s
      → 0 < s.batch_size
  parse_command_line-batch_size argv s h =
      let a = (parse_command_line-accepts argv s).0 h in
      subst (λ t. 0 < t.batch_size) (sym a.settings)
        (choose-batch_size a.choices (defaults stoi cores a.dbname a.filename) (omega arith))
