-- ===== src/Log.antt =====
-- utils/log.h: which messages a build prints. Disabled macros do not evaluate their arguments.
use Prim.Native.String.{String, ◌++◌ as ◌<>◌}
use contreap.Prelude.{ℕ, leb, Bool, List, [], ◌∷◌, ◌++◌, if◌then◌else◌}

-- `log_fatal` and the other macros.
pub data Level : Type 0 where
  fatal error warn info debug trace : Level

-- `LOG_FATAL` and the other numbers; `LOG_OFF` and `LOG_ALL` are no level of a message.
unfoldable pub rank : Level → ℕ
rank fatal = 1
rank error = 2
rank warn = 3
rank info = 4
rank debug = 5
rank trace = 6

abbrev pub log_off : ℕ
log_off = 0

abbrev pub log_all : ℕ
log_all = 7

-- `LOG_LEVEL` where the build does not set it, with or without `NDEBUG`.
unfoldable pub default_level : Bool → ℕ
unfolding rank
default_level ndebug = if ndebug then rank info else rank debug

-- The condition under which a macro prints.
unfoldable pub enabled : ℕ → Level → Bool
unfolding rank
enabled log_level level = leb (rank level) log_level

unfoldable pub name : Level → String
name fatal = "FATAL"
name error = "ERROR"
name warn = "WARN"
name info = "INFO"
name debug = "DEBUG"
name trace = "TRACE"

-- Where a macro stands; the number of the line is printed as it is written.
pub record Place : Type 0 where
  pub file : String
  pub line : String
  pub func : String

pub record Message : Type 0 where
  pub level : Level
  pub place : Place
  pub text : String

-- `__log_message`, with the text that `fmt` makes of its arguments.
unfoldable pub log_message : Message → String
unfolding name
log_message m =
    "["
    <> m.place.func
    <> "("
    <> m.place.file
    <> ":"
    <> m.place.line
    <> ")] "
    <> name m.level
    <> " - "
    <> m.text
    <> "\n"

-- What one macro writes to `stderr`.
unfoldable pub log : ℕ → Message → List String
log log_level m = if enabled log_level m.level then log_message m ∷ [] else []

-- What a sequence of macros writes.
unfoldable pub log_each : ℕ → List Message → List String
log_each log_level [] = []
log_each log_level (m ∷ messages) = log log_level m ++ log_each log_level messages
