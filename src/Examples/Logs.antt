-- ===== src/Examples/Logs.antt =====
-- Tests of utils/log.h.
use contreap.Prelude.{◌≡◌, refl, true, List, [], ◌∷◌}
use contreap.Log.{
  debug, fatal, Place, Message, rank, default_level, name, enabled, log_message, log, log_each,
}

abbrev place : Place
place = record { file = "main.cpp"; line = "34"; func = "ParseCommandLine" }

abbrev messages : List Message
messages =
    record { level = debug; place = place; text = "start" }
    ∷ record { level = fatal; place = place; text = "Unknown option" }
    ∷ []

log_release :
    log_each (default_level true) messages
    ≡ ("[ParseCommandLine(main.cpp:34)] FATAL - Unknown option\n" ∷ [])
unfolding log_each log enabled log_message name default_level rank
log_release = refl
