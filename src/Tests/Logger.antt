-- ===== src/Tests/Logger.antt =====
-- Runs of the logger.
use otus_c.Prelude.{ℕ, ◌≡◌, true, false, none, some, List, [], ◌∷◌, ◌++◌}
use otus_c.Prelude.Int.{pos}
use otus_c.Prelude.Text.{codes}
use otus_c.Logger.{
  Entry, LogLevel, info, error, debug, warning, Logger, Call, init, log, cleanup, initial, run,
}
use otus_c.Logger.Calls.{history, run_lem}

abbrev entry : LogLevel → Entry
entry level = record {
  level = level;
  file = codes "main.c";
  line = pos 15;
  func = codes "main";
  message = codes "Hello";
  symbols = codes "main" ∷ codes "_start" ∷ [];
}

abbrev session : List Call
session =
    log (entry debug)
    ∷ init (codes "app.log") false
    ∷ init (codes "app.log") true
    ∷ log (entry error)
    ∷ init (codes "other.log") true
    ∷ log (entry info)
    ∷ []

run_lem_example :
    (s : Logger) × (run (session ++ (cleanup ∷ log (entry warning) ∷ [])) initial ≡ some s)
    × (s.written ≡ history none session)
    × ((path : List ℕ) (e : Entry)
        → run
            (session ++ (cleanup ∷ ((log (entry warning) ∷ []) ++ (init path true ∷ log e ∷ []))))
            initial
          ≡ none)
run_lem_example =
    run_lem session (log (entry warning) ∷ []) (tt, (tt, (tt, (tt, (tt, (tt, tt)))))) (tt, tt)
