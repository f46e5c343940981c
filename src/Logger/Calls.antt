-- ===== src/Logger/Calls.antt =====
-- The calls of the logger of HW06-Logger/src, from the start of a program on.
use otus_c.Prelude.{
  take, All, ℕ, ◌≡◌, refl, sym, subst, ap, ◌∙◌, true, false, Option, none, some, List, [], ◌∷◌,
  ◌++◌, map, append_assoc, append-nil,
}
use otus_c.Prelude.Text.{codes}
use otus_c.Prelude.Partial.{◌>>=◌}
use otus_c.Logger.{
  LogLevel, debug, info, warning, error, Stream, null, closed, opened, Logger, initial, Entry,
  write, write_symbols, print_stack_trace, heading, trace_if_error, is_null, logger_log,
  logger_init, close, logger_cleanup, Call, init, log, cleanup, call, run, main,
}

-- The calls before the end, and those that a program may still make after it.
abbrev pub IsUse : Call → Type 0
IsUse (init path opens) = Unit
IsUse (log e) = Unit
IsUse cleanup = ⊥

abbrev pub IsLog : Call → Type 0
IsLog (init path opens) = ⊥
IsLog (log e) = Unit
IsLog cleanup = ⊥

-- The lines of a stack trace.
pub trace_lines : List (List ℕ) → List (List ℕ)
trace_lines names = map (λ name. name ++ codes "\n") names

pub trace_of : LogLevel → List (List ℕ) → List (List ℕ)
trace_of debug symbols = []
trace_of info symbols = []
trace_of warning symbols = []
trace_of error symbols = trace_lines (take 10 symbols)

-- What one entry is in the file: its line, and for an error at most ten lines of trace.
pub entry_text : Entry → List (List ℕ)
entry_text e = heading e ∷ e.message ∷ codes "\n" ∷ trace_of e.level e.symbols

pub into : List ℕ → List (List ℕ) → List (List ℕ × List ℕ)
into path texts = map (λ text. (path, text)) texts

-- What a program writes that has opened the log, or has not: each entry from the first call of
-- logger_init on that could open its file, all in that file.
pub history : Option (List ℕ) → List Call → List (List ℕ × List ℕ)
history now [] = []
history none (init path true ∷ cs) = history (some path) cs
history none (init path false ∷ cs) = history none cs
history none (log e ∷ cs) = history none cs
history (some path) (init other opens ∷ cs) = history (some path) cs
history (some path) (log e ∷ cs) = into path (entry_text e) ++ history (some path) cs
history now (cleanup ∷ cs) = []

live : Option (List ℕ) → List (List ℕ × List ℕ) → Logger
live none w = record { log_fp = null; initialized = false; lock_destroyed = false; written = w }
live (some path) w = record {
  log_fp = opened path;
  initialized = true;
  lock_destroyed = false;
  written = w;
}

over : Stream → List (List ℕ × List ℕ) → Logger
over fp w = record { log_fp = fp; initialized = false; lock_destroyed = true; written = w }

write_lem :
    (path text : List ℕ) (w : List (List ℕ × List ℕ))
    → write text (live (some path) w) ≡ some (live (some path) (w ++ into path (text ∷ [])))
unfolding write live into
write_lem path text w = refl

into-append :
    (path : List ℕ) (xs ys : List (List ℕ)) → into path (xs ++ ys) ≡ into path xs ++ into path ys
unfolding into
into-append path [] ys = refl
into-append path (x ∷ xs) ys = ap (λ rest. (path, x) ∷ rest) (into-append path xs ys)

-- Two writes to the same file one after the other.
into_after :
    (path : List ℕ) (w : List (List ℕ × List ℕ)) (xs ys : List (List ℕ))
    → (w ++ into path xs) ++ into path ys ≡ w ++ into path (xs ++ ys)
into_after path w xs ys =
    append_assoc w (into path xs) (into path ys) ∙ ap (λ x. w ++ x) (sym (into-append path xs ys))

write_symbols_lem :
    (path : List ℕ) (names : List (List ℕ)) (w : List (List ℕ × List ℕ))
    → write_symbols names (live (some path) w)
      ≡ some (live (some path) (w ++ into path (trace_lines names)))
unfolding write_symbols trace_lines into
write_symbols_lem path [] w = ap (λ x. some (live (some path) x)) (sym (append-nil w))
write_symbols_lem path (name ∷ names) w =
    rw (write_lem path (name ++ codes "\n") w, write_symbols_lem path names)
      (ap (λ x. some (live (some path) x))
        (into_after path w ((name ++ codes "\n") ∷ []) (trace_lines names)))

trace_lem :
    (path : List ℕ) (level : LogLevel) (symbols : List (List ℕ)) (w : List (List ℕ × List ℕ))
    → trace_if_error level symbols (live (some path) w)
      ≡ some (live (some path) (w ++ into path (trace_of level symbols)))
unfolding trace_if_error trace_of print_stack_trace into
trace_lem path debug symbols w = ap (λ x. some (live (some path) x)) (sym (append-nil w))
trace_lem path info symbols w = ap (λ x. some (live (some path) x)) (sym (append-nil w))
trace_lem path warning symbols w = ap (λ x. some (live (some path) x)) (sym (append-nil w))
trace_lem path error symbols w = write_symbols_lem path (take 10 symbols) w

log_lem :
    (path : List ℕ) (e : Entry) (w : List (List ℕ × List ℕ))
    → logger_log e (live (some path) w) ≡ some (live (some path) (w ++ into path (entry_text e)))
log_lem path e w =
    opened_log
    ∙ rw
        (
          write_lem path (heading e),
          write_lem path e.message,
          write_lem path (codes "\n"),
          trace_lem path,
        )
        (ap (λ x. some (live (some path) x)) joined)
  where
    opened_log :
        logger_log e (live (some path) w)
        ≡ write (heading e) (live (some path) w) >>= (λ l.
          write e.message l >>= (λ l'. write (codes "\n") l' >>= trace_if_error e.level e.symbols))
    opened_log = unfold logger_log live is_null in refl

    joined :
        (((w ++ into path (heading e ∷ [])) ++ into path (e.message ∷ []))
            ++ into path (codes "\n" ∷ []))
          ++ into path (trace_of e.level e.symbols)
        ≡ w ++ into path (entry_text e)
    joined =
        unfold entry_text in
        ap (λ x. x ++ into path (trace_of e.level e.symbols))
          (ap (λ x. x ++ into path (codes "\n" ∷ []))
              (into_after path w (heading e ∷ []) (e.message ∷ []))
            ∙ into_after path w (heading e ∷ e.message ∷ []) (codes "\n" ∷ []))
        ∙ into_after path w (heading e ∷ e.message ∷ codes "\n" ∷ []) (trace_of e.level e.symbols)

-- A use of the live logger: what it adds to the file, and whether the log is open then.
after_use : Option (List ℕ) → Call → Option (List ℕ)
after_use (some path) c = some path
after_use none (init path true) = some path
after_use none (init path false) = none
after_use none (log e) = none
after_use none cleanup = none

use_text : Option (List ℕ) → Call → List (List ℕ × List ℕ)
use_text none c = []
use_text (some path) (init other opens) = []
use_text (some path) (log e) = into path (entry_text e)
use_text (some path) cleanup = []

history-use :
    (now : Option (List ℕ)) (c : Call) (cs : List Call)
    → IsUse c
    → history now (c ∷ cs) ≡ use_text now c ++ history (after_use now c) cs
unfolding history use_text after_use
history-use none (init path true) cs u = refl
history-use none (init path false) cs u = refl
history-use none (log e) cs u = refl
history-use none cleanup cs u = absurd u
history-use (some path) (init other opens) cs u = refl
history-use (some path) (log e) cs u = refl
history-use (some path) cleanup cs u = absurd u

call_lem :
    (now : Option (List ℕ)) (c : Call) (w : List (List ℕ × List ℕ))
    → IsUse c
    → call c (live now w) ≡ some (live (after_use now c) (w ++ use_text now c))
unfolding call use_text after_use
call_lem none (init path true) w u =
    unfold logger_init live in ap (λ x. some (live (some path) x)) (sym (append-nil w))
call_lem none (init path false) w u =
    unfold logger_init live in ap (λ x. some (live none x)) (sym (append-nil w))
call_lem none (log e) w u =
    unfold logger_log live in ap (λ x. some (live none x)) (sym (append-nil w))
call_lem none cleanup w u = absurd u
call_lem (some path) (init other opens) w u =
    unfold logger_init live in ap (λ x. some (live (some path) x)) (sym (append-nil w))
call_lem (some path) (log e) w u = log_lem path e w
call_lem (some path) cleanup w u = absurd u

end_of : Option (List ℕ) → Stream
end_of none = null
end_of (some path) = closed

cleanup_lem :
    (now : Option (List ℕ)) (w : List (List ℕ × List ℕ))
    → logger_cleanup (live now w) ≡ some (over (end_of now) w)
unfolding logger_cleanup live over end_of is_null close
cleanup_lem none w = refl
cleanup_lem (some path) w = refl

-- After the end the calls of logger_log do nothing.
run-over :
    (logs rest : List Call) (fp : Stream) (w : List (List ℕ × List ℕ))
    → All IsLog logs
    → run (logs ++ rest) (over fp w) ≡ run rest (over fp w)
unfolding run call
run-over [] rest fp w u = refl
run-over (log e ∷ logs) rest fp w (u, us) = ignored e ∙ run-over logs rest fp w us
  where
    ignored :
        (e : Entry)
        → logger_log e (over fp w) >>= run (logs ++ rest) ≡ run (logs ++ rest) (over fp w)
    ignored e = unfold logger_log over in refl
run-over (init path opens ∷ logs) rest fp w (u, us) = absurd u
run-over (cleanup ∷ logs) rest fp w (u, us) = absurd u

ended :
    (now : Option (List ℕ)) (rest : List Call) (w : List (List ℕ × List ℕ))
    → run (cleanup ∷ rest) (live now w) ≡ run rest (over (end_of now) w)
unfolding run call
ended now rest w = rw (cleanup_lem now w)

history-nil : (now : Option (List ℕ)) → history now [] ≡ []
unfolding history
history-nil none = refl
history-nil (some path) = refl

run-live :
    (cs logs rest : List Call) (now : Option (List ℕ)) (w : List (List ℕ × List ℕ))
    → All IsUse cs
    → All IsLog logs
    → (fp : Stream) × (run (cs ++ (cleanup ∷ (logs ++ rest))) (live now w)
        ≡ run rest (over fp (w ++ history now cs)))
unfolding run
run-live [] logs rest now w us ls = (
  end_of now,
  ended now (logs ++ rest) w
      ∙ run-over logs rest _ w ls
      ∙ ap (λ x. run rest (over (end_of now) x))
          (sym (append-nil w) ∙ ap (λ x. w ++ x) (sym (history-nil now))),
)
run-live (c ∷ cs) logs rest now w (u, us) ls =
    let (fp, ran) = run-live cs logs rest (after_use now c) (w ++ use_text now c) us ls in
    let text : (w ++ use_text now c) ++ history (after_use now c) cs ≡ w ++ history now (c ∷ cs) =
      append_assoc w (use_text now c) (history (after_use now c) cs)
      ∙ ap (λ x. w ++ x) (sym (history-use now c cs u)) in
    (fp, rw (call_lem now c w u) (ran ∙ ap (λ x. run rest (over fp x)) text))

reused :
    (path : List ℕ) (e : Entry) (fp : Stream) (w : List (List ℕ × List ℕ))
    → run (init path true ∷ log e ∷ []) (over fp w) ≡ none
unfolding run call logger_init logger_log over is_null
reused path e fp w = refl

-- A program that calls logger_init and logger_log in any order, then logger_cleanup, then logger_log
-- any number of times, runs to its end: no write to a closed stream, no use of the lock after it was
-- destroyed. The files then hold the entries from the first successful logger_init up to
-- logger_cleanup, in the order of the calls, all in the file of that logger_init. But the logger cannot
-- be started again: an entry after another logger_init locks the destroyed lock.
pub run_lem :
    (cs logs : List Call)
    → All IsUse cs
    → All IsLog logs
    → (s : Logger) × (run (cs ++ (cleanup ∷ logs)) initial ≡ some s)
      × (s.written ≡ history none cs)
      × ((path : List ℕ) (e : Entry)
          → run (cs ++ (cleanup ∷ (logs ++ (init path true ∷ log e ∷ [])))) initial ≡ none)
unfolding run
run_lem cs logs us ls =
    let (fp, ran) = run-live cs logs [] none [] us ls in
    (
      over fp (history none cs),
      rw start (
          subst (λ l. run (cs ++ (cleanup ∷ l)) (live none []) ≡ some (over fp (history none cs)))
            (append-nil logs) ran),
      unfold over in refl,
      λ path e. rw start (
          let (fp', ran') = run-live cs logs (init path true ∷ log e ∷ []) none [] us ls in
          ran' ∙ reused path e fp' (history none cs)),
    )
  where
    start : initial ≡ live none []
    start = unfold initial live in refl

run-init :
    (path : List ℕ) (cs : List Call) (logger : Logger)
    → run (init path true ∷ cs) logger ≡ run cs (logger_init path true logger).0
unfolding run call
run-init path cs logger = refl

-- main.c: its four entries are in app.log, or the log cannot be opened and it stops.
main-run :
    (a b c d : Entry)
    → (main a b c d false ≡ some (initial, true))
      × (s : Logger) × (main a b c d true ≡ some (s, false))
      × (s.written
          ≡ history none (init (codes "app.log") true ∷ log a ∷ log b ∷ log c ∷ log d ∷ []))
unfolding main initial logger_init
main-run a b c d =
    let (s, ran, text, reuse) =
      run_lem (init (codes "app.log") true ∷ log a ∷ log b ∷ log c ∷ log d ∷ []) []
        (tt, (tt, (tt, (tt, (tt, tt))))) tt in
    (refl, s, ap (λ r. r >>= (λ l. some (l, false))) (sym (run-init _ _ initial) ∙ ran), text)
