-- ===== src/Ipc/Main.antt =====
-- The whole of HW08-IPC/src: from the arguments and the configuration to what is sent.
use otus_c.Prelude.{if◌then◌else◌, ℕ, Bool, true, false, List, [], ◌∷◌, ◌++◌}
use otus_c.Ipc.{Read, text, ended, failed, Action, sent, shut, unlinked, Socket}
use otus_c.Prelude.Int.{pos}
use otus_c.Ipc.Message.{message_of}

-- One connection: an answer for each text up to its end, or up to now.
pub replies : List ℕ → List Read → List Action × Bool
replies path [] = ([], false)
replies path (text file ∷ reads) =
    let (actions, done) = replies path reads in (sent (message_of path file) ∷ actions, done)
replies path (ended ∷ reads) = (shut ∷ [], true)
replies path (failed ∷ reads) = (shut ∷ [], true)

-- All connections, as long as each one ends; then the socket is removed.
pub session : List ℕ → List (List Read) → List Action
session path [] = unlinked ∷ []
session path (client ∷ clients) =
    let (actions, done) = replies path client in
    let more = session path clients in if done then actions ++ more else actions

-- A socket that is there, and bound to its name.
abbrev pub bound : ℕ → Socket
bound fd = record { socket = pos fd; bind = pos 0 }
