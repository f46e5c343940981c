-- ===== src/Tests/Ipc.antt =====
-- Runs of the file size server's theorems.
use otus_c.Prelude.{length, ℕ, ◌≤◌, ◌≡◌, true, false, none, some, List, [], ◌∷◌}
use otus_c.Prelude.Text.{codes}
use otus_c.Ipc.{FileState, Read, text, ended, get_responce}
use otus_c.Ipc.Message.{message_of, get_responce_lem}

abbrev path : List ℕ
path = codes "/etc/passwd"

abbrev present : FileState
present = record { exists = true; st_size = 70 }

get_responce_lem_example :
    (length path ≤ 1001 → get_responce path present ≡ some (message_of path present))
    × (1007 ≤ length path → true ≡ false → get_responce path present ≡ none)
get_responce_lem_example = get_responce_lem path present

abbrev clients : List (List Read)
clients = (text present ∷ text present ∷ ended ∷ []) ∷ (text present ∷ []) ∷ []
