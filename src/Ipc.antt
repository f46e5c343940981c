-- ===== src/Ipc.antt =====
-- HW08-IPC/src: a server on a local socket that tells the size of the file named in its
-- configuration. `none` stands for a write behind the end of a buffer.
use otus_c.Prelude.{
  ltb, ◌==◌, if◌then◌else◌, length, get_or, take, ℕ, zero, suc, Bool, true, false, Option, none,
  some, List, [], ◌∷◌, ◌++◌,
}
use otus_c.Prelude.Int.{ℤ, pos, negsuc, to_int}
use otus_c.Prelude.Text.{codes, show_int, is_space, same}
use otus_c.Prelude.Partial.{◌>>=◌, ◌>>◌, require}
pub mod Strip
pub mod Message
pub mod Main
pub mod Daemon

-- What access and stat say of the file.
pub record FileState : Type 0 where
  pub exists : Bool
  pub st_size : ℕ

-- The loop of rstrip; `n` is end - s + 1. A zero byte at `end` cuts the text there.
pub rstrip_loop : ℕ → List ℕ → List ℕ
rstrip_loop zero s = s
rstrip_loop (suc n) s =
    let rest = rstrip_loop n (take n s) in if is_space (get_or s n 0) then rest else s

pub rstrip : List ℕ → List ℕ
rstrip s = rstrip_loop (length s) s

-- stat.st_size, returned as an int.
pub get_file_size : FileState → ℤ
get_file_size file = to_int (pos file.st_size)

pub get_file_size_as_string : List ℕ → FileState → List ℕ
get_file_size_as_string file_path file =
    codes "Size of " ++ (file_path ++ (codes ": " ++ (show_int (get_file_size file) ++ codes "\n")))

pub get_file_not_exists_message : List ℕ → List ℕ
get_file_not_exists_message file_path = codes "File " ++ (file_path ++ codes " not exists\n")

-- sprintf into the 1024 bytes of `message`.
pub get_responce : List ℕ → FileState → Option (List ℕ)
get_responce file_path file = do
  let message =
      if file.exists
      then get_file_size_as_string file_path file
      else get_file_not_exists_message file_path
  require (ltb (length message) 1024)
  some message

-- What read gives: some bytes, with the state of the file at that time, 0, or -1.
pub data Read : Type 0 where
  text : FileState → Read
  ended failed : Read

-- What the server does: it sends a text, closes a connection, or closes and unlinks its socket.
pub data Action : Type 0 where
  sent : List ℕ → Action
  shut unlinked : Action

-- The inner loop, for one connection; the Boolean says that it has ended, and does not wait.
pub serve : List ℕ → List Read → Option (List Action × Bool)
serve path [] = some ([], false)
serve path (text file ∷ reads) = do
  responce ← get_responce path file
  (actions, done) ← serve path reads
  some (sent responce ∷ actions, done)
serve path (ended ∷ reads) = some (shut ∷ [], true)
serve path (failed ∷ reads) = some (shut ∷ [], true)

abbrev pub close_server : List Action
close_server = unlinked ∷ []

-- The outer loop over the connections; after the last one accept fails.
pub accept_loop : List ℕ → List (List Read) → Option (List Action)
accept_loop path [] = some close_server
accept_loop path (client ∷ clients) = do
  (actions, done) ← serve path client
  if done then (do more ← accept_loop path clients; some (actions ++ more)) else some actions

-- What socket and bind return.
pub record Socket : Type 0 where
  pub socket : ℤ
  pub bind : ℤ

-- The socket is negative for an error, the result of bind not 0.
unfoldable pub is_bound : ℤ → ℤ → Bool
is_bound (negsuc fd) result = false
is_bound (pos fd) (negsuc n) = false
is_bound (pos fd) (pos n) = n == 0

-- Whether the socket is there; else the program exits with 1.
unfoldable pub create_server : Socket → Bool
unfolding is_bound
create_server server = is_bound server.socket server.bind

-- `none` inside stands for the exit.
pub start_server : Socket → List ℕ → List (List Read) → Option (Option (List Action))
start_server server file_path clients = do
  let path = rstrip file_path
  let served = accept_loop path clients
  if create_server server then (do actions ← served; some (some actions)) else some none

-- What becomes of /etc/ipc.conf: it cannot be opened, has no line, or has a first line.
pub data Config : Type 0 where
  missing empty : Config
  line : List ℕ → Config

pub get_file_path : Config → Option (List ℕ)
get_file_path missing = none
get_file_path empty = none
get_file_path (line content) = some content

-- main: it exits with 1, or serves, as a daemon or not, until accept fails.
pub data Outcome : Type 0 where
  exits : ℕ → Outcome
  serves : Bool → List Action → Outcome

pub run_server : Bool → Config → Socket → List (List Read) → Option Outcome
run_server daemon config server clients = elim (get_file_path config) [
  | none ↦ some (exits 1)
  | some file_path ↦ elim (start_server server file_path clients) [
    | none ↦ none
    | some none ↦ some (exits 1)
    | some (some actions) ↦ some (serves daemon actions)
  ]
]

-- The arguments behind the program's name.
pub main : List (List ℕ) → Config → Socket → List (List Read) → Option Outcome
main [] config server clients = run_server true config server clients
main (arg ∷ []) config server clients =
    if same arg (codes "--no-daemonize")
    then run_server false config server clients
    else some (exits 1)
main (arg ∷ second ∷ more) config server clients = some (exits 1)

-- The handler of SIGINT and SIGTERM.
pub clean_exit : List Action × ℕ
clean_exit = (close_server, 0)
