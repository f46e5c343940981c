-- ===== src/Server.antt =====
-- HW12-FileServer/src/server.c: the file server. `none` stands for an undefined step: an access
-- outside an array, or the use of a variable or a slot that has no value yet.
use otus_c.Prelude.{
  ltb, leb, ◌==◌, if◌then◌else◌, length, get_elem?, set, take, drop, replicate, ℕ, zero, suc, ◌+◌,
  ◌-◌, Bool, true, false, ◌&&◌, ◌||◌, Option, none, some, List, [], ◌∷◌, ◌++◌,
}
use otus_c.Prelude.Text.{codes, same, show_nat, is_space}
use otus_c.Prelude.Partial.{◌>>=◌, ◌>>◌, require}
pub mod Words
pub mod Reply
pub mod Slots
mod Steps
pub mod Isolation
pub mod Requests
pub mod Overflow
pub mod Setup

abbrev pub max_events : ℕ
max_events = 10

abbrev pub buffer_size : ℕ
buffer_size = 8192

-- `buffer` is the text in front of the first zero byte; all bytes behind it are zero.
pub record ConnectionInfo : Type 0 where
  pub fd : ℕ
  pub reading_state : Bool
  pub buffer : List ℕ
  pub current_length : ℕ

-- The files below the root directory: what stat says of a path, if it succeeds (whether it is a
-- regular file), and the bytes of a file that fopen can open.
pub record Site : Type 0 where
  pub root_dir : List ℕ
  pub stat : List ℕ → Option Bool
  pub fopen : List ℕ → Option (List ℕ)

pub build_response_header : ℕ → ℕ → List ℕ
build_response_header code filesize =
    if code == 200
    then codes "HTTP/1.1 200 OK\r\nContent-Type: application/octet-stream\r\nContent-Length: "
      ++ (show_nat filesize ++ codes "\r\nConnection: close\r\n\r\n")
    else if code == 404
    then codes "HTTP/1.1 404 Not Found\r\nContent-Length: 0\r\nConnection: close\r\n\r\n"
    else if code == 403
    then codes "HTTP/1.1 403 Forbidden\r\nContent-Length: 0\r\nConnection: close\r\n\r\n"
    else codes
        "HTTP/1.1 500 Internal Server Error\r\nContent-Length: 0\r\nConnection: close\r\n\r\n"

-- The loop of send_file: the pieces that fread gives and write takes, one after the other.
pub send_loop : ℕ → List ℕ → List (List ℕ)
send_loop zero content = []
send_loop (suc fuel) [] = []
send_loop (suc fuel) (c ∷ content) =
    take buffer_size (c ∷ content) ∷ send_loop fuel (drop buffer_size (c ∷ content))

-- The texts that send_file writes. Each piece has at least one byte.
pub send_file : List ℕ → List (List ℕ)
send_file content = build_response_header 200 (length content) ∷ send_loop (length content) content

pub skip_spaces : List ℕ → List ℕ
skip_spaces [] = []
skip_spaces (c ∷ cs) = let rest = skip_spaces cs in if is_space c then rest else c ∷ cs

-- A word of sscanf's %s, and the text behind it.
pub take_word : List ℕ → List ℕ × List ℕ
take_word [] = ([], [])
take_word (c ∷ cs) =
    let (word, rest) = take_word cs in if is_space c then ([], c ∷ cs) else (c ∷ word, rest)

-- %s into an array of `size` bytes, the zero byte included; with no word the array has no value.
pub scan_word : ℕ → List ℕ → Option (List ℕ × List ℕ)
scan_word size text =
    let (word, rest) = take_word (skip_spaces text) in
    if ltb 0 (length word) && ltb (length word) size then some (word, rest) else none

-- write(fd, literal, n): the literal has a zero byte behind it, and nothing more.
pub write_literal : List ℕ → ℕ → Option (List ℕ)
write_literal literal n =
    if leb n (length literal + 1) then some (take n (literal ++ (0 ∷ []))) else none

-- An answer that is made in the buffer of the request, over it: what is written, and the buffer.
pub refuse : ℕ → List ℕ → List (List ℕ) × List ℕ
refuse code message =
    let request = build_response_header code 0 ++ message in (request ∷ [], request)

-- The answer when fopen, or the test for a regular file, has been done.
pub answer_file : List ℕ → Bool → Option (List ℕ) → List (List ℕ) × List ℕ
answer_file request is_reg none = refuse 403 (codes "\r\nAccess denied.")
answer_file request is_reg (some content) =
    if is_reg then (send_file content, request) else refuse 403 (codes "\r\nAccess denied.")

pub answer_path : Site → List ℕ → List ℕ → List (List ℕ) × List ℕ
answer_path site request full_path = elim (site.stat full_path) [
  | none ↦ refuse 404 (codes "\r\nFile not found.")
  | some is_reg ↦ answer_file request is_reg (site.fopen full_path)
]

abbrev pub path_max : ℕ
path_max = 4096

-- What handle_request writes before it closes the connection, and what it leaves in the buffer of the
-- request.
pub handle_request : Site → List ℕ → Option (List (List ℕ) × List ℕ)
handle_request site request = do
  (method, text) ← scan_word 16 request
  (uri, _) ← scan_word 256 text
  if same method (codes "GET")
      then some (answer_path site request (take (path_max - 1) (site.root_dir ++ uri)))
      else (do
        sent ←
            write_literal
              (codes
                "HTTP/1.1 501 Not Implemented\r\nContent-Length: 0\r\nConnection: close\r\n\r\n")
              76
        some (sent ∷ [], request))

-- The bytes of a C string: those in front of the first zero byte.
unfoldable pub c_text : List ℕ → List ℕ
c_text [] = []
c_text (c ∷ cs) = let rest = c_text cs in if c == 0 then [] else c ∷ rest

unfoldable pub starts_with : List ℕ → List ℕ → Bool
starts_with [] text = true
starts_with (p ∷ ps) [] = false
starts_with (p ∷ ps) (c ∷ cs) = c == p && starts_with ps cs

-- strstr(haystack, needle) != NULL.
unfoldable pub strstr : List ℕ → List ℕ → Bool
strstr [] needle = starts_with needle []
strstr (c ∷ cs) needle = starts_with needle (c ∷ cs) || strstr cs needle

-- What recv gives: -1 with EAGAIN, -1 with another error, 0, or some bytes.
pub data Recv : Type 0 where
  again failed closed : Recv
  received : List ℕ → Recv

-- An event that epoll_wait reports: accept gives a descriptor or fails, or a connection is ready.
pub data Event : Type 0 where
  accepted : Option ℕ → Event
  ready : ℕ → Recv → Event

-- What the server does to the outside.
pub data Action : Type 0 where
  watch unwatch close : ℕ → Action
  write : ℕ → List ℕ → Action

pub answers : ℕ → List (List ℕ) → List Action
answers fd [] = close fd ∷ []
answers fd (text ∷ texts) = write fd text ∷ answers fd texts

-- connections[], with slots that have no value yet.
abbrev pub Connections : Type 0
Connections = List (Option ConnectionInfo)

abbrev pub new_conn : ℕ → ConnectionInfo
new_conn fd = record { fd = fd; reading_state = true; buffer = []; current_length = 0 }

-- connections[fd] = info.
unfoldable pub put_conn : Connections → ℕ → ConnectionInfo → Option Connections
put_conn conns fd info = if ltb fd (length conns) then some (set conns fd (some info)) else none

-- connections[fd], which must have a value.
unfoldable pub get_conn : Connections → ℕ → Option ConnectionInfo
get_conn conns fd = elim (get_elem? conns fd) [ none ↦ none | some slot ↦ slot ]

-- strncat, the new length and the zero byte behind it. A text of the buffer has a zero byte behind
-- it, in the buffer.
unfoldable pub add_bytes : ConnectionInfo → List ℕ → Option ConnectionInfo
add_bytes info bytes = do
  let text = info.buffer ++ c_text bytes
  let current_length = info.current_length + length bytes
  require (ltb (length text) buffer_size)
  require (ltb current_length buffer_size)
  some (record info { buffer = take current_length text; current_length = current_length })

-- The end of the branch that has received bytes: the request, once its head is complete.
unfoldable pub finish : Site → ℕ → ConnectionInfo → Option (List Action × ConnectionInfo)
finish site connfd info =
    if strstr info.buffer (codes "\r\n\r\n")
    then (do
      (texts, request) ← handle_request site info.buffer
      some (answers connfd texts, record info { buffer = request; reading_state = false }))
    else some ([], info)

-- The branch for a connection that is ready, and still reads.
unfoldable pub receive : Site → ℕ → ConnectionInfo → Recv → Option (List Action × ConnectionInfo)
receive site connfd info again = some ([], info)
receive site connfd info failed = some (close connfd ∷ unwatch connfd ∷ [], info)
receive site connfd info closed = some (close connfd ∷ unwatch connfd ∷ [], info)
receive site connfd info (received bytes) = do
  info' ← add_bytes info bytes
  finish site connfd info'

-- The body of the loop over the events. fd -1 is no slot.
unfoldable pub step : Site → Event → Connections → Option (List Action × Connections)
step site (accepted none) conns = none
step site (accepted (some connfd)) conns = do
  conns' ← put_conn conns connfd (new_conn connfd)
  some (watch connfd ∷ [], conns')
step site (ready connfd what) conns = do
  info ← get_conn conns connfd
  if info.reading_state
      then (do
        (actions, info') ← receive site connfd info what
        conns' ← put_conn conns connfd info'
        some (actions, conns'))
      else some ([], conns)

unfoldable pub run : Site → List Event → Connections → Option (List Action × Connections)
run site [] conns = some ([], conns)
run site (event ∷ events) conns = do
  (actions, conns') ← step site event conns
  (more, conns'') ← run site events conns'
  some (actions ++ more, conns'')

unfoldable pub no_connections : Connections
no_connections = replicate max_events none
