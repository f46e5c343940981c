-- ===== src/Server/Setup.antt =====
-- main.c of HW12-FileServer/src, and start_server of server.c up to its loop. What the system's calls give
-- and inet_pton are parameters; a call gives -1 if it fails. What is printed is left out.
use otus_c.Prelude.{
  leb, ◌==◌, if◌then◌else◌, ℕ, zero, suc, ◌+◌, ◌-◌, ◌*◌, ◌%◌, ◌^◌, Bool, false, ◌&&◌, Option, none,
  some, List, [], ◌∷◌, map,
}
use otus_c.Prelude.Int.{ℤ, pos, negsuc, zero_ℤ}
use otus_c.Prelude.Partial.{◌>>=◌}
use otus_c.Server.{skip_spaces}
pub mod Argument
pub mod Sockets

pub record Network : Type 0 where
  pub socket : ℤ
  pub setsockopt : ℤ
  pub inet_pton : List ℕ → Option ℕ
  pub bind : ℤ
  pub listen : ℤ
  pub epoll_create1 : ℤ
  pub epoll_ctl : ℤ

-- A call, with the descriptor that it gives or works on; bind has the address and the port.
pub data Call : Type 0 where
  socket setsockopt listen epoll_create1 close : ℤ → Call
  bind : ℤ → ℕ → ℕ → Call
  epoll_ctl : ℤ → ℤ → Call

-- An exit with its status, or the loop over the events of a listening socket and its epoll.
pub data Outcome : Type 0 where
  exits : ℕ → Outcome
  loops : ℤ → ℤ → Outcome

unfoldable pub failed : ℤ → Bool
failed (pos n) = false
failed (negsuc n) = n == 0

pub after : Call → List Call × Outcome → List Call × Outcome
after call (calls, outcome) = (call ∷ calls, outcome)

-- The calls of close in an error branch, and its exit.
pub abandon : List ℤ → List Call × Outcome
abandon fds = (map close fds, exits 1)

pub add_listener : Network → ℤ → ℤ → List Call × Outcome
add_listener net listenfd epollfd = after (epoll_ctl epollfd listenfd) (
    if failed net.epoll_ctl
    then abandon (listenfd ∷ epollfd ∷ [])
    else ([], loops listenfd epollfd))

pub create_epoll : Network → ℤ → List Call × Outcome
create_epoll net listenfd = after (epoll_create1 net.epoll_create1) (
    if failed net.epoll_create1
    then abandon (listenfd ∷ [])
    else add_listener net listenfd net.epoll_create1)

pub start_listening : Network → ℤ → List Call × Outcome
start_listening net listenfd =
    after (listen listenfd)
      (if failed net.listen then abandon (listenfd ∷ []) else create_epoll net listenfd)

-- sin_addr: memset leaves 0 if the address cannot be read, and the result of inet_pton is not looked at.
unfoldable pub sin_addr : Network → List ℕ → ℕ
sin_addr net addr = elim (net.inet_pton addr) [ none ↦ 0 | some number ↦ number ]

-- sin_port: htons takes 16 bits of the port.
unfoldable pub sin_port : ℤ → ℕ
sin_port (pos n) = n % 2 ^ 16
sin_port (negsuc n) = 2 ^ 16 - 1 - n % 2 ^ 16

pub bind_to : Network → ℤ → ℕ → ℕ → List Call × Outcome
bind_to net listenfd addr port =
    after (bind listenfd addr port)
      (if failed net.bind then abandon (listenfd ∷ []) else start_listening net listenfd)

pub start_server : Network → List ℕ → ℤ → List Call × Outcome
start_server net addr port = after (socket net.socket) (
    if failed net.socket
    then abandon []
    else (after (setsockopt net.socket) (
        if failed net.setsockopt
        then abandon (net.socket ∷ [])
        else bind_to net net.socket (sin_addr net addr) (sin_port port))))

-- strtok with one delimiter: the delimiters at the start are skipped.
pub skip_delimiters : ℕ → List ℕ → List ℕ
skip_delimiters c [] = []
skip_delimiters c (x ∷ xs) = let rest = skip_delimiters c xs in if x == c then rest else x ∷ xs

-- The token up to the next delimiter, and the text behind that.
pub take_token : ℕ → List ℕ → List ℕ × List ℕ
take_token c [] = ([], [])
take_token c (x ∷ xs) =
    let (token, rest) = take_token c xs in if x == c then ([], xs) else (x ∷ token, rest)

-- strtok without delimiters: the rest of the text; null if there is none.
pub strtok_rest : List ℕ → Option (List ℕ)
strtok_rest [] = none
strtok_rest (x ∷ xs) = some (x ∷ xs)

-- The value of the digits at the start of a text, behind those that give `n`.
pub digits_value : ℕ → List ℕ → ℕ
digits_value n [] = n
digits_value n (c ∷ cs) =
    let rest = digits_value (n * 10 + (c - b'0')) cs in if leb b'0' c && leb c b'9' then rest else n

unfoldable pub negated : ℕ → ℤ
negated zero = pos 0
negated (suc n) = negsuc n

-- The number is one that an int can hold; atoi of any other is undefined.
pub in_range : ℕ → ℕ → ℤ → Option ℤ
in_range n bound value = if leb n bound then some value else none

pub signed_value : List ℕ → Option ℤ
signed_value [] = some zero_ℤ
signed_value (c ∷ cs) =
    let n = digits_value 0 cs in
    if c == b'-'
    then in_range n (2 ^ 31) (negated n)
    else (if c == b'+'
        then in_range n (2 ^ 31 - 1) (pos n)
        else in_range (digits_value 0 (c ∷ cs)) (2 ^ 31 - 1) (pos (digits_value 0 (c ∷ cs))))

pub atoi : List ℕ → Option ℤ
atoi text = signed_value (skip_spaces text)

-- Without a port behind the address, atoi gets a null pointer.
pub main : Network → List (List ℕ) → Option (List Call × Outcome)
main net (program ∷ dir ∷ address_and_port ∷ []) = do
  let (address, rest) = take_token b':' (skip_delimiters b':' address_and_port)
  port_str ← strtok_rest rest
  port ← atoi port_str
  some (start_server net address port)
main net argv = some ([], exits 1)
