-- ===== src/Server/Setup/Sockets.antt =====
-- Which descriptors the start of HW12-FileServer/src opens and closes.
use otus_c.Prelude.{
  if◌then◌else◌, Bool-cases, gather, ℕ, ◌^◌, ◌<◌, ◌≡◌, refl, subst, inl, inr, Bool, true, false,
  ◌||◌, none, some, List, [], ◌∷◌, ◌++◌, arith,
}
use otus_c.Prelude.Int.{ℤ, pos}
use otus_c.Prelude.Text.{show_nat}
use otus_c.Server.Setup.{
  Network, Call, socket, setsockopt, bind, listen, epoll_create1, epoll_ctl, close, Outcome, exits,
  loops, failed, after, abandon, add_listener, create_epoll, start_listening, bind_to, sin_addr,
  sin_port, start_server, main,
}
use otus_c.Server.Setup.Argument.{IsAddress, main-start_server}

abbrev opened : Call → List ℤ
opened (socket fd) = if failed fd then [] else fd ∷ []
opened (epoll_create1 fd) = if failed fd then [] else fd ∷ []
opened (setsockopt fd) = []
opened (listen fd) = []
opened (close fd) = []
opened (bind fd addr port) = []
opened (epoll_ctl epollfd fd) = []

abbrev closed : Call → List ℤ
closed (socket fd) = []
closed (epoll_create1 fd) = []
closed (setsockopt fd) = []
closed (listen fd) = []
closed (close fd) = fd ∷ []
closed (bind fd addr port) = []
closed (epoll_ctl epollfd fd) = []

-- One of the calls fails.
abbrev pub some_failed : Network → Bool
some_failed net =
    failed net.socket
    || (failed net.setsockopt
        || (failed net.bind
            || (failed net.listen || (failed net.epoll_create1 || failed net.epoll_ctl))))

-- Either a call fails, and the program exits with 1 and has closed what it had opened; or none fails, and
-- the loop runs on a socket that listens at the address and the port, with nothing closed.
abbrev pub Started : Network → ℕ → ℕ → List Call × Outcome → Type 0
Started net addr port (calls, exits status) =
    (some_failed net ≡ true) × (status ≡ 1) × (gather opened calls ≡ gather closed calls)
Started net addr port (calls, loops listenfd epollfd) =
    (some_failed net ≡ false)
    × (listenfd ≡ net.socket)
    × (epollfd ≡ net.epoll_create1)
    × (calls
        ≡ socket listenfd
          ∷ setsockopt listenfd
          ∷ bind listenfd addr port
          ∷ listen listenfd
          ∷ epoll_create1 epollfd
          ∷ epoll_ctl epollfd listenfd
          ∷ [])

start_server-Started :
    (net : Network) (address : List ℕ) (port : ℤ)
    → Started net (sin_addr net address) (sin_port port) (start_server net address port)
unfolding start_server bind_to start_listening create_epoll add_listener after abandon
start_server-Started net address port = elim (Bool-cases (failed net.socket)) [
  | inl a ↦ rw a (rw a refl, refl, rw a refl)
  | inr a ↦ elim (Bool-cases (failed net.setsockopt)) [
    | inl b ↦ rw (a, b) (rw (a, b) refl, refl, rw a refl)
    | inr b ↦ elim (Bool-cases (failed net.bind)) [
      | inl c ↦ rw (a, b, c) (rw (a, b, c) refl, refl, rw a refl)
      | inr c ↦ elim (Bool-cases (failed net.listen)) [
        | inl d ↦ rw (a, b, c, d) (rw (a, b, c, d) refl, refl, rw a refl)
        | inr d ↦ elim (Bool-cases (failed net.epoll_create1)) [
          | inl e ↦ rw (a, b, c, d, e) (rw (a, b, c, d, e) refl, refl, rw (a, e) refl)
          | inr e ↦ elim (Bool-cases (failed net.epoll_ctl)) [
            | inl f ↦ rw (a, b, c, d, e, f) (rw (a, b, c, d, e, f) refl, refl, rw (a, e) refl)
            | inr f ↦ rw (a, b, c, d, e, f) (rw (a, b, c, d, e, f) refl, refl, refl, refl)
          ]
        ]
      ]
    ]
  ]
]

-- For a root directory and an argument of an address, which is not empty and has no colon, a colon and
-- the decimal number of a port below 2 ^ 16: if any of the calls that set the socket up fails, the program
-- exits with 1 and has closed each descriptor that it had opened; otherwise it comes to its loop with a
-- socket that listens at that port, at the number that inet_pton has for the address, or 0 if it has none.
pub main-Started :
    (net : Network) (program dir address : List ℕ) (port : ℕ)
    → IsAddress address
    → port < 2 ^ 16
    → (r : List Call × Outcome) × (main net
          (program ∷ dir ∷ (address ++ (b':' ∷ show_nat port)) ∷ [])
        ≡ some r)
      × Started net (elim (net.inet_pton address) [ none ↦ 0 | some number ↦ number ]) port r
unfolding sin_addr sin_port
main-Started net program dir address port a lt = (
  start_server net address (pos port),
  main-start_server net program dir address port a (omega arith),
  subst (λ p. Started net (sin_addr net address) p (start_server net address (pos port)))
      (omega arith) (start_server-Started net address (pos port)),
)
