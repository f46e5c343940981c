-- ===== src/Telehack/Client.antt =====
-- print_message of HW11-Network/src/convertor.c, and main.c. What the system answers is a parameter: the
-- addresses that getaddrinfo gives, what socket and connect do for each, and what read gives.
use otus_c.Prelude.{if◌then◌else◌, ℕ, Bool, not, ◌&&◌, Option, none, some, List, [], ◌∷◌, ◌++◌, map}
use otus_c.Prelude.Int.{ℤ, zero_ℤ, leb_ℤ}
use otus_c.Prelude.Text.{codes}
use otus_c.Prelude.Partial.{◌>>=◌}
use otus_c.Telehack.{Exchange, fetch}
pub mod Messages
pub mod Dialogue
pub mod Sockets

-- An address: what socket gives for it, a descriptor or -1, and whether connect succeeds.
pub record Address : Type 0 where
  pub sock_fd : ℤ
  pub connects : Bool

-- `none` for the addresses is a negative status.
pub record Network : Type 0 where
  pub getaddrinfo : Option (List Address)
  pub reads : List (List ℕ)

pub data Call : Type 0 where
  socket close : ℤ → Call
  write : ℤ → List ℕ → Call
  freeaddrinfo : Call

-- What is printed, the calls, and the exit status, or none if the program waits for a read.
pub record Session : Type 0 where
  pub printed : List ℕ
  pub calls : List Call
  pub status : Option ℕ

unfoldable pub accepts : Address → Bool
accepts p = not (leb_ℤ p.sock_fd zero_ℤ) && p.connects

-- The loop over the addresses: the calls, and the descriptor of the one that it ends with.
pub connect_loop : List Address → List Call × Option ℤ
connect_loop [] = ([], none)
connect_loop (p ∷ res) =
    let (calls, found) = connect_loop res in
    if accepts p
    then (socket p.sock_fd ∷ [], some p.sock_fd)
    else (socket p.sock_fd ∷ close p.sock_fd ∷ calls, found)

-- What follows fetch, if it comes to its end.
pub ended : ℤ → Exchange → List Call × Option ℕ
ended sock_fd x = elim x.left [
  | none ↦ ([], none)
  | some reads ↦ (close sock_fd ∷ freeaddrinfo ∷ [], some 0)
]

pub connected : List ℕ → List ℕ → List (List ℕ) → List Call × Option ℤ → Option Session
connected font message reads (calls, none) = some (record {
  printed = codes "Failed to connect to telehack.com\n";
  calls = calls ++ (freeaddrinfo ∷ []);
  status = some 0;
})
connected font message reads (calls, some sock_fd) = fetch font message reads >>= (λ x.
    some (record {
      printed = x.printed;
      calls = calls ++ (map (write sock_fd) x.sent ++ (ended sock_fd x).0);
      status = (ended sock_fd x).1;
    }))

-- main returns 0 whatever print_message does.
pub print_message : Network → List ℕ → List ℕ → Option Session
print_message net font message = elim net.getaddrinfo [
  | none ↦ some (record {
    printed = codes "Failed to resolve name telehack.com\n";
    calls = [];
    status = some 0;
  })
  | some res ↦ connected font message net.reads (connect_loop res)
]

pub main : Network → List (List ℕ) → Option Session
main net (program ∷ font ∷ message ∷ []) = print_message net font message
main net argv = some (record {
  printed = codes "Usage: font_convertor <font> <message>";
  calls = [];
  status = some 1;
})
