-- ===== src/Tests/TelehackClient.antt =====
-- The client's dialogue in three reads: the greeting in one, the answer in two.
use otus_c.Prelude.{take, All, ◌-◌, ◌≡◌, refl, true, false, some, List, [], ◌∷◌, ◌++◌, arith}
use otus_c.Prelude.Int.{pos, negsuc}
use otus_c.Prelude.Text.{codes}
use otus_c.Telehack.{buf_size}
use otus_c.Telehack.Reads.{IsText, texts}
use otus_c.Telehack.Client.{Address, Network, Session, accepts, main}
use otus_c.Telehack.Client.Dialogue.{Answered, main-Answered}
use otus_c.Telehack.Client.Sockets.{Balanced, main-Balanced}

abbrev open_address : Address
open_address = record { sock_fd = pos 4; connects = true }

-- An address without a socket, and one that refuses the connection.
abbrev refusing : List Address
refusing =
    record { sock_fd = negsuc 0; connects = true }
    ∷ record { sock_fd = pos 3; connects = false }
    ∷ []

abbrev telehack : Network
telehack = record {
  getaddrinfo = some (refusing ++ (open_address ∷ []));
  reads = codes "hello." ∷ codes "abc" ∷ codes "efg." ∷ [];
}

telehack-IsText : All IsText telehack.reads
unfolding buf_size
telehack-IsText = (
  (λ e. cc, omega arith, (refl, (refl, (refl, (refl, (refl, (refl, tt))))))),
  (
    (λ e. cc, omega arith, (refl, (refl, (refl, tt)))),
    ((λ e. cc, omega arith, (refl, (refl, (refl, (refl, tt))))), tt),
  ),
)

main-Answered_example :
    (s : Session) × (main telehack (codes "prog" ∷ codes "slant" ∷ codes "hi" ∷ []) ≡ some s)
    × Answered
        (pos 4)
        (take
          (buf_size - 1)
          (codes "figlet /" ++ (codes "slant" ++ (codes " " ++ (codes "hi" ++ codes "\r\n")))))
        (texts false [] telehack.reads).1
        s
unfolding accepts
main-Answered_example =
    main-Answered telehack (codes "prog") (codes "slant") (codes "hi") refusing [] open_address refl
      (refl, (refl, tt)) refl telehack-IsText

main-Balanced_example :
    (s : Session) × (main telehack (codes "prog" ∷ codes "slant" ∷ codes "hi" ∷ []) ≡ some s)
    × Balanced s.status s.calls
main-Balanced_example =
    main-Balanced telehack (codes "prog" ∷ codes "slant" ∷ codes "hi" ∷ []) telehack-IsText
