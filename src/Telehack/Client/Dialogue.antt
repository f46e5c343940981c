-- ===== src/Telehack/Client/Dialogue.antt =====
-- The dialogue of HW11-Network/src with the service.
use otus_c.Prelude.{
  take, All, gather, gather-append, ℕ, ◌-◌, ◌≡◌, refl, ap, ◌∙◌, true, false, Option, none, some,
  List, [], ◌∷◌, ◌++◌,
}
use otus_c.Prelude.Int.{ℤ}
use otus_c.Prelude.Text.{codes}
use otus_c.Telehack.{buf_size, Exchange, request_of}
use otus_c.Telehack.Reads.{IsText, texts}
use otus_c.Telehack.Client.{
  Address, Network, Call, write, Session, accepts, connect_loop, ended, connected, print_message,
  main,
}
use otus_c.Telehack.Client.Messages.{
  written, connect_loop_lem, connect_loop-first, exchange, fetch_lem, parting,
}

-- What the program sends and prints when the first message is over, or is not.
abbrev pub Answered : ℤ → List ℕ → Option (List (List ℕ)) → Session → Type 0
Answered fd msg none s = (s.printed ≡ []) × (gather written s.calls ≡ []) × (s.status ≡ none)
Answered fd msg (some reads) s =
    (s.printed ≡ (texts true [] reads).0)
    × (gather written s.calls ≡ (fd, msg) ∷ [])
    × (s.status ≡ (elim (texts true [] reads).1 [ none ↦ none | some left ↦ some 0 ]))

parting-Answered :
    (calls : List Call) (fd : ℤ) (msg : List ℕ) (left : Option (List (List ℕ)))
    → gather written calls ≡ []
    → Answered fd msg left (parting calls fd (exchange msg left))
unfolding parting exchange ended
parting-Answered calls fd msg none quiet =
    (refl, gather-append written calls [] ∙ ap (λ r. r ++ []) quiet, refl)
parting-Answered calls fd msg (some reads) quiet =
    let x = exchange msg (some reads) in
    let (sends, status) = ending (texts true [] reads).1 in
    (
      refl,
      gather-append written calls (write fd msg ∷ (ended fd x).0)
          ∙ ap (λ r. r ++ gather written (write fd msg ∷ (ended fd x).0)) quiet
          ∙ ap (λ r. (fd, msg) ∷ r) sends,
      status,
    )
  where
    ending :
        (left : Option (List (List ℕ)))
        → let x : Exchange = record {
          sent = msg ∷ [];
          printed = (texts true [] reads).0;
          left = left;
        } in
          (gather written (ended fd x).0 ≡ [])
          × ((ended fd x).1 ≡ (elim left [ none ↦ none | some rest ↦ some 0 ]))
    ending none = (refl, refl)
    ending (some rest) = (refl, refl)

-- At an address that can be connected to, with all before it refusing, and reads that give text that
-- leaves room in the buffer: once the first message is over, one request is sent, to that address, and the
-- second message is printed as read_msg shows it, and nothing else; the program ends with status 0 when the
-- second message is over. Until the first message is over nothing is sent or printed.
pub main-Answered :
    (net : Network) (program font message : List ℕ) (before after : List Address) (p : Address)
    → net.getaddrinfo ≡ some (before ++ (p ∷ after))
    → All (λ q. accepts q ≡ false) before
    → accepts p ≡ true
    → All IsText net.reads
    → (s : Session) × (main net (program ∷ font ∷ message ∷ []) ≡ some s)
      × Answered p.sock_fd
          (take
            (buf_size - 1)
            (codes "figlet /" ++ (font ++ (codes " " ++ (message ++ codes "\r\n")))))
          (texts false [] net.reads).1
          s
unfolding main print_message connected parting request_of
main-Answered net program font message before after p known refused e a =
    let res = before ++ (p ∷ after) in
    let calls = (connect_loop res).0 in
    let left = (texts false [] net.reads).1 in
    (
      parting calls p.sock_fd (exchange (request_of font message) left),
      rw (known, connect_loop-first before after p refused e, fetch_lem font message net.reads a)
          refl,
      parting-Answered calls p.sock_fd (request_of font message) left (connect_loop_lem res).0,
    )
