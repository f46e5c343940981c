-- ===== src/Telehack/Client/Messages.antt =====
-- What the client of HW11-Network/src does at the addresses and with two messages that give text.
use otus_c.Prelude.{
  Bool-cases, All, gather, ℕ, ◌≡◌, refl, ap, inl, inr, Bool, true, false, Option, none, some, List,
  [], ◌∷◌, ◌++◌, map,
}
use otus_c.Prelude.Int.{ℤ}
use otus_c.Telehack.{shown, fill, Exchange, request_of, after_greeting, fetch}
use otus_c.Telehack.Reads.{IsText, texts, ends_with_dot, read_msg_lem}
use otus_c.Telehack.Client.{
  Address, Call, socket, close, write, freeaddrinfo, Session, accepts, connect_loop, ended,
}

-- What is written, with the descriptor; what socket gives; what is closed.
abbrev pub written : Call → List (ℤ × List ℕ)
written (write fd msg) = (fd, msg) ∷ []
written (socket fd) = []
written (close fd) = []
written freeaddrinfo = []

abbrev pub opened : Call → List ℤ
opened (write fd msg) = []
opened (socket fd) = fd ∷ []
opened (close fd) = []
opened freeaddrinfo = []

abbrev pub closed : Call → List ℤ
closed (write fd msg) = []
closed (socket fd) = []
closed (close fd) = fd ∷ []
closed freeaddrinfo = []

-- What the loop over the addresses calls: nothing is sent, and of what socket gives only the descriptor
-- that the loop ends with is not closed.
pub connect_loop_lem :
    (res : List Address)
    → (gather written (connect_loop res).0 ≡ [])
      × (gather opened (connect_loop res).0
          ≡ gather closed (connect_loop res).0
            ++ (elim (connect_loop res).1 [ none ↦ [] | some fd ↦ fd ∷ [] ]))
unfolding connect_loop
connect_loop_lem [] = (refl, refl)
connect_loop_lem (p ∷ res) = elim (Bool-cases (accepts p)) [
  | inl e ↦ rw e (refl, refl)
  | inr e ↦ let (w, s) = connect_loop_lem res in rw e (w, ap (λ r. p.sock_fd ∷ r) s)
]

pub connect_loop-first :
    (before after : List Address) (p : Address)
    → All (λ q. accepts q ≡ false) before
    → accepts p ≡ true
    → (connect_loop (before ++ (p ∷ after))).1 ≡ some p.sock_fd
unfolding connect_loop
connect_loop-first [] after p a e = rw e refl
connect_loop-first (q ∷ before) after p (n, a) e = rw n (connect_loop-first before after p a e)

-- What is left after a message comes from what there was.
texts-IsText :
    (print : Bool) (before : List ℕ) (reads : List (List ℕ))
    → All IsText reads
    → All IsText (elim (texts print before reads).1 [ none ↦ [] | some left ↦ left ])
unfolding texts
texts-IsText print before [] a = tt
texts-IsText print before (got ∷ reads) (t, a) =
    elim (Bool-cases (ends_with_dot (fill got before))) [
      | inl e ↦ rw e a
      | inr e ↦ rw e (texts-IsText print (fill got before) reads a)
    ]

texts-silent : (before : List ℕ) (reads : List (List ℕ)) → (texts false before reads).0 ≡ []
unfolding texts shown
texts-silent before [] = refl
texts-silent before (got ∷ reads) = elim (Bool-cases (ends_with_dot (fill got before))) [
  | inl e ↦ rw e refl
  | inr e ↦ rw e (texts-silent (fill got before) reads)
]

-- The exchange after the first message.
unfoldable pub exchange : List ℕ → Option (List (List ℕ)) → Exchange
exchange msg none = record { sent = []; printed = []; left = none }
exchange msg (some reads) = record {
  sent = msg ∷ [];
  printed = (texts true [] reads).0;
  left = (texts true [] reads).1;
}

after_greeting_lem :
    (msg printed : List ℕ) (left : Option (List (List ℕ)))
    → printed ≡ []
    → All IsText (elim left [ none ↦ [] | some reads ↦ reads ])
    → after_greeting msg (printed, left) ≡ some (exchange msg left)
unfolding after_greeting exchange
after_greeting_lem msg printed none silent a = rw silent refl
after_greeting_lem msg printed (some reads) silent a = rw (silent, read_msg_lem true reads a) refl

pub fetch_lem :
    (font message : List ℕ) (reads : List (List ℕ))
    → All IsText reads
    → fetch font message reads ≡ some (exchange (request_of font message) (texts false [] reads).1)
unfolding fetch
fetch_lem font message reads a =
    rw (fetch, read_msg_lem false reads a)
      (after_greeting_lem (request_of font message) (texts false [] reads).0
        (texts false [] reads).1 (texts-silent [] reads) (texts-IsText false [] reads a))

-- The end of print_message after the exchange.
unfoldable pub parting : List Call → ℤ → Exchange → Session
parting calls fd x = record {
  printed = x.printed;
  calls = calls ++ (map (write fd) x.sent ++ (ended fd x).0);
  status = (ended fd x).1;
}
