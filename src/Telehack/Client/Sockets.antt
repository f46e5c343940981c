-- ===== src/Telehack/Client/Sockets.antt =====
-- The sockets that HW11-Network/src opens and closes.
use otus_c.Prelude.{
  All, gather, gather-append, ℕ, ◌≡◌, refl, sym, ap, ◌∙◌, false, Option, none, some, List, [], ◌∷◌,
  ◌++◌, map, append-nil,
}
use otus_c.Prelude.Int.{ℤ}
use otus_c.Prelude.Text.{codes}
use otus_c.Telehack.{request_of}
use otus_c.Telehack.Reads.{IsText, texts}
use otus_c.Telehack.Client.{
  Address, Network, Call, close, write, freeaddrinfo, Session, connect_loop, ended, connected,
  print_message, main,
}
use otus_c.Telehack.Client.Messages.{opened, closed, connect_loop_lem, exchange, fetch_lem, parting}

-- Every descriptor that socket gave is closed, but for the last one of a program that still waits.
abbrev pub Balanced : Option ℕ → List Call → Type 0
Balanced none calls = (fd : ℤ) × (gather opened calls ≡ gather closed calls ++ (fd ∷ []))
Balanced (some status) calls = gather opened calls ≡ gather closed calls

gather-write :
    (f : Call → List ℤ) (fd : ℤ) (sent : List (List ℕ)) (calls : List Call)
    → ((msg : List ℕ) → f (write fd msg) ≡ [])
    → gather f (map (write fd) sent ++ calls) ≡ gather f calls
gather-write f fd [] calls h = refl
gather-write f fd (msg ∷ sent) calls h = rw h (gather-write f fd sent calls h)

parting-Balanced :
    (calls : List Call) (fd : ℤ) (sent : List (List ℕ)) (printed : List ℕ)
    (left : Option (List (List ℕ)))
    → gather opened calls ≡ gather closed calls ++ (fd ∷ [])
    → let s = parting calls fd (record { sent = sent; printed = printed; left = left }) in
      Balanced s.status s.calls
unfolding parting ended
parting-Balanced calls fd sent printed none h = (
  fd,
  rw
      (
        gather-append opened calls (map (write fd) sent ++ []),
        gather-append closed calls (map (write fd) sent ++ []),
        gather-write opened fd sent [] (λ m. refl),
        gather-write closed fd sent [] (λ m. refl),
        h,
      )
      (append-nil _ ∙ ap (λ r. r ++ (fd ∷ [])) (sym (append-nil (gather closed calls)))),
)
parting-Balanced calls fd sent printed (some rest) h =
    let end = close fd ∷ freeaddrinfo ∷ [] in
    rw
      (
        gather-append opened calls (map (write fd) sent ++ end),
        gather-append closed calls (map (write fd) sent ++ end),
        gather-write opened fd sent end (λ m. refl),
        gather-write closed fd sent end (λ m. refl),
        h,
      )
      (append-nil _)

connected-Balanced :
    (font message : List ℕ) (reads : List (List ℕ)) (calls : List Call) (found : Option ℤ)
    → All IsText reads
    → gather opened calls ≡ gather closed calls ++ (elim found [ none ↦ [] | some fd ↦ fd ∷ [] ])
    → (s : Session) × (connected font message reads (calls, found) ≡ some s)
      × Balanced s.status s.calls
unfolding connected parting
connected-Balanced font message reads calls none a h = (
  record {
    printed = codes "Failed to connect to telehack.com\n";
    calls = calls ++ (freeaddrinfo ∷ []);
    status = some 0;
  },
  refl,
  gather-append opened calls (freeaddrinfo ∷ [])
      ∙ append-nil _
      ∙ h
      ∙ sym (gather-append closed calls (freeaddrinfo ∷ [])),
)
connected-Balanced font message reads calls (some fd) a h =
    let x = exchange (request_of font message) (texts false [] reads).1 in
    (
      parting calls fd x,
      rw (fetch_lem font message reads a) refl,
      parting-Balanced calls fd x.sent x.printed x.left h,
    )

print_message-Balanced :
    (net : Network) (font message : List ℕ) (known : Option (List Address))
    → net.getaddrinfo ≡ known
    → All IsText net.reads
    → (s : Session) × (print_message net font message ≡ some s) × Balanced s.status s.calls
unfolding print_message
print_message-Balanced net font message none e a = (
  record { printed = codes "Failed to resolve name telehack.com\n"; calls = []; status = some 0 },
  rw e refl,
  refl,
)
print_message-Balanced net font message (some res) e a = rw e (
    connected-Balanced font message net.reads (connect_loop res).0 (connect_loop res).1 a
      (connect_loop_lem res).1)

usage : Session
usage = record {
  printed = codes "Usage: font_convertor <font> <message>";
  calls = [];
  status = some 1;
}

-- With reads that give text that leaves room in the buffer, for any arguments and any results of
-- getaddrinfo, socket and connect, the program closes exactly the results of socket, in their order; if it
-- still waits for a read, all but the last.
pub main-Balanced :
    (net : Network) (argv : List (List ℕ))
    → All IsText net.reads
    → (s : Session) × (main net argv ≡ some s) × Balanced s.status s.calls
unfolding main usage
main-Balanced net [] a = (usage, refl, refl)
main-Balanced net (p ∷ []) a = (usage, refl, refl)
main-Balanced net (p ∷ q ∷ []) a = (usage, refl, refl)
main-Balanced net (p ∷ font ∷ message ∷ []) a =
    print_message-Balanced net font message net.getaddrinfo refl a
main-Balanced net (p ∷ q ∷ r ∷ t ∷ rest) a = (usage, refl, refl)
