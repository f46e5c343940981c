-- ===== src/Tests/ServerSetup.antt =====
-- The file server started at a port, where listen fails.
use otus_c.Prelude.{length, ◌≡◌, refl, some, List, [], ◌∷◌, ◌++◌, arith}
use otus_c.Prelude.Int.{pos, negsuc}
use otus_c.Prelude.Text.{codes, show_nat}
use otus_c.Server.Setup.{Network, Call, Outcome, main}
use otus_c.Server.Setup.Argument.{IsAddress}
use otus_c.Server.Setup.Sockets.{Started, main-Started}

abbrev busy : Network
busy = record {
  socket = pos 3;
  setsockopt = pos 0;
  inet_pton = λ text. some (length text);
  bind = pos 0;
  listen = negsuc 0;
  epoll_create1 = pos 4;
  epoll_ctl = pos 0;
}

main-Started_example :
    (r : List Call × Outcome) × (main busy
        (codes "file_server" ∷ codes "/srv" ∷ (codes "0.0.0.0" ++ (b':' ∷ show_nat 8080)) ∷ [])
      ≡ some r)
    × Started busy 7 8080 r
unfolding IsAddress
main-Started_example =
    main-Started busy (codes "file_server") (codes "/srv") (codes "0.0.0.0") 8080
      ((λ e. cc), (refl, (refl, (refl, (refl, (refl, (refl, (refl, tt)))))))) (omega arith)
