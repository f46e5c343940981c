-- ===== src/Tests/Server.antt =====
-- Runs of the file server's theorems.
use otus_c.Prelude.{
  ◌==◌, if◌then◌else◌, length, get_elem?, ℕ, ◌≤◌, ◌≡◌, refl, ◌≢◌, ◌⊎◌, inl, Bool, true, false,
  Option, none, some, List, [], ◌∷◌, ◌++◌, arith,
}
use otus_c.Prelude.Text.{is_space, codes}
use otus_c.Prelude.Partial.{◌>>=◌}
use otus_c.Server.{
  ConnectionInfo, Site, Event, accepted, ready, received, closed, Action, watch, close, unwatch,
  Connections, step, run, put_conn, get_conn, receive, finish, add_bytes, strstr, starts_with,
  c_text, handle_request, no_connections,
}
use otus_c.Server.Reply.{
  IsRequest, handle_request_lem, concat, request_text, path_of, not_found, denied, found_head,
}
use otus_c.Server.Slots.{own, own_actions}
use otus_c.Server.Isolation.{run-own}
use otus_c.Server.Requests.{request_of, pieces_of, actions_of, answer_of, request_lem}
use otus_c.Server.Overflow.{run-overflow}

-- One file, of two bytes.
abbrev site : Site
site = record {
  root_dir = codes "/srv";
  stat = λ path. if length path == 6 then some true else none;
  fopen = λ path. some (codes "hi");
}

get-IsRequest : IsRequest (codes "GET") (codes "/f")
unfolding is_space
get-IsRequest = record {
  method_word = record { some_char = omega arith; no_space = (refl, (refl, (refl, tt))) };
  method_fits = omega arith;
  uri_word = record { some_char = omega arith; no_space = (refl, (refl, tt)) };
  uri_fits = omega arith;
}

handle_request_lem_example :
    let request = request_text (codes "GET") (codes "/f") (codes "HTTP/1.1") in
    let reply = handle_request site request in
    let path = path_of site (codes "/f") in
    (codes "GET" ≡ codes "GET" → site.stat path ≡ none → reply ≡ some (not_found ∷ [], not_found))
    × ((is_reg : Bool)
        → codes "GET" ≡ codes "GET"
        → site.stat path ≡ some is_reg
        → (is_reg ≡ false) ⊎ (site.fopen path ≡ none)
        → reply ≡ some (denied ∷ [], denied))
    × ((content : List ℕ)
        → codes "GET" ≡ codes "GET"
        → site.stat path ≡ some true
        → site.fopen path ≡ some content
        → (texts : List (List ℕ)) × (reply ≡ some (texts, request))
          × (concat texts ≡ found_head (length content) ++ content))
    × (codes "GET" ≢ codes "GET" → reply ≡ none)
handle_request_lem_example =
    handle_request_lem site (codes "GET") (codes "/f") (codes "HTTP/1.1") get-IsRequest

-- Two clients whose pieces alternate.
abbrev history : List Event
history =
    accepted (some 5)
    ∷ accepted (some 6)
    ∷ ready 5 (received (codes "GE"))
    ∷ ready 6 (received (codes "GET "))
    ∷ ready 5 closed
    ∷ []

abbrev slot : ℕ → List ℕ → Option ConnectionInfo
slot fd text =
    some (record { fd = fd; reading_state = true; buffer = text; current_length = length text })

abbrev slots : Connections
slots =
    none
    ∷ none
    ∷ none
    ∷ none
    ∷ none
    ∷ slot 5 (codes "GE")
    ∷ slot 6 (codes "GET ")
    ∷ none
    ∷ none
    ∷ none
    ∷ []

abbrev done : List Action
done = watch 5 ∷ watch 6 ∷ close 5 ∷ unwatch 5 ∷ []

history-run : run site history no_connections ≡ some (done, slots)
unfolding run step put_conn get_conn receive finish add_bytes strstr starts_with c_text
    no_connections
history-run = refl

run-own_example :
    (out : List Action) × (conns' : Connections) × (run site history no_connections
      ≡ some (out, conns'))
    × ((k : ℕ)
        → (alone : Connections) × (run site (own k history) no_connections
            ≡ some (own_actions k out, alone))
          × (get_elem? alone k ≡ get_elem? conns' k))
run-own_example = run-own site history no_connections (inl ((done, slots), history-run))

abbrev pieces : List (List ℕ)
pieces = codes "GET /f HT" ∷ codes "TP/1.1\r\n\r" ∷ codes "\n" ∷ codes "more" ∷ []

request_lem_example :
    actions_of (run site (accepted (some 5) ∷ pieces_of 5 pieces) no_connections)
    ≡ (answer_of site 5 (request_of [] pieces) >>= λ answer. some (watch 5 ∷ answer))
unfolding no_connections
request_lem_example =
    request_lem site 5 pieces no_connections refl (omega arith) (omega arith) (omega arith)

ten_or_more : (k : ℕ) → some 10 ≡ some k → 10 ≤ k
ten_or_more k e = ground arith

run-overflow_example :
    run site (history ++ (accepted (some 10) ∷ ready 5 closed ∷ [])) no_connections ≡ none
unfolding no_connections
run-overflow_example =
    run-overflow site history (ready 5 closed ∷ []) (some 10) no_connections refl ten_or_more
