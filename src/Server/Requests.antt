-- ===== src/Server/Requests.antt =====
-- How HW12-FileServer/src/server.c puts a request together from what it receives.
use otus_c.Prelude.{
  ltb, ◌==◌, if◌then◌else◌, lt→ltb, Bool-cases, length, set, take, All, length-append, length-set,
  get_elem?-set_self, ℕ, ◌+◌, ◌<◌, ◌≡◌, refl, ap, ◌∙◌, inl, inr, true, false, Option, none, some,
  List, [], ◌∷◌, ◌++◌, append-nil, arith,
}
use otus_c.Prelude.Text.{codes}
use otus_c.Prelude.Partial.{◌>>=◌}
use otus_c.Server.{
  ConnectionInfo, Site, received, Event, accepted, ready, Action, watch, answers, Connections,
  new_conn, put_conn, get_conn, c_text, add_bytes, finish, receive, step, run, handle_request,
  strstr, buffer_size, max_events,
}
use otus_c.Server.Reply.{concat}

-- No byte is zero.
abbrev pub NonZero : List ℕ → Type 0
NonZero = All (λ c. 0 < c)

c_text-NonZero : (cs : List ℕ) → NonZero cs → c_text cs ≡ cs
unfolding c_text
c_text-NonZero [] h = refl
c_text-NonZero (c ∷ cs) (p, h) =
    let e : (c == 0) ≡ false = ground arith in rw (e, c_text-NonZero cs h)

take-length : (xs : List ℕ) → take (length xs) xs ≡ xs
take-length [] = refl
take-length (x ∷ xs) = ap (λ r. x ∷ r) (take-length xs)

-- The text up to the first piece that completes the head of a request.
unfoldable pub request_of : List ℕ → List (List ℕ) → Option (List ℕ)
request_of text [] = none
request_of text (piece ∷ pieces) =
    let rest = request_of (text ++ piece) pieces in
    if strstr (text ++ piece) (codes "\r\n\r\n") then some (text ++ piece) else rest

abbrev pub pieces_of : ℕ → List (List ℕ) → List Event
pieces_of k [] = []
pieces_of k (piece ∷ pieces) = ready k (received piece) ∷ pieces_of k pieces

abbrev pub actions_of : Option (List Action × Connections) → Option (List Action)
actions_of none = none
actions_of (some (actions, conns)) = some actions

-- The answer to the request, if there is one by then.
abbrev pub answer_of : Site → ℕ → Option (List ℕ) → Option (List Action)
answer_of site k none = some []
answer_of site k (some request) = elim (handle_request site request) [
  | none ↦ none
  | some (texts, _) ↦ some (answers k texts)
]

add_bytes_lem :
    (info : ConnectionInfo) (piece : List ℕ)
    → NonZero piece
    → info.current_length ≡ length info.buffer
    → length info.buffer + length piece < buffer_size
    → add_bytes info piece
      ≡ some (record info {
        buffer = info.buffer ++ piece;
        current_length = length (info.buffer ++ piece);
      })
unfolding add_bytes
add_bytes_lem info piece nz e fits =
    let joined = length-append info.buffer piece in
    let same_length : info.current_length + length piece ≡ length (info.buffer ++ piece) =
      omega arith in
    rw (
      c_text-NonZero piece nz,
      same_length,
      lt→ltb (length (info.buffer ++ piece)) buffer_size (omega arith),
      take-length (info.buffer ++ piece),
    )

-- Slot k is in use and has stopped reading.
served_lem :
    (site : Site) (k : ℕ) (info : ConnectionInfo) (pieces : List (List ℕ)) (conns : Connections)
    → get_conn conns k ≡ some info
    → info.reading_state ≡ false
    → run site (pieces_of k pieces) conns ≡ some ([], conns)
unfolding run step
served_lem site k info [] conns got over = refl
served_lem site k info (piece ∷ pieces) conns got over =
    rw (got, over, served_lem site k info pieces conns got over)

abbrev reading : ℕ → List ℕ → ConnectionInfo
reading k text = record {
  fd = k;
  reading_state = true;
  buffer = text;
  current_length = length text;
}

-- The slot behind the answer, which may be made in the buffer.
abbrev served : ℕ → List ℕ → List ℕ → ConnectionInfo
served k text request = record {
  fd = k;
  reading_state = false;
  buffer = request;
  current_length = length text;
}

get_conn-set :
    (conns : Connections) (k : ℕ) (info : ConnectionInfo)
    → k < length conns
    → get_conn (set conns k (some info)) k ≡ some info
unfolding get_conn
get_conn-set conns k info h = rw (get_conn, get_elem?-set_self conns k (some info) h)

-- One piece that does not complete the request.
step-more :
    (site : Site) (k : ℕ) (text piece : List ℕ) (conns : Connections)
    → get_conn conns k ≡ some (reading k text)
    → k < length conns
    → NonZero piece
    → length text + length piece < buffer_size
    → strstr (text ++ piece) (codes "\r\n\r\n") ≡ false
    → step site (ready k (received piece)) conns
      ≡ some ([], set conns k (some (reading k (text ++ piece))))
unfolding step receive finish put_conn
step-more site k text piece conns got lt nz fits e =
    rw (got, add_bytes_lem (reading k text) piece nz refl fits, e, lt→ltb k (length conns) lt)

-- The piece that completes it.
step-last :
    (site : Site) (k : ℕ) (text piece : List ℕ) (conns : Connections)
    → get_conn conns k ≡ some (reading k text)
    → k < length conns
    → NonZero piece
    → length text + length piece < buffer_size
    → strstr (text ++ piece) (codes "\r\n\r\n") ≡ true
    → step site (ready k (received piece)) conns ≡ (
        handle_request site (text ++ piece) >>= λ r.
        some (answers k r.0, set conns k (some (served k (text ++ piece) r.1))))
unfolding step receive finish put_conn
step-last site k text piece conns got lt nz fits e =
    rw (got, add_bytes_lem (reading k text) piece nz refl fits, e)
      (done (handle_request site (text ++ piece)))
  where
    done :
        (r : Option (List (List ℕ) × List ℕ))
        → let info : Option (List Action × ConnectionInfo) =
            r >>= λ t. some (answers k t.0, served k (text ++ piece) t.1) in
          let left : Option (List Action × Connections) = info >>= λ x.
          (if ltb k (length conns) then some (set conns k (some x.1)) else none) >>= λ conns'.
          some (x.0, conns') in
          left
          ≡ (r >>= λ t. some (answers k t.0, set conns k (some (served k (text ++ piece) t.1))))
    done none = refl
    done (some texts) = rw (lt→ltb k (length conns) lt)

-- A step without actions.
run-quiet :
    (site : Site) (e : Event) (es : List Event) (conns conns' : Connections)
    → step site e conns ≡ some ([], conns')
    → actions_of (run site (e ∷ es) conns) ≡ actions_of (run site es conns')
unfolding run
run-quiet site e es conns conns' h = rw h (same_actions (run site es conns'))
  where
    same_actions :
        (r : Option (List Action × Connections))
        → let out : Option (List Action × Connections) = r >>= λ x. some (x.0, x.1) in
          actions_of out ≡ actions_of r
    same_actions none = refl
    same_actions (some x) = refl

run-none :
    (site : Site) (e : Event) (es : List Event) (conns : Connections)
    → step site e conns ≡ none
    → actions_of (run site (e ∷ es) conns) ≡ none
unfolding run
run-none site e es conns h = rw (run, h) refl

run-last :
    (site : Site) (e : Event) (es : List Event) (conns conns' : Connections) (actions : List Action)
    → step site e conns ≡ some (actions, conns')
    → run site es conns' ≡ some ([], conns')
    → actions_of (run site (e ∷ es) conns) ≡ some actions
unfolding run
run-last site e es conns conns' actions h quiet = rw (run, h, quiet) (ap some (append-nil actions))

pieces_lem :
    (site : Site) (k : ℕ) (text : List ℕ) (pieces : List (List ℕ)) (conns : Connections)
    → get_conn conns k ≡ some (reading k text)
    → k < length conns
    → All NonZero pieces
    → length text + length (concat pieces) < buffer_size
    → actions_of (run site (pieces_of k pieces) conns) ≡ answer_of site k (request_of text pieces)
unfolding request_of
pieces_lem site k text [] conns got lt nz fits = unfold run in refl
pieces_lem site k text (piece ∷ pieces) conns got lt (n, nz) fits =
    let joined = length-append text piece in
    let total = length-append piece (concat pieces) in
    elim (Bool-cases (strstr (text ++ piece) (codes "\r\n\r\n"))) [
      | inl e ↦ rw e (
          answered (handle_request site (text ++ piece)) refl
            (step-last site k text piece conns got lt n (omega arith) e))
      | inr e ↦
          let c' = set conns k (some (reading k (text ++ piece))) in
          rw e (
            run-quiet site (ready k (received piece)) (pieces_of k pieces) conns c'
              (step-more site k text piece conns got lt n (omega arith) e)
            ∙ pieces_lem site k (text ++ piece) pieces c'
                (get_conn-set conns k (reading k (text ++ piece)) lt)
                (omega (arith, length-set conns k (some (reading k (text ++ piece))))) nz
                (omega arith))
    ]
  where
    answered :
        (r : Option (List (List ℕ) × List ℕ))
        → handle_request site (text ++ piece) ≡ r
        → step site (ready k (received piece)) conns
          ≡ (r >>= λ t. some (answers k t.0, set conns k (some (served k (text ++ piece) t.1))))
        → actions_of (run site (ready k (received piece) ∷ pieces_of k pieces) conns)
          ≡ answer_of site k (some (text ++ piece))
    answered none e h =
        run-none site (ready k (received piece)) (pieces_of k pieces) conns h
        ∙ rw (answer_of, e) refl
    answered (some (texts, request)) e h =
        let c' = set conns k (some (served k (text ++ piece) request)) in
        run-last site (ready k (received piece)) (pieces_of k pieces) conns c' (answers k texts) h (
          served_lem site k (served k (text ++ piece) request) pieces c'
            (get_conn-set conns k (served k (text ++ piece) request) lt) refl)
        ∙ rw (answer_of, e) refl

-- A client whose descriptor has a slot gets its answer as soon as what it has sent ends the head of a
-- request, however the text was cut into pieces on the way, and never before; what it sends after
-- that is not read. The pieces have no zero byte and are less than 8192 bytes together.
pub request_lem :
    (site : Site) (k : ℕ) (pieces : List (List ℕ)) (conns : Connections)
    → length conns ≡ max_events
    → k < max_events
    → All NonZero pieces
    → length (concat pieces) < buffer_size
    → actions_of (run site (accepted (some k) ∷ pieces_of k pieces) conns)
      ≡ (answer_of site k (request_of [] pieces) >>= λ answer. some (watch k ∷ answer))
unfolding run step put_conn
request_lem site k pieces conns slots lt nz fits =
    let c' = set conns k (some (new_conn k)) in
    let got = get_conn-set conns k (new_conn k) (omega arith) in
    rw (lt→ltb k (length conns) (omega arith)) (
      watched (run site (pieces_of k pieces) c')
      ∙ ap (λ r. r >>= λ answer. some (watch k ∷ answer))
          (pieces_lem site k [] pieces c' got
            (omega (arith, length-set conns k (some (new_conn k)))) nz (omega arith)))
  where
    watched :
        (r : Option (List Action × Connections))
        → let out : Option (List Action × Connections) = r >>= λ x. some (watch k ∷ x.0, x.1) in
          actions_of out ≡ (actions_of r >>= λ answer. some (watch k ∷ answer))
    watched none = refl
    watched (some x) = refl
