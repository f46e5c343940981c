-- ===== src/Server/Reply.antt =====
-- What handle_request of HW12-FileServer/src/server.c answers.
use otus_c.Prelude.{
  Bool-cases, length, take, drop, take-append-drop, ℕ, zero, suc, ◌-◌, ◌≤◌, ◌<◌, ◌≡◌, refl, ap, ◌∙◌,
  ◌≢◌, ◌⊎◌, inl, inr, Bool, true, false, Option, none, some, List, [], ◌∷◌, ◌++◌, arith,
}
use otus_c.Prelude.Text.{codes, show_nat, same, same_refl, same-eq}
use otus_c.Server.{
  Site, buffer_size, build_response_header, send_loop, send_file, write_literal, refuse,
  answer_file, answer_path, path_max, handle_request,
}
use otus_c.Server.Words.{IsWord, scan_word_lem, scan_word-space}

abbrev pub concat : List (List ℕ) → List ℕ
concat [] = []
concat (xs ∷ xss) = xs ++ concat xss

length-drop-lt : (n : ℕ) (c : ℕ) (xs : List ℕ) → 0 < n → length (drop n (c ∷ xs)) ≤ length xs
length-drop-lt zero c xs h = absurd (omega arith)
length-drop-lt (suc n) c xs h = shorter n xs
  where
    shorter : (n : ℕ) (xs : List ℕ) → length (drop n xs) ≤ length xs
    shorter zero xs = omega arith
    shorter (suc n) [] = omega arith
    shorter (suc n) (x ∷ xs) = omega (arith, shorter n xs)

send_loop_lem :
    (fuel : ℕ) (content : List ℕ)
    → length content ≤ fuel
    → concat (send_loop fuel content) ≡ content
unfolding send_loop
send_loop_lem zero [] h = refl
send_loop_lem zero (c ∷ content) h = absurd (omega arith)
send_loop_lem (suc fuel) [] h = refl
send_loop_lem (suc fuel) (c ∷ content) h =
    ap (λ r. take buffer_size (c ∷ content) ++ r)
      (send_loop_lem fuel (drop buffer_size (c ∷ content))
        (omega (arith, length-drop-lt buffer_size c content (omega arith))))
    ∙ take-append-drop buffer_size (c ∷ content)

-- The head of an answer with a file of that length.
abbrev pub found_head : ℕ → List ℕ
found_head size =
    codes "HTTP/1.1 200 OK\r\nContent-Type: application/octet-stream\r\nContent-Length: "
    ++ (show_nat size ++ codes "\r\nConnection: close\r\n\r\n")

-- send_file sends the header with the length of the file, and behind it all bytes of the file.
send_file_lem :
    (content : List ℕ) → concat (send_file content) ≡ found_head (length content) ++ content
unfolding send_file build_response_header
send_file_lem content =
    ap (λ r. found_head (length content) ++ r)
      (send_loop_lem (length content) content (omega arith))

too_long :
    write_literal
      (codes "HTTP/1.1 501 Not Implemented\r\nContent-Length: 0\r\nConnection: close\r\n\r\n")
      76
    ≡ none
unfolding write_literal
too_long = refl

-- A request whose first two words fit their arrays, the second with a space behind it.
pub record IsRequest (method uri : List ℕ) : Type 0 where
  pub method_word : IsWord method
  pub method_fits : length method < 16
  pub uri_word : IsWord uri
  pub uri_fits : length uri < 256

abbrev pub request_text : List ℕ → List ℕ → List ℕ → List ℕ
request_text method uri rest = method ++ (b' ' ∷ (uri ++ (b' ' ∷ rest)))

abbrev pub path_of : Site → List ℕ → List ℕ
path_of site uri = take (path_max - 1) (site.root_dir ++ uri)

get_lem :
    (site : Site) (method uri rest : List ℕ)
    → IsRequest method uri
    → same method (codes "GET") ≡ true
    → handle_request site (request_text method uri rest)
      ≡ some (answer_path site (request_text method uri rest) (path_of site uri))
unfolding handle_request
get_lem site method uri rest r e = rw (
  scan_word_lem 16 method (uri ++ (b' ' ∷ rest)) r.method_word r.method_fits,
  scan_word-space 256 uri rest r.uri_word r.uri_fits,
  e,
)

other_lem :
    (site : Site) (method uri rest : List ℕ)
    → IsRequest method uri
    → same method (codes "GET") ≡ false
    → handle_request site (request_text method uri rest) ≡ none
unfolding handle_request
other_lem site method uri rest r e = rw (
  scan_word_lem 16 method (uri ++ (b' ' ∷ rest)) r.method_word r.method_fits,
  scan_word-space 256 uri rest r.uri_word r.uri_fits,
  e,
  too_long,
)

abbrev pub not_found : List ℕ
not_found =
    codes
      "HTTP/1.1 404 Not Found\r\nContent-Length: 0\r\nConnection: close\r\n\r\n\r\nFile not found."

abbrev pub denied : List ℕ
denied =
    codes
      "HTTP/1.1 403 Forbidden\r\nContent-Length: 0\r\nConnection: close\r\n\r\n\r\nAccess denied."

answer_path-missing :
    (site : Site) (request path : List ℕ)
    → site.stat path ≡ none
    → answer_path site request path ≡ (not_found ∷ [], not_found)
unfolding answer_path refuse build_response_header
answer_path-missing site request path e = rw (answer_path, e) refl

answer_file-denied :
    (request : List ℕ) (is_reg : Bool) (file : Option (List ℕ))
    → (is_reg ≡ false) ⊎ (file ≡ none)
    → answer_file request is_reg file ≡ (denied ∷ [], denied)
unfolding answer_file refuse build_response_header
answer_file-denied request is_reg none why = refl
answer_file-denied request is_reg (some content) (inl other) = rw other refl
answer_file-denied request is_reg (some content) (inr shut) = cc shut

answer_path-denied :
    (site : Site) (request path : List ℕ) (is_reg : Bool)
    → site.stat path ≡ some is_reg
    → (is_reg ≡ false) ⊎ (site.fopen path ≡ none)
    → answer_path site request path ≡ (denied ∷ [], denied)
unfolding answer_path
answer_path-denied site request path is_reg e why =
    rw (answer_path, e) (answer_file-denied request is_reg (site.fopen path) why)

answer_path-file :
    (site : Site) (request path content : List ℕ)
    → site.stat path ≡ some true
    → site.fopen path ≡ some content
    → answer_path site request path ≡ (send_file content, request)
unfolding answer_path answer_file
answer_path-file site request path content e f = rw (answer_path, e, f)

-- To a request that starts with two words that fit their arrays, handle_request answers, if the first one
-- is GET, by the path that is the root directory and the second word, cut to 4095 bytes: a 404 text if
-- stat fails, a 403 text if the path is no regular file or cannot be opened, and else a 200 header with the
-- length of the file in decimal and, in pieces, all of the file. The 404 and 403 texts are made in the
-- buffer of the request and stay there; the file leaves it as it was. For any other method it reads
-- behind the end of its own answer, for which it gives the wrong length.
pub handle_request_lem :
    (site : Site) (method uri rest : List ℕ)
    → IsRequest method uri
    → let request = request_text method uri rest in
      let reply = handle_request site request in
      let path = path_of site uri in
      (method ≡ codes "GET" → site.stat path ≡ none → reply ≡ some (not_found ∷ [], not_found))
      × ((is_reg : Bool)
          → method ≡ codes "GET"
          → site.stat path ≡ some is_reg
          → (is_reg ≡ false) ⊎ (site.fopen path ≡ none)
          → reply ≡ some (denied ∷ [], denied))
      × ((content : List ℕ)
          → method ≡ codes "GET"
          → site.stat path ≡ some true
          → site.fopen path ≡ some content
          → (texts : List (List ℕ)) × (reply ≡ some (texts, request))
            × (concat texts ≡ found_head (length content) ++ content))
      × (method ≢ codes "GET" → reply ≡ none)
handle_request_lem site method uri rest r =
    let request = request_text method uri rest in
    let get = λ (e : method ≡ codes "GET").
      get_lem site method uri rest r (ap (λ m. same m (codes "GET")) e ∙ same_refl (codes "GET")) in
    (
      (λ e missing. get e ∙ ap some (answer_path-missing site request (path_of site uri) missing)),
      (λ is_reg e found why.
          get e ∙ ap some (answer_path-denied site request (path_of site uri) is_reg found why)),
      (λ content e found opened. (
        send_file content,
        get e ∙ ap some (answer_path-file site request (path_of site uri) content found opened),
        send_file_lem content,
      )),
      (λ ne. elim (Bool-cases (same method (codes "GET"))) [
        | inl e ↦ absurd (ne (same-eq method (codes "GET") e))
        | inr other ↦ other_lem site method uri rest r other
      ]),
    )
