-- ===== src/Telehack.antt =====
-- HW11-Network/src/convertor.c: a message drawn by the figlet service of telehack.com. `none` stands for
-- a read outside the buffer. `Telehack.Client` has the connection and the program.
use otus_c.Prelude.{
  ◌==◌, if◌then◌else◌, length, take, drop, replicate, ℕ, ◌-◌, Bool, true, false, Option, none, some,
  List, [], ◌∷◌, ◌++◌,
}
use otus_c.Prelude.Text.{codes}
use otus_c.Prelude.Partial.{◌>>◌, ◌>>=◌}
pub mod Reads
pub mod Client

unfoldable pub buf_size : ℕ
buf_size = 2048

-- The text in the buffer, up to its first zero byte.
pub c_string : List ℕ → Option (List ℕ)
c_string [] = none
c_string (c ∷ cs) =
    let rest = c_string cs in
    if c == 0 then some [] else elim rest [ none ↦ none | some text ↦ some (c ∷ text) ]

-- buffer[idx] with idx = strlen(buffer) - 1.
unfoldable pub last_of : List ℕ → Option ℕ
last_of [] = none
last_of (c ∷ []) = some c
last_of (c ∷ d ∷ cs) = last_of (d ∷ cs)

-- read into the buffer: what was there behind the new bytes stays. At the end of the stream there are
-- no new bytes.
unfoldable pub fill : List ℕ → List ℕ → List ℕ
fill got buffer = got ++ drop (length got) buffer

unfoldable pub shown : Bool → List ℕ → List ℕ
shown print text = if print then text else []

-- The loop over what read gives: what is printed, and the reads that are left; `none` for these if
-- the loop waits for another one.
pub read_loop : Bool → List (List ℕ) → List ℕ → Option (List ℕ × Option (List (List ℕ)))
read_loop print [] buffer = some ([], none)
read_loop print (got ∷ reads) buffer = do
  let buffer' = fill got buffer
  let next = read_loop print reads buffer'
  text ← c_string buffer'
  last ← last_of text
  more ← if last == b'.' then some (shown print (codes "\n"), some reads) else next
  some (shown print text ++ more.0, more.1)

pub read_msg : Bool → List (List ℕ) → Option (List ℕ × Option (List (List ℕ)))
read_msg print reads = read_loop print reads (replicate buf_size 0)

-- What is sent, what is printed, and the reads that are left, or none if it waits for another one.
pub record Exchange : Type 0 where
  pub sent : List (List ℕ)
  pub printed : List ℕ
  pub left : Option (List (List ℕ))

unfoldable pub request_of : List ℕ → List ℕ → List ℕ
request_of font_name text =
    take (buf_size - 1) (codes "figlet /" ++ (font_name ++ (codes " " ++ (text ++ codes "\r\n"))))

-- From the end of the first message on. Only the second one is printed.
pub after_greeting : List ℕ → List ℕ × Option (List (List ℕ)) → Option Exchange
after_greeting msg (printed, none) = some (record { sent = []; printed = printed; left = none })
after_greeting msg (printed, some reads) = read_msg true reads >>= (λ answer.
    some (record { sent = msg ∷ []; printed = printed ++ answer.0; left = answer.1 }))

pub fetch : List ℕ → List ℕ → List (List ℕ) → Option Exchange
fetch font_name text reads = read_msg false reads >>= after_greeting (request_of font_name text)
