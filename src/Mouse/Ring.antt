-- ===== src/Mouse/Ring.antt =====
-- The driver's buffer is a queue of at most 1023 bytes.
use otus_c.Prelude.{
  length, get_or, set, length-set, get_or-set_self, get_or-set_ne, ℕ, zero, suc, ◌+◌, ◌-◌, ◌%◌, ◌≤◌,
  ◌<◌, ◌≡◌, refl, ap, ap₂, ◌∙◌, ◌↔◌, true, false, List, [], ◌∷◌, ◌++◌, arith,
}
use otus_c.Mouse.{Driver, buffer_size, buf_empty, buf_full, push, advance}

pub record IsValid (d : Driver) : Type 0 where
  pub storage : length d.buffer ≡ buffer_size
  pub head_in : d.head < buffer_size
  pub tail_in : d.tail < buffer_size

-- The `n` bytes from index `t` on, round the end of the buffer.
unfoldable pub bytes : List ℕ → ℕ → ℕ → List ℕ
bytes buf t zero = []
bytes buf t (suc n) = get_or buf t 0 ∷ bytes buf ((t + 1) % buffer_size) n

-- How many bytes stand between two indices.
abbrev pub distance : ℕ → ℕ → ℕ
distance t h = (h + buffer_size - t) % buffer_size

abbrev pub used : Driver → ℕ
used d = distance d.tail d.head

-- The bytes that wait to be read, oldest first.
unfoldable pub contents : Driver → List ℕ
contents d = bytes d.buffer d.tail (used d)

length-bytes : (buf : List ℕ) (t n : ℕ) → length (bytes buf t n) ≡ n
unfolding bytes
length-bytes buf t zero = refl
length-bytes buf t (suc n) = ap suc (length-bytes buf ((t + 1) % buffer_size) n)

pub length-contents : (d : Driver) → length (contents d) ≡ used d
unfolding contents
length-contents d = length-bytes d.buffer d.tail (used d)

-- A write past the end of the bytes does not change them.
bytes-set :
    (buf : List ℕ) (h ch t n : ℕ)
    → h < buffer_size
    → t < buffer_size
    → n ≤ distance t h
    → bytes (set buf h ch) t n ≡ bytes buf t n
unfolding bytes
bytes-set buf h ch t zero hh ht le = refl
bytes-set buf h ch t (suc n) hh ht le =
    ap₂ ◌∷◌ (get_or-set_ne buf h t ch 0 (λ e. absurd (omega arith)))
      (bytes-set buf h ch ((t + 1) % buffer_size) n hh (omega arith) (omega arith))

bytes-suc :
    (buf : List ℕ) (t n : ℕ)
    → t < buffer_size
    → bytes buf t (suc n) ≡ bytes buf t n ++ (get_or buf ((t + n) % buffer_size) 0 ∷ [])
unfolding bytes
bytes-suc buf t zero ht = ap (λ k. get_or buf k 0 ∷ []) (omega arith)
bytes-suc buf t (suc n) ht =
    ap (λ l. get_or buf t 0 ∷ l)
      (bytes-suc buf ((t + 1) % buffer_size) n (omega arith)
        ∙ ap (λ k. bytes buf ((t + 1) % buffer_size) n ++ (get_or buf k 0 ∷ [])) (omega arith))

-- A byte goes to the end of the queue.
pub push_lem :
    (d : Driver) (ch : ℕ)
    → IsValid d
    → buf_full d ≡ false
    → IsValid (push d ch) × (contents (push d ch) ≡ contents d ++ (ch ∷ []))
unfolding push contents
push_lem d ch v room =
    let more : distance d.tail ((d.head + 1) % buffer_size) ≡ suc (used d) = ground arith in
    let end : (d.tail + used d) % buffer_size ≡ d.head = omega arith in
    (
      record {
        storage = length-set d.buffer d.head ch ∙ v.storage;
        head_in = omega arith;
        tail_in = v.tail_in;
      },
      rw (
        more,
        bytes-suc (set d.buffer d.head ch) d.tail (used d) v.tail_in,
        end,
        bytes-set d.buffer d.head ch d.tail (used d) v.head_in v.tail_in (omega arith),
        get_or-set_self d.buffer d.head ch 0 (omega (arith, v.storage)),
      ),
    )

-- The oldest byte leaves the queue.
pub advance_lem :
    (d : Driver)
    → IsValid d
    → buf_empty d ≡ false
    → IsValid (advance d) × (contents d ≡ get_or d.buffer d.tail 0 ∷ contents (advance d))
unfolding advance contents bytes
advance_lem d v some_byte =
    let less : used d ≡ suc (distance ((d.tail + 1) % buffer_size) d.head) = ground arith in
    (record { storage = v.storage; head_in = v.head_in; tail_in = omega arith }, rw less)

-- BUF_EMPTY and BUF_FULL say what they mean.
pub buf_empty_iff : (d : Driver) → IsValid d → (buf_empty d ≡ true) ↔ (used d ≡ 0)
buf_empty_iff d v = ((λ e. ground arith), (λ e. ground arith))

pub buf_full_iff : (d : Driver) → IsValid d → (buf_full d ≡ true) ↔ (used d ≡ 1023)
buf_full_iff d v = ((λ e. ground arith), (λ e. ground arith))
