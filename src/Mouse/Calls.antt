-- ===== src/Mouse/Calls.antt =====
-- The file operations and the timer callback, as operations on the queue of waiting bytes.
use otus_c.Prelude.{
  leb, ◌==◌, if◌then◌else◌, Bool-cases, length, get_or, take, drop, length-append, ℕ, zero, suc,
  ◌+◌, ◌-◌, ◌%◌, ◌≤◌, ◌<◌, min, ◌≡◌, refl, sym, ap, ap₂, ◌∙◌, ◌≢◌, inl, inr, Bool, true, false,
  ◌&&◌, Option, none, some, List, [], ◌∷◌, ◌++◌, map, append_assoc, append-nil, arith,
}
use otus_c.Prelude.Int.{ℤ, ◌+ℤ◌, pos, negsuc, ◌≤ℤ◌}
use otus_c.Prelude.Text.{codes, show_int}
use otus_c.Mouse.{
  Driver, buf_empty, buf_full, push, advance, Ret, count, efault, write_from, mouse_write,
  read_from, mouse_read, axis_value, event_text, log_from, simulate_mouse_data, mode_store,
}
use otus_c.Mouse.Ring.{
  IsValid, used, contents, length-contents, push_lem, advance_lem, buf_empty_iff, buf_full_iff,
}

-- How many more bytes the buffer takes: one slot always stays free.
abbrev pub room : Driver → ℕ
room d = 1023 - used d

-- The bytes in front of the first address that cannot be read, and whether there is such an address.
pub readable : List (Option ℕ) → List ℕ
readable [] = []
readable (none ∷ src) = []
readable (some ch ∷ src) = ch ∷ readable src

pub faults : List (Option ℕ) → Bool
faults [] = false
faults (none ∷ src) = true
faults (some ch ∷ src) = faults src

used-lt : (d : Driver) → used d ≤ 1023
used-lt d = omega arith

used-push : (d : Driver) (ch : ℕ) → IsValid d → buf_full d ≡ false → used (push d ch) ≡ suc (used d)
used-push d ch v e = omega (
  arith,
  length-contents d,
  length-contents (push d ch),
  length-append (contents d) (ch ∷ []),
  ap length (push_lem d ch v e).1,
)

take-room : (n : ℕ) (x : ℕ) (xs : List ℕ) → 0 < n → take n (x ∷ xs) ≡ x ∷ take (n - 1) xs
take-room zero x xs h = absurd (omega arith)
take-room (suc n) x xs h = ap (λ k. x ∷ take k xs) (omega arith)

-- What a call of write leaves behind.
record Wrote (d : Driver) (src : List (Option ℕ)) (i : ℕ) (out : Ret × Driver) : Type 0 where
  valid : IsValid out.1
  queue : contents out.1 ≡ contents d ++ take (room d) (readable src)
  ret : out.0 ≡ (
      if faults src && leb (length (readable src)) (room d)
      then efault
      else count (i + min (length (readable src)) (room d)))

take_zero : (n : ℕ) (xs : List ℕ) → n ≡ 0 → take n xs ≡ []
take_zero zero xs e = refl
take_zero (suc n) xs e = absurd (omega arith)

take-nil : (n : ℕ) → take {A = ℕ} n [] ≡ []
take-nil zero = refl
take-nil (suc n) = refl

write_from-Wrote :
    (d : Driver) (src : List (Option ℕ)) (i : ℕ) → IsValid d → Wrote d src i (write_from d src i)
unfolding write_from readable faults
write_from-Wrote d [] i v = record {
  valid = v;
  queue = rw (take-nil, append-nil);
  ret = ap count (omega arith);
}
write_from-Wrote d (none ∷ src) i v = record {
  valid = v;
  queue = rw (take-nil, append-nil);
  ret = ground arith;
}
write_from-Wrote d (some ch ∷ src) i v = elim (Bool-cases (buf_full d)) [
  | inl full ↦
      let e = (buf_full_iff d v).0 full in
      record {
        valid = rw (full, write_from) v;
        queue =
            rw (full, write_from, take_zero (room d) (ch ∷ readable src) (omega arith), append-nil);
        ret = rw (full, write_from) (ground arith);
      }
  | inr more ↦
      let (v', queue) = push_lem d ch v more in
      let rest = write_from-Wrote (push d ch) src (i + 1) v' in
      let step = used-push d ch v more in
      record {
        valid = rw (more, write_from) rest.valid;
        queue =
            rw (more, write_from, take-room (room d) ch (readable src) (omega arith))
              (rest.queue
                ∙ ap₂ ◌++◌ queue (ap (λ n. take n (readable src)) (omega arith))
                ∙ append_assoc (contents d) (ch ∷ []) (take (room d - 1) (readable src)));
        ret = rw (more, write_from) (rest.ret ∙ ground arith);
      }
]

-- `write` to a valid buffer appends to the waiting bytes as many of the caller's bytes as fit, in
-- order, up to the first that cannot be read; it returns -EFAULT exactly when it reaches such a
-- byte, which the loop looks at before it looks for room, and else the number of bytes appended.
pub mouse_write_lem :
    (d : Driver) (src : List (Option ℕ))
    → IsValid d
    → let (ret, d') = mouse_write d src in
      IsValid d'
      × (contents d' ≡ contents d ++ take (room d) (readable src))
      × (ret ≡ (
          if faults src && leb (length (readable src)) (room d)
          then efault
          else count (min (length (readable src)) (room d))))
unfolding mouse_write
mouse_write_lem d src v =
    let w = write_from-Wrote d src 0 v in (w.valid, w.queue, w.ret ∙ ground arith)

log_from_lem :
    (d : Driver) (text : List ℕ)
    → IsValid d
    → IsValid (log_from d text) × (contents (log_from d text) ≡ contents d ++ take (room d) text)
unfolding log_from
log_from_lem d [] v = (v, rw (take-nil, append-nil))
log_from_lem d (ch ∷ text) v = elim (Bool-cases (buf_full d)) [
  | inl full ↦
      let e = (buf_full_iff d v).0 full in
      rw (full, log_from) (v, rw (take_zero (room d) (ch ∷ text) (omega arith), append-nil))
  | inr more ↦
      let (v', queue) = push_lem d ch v more in
      let (rest, queue') = log_from_lem (push d ch) text v' in
      let step = used-push d ch v more in
      rw (more, log_from)
        (
          rest,
          rw (take-room (room d) ch text (omega arith)) (
              queue'
              ∙ ap₂ ◌++◌ queue (ap (λ n. take n text) (omega arith))
              ∙ append_assoc (contents d) (ch ∷ []) (take (room d - 1) text)),
        )
]

axis_value_lem : (r : ℕ) → axis_value r +ℤ pos 5 ≡ pos (r % 10)
unfolding axis_value ◌+ℤ◌
axis_value_lem r = ground arith

-- The text of an event: in mode 0 the movement along X, in mode 1 that along Y, in any other both, each on a
-- line of its own.
pub IsEvent : ℤ → ℤ → ℤ → List ℕ → Type 0
IsEvent mode x y text =
    (mode ≡ pos 0 → text ≡ codes "MOUSE_X:" ++ (show_int x ++ codes "\n"))
    × (mode ≡ pos 1 → text ≡ codes "MOUSE_Y:" ++ (show_int y ++ codes "\n"))
    × (mode ≢ pos 0
        → mode ≢ pos 1
        → text
          ≡ codes "MOUSE_X:" ++ (show_int x ++ (codes "\nMOUSE_Y:" ++ (show_int y ++ codes "\n"))))

longer :
    (x y : ℤ)
    → (codes "MOUSE_X:" ++ (show_int x ++ codes "\n"))
        ++ (codes "MOUSE_Y:" ++ (show_int y ++ codes "\n"))
      ≡ codes "MOUSE_X:" ++ (show_int x ++ (codes "\nMOUSE_Y:" ++ (show_int y ++ codes "\n")))
longer x y =
    ap (λ r. codes "MOUSE_X:" ++ r)
      (append_assoc (show_int x) (codes "\n") (codes "MOUSE_Y:" ++ (show_int y ++ codes "\n")))

event_text-IsEvent : (mode x y : ℤ) → IsEvent mode x y (event_text mode x y)
unfolding IsEvent event_text
event_text-IsEvent (pos zero) x y = (λ e. refl, λ e. cc e, λ a b. absurd (a refl))
event_text-IsEvent (pos (suc zero)) x y =
    (λ e. absurd (ground (arith, e)), λ e. refl, λ a b. absurd (b refl))
event_text-IsEvent (pos (suc (suc n))) x y =
    (λ e. absurd (ground (arith, e)), λ e. absurd (ground (arith, e)), λ a b. longer x y)
event_text-IsEvent (negsuc n) x y = (λ e. cc e, λ e. cc e, λ a b. longer x y)

-- The timer's callback keeps the buffer valid and appends to the waiting bytes as much of the text of
-- the event as fits: in mode 0 the movement along X, in mode 1 that along Y, in any other mode both. The
-- movements are the last decimal digits of the two random numbers, less 5.
pub simulate_mouse_data_lem :
    (r r' : ℕ) (d : Driver)
    → IsValid d
    → let d' = simulate_mouse_data r r' d in
      IsValid d'
      × ((x y : ℤ) × (text : List ℕ) × (x +ℤ pos 5 ≡ pos (r % 10))
          × (y +ℤ pos 5 ≡ pos (r' % 10))
          × IsEvent d.display_mode x y text
          × (contents d' ≡ contents d ++ take (room d) text))
unfolding simulate_mouse_data
simulate_mouse_data_lem r r' d v =
    let x = axis_value r in
    let y = axis_value r' in
    let text = event_text d.display_mode x y in
    let (valid, logged) = log_from_lem d text v in
    (
      valid,
      (
        x,
        y,
        text,
        axis_value_lem r,
        axis_value_lem r',
        event_text-IsEvent d.display_mode x y,
        logged,
      ),
    )

-- The rounds of read before the first address that put_user refuses, among the next `n`.
pub storable : (ℕ → Bool) → ℕ → ℕ → ℕ
storable bad zero i = 0
storable bad (suc n) i = let more = storable bad n (i + 1) in if bad i then 0 else suc more

-- What a call of read with `m` bytes at hand within its length does.
record Read (bad : ℕ → Bool) (m i : ℕ) (d : Driver) (out : Ret × List ℕ × Driver) : Type 0 where
  valid : IsValid out.2
  stored : out.1 ≡ take (storable bad m i) (contents d)
  left : contents out.2 ≡ drop (storable bad m i) (contents d)
  ret : out.0 ≡ (if storable bad m i == m then count (i + m) else efault)

stopped : (bad : ℕ → Bool) (i : ℕ) (d : Driver) → IsValid d → Read bad 0 i d (count i, [], d)
unfolding storable
stopped bad i d v = record { valid = v; stored = refl; left = refl; ret = ap count (omega arith) }

read_from-Read :
    (bad : ℕ → Bool) (n m i : ℕ) (d : Driver)
    → IsValid d
    → m ≡ min n (used d)
    → Read bad m i d (read_from bad n i d)
unfolding read_from storable
read_from-Read bad zero zero i d v e = stopped bad i d v
read_from-Read bad zero (suc m) i d v e = absurd (omega arith)
read_from-Read bad (suc n) zero i d v e =
    rw ((buf_empty_iff d v).1 (omega arith), read_from) (stopped bad i d v)
read_from-Read bad (suc n) (suc m) i d v e = elim (Bool-cases (buf_empty d)) [
  | inl none_left ↦ absurd (omega (arith, (buf_empty_iff d v).0 none_left))
  | inr more ↦
      let (v', queue) = advance_lem d v more in
      let less : suc (used (advance d)) ≡ used d =
        omega (arith, length-contents d, length-contents (advance d), ap length queue) in
      elim (Bool-cases (bad i)) [
        | inl refuse ↦
            rw (more, refuse, read_from)
              (record {
                valid = v;
                stored = rw (refuse, storable);
                left = rw (refuse, storable);
                ret = rw (refuse, storable) (ground arith);
              })
        | inr fine ↦
            let rest = read_from-Read bad n m (i + 1) (advance d) v' (omega arith) in
            rw (more, fine, read_from)
              (record {
                valid = rest.valid;
                stored =
                    rw (fine, storable, queue) (ap (λ l. get_or d.buffer d.tail 0 ∷ l) rest.stored);
                left = rw (fine, storable, queue) rest.left;
                ret = rw (fine, storable) (rest.ret ∙ ground arith);
              })
      ]
]

-- `read` of `len` bytes from a valid buffer stores the oldest waiting bytes and removes just those:
-- as many as there are, up to `len`, or up to the first address that cannot be written; it returns
-- their number, or -EFAULT if it met such an address.
pub mouse_read_lem :
    (bad : ℕ → Bool) (len : ℕ) (d : Driver)
    → IsValid d
    → let (ret, out, d') = mouse_read bad len d in
      let n = min len (used d) in
      let k = storable bad n 0 in
      IsValid d'
      × (out ≡ take k (contents d))
      × (contents d' ≡ drop k (contents d))
      × (ret ≡ (if k == n then count n else efault))
unfolding mouse_read
mouse_read_lem bad len d v =
    let r = read_from-Read bad len (min len (used d)) 0 d v refl in
    (r.valid, r.stored, r.left, r.ret ∙ ground arith)

storable_all : (bad : ℕ → Bool) (n i : ℕ) → ((j : ℕ) → bad j ≡ false) → storable bad n i ≡ n
unfolding storable
storable_all bad zero i h = refl
storable_all bad (suc n) i h = rw (h i, storable) (ap suc (storable_all bad n (i + 1) h))

readable-map :
    (text : List ℕ) → (readable (map some text) ≡ text) × (faults (map some text) ≡ false)
unfolding readable faults
readable-map [] = (refl, refl)
readable-map (ch ∷ text) = (ap (λ l. ch ∷ l) (readable-map text).0, (readable-map text).1)

take-all : (n : ℕ) (xs : List ℕ) → length xs ≤ n → take n xs ≡ xs
take-all zero [] h = refl
take-all zero (x ∷ xs) h = absurd (omega arith)
take-all (suc n) [] h = refl
take-all (suc n) (x ∷ xs) h = ap (λ l. x ∷ l) (take-all n xs (omega arith))

contents-nil : (d : Driver) → used d ≡ 0 → contents d ≡ []
contents-nil d e = empty (contents d) (length-contents d ∙ e)
  where
    empty : (xs : List ℕ) → length xs ≡ 0 → xs ≡ []
    empty [] h = refl
    empty (x ∷ xs) h = absurd (omega arith)

-- At most 1023 bytes that are written to an empty buffer, at addresses that can be accessed, come
-- back in order from the next read that asks for as many or more.
mouse_read-write :
    (text : List ℕ) (len : ℕ) (bad : ℕ → Bool) (d : Driver)
    → IsValid d
    → used d ≡ 0
    → length text ≤ 1023
    → length text ≤ len
    → ((j : ℕ) → bad j ≡ false)
    → let (ret, d') = mouse_write d (map some text) in
      (ret ≡ count (length text)) × ((mouse_read bad len d').1 ≡ text)
mouse_read-write text len bad d v empty fits asked fine =
    let (v', queue, ret) = mouse_write_lem d (map some text) v in
    let (all, quiet) = readable-map text in
    let d' = (mouse_write d (map some text)).1 in
    let held : contents d' ≡ text =
      queue ∙ rw (contents-nil d empty, all) (take-all (room d) text (omega arith)) in
    let n : used d' ≡ length text = sym (length-contents d') ∙ ap length held in
    let (_, out, _, _) = mouse_read_lem bad len d' v' in
    (
      ret ∙ rw (quiet, all) (ap count (omega arith)),
      out
          ∙ rw (storable_all bad (min len (used d')) 0 fine, held)
              (take-all (min len (used d')) text (omega arith)),
    )

-- A text that parses to 0, 1 or 2 sets the mode and any other leaves it; the store takes all bytes.
mode_store_lem :
    (parsed : Option ℤ) (n : ℕ) (d : Driver)
    → (pos 0 ≤ℤ d.display_mode)
    → (d.display_mode ≤ℤ pos 2)
    → let (ret, d') = mode_store parsed n d in
      (ret ≡ n)
      × (pos 0 ≤ℤ d'.display_mode)
      × (d'.display_mode ≤ℤ pos 2)
      × ((m : ℤ) → parsed ≡ some m → pos 0 ≤ℤ m → m ≤ℤ pos 2 → d'.display_mode ≡ m)
unfolding mode_store
mode_store_lem none n d lo hi = (refl, lo, hi, (λ m e. cc e))
mode_store_lem (some k) n d lo hi =
    (ground arith, ground arith, ground arith, (λ m e p q. ground arith))
