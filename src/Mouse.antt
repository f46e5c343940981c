-- ===== src/Mouse.antt =====
-- The mouse driver: HW14-driver/mouse_driv.c. One function for each file operation, for the timer
-- and for the sysfs attribute; `Mouse.Module` has the module's init and exit.
pub mod Ring
pub mod Calls
pub mod Module
use otus_c.Prelude.{
  ◌==◌, if◌then◌else◌, get_or, set, ℕ, zero, suc, ◌+◌, ◌%◌, Bool, ◌&&◌, Option, none, some, List,
  [], ◌∷◌, ◌++◌,
}
use otus_c.Prelude.Int.{ℤ, pos, sub_ℕ, leb_ℤ}
use otus_c.Prelude.Text.{codes, show_int}

-- buffer_size is never changed after its initialisation.
abbrev pub buffer_size : ℕ
buffer_size = 1024

-- mouse_buffer, head, tail and display_mode.
pub record Driver : Type 0 where
  pub buffer : List ℕ
  pub head : ℕ
  pub tail : ℕ
  pub display_mode : ℤ

abbrev pub buf_empty : Driver → Bool
buf_empty d = d.head == d.tail

abbrev pub buf_full : Driver → Bool
buf_full d = (d.head + 1) % buffer_size == d.tail

-- mouse_buffer[head] = ch; head = (head + 1) % buffer_size;
pub push : Driver → ℕ → Driver
push d ch = record d { buffer = set d.buffer d.head ch; head = (d.head + 1) % buffer_size }

-- tail = (tail + 1) % buffer_size;
pub advance : Driver → Driver
advance d = record d { tail = (d.tail + 1) % buffer_size }

-- A byte count, or -EFAULT.
pub data Ret : Type 0 where
  count : ℕ → Ret
  efault : Ret

-- The loop of mouse_write over the caller's bytes; `none` is an address that copy_from_user refuses.
pub write_from : Driver → List (Option ℕ) → ℕ → Ret × Driver
write_from d [] i = (count i, d)
write_from d (none ∷ src) i = (efault, d)
write_from d (some ch ∷ src) i =
    let rest = write_from (push d ch) src (i + 1) in if buf_full d then (count i, d) else rest

pub mouse_write : Driver → List (Option ℕ) → Ret × Driver
mouse_write d src = write_from d src 0

-- The loop of mouse_read, with `n` = len - copied rounds left at most; `bad i` says that put_user
-- refuses the `i`-th address. The list is what was stored through `buf`.
pub read_from : (ℕ → Bool) → ℕ → ℕ → Driver → Ret × List ℕ × Driver
read_from bad zero copied d = (count copied, [], d)
read_from bad (suc n) copied d =
    let (r, out, d') = read_from bad n (copied + 1) (advance d) in
    if buf_empty d
    then (count copied, [], d)
    else (if bad copied then (efault, [], d) else (r, get_or d.buffer d.tail 0 ∷ out, d'))

pub mouse_read : (ℕ → Bool) → ℕ → Driver → Ret × List ℕ × Driver
mouse_read bad len d = read_from bad len 0 d

-- get_random_long() % 10 - 5, wrapped to 64 bits and then converted to an int.
pub axis_value : ℕ → ℤ
axis_value r = sub_ℕ (r % 10) 5

pub event_text : ℤ → ℤ → ℤ → List ℕ
event_text mode x y =
    let only_x = codes "MOUSE_X:" ++ (show_int x ++ codes "\n") in
    let only_y = codes "MOUSE_Y:" ++ (show_int y ++ codes "\n") in
    elim mode [ pos zero ↦ only_x | pos (suc zero) ↦ only_y | _ ↦ only_x ++ only_y ]

-- for (i < event_len) { if (BUF_FULL) break; ... }
pub log_from : Driver → List ℕ → Driver
log_from d [] = d
log_from d (ch ∷ text) = let rest = log_from (push d ch) text in if buf_full d then d else rest

-- The timer's callback, with the two values that get_random_long returns.
pub simulate_mouse_data : ℕ → ℕ → Driver → Driver
simulate_mouse_data r r' d = log_from d (event_text d.display_mode (axis_value r) (axis_value r'))

-- sprintf(buf, "%d\n", display_mode)
pub mode_show : Driver → List ℕ
mode_show d = show_int d.display_mode ++ codes "\n"

-- `parsed` is what kstrtoint makes of the text, `none` where it returns an error.
pub mode_store : Option ℤ → ℕ → Driver → ℕ × Driver
mode_store none n d = (n, d)
mode_store (some m) n d =
    if leb_ℤ (pos 0) m && leb_ℤ m (pos 2) then (n, record d { display_mode = m }) else (n, d)
