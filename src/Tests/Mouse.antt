-- ===== src/Tests/Mouse.antt =====
-- The mouse driver at a buffer whose bytes go round the end.
use otus_c.Prelude.{
  leb, ◌==◌, if◌then◌else◌, length, take, drop, replicate, length-replicate, ℕ, ◌%◌, min, ◌≡◌, ◌↔◌,
  Bool, true, false, ◌&&◌, Option, none, some, List, [], ◌∷◌, ◌++◌, arith,
}
use otus_c.Prelude.Int.{ℤ, ◌+ℤ◌, pos, negsuc, ltb_ℤ}
use otus_c.Mouse.{Driver, count, efault, mouse_write, mouse_read, simulate_mouse_data}
use otus_c.Mouse.Ring.{IsValid, used, contents}
use otus_c.Mouse.Calls.{
  room, readable, faults, storable, mouse_write_lem, mouse_read_lem, IsEvent,
  simulate_mouse_data_lem,
}
use otus_c.Mouse.Module.{
  Kernel, mouse_init, mouse_exit, succeeds, held, everything, mouse_init_lem,
  mouse_init-indeterminate,
}

abbrev empty : Driver
empty = record { buffer = replicate 1024 0; head = 1022; tail = 1022; display_mode = pos 2 }

empty-IsValid : IsValid empty
empty-IsValid = record {
  storage = length-replicate {A = ℕ} 1024 0;
  head_in = omega arith;
  tail_in = omega arith;
}

abbrev source : List (Option ℕ)
source = some b'a' ∷ some b'b' ∷ none ∷ some b'c' ∷ []

abbrev never : ℕ → Bool
never i = false

mouse_write_lem_example :
    let (ret, d') = mouse_write empty source in
    IsValid d'
    × (contents d' ≡ contents empty ++ take (room empty) (readable source))
    × (ret ≡ (
        if faults source && leb (length (readable source)) (room empty)
        then efault
        else count (min (length (readable source)) (room empty))))
mouse_write_lem_example = mouse_write_lem empty source empty-IsValid

mouse_read_lem_example :
    let (ret, out, d') = mouse_read never 3 empty in
    let n = min 3 (used empty) in
    let k = storable never n 0 in
    IsValid d'
    × (out ≡ take k (contents empty))
    × (contents d' ≡ drop k (contents empty))
    × (ret ≡ (if k == n then count n else efault))
mouse_read_lem_example = mouse_read_lem never 3 empty empty-IsValid

simulate_mouse_data_lem_example :
    let d' = simulate_mouse_data 3 18 empty in
    IsValid d'
    × ((x y : ℤ) × (text : List ℕ) × (x +ℤ pos 5 ≡ pos (3 % 10))
        × (y +ℤ pos 5 ≡ pos (18 % 10))
        × IsEvent (pos 2) x y text
        × (contents d' ≡ contents empty ++ take (room empty) text))
simulate_mouse_data_lem_example = simulate_mouse_data_lem 3 18 empty empty-IsValid

-- device_create fails with -12.
abbrev no_device : Kernel
no_device = record {
  kmalloc = true;
  register_chrdev = pos 240;
  class_create = none;
  device_create = some (negsuc 11);
  cdev_add = pos 0;
  kobject_create_and_add = true;
  sysfs_create_file = pos 0;
}

mouse_init_lem_example :
    (succeeds no_device ≡ true
      → ((mouse_init no_device).0 ≡ some (pos 0))
        × (held [] (mouse_init no_device).1 ≡ some everything)
        × (held everything mouse_exit ≡ some []))
    × (succeeds no_device ≡ false → held [] (mouse_init no_device).1 ≡ some [])
mouse_init_lem_example = mouse_init_lem no_device

mouse_init-indeterminate_example :
    ((mouse_init no_device).0 ≡ none)
    ↔ ((no_device.kmalloc ≡ true) × (ltb_ℤ no_device.register_chrdev (pos 0) ≡ true))
mouse_init-indeterminate_example = mouse_init-indeterminate no_device
