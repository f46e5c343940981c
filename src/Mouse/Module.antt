-- ===== src/Mouse/Module.antt =====
-- mouse_init and mouse_exit: what is taken and given back, for any results of the kernel's calls.
use otus_c.Prelude.{
  if◌then◌else◌, zero, ◌≡◌, ◌↔◌, Bool, true, false, not, ◌&&◌, Option, none, some, List, [], ◌∷◌,
  arith,
}
use otus_c.Prelude.Int.{ℤ, pos, negsuc, ltb_ℤ}

pub data Resource : Type 0 where
  buffer chrdev class device cdev kobj attr timer : Resource

pub data Action : Type 0 where
  acquire release : Resource → Action

-- What the kernel's calls return. A pointer that IS_ERR is `some` of its error code.
pub record Kernel : Type 0 where
  pub kmalloc : Bool
  pub register_chrdev : ℤ
  pub class_create : Option ℤ
  pub device_create : Option ℤ
  pub cdev_add : ℤ
  pub kobject_create_and_add : Bool
  pub sysfs_create_file : ℤ

-- `int result`, which is `none` while it is not initialised, and the calls that took effect.
abbrev pub Run : Type 0
Run = Option ℤ × List Action

then_ : Action → Run → Run
then_ a (r, done) = (r, a ∷ done)

abbrev enomem : ℤ
enomem = negsuc 11

-- The labels at the end of mouse_init: each falls through to the next.
fail_chrdev : Option ℤ → Run
fail_chrdev result = (result, release buffer ∷ [])

fail_class : Option ℤ → Run
unfolding then_
fail_class result = then_ (release chrdev) (fail_chrdev result)

fail_device : Option ℤ → Run
unfolding then_
fail_device result = then_ (release class) (fail_class result)

fail_cdev : Option ℤ → Run
unfolding then_
fail_cdev result = then_ (release device) (fail_device result)

fail_kobj : Option ℤ → Run
unfolding then_
fail_kobj result = then_ (release cdev) (fail_cdev result)

fail_sysfs : Option ℤ → Run
unfolding then_
fail_sysfs result = then_ (release kobj) (fail_kobj result)

is_zero : ℤ → Bool
is_zero (pos zero) = true
is_zero _ = false

init_sysfs : Kernel → Run
init_sysfs k =
    if is_zero k.sysfs_create_file
    then (some (pos 0), acquire attr ∷ acquire timer ∷ [])
    else fail_sysfs (some k.sysfs_create_file)

init_kobj : Kernel → Run
init_kobj k =
    if k.kobject_create_and_add
    then then_ (acquire kobj) (init_sysfs k)
    else fail_kobj (some enomem)

init_cdev : Kernel → Run
init_cdev k =
    if is_zero k.cdev_add then then_ (acquire cdev) (init_kobj k) else fail_cdev (some k.cdev_add)

init_device : Kernel → Run
init_device k = elim k.device_create [
  | none ↦ then_ (acquire device) (init_cdev k)
  | some e ↦ fail_device (some e)
]

init_class : Kernel → Run
init_class k = elim k.class_create [
  | none ↦ then_ (acquire class) (init_device k)
  | some e ↦ fail_class (some e)
]

-- `result` is set by no statement before the `goto fail_chrdev`.
pub mouse_init : Kernel → Run
unfolding then_ fail_chrdev fail_class fail_device fail_cdev fail_kobj fail_sysfs is_zero init_sysfs
    init_kobj init_cdev init_device init_class
mouse_init k =
    if k.kmalloc
    then then_ (acquire buffer) (
        if ltb_ℤ k.register_chrdev (pos 0)
        then fail_chrdev none
        else then_ (acquire chrdev) (init_class k))
    else (some enomem, [])

pub mouse_exit : List Action
mouse_exit =
    release timer
    ∷ release attr
    ∷ release kobj
    ∷ release cdev
    ∷ release device
    ∷ release class
    ∷ release chrdev
    ∷ release buffer
    ∷ []

pub same : Resource → Resource → Bool
same buffer buffer = true
same chrdev chrdev = true
same class class = true
same device device = true
same cdev cdev = true
same kobj kobj = true
same attr attr = true
same timer timer = true
same _ _ = false

-- What is held after the calls, the latest first; `none` if something is given back that is not the
-- latest still held.
pub held : List Resource → List Action → Option (List Resource)
held rs [] = some rs
held rs (acquire r ∷ more) = held (r ∷ rs) more
held [] (release r ∷ more) = none
held (q ∷ rs) (release r ∷ more) = let rest = held rs more in if same q r then rest else none

abbrev pub everything : List Resource
everything = timer ∷ attr ∷ kobj ∷ cdev ∷ device ∷ class ∷ chrdev ∷ buffer ∷ []

-- !IS_ERR(p)
succeeded : Option ℤ → Bool
succeeded none = true
succeeded (some e) = false

-- Did every call that mouse_init makes succeed?
pub succeeds : Kernel → Bool
unfolding is_zero succeeded
succeeds k =
    k.kmalloc
    && (not (ltb_ℤ k.register_chrdev (pos 0))
        && (succeeded k.class_create
            && (succeeded k.device_create
                && (is_zero k.cdev_add
                    && (k.kobject_create_and_add && is_zero k.sysfs_create_file)))))

-- mouse_init takes eight things and, if every call succeeds, returns 0 and holds them all, and
-- mouse_exit then gives them back in the reverse order; if some call fails, it has given back what it
-- took in the reverse order, and holds nothing.
pub mouse_init_lem :
    (k : Kernel)
    → (succeeds k ≡ true
        → ((mouse_init k).0 ≡ some (pos 0))
          × (held [] (mouse_init k).1 ≡ some everything)
          × (held everything mouse_exit ≡ some []))
      × (succeeds k ≡ false → held [] (mouse_init k).1 ≡ some [])
unfolding mouse_init succeeds held same mouse_exit
mouse_init_lem k = (ground arith, ground arith)

-- The value that mouse_init returns is indeterminate exactly when the buffer is allocated and
-- register_chrdev fails.
pub mouse_init-indeterminate :
    (k : Kernel)
    → ((mouse_init k).0 ≡ none) ↔ ((k.kmalloc ≡ true) × (ltb_ℤ k.register_chrdev (pos 0) ≡ true))
unfolding mouse_init
mouse_init-indeterminate k = (ground arith, ground arith)
