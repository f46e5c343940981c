-- ===== src/Zip/Run.antt =====
-- Code that reads memory and asserts: it returns a value, or it stops.
use otus_c.Prelude.{if◌then◌else◌, ◌≡◌, refl, subst, Bool, true, false}

-- A read outside the file's bytes, a failed assert, and a loop that is cut off by its fuel.
pub data Stop : Type 0 where
  out_of_bounds assertion fuel : Stop

pub data Run {ℓ} (A : Type ℓ) : Type ℓ where
  stop : Stop → Run A
  ok : A → Run A

abbrev pub assert : Bool → Run (Unit {0})
assert c = if c then ok tt else stop assertion

module _ {ℓ κ} {A : Type ℓ} {B : Type κ} where
  infixl 5 ◌>>=◌
  abbrev pub ◌>>=◌ : Run A → (A → Run B) → Run B
  stop why >>= next = stop why
  ok a >>= next = next a

  -- A chain that ends with a value has got past its first action.
  pub >>=-eq-ok :
      {b : B} (act : Run A) (next : A → Run B)
      → act >>= next ≡ ok b
      → (a : A) × (next a ≡ ok b) × (act ≡ ok a)
  >>=-eq-ok (stop why) next done = cc
  >>=-eq-ok (ok a) next done = (a, done, refl)

infixl 5 ◌>>◌
abbrev pub ◌>>◌ {κ} : {B : Type κ} → Run (Unit {0}) → Run B → Run B
stop why >> after = stop why
ok _ >> after = after

-- The run ends with a value.
abbrev pub Returns {ℓ} : {A : Type ℓ} → Run A → Type ℓ
Returns {A = A} m = (a : A) × (m ≡ ok a)

pub Returns->>= {ℓ κ} :
    {A : Type ℓ} {B : Type κ} (m : Run A) (f : A → Run B)
    → Returns m
    → ((a : A) → m ≡ ok a → Returns (f a))
    → Returns (m >>= f)
Returns->>= (ok a) f h g = g a refl
Returns->>= (stop s) f h g = cc (h.1)

-- Whatever value the run ends with satisfies the predicate.
pub record Holds {ℓ κ} {A : Type ℓ} (P : A → Type κ) (m : Run A) : Type (ℓ ⊔ κ) where
  pub apply : (a : A) → m ≡ ok a → P a

pub Holds->>= {ℓ κ} :
    {A : Type ℓ} {B : Type ℓ} (P : B → Type κ) (m : Run A) (f : A → Run B)
    → ((a : A) → m ≡ ok a → Holds P (f a))
    → Holds P (m >>= f)
Holds->>= P (ok a) f h = h a refl
Holds->>= P (stop s) f h = record { apply = λ b e. cc }

ok-injective {ℓ} : {A : Type ℓ} {a b : A} → ok a ≡ ok b → a ≡ b
ok-injective e = cc

pub Holds-ok {ℓ κ} : {A : Type ℓ} (P : A → Type κ) (a : A) → P a → Holds P (ok a)
Holds-ok P a p = record { apply = λ b e. subst P (ok-injective e) p }

pub Holds-if {ℓ κ} :
    {A : Type ℓ} (P : A → Type κ) (b : Bool) {x y : Run A}
    → (b ≡ true → Holds P x)
    → (b ≡ false → Holds P y)
    → Holds P (if b then x else y)
Holds-if P true h k = h refl
Holds-if P false h k = k refl
