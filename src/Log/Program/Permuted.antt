-- ===== src/Log/Program/Permuted.antt =====
-- What the order of the entries of a map does not change.
use otus_c.Prelude.{
  if◌then◌else◌, length, All, ℕ, suc, ◌≡◌, refl, sym, subst, ap, ap₂, ◌∙◌, false, Memᴰ, Permᴰ, List,
  [], ◌∷◌,
}
use otus_c.Prelude.Int.{ℤ, ◌+ℤ◌, zero_ℤ, +ℤ_assoc, +ℤ_comm}
use otus_c.Prelude.Text.{same}
use otus_c.Log.{HashEntry}
use otus_c.Log.Values.{value_of}
use otus_c.Log.Maps.{Absent, Distinct, same_sym}

pub All-Memᴰ {κ} :
    (P : HashEntry → Type κ) (es : List HashEntry) {e : HashEntry} → All P es → Memᴰ e es → P e
All-Memᴰ P (x ∷ es) (p, a) (Memᴰ.head h) = subst P (sym h) p
All-Memᴰ P (x ∷ es) (p, a) (Memᴰ.tail m) = All-Memᴰ P es a m
All-Memᴰ P [] a m = elim m [ ]

pub All-Permᴰ {κ} :
    (P : HashEntry → Type κ) {es fs : List HashEntry} → Permᴰ es fs → All P es → All P fs
All-Permᴰ P Permᴰ.nil a = a
All-Permᴰ P (Permᴰ.cons e p) (h, a) = (subst P e h, All-Permᴰ P p a)
All-Permᴰ P (Permᴰ.swap e f) (h, (k, a)) = (subst P f k, (subst P e h, a))
All-Permᴰ P (Permᴰ.trans p q) a = All-Permᴰ P q (All-Permᴰ P p a)

abbrev Differs : List ℕ → HashEntry → Type 0
Differs k e = same e.key k ≡ false

pub Absent-All : (k : List ℕ) (es : List HashEntry) → Absent k es → All (Differs k) es
unfolding Absent
Absent-All k [] a = tt
Absent-All k (e ∷ es) (n, a) = (n, Absent-All k es a)

pub All-Absent : (k : List ℕ) (es : List HashEntry) → All (Differs k) es → Absent k es
unfolding Absent
All-Absent k [] a = tt
All-Absent k (e ∷ es) (n, a) = (n, All-Absent k es a)

Absent-Permᴰ : (k : List ℕ) {es fs : List HashEntry} → Permᴰ es fs → Absent k es → Absent k fs
Absent-Permᴰ k {es = es} {fs = fs} p a =
    All-Absent k fs (All-Permᴰ (Differs k) p (Absent-All k es a))

pub Distinct-Permᴰ : {es fs : List HashEntry} → Permᴰ es fs → Distinct es → Distinct fs
unfolding Distinct Absent
Distinct-Permᴰ Permᴰ.nil d = d
Distinct-Permᴰ (Permᴰ.cons {l₂ = l} e p) (n, d) =
    (subst (λ x. Absent x.key l) e (Absent-Permᴰ _ p n), Distinct-Permᴰ p d)
Distinct-Permᴰ (Permᴰ.swap {a = a} {b = b} {b' = b'} {l = l} e f) ((n, na), (nb, d)) = (
  subst (λ x. Absent x.key (b' ∷ l)) f
      (subst (λ y. Absent b.key (y ∷ l)) e (same_sym a.key b.key ∙ n, nb)),
  (subst (λ x. Absent x.key l) e na, d),
)
Distinct-Permᴰ (Permᴰ.trans p q) d = Distinct-Permᴰ q (Distinct-Permᴰ p d)

-- What an entry has for the key.
abbrev part : List ℕ → HashEntry → ℤ
part k e = if same e.key k then e.value else zero_ℤ

exchange : (a b c : ℤ) → a +ℤ (b +ℤ c) ≡ b +ℤ (a +ℤ c)
exchange a b c = sym (+ℤ_assoc a b c) ∙ ap (λ x. x +ℤ c) (+ℤ_comm a b) ∙ +ℤ_assoc b a c

pub value_of-Permᴰ :
    (k : List ℕ) {es fs : List HashEntry} → Permᴰ es fs → value_of k es ≡ value_of k fs
unfolding value_of
value_of-Permᴰ k Permᴰ.nil = refl
value_of-Permᴰ k (Permᴰ.cons e p) = ap₂ (λ x y. x +ℤ y) (ap (part k) e) (value_of-Permᴰ k p)
value_of-Permᴰ k (Permᴰ.swap {a = a} {b = b} {l = l} e f) =
    exchange (part k a) (part k b) (value_of k l)
    ∙ ap₂ (λ x y. x +ℤ (y +ℤ value_of k l)) (ap (part k) f) (ap (part k) e)
value_of-Permᴰ k (Permᴰ.trans p q) = value_of-Permᴰ k p ∙ value_of-Permᴰ k q

pub length-Permᴰ : {es fs : List HashEntry} → Permᴰ es fs → length es ≡ length fs
length-Permᴰ Permᴰ.nil = refl
length-Permᴰ (Permᴰ.cons e p) = ap suc (length-Permᴰ p)
length-Permᴰ (Permᴰ.swap e f) = refl
length-Permᴰ (Permᴰ.trans p q) = length-Permᴰ p ∙ length-Permᴰ q
