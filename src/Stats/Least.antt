-- ===== src/Stats/Least.antt =====
-- The smallest and the largest number of HW15-DB/src/main.c, as the first pass keeps them.
use otus_c.Prelude.{Bool-cases, All, ◌≡◌, refl, ◌∙◌, ◌⊎◌, inl, inr, false, Memᴰ, List, [], ◌∷◌}
use otus_c.Stats.{Doubles, lower, higher}

module _ (d : Doubles) where
  abbrev pub IsNumber : d.Double → Type 0
  IsNumber v = d.isnan v ≡ false

  -- Member of the values, and not above any of them.
  abbrev pub IsLeast : d.Double → List d.Double → Type 0
  IsLeast m vs = Memᴰ m vs × All (λ v. d.greater m v ≡ false) vs

  abbrev pub IsGreatest : d.Double → List d.Double → Type 0
  IsGreatest m vs = Memᴰ m vs × All (λ v. d.greater v m ≡ false) vs

  unfoldable pub lowest : d.Double → List d.Double → d.Double
  lowest m [] = m
  lowest m (v ∷ vs) = lowest (lower d m v) vs

  unfoldable pub highest : d.Double → List d.Double → d.Double
  highest m [] = m
  highest m (v ∷ vs) = highest (higher d m v) vs

  -- The kept value is one of the two, and below both.
  lower_lem :
      (m v : d.Double)
      → IsNumber m
      → IsNumber v
      → ((lower d m v ≡ m) ⊎ (lower d m v ≡ v))
        × IsNumber (lower d m v)
        × (d.greater (lower d m v) m ≡ false)
        × (d.greater (lower d m v) v ≡ false)
  unfolding lower
  lower_lem m v nm nv = elim (Bool-cases (d.greater m v)) [
    | inl e ↦ rw (nm, e) (inr refl, nv, d.greater_asymm m v e, d.greater_irrefl v)
    | inr e ↦ rw (nm, e) (inl refl, nm, d.greater_irrefl m, e)
  ]

  -- The kept value is one of the two, and above both.
  higher_lem :
      (m v : d.Double)
      → IsNumber m
      → IsNumber v
      → ((higher d m v ≡ m) ⊎ (higher d m v ≡ v))
        × IsNumber (higher d m v)
        × (d.greater m (higher d m v) ≡ false)
        × (d.greater v (higher d m v) ≡ false)
  unfolding higher
  higher_lem m v nm nv = elim (Bool-cases (d.greater v m)) [
    | inl e ↦ rw (nm, e) (inr refl, nv, d.greater_asymm v m e, d.greater_irrefl v)
    | inr e ↦ rw (nm, e) (inl refl, nm, d.greater_irrefl m, e)
  ]

  -- What holds of the kept value w and of the others holds of the two values and the others.
  among :
      (r w m v : d.Double) (vs : List d.Double)
      → (w ≡ m) ⊎ (w ≡ v)
      → Memᴰ r (w ∷ vs)
      → Memᴰ r (m ∷ v ∷ vs)
  among r w m v vs (inl e) (Memᴰ.head h) = Memᴰ.head (h ∙ e)
  among r w m v vs (inr e) (Memᴰ.head h) = Memᴰ.tail (Memᴰ.head (h ∙ e))
  among r w m v vs which (Memᴰ.tail t) = Memᴰ.tail (Memᴰ.tail t)

  pub lowest_lem :
      (m : d.Double) (vs : List d.Double)
      → IsNumber m
      → All IsNumber vs
      → IsLeast (lowest m vs) (m ∷ vs)
  unfolding lowest
  lowest_lem m [] nm ns = (Memᴰ.head refl, (d.greater_irrefl m, tt))
  lowest_lem m (v ∷ vs) nm (nv, ns) =
      let (which, nw, wm, wv) = lower_lem m v nm nv in
      let (member, (low, rest)) = lowest_lem (lower d m v) vs nw ns in
      (
        among _ _ m v vs which member,
        (d.greater_trans _ _ m nw low wm, (d.greater_trans _ _ v nw low wv, rest)),
      )

  pub highest_lem :
      (m : d.Double) (vs : List d.Double)
      → IsNumber m
      → All IsNumber vs
      → IsGreatest (highest m vs) (m ∷ vs)
  unfolding highest
  highest_lem m [] nm ns = (Memᴰ.head refl, (d.greater_irrefl m, tt))
  highest_lem m (v ∷ vs) nm (nv, ns) =
      let (which, nw, mw, vw) = higher_lem m v nm nv in
      let (member, (high, rest)) = highest_lem (higher d m v) vs nw ns in
      (
        among _ _ m v vs which member,
        (d.greater_trans m _ _ nw mw high, (d.greater_trans v _ _ nw vw high, rest)),
      )
