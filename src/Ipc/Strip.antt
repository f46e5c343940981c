-- ===== src/Ipc/Strip.antt =====
-- rstrip of HW08-IPC/src/server.h.
use otus_c.Prelude.{
  if◌then◌else◌, length, get_or, take, All, length-append, ℕ, zero, suc, ◌≡◌, refl, sym, subst, ap,
  ◌∙◌, true, false, List, [], ◌∷◌, ◌++◌, append_assoc, append-nil, arith,
}
use otus_c.Prelude.Text.{is_space}
use otus_c.Ipc.{rstrip_loop, rstrip}

-- The text is empty or its last character is no white space.
unfoldable pub IsStripped : List ℕ → Type 0
IsStripped [] = Unit
IsStripped (c ∷ []) = is_space c ≡ false
IsStripped (c ∷ d ∷ cs) = IsStripped (d ∷ cs)

take-append : (xs ys : List ℕ) → take (length xs) (xs ++ ys) ≡ xs
take-append [] ys = refl
take-append (x ∷ xs) ys = ap (λ r. x ∷ r) (take-append xs ys)

get_or-append : (xs ys : List ℕ) (y : ℕ) → get_or (xs ++ (y ∷ ys)) (length xs) 0 ≡ y
get_or-append [] ys y = refl
get_or-append (x ∷ xs) ys y = get_or-append xs ys y

-- The last character of a text that is not empty.
last_split :
    (xs : List ℕ) (n : ℕ)
    → length xs ≡ suc n
    → (front : List ℕ) × (c : ℕ) × (xs ≡ front ++ (c ∷ [])) × (length front ≡ n)
last_split [] n h = absurd (omega arith)
last_split (x ∷ []) n h = ([], x, refl, omega arith)
last_split (x ∷ y ∷ xs) zero h = absurd (omega arith)
last_split (x ∷ y ∷ xs) (suc n) h =
    let (front, c, e, l) = last_split (y ∷ xs) n (omega arith) in
    (x ∷ front, c, ap (λ r. x ∷ r) e, ap suc l)

IsStripped-last : (front : List ℕ) (c : ℕ) → IsStripped (front ++ (c ∷ [])) → is_space c ≡ false
unfolding IsStripped
IsStripped-last [] c h = h
IsStripped-last (x ∷ []) c h = h
IsStripped-last (x ∷ y ∷ front) c h = IsStripped-last (y ∷ front) c h

-- A round of the loop at a text with a last character.
rstrip_loop-last :
    (front : List ℕ) (c : ℕ)
    → rstrip_loop (suc (length front)) (front ++ (c ∷ []))
      ≡ (if is_space c then rstrip_loop (length front) front else front ++ (c ∷ []))
unfolding rstrip_loop
rstrip_loop-last front c = rw (take-append front (c ∷ []), get_or-append front [] c)

kept_lem : (n : ℕ) (path : List ℕ) → length path ≡ n → IsStripped path → rstrip_loop n path ≡ path
kept_lem zero path e h = unfold rstrip_loop in refl
kept_lem (suc n) path e h =
    let (front, c, split, l) = last_split path n e in
    let shown = IsStripped-last front c (subst IsStripped split h) in
    subst (λ x. rstrip_loop (suc n) x ≡ x) (sym split)
      (subst (λ k. rstrip_loop (suc k) (front ++ (c ∷ [])) ≡ front ++ (c ∷ [])) l
        (rstrip_loop-last front c ∙ rw shown))

All-last :
    (front : List ℕ) (c : ℕ)
    → All (λ x. is_space x ≡ true) (front ++ (c ∷ []))
    → All (λ x. is_space x ≡ true) front × (is_space c ≡ true)
All-last [] c (h, _) = (tt, h)
All-last (x ∷ front) c (h, t) = let (f, l) = All-last front c t in ((h, f), l)

strip_tail :
    (k : ℕ) (path tail : List ℕ)
    → length tail ≡ k
    → IsStripped path
    → All (λ x. is_space x ≡ true) tail
    → rstrip_loop (length (path ++ tail)) (path ++ tail) ≡ path
strip_tail zero path [] e h a = rw (append-nil path) (kept_lem (length path) path refl h)
strip_tail zero path (c ∷ tail) e h a = absurd (omega arith)
strip_tail (suc k) path tail e h a =
    let (front, c, split, l) = last_split tail k e in
    let (spaces, space) = All-last front c (subst (All (λ x. is_space x ≡ true)) split a) in
    let n : length ((path ++ front) ++ (c ∷ [])) ≡ suc (length (path ++ front)) =
      omega (arith, length-append (path ++ front) (c ∷ [])) in
    subst (λ t. rstrip_loop (length (path ++ t)) (path ++ t) ≡ path) (sym split)
      (subst (λ t. rstrip_loop (length t) t ≡ path) (append_assoc path front (c ∷ []))
        (subst (λ m. rstrip_loop m ((path ++ front) ++ (c ∷ [])) ≡ path) (sym n)
          (rstrip_loop-last (path ++ front) c ∙ rw space (strip_tail k path front l h spaces))))

pub rstrip_lem :
    (path tail : List ℕ)
    → IsStripped path
    → All (λ x. is_space x ≡ true) tail
    → rstrip (path ++ tail) ≡ path
unfolding rstrip
rstrip_lem path tail h a = strip_tail (length tail) path tail refl h a
