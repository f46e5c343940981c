-- ===== src/Server/Isolation.antt =====
-- The connections of HW12-FileServer/src/server.c do not meet: what happens to one descriptor is
-- what would happen if only its own events had come.
use otus_c.Prelude.{
  ◌==◌, ==_iff, ==_refl, Bool-cases, get_elem?, set, ℕ, ◌≡◌, refl, sym, subst, ap, ◌∙◌, ◌⊎◌, inl,
  inr, true, false, Option, some, List, [], ◌∷◌, ◌++◌,
}
use otus_c.Prelude.Partial.{>>=-eq-some, Defined}
use otus_c.Server.{Site, Event, Action, Connections, step, run}
use otus_c.Server.Slots.{
  event_fd, own, own_actions, own_actions-append, own_actions_self, own_actions-other, About, Agree,
  set-Agree, set-Agree_other,
}
use otus_c.Server.Steps.{first, second, Stepped, sets, stays, step-Stepped}

-- The parts of a run.
run-parts :
    (site : Site) (e : Event) (es : List Event) (c c' : Connections) (out : List Action)
    → run site (e ∷ es) c ≡ some (out, c')
    → (a : List Action) × (c₁ : Connections) × (more : List Action) × (step site e c ≡ some (a, c₁))
      × (run site es c₁ ≡ some (more, c'))
      × (a ++ more ≡ out)
unfolding run
run-parts site e es c c' out h =
    let ((a, c₁), rest, stepped) = >>=-eq-some (step site e c) _ h in
    let ((more, c₂), done, ran) = >>=-eq-some (run site es c₁) _ rest in
    (a, c₁, more, stepped, ran ∙ ap (λ x. some (more, x)) (second done), first done)

true-false : true ≡ false → ⊥
true-false e = cc

own-step :
    (site : Site) (k : ℕ) (e : Event) (c c₁ d : Connections) (a : List Action)
    → Agree k c d
    → step site e c ≡ some (a, c₁)
    → (d₁ : Connections) × Agree k c₁ d₁
      × (((event_fd e == k) ≡ true) × (step site e d ≡ some (a, d₁)) × (own_actions k a ≡ a)
          ⊎ ((event_fd e == k) ≡ false) × (d₁ ≡ d) × (own_actions k a ≡ []))
own-step site k e c c₁ d a g h =
    let (about, how) = step-Stepped site e c c₁ a h in
    elim (Bool-cases (event_fd e == k)) [
      | inl mine ↦
          let same_fd = (==_iff (event_fd e) k).0 mine in
          let g' = subst (λ j. Agree j c d) (sym same_fd) g in
          let kept = own_actions_self k a (subst (λ j. About j a) same_fd about) in
          own_case mine same_fd g' kept how
      | inr other ↦
          let none_kept = own_actions-other k (event_fd e) a about other in
          (d, other_case other how, inr (other, refl, none_kept))
    ]
  where
    own_case :
        (event_fd e == k) ≡ true
        → event_fd e ≡ k
        → Agree (event_fd e) c d
        → own_actions k a ≡ a
        → Stepped site e c a c₁
        → (d₁ : Connections) × Agree k c₁ d₁
          × (((event_fd e == k) ≡ true) × (step site e d ≡ some (a, d₁)) × (own_actions k a ≡ a)
              ⊎ ((event_fd e == k) ≡ false) × (d₁ ≡ d) × (own_actions k a ≡ []))
    own_case mine same_fd g' kept (sets info lt q again_) = (
      set d (event_fd e) (some info),
      subst (λ x. Agree k x (set d (event_fd e) (some info))) (sym q)
          (subst (λ j. Agree j (set c (event_fd e) (some info)) (set d (event_fd e) (some info)))
            same_fd (set-Agree (event_fd e) c d info g' lt)),
      inl (mine, again_ d g', kept),
    )
    own_case mine same_fd g' kept (stays q again_) =
        (d, subst (λ x. Agree k x d) (sym q) g, inl (mine, again_ d g', kept))

    other_case : (event_fd e == k) ≡ false → Stepped site e c a c₁ → Agree k c₁ d
    other_case ne (sets info lt q again_) =
        subst (λ x. Agree k x d) (sym q)
          (set-Agree_other k (event_fd e) c d info g
            (λ same_fd. true-false (sym ((==_iff (event_fd e) k).1 same_fd) ∙ ne)))
    other_case ne (stays q again_) = subst (λ x. Agree k x d) (sym q) g

joined_kept :
    (k : ℕ) (a more out : List Action)
    → a ++ more ≡ out
    → own_actions k a ≡ a
    → a ++ own_actions k more ≡ own_actions k out
joined_kept k a more out p q =
    ap (λ x. x ++ own_actions k more) (sym q)
    ∙ sym (own_actions-append k a more)
    ∙ ap (own_actions k) p

joined_dropped :
    (k : ℕ) (a more out : List Action)
    → a ++ more ≡ out
    → own_actions k a ≡ []
    → own_actions k more ≡ own_actions k out
joined_dropped k a more out p q =
    ap (λ x. x ++ own_actions k more) (sym q)
    ∙ sym (own_actions-append k a more)
    ∙ ap (own_actions k) p

own-run :
    (site : Site) (k : ℕ) (es : List Event) (c c' d : Connections) (out : List Action)
    → Agree k c d
    → run site es c ≡ some (out, c')
    → (d' : Connections) × (run site (own k es) d ≡ some (own_actions k out, d')) × Agree k c' d'
unfolding own
own-run site k [] c c' d out g h = nothing (unfold run in h)
  where
    nothing :
        ◌≡◌ {A = Option (List Action × Connections)} (some ([], c)) (some (out, c'))
        → (d' : Connections) × (run site [] d ≡ some (own_actions k out, d')) × Agree k c' d'
    nothing q = (
      d,
      unfold run own_actions in (ap (λ x. some (own_actions k x, d)) (first q)),
      subst (λ x. Agree k x d) (second q) g,
    )
own-run site k (e ∷ es) c c' d out g h =
    let (a, c₁, more, stepped, ran, joined) = run-parts site e es c c' out h in
    let (d₁, g₁, how) = own-step site k e c c₁ d a g stepped in
    let (d', ran', g') = own-run site k es c₁ c' d₁ more g₁ ran in
    elim how [
      | inl (mine, stepped', kept) ↦
          (d', rw mine (cons_run stepped' ran' (joined_kept k a more out joined kept)), g')
      | inr (other, same_d, dropped) ↦ (
        d',
        rw other (
            subst (λ x. run site (own k es) x ≡ some (own_actions k more, d')) same_d ran'
            ∙ ap (λ x. some (x, d')) (joined_dropped k a more out joined dropped)),
        g',
      )
    ]
  where
    cons_run :
        {d₁ d' : Connections} {a rest all : List Action}
        → step site e d ≡ some (a, d₁)
        → run site (own k es) d₁ ≡ some (rest, d')
        → a ++ rest ≡ all
        → run site (e ∷ own k es) d ≡ some (all, d')
    cons_run p q r = unfold run in (rw (p, q, r) refl)

Agree-flip : (k : ℕ) (c d : Connections) → Agree k c d → Agree k d c
Agree-flip k c d g = record { same_length = sym g.same_length; same_slot = sym g.same_slot }

-- A step that is defined on the slots that the own events of its descriptor have led to.
step-Defined :
    (site : Site) (e : Event) (c d d₁ : Connections) (a : List Action)
    → Agree (event_fd e) c d
    → step site e d ≡ some (a, d₁)
    → (c₁ : Connections) × (step site e c ≡ some (a, c₁))
step-Defined site e c d d₁ a g h =
    let (c₁, g₁, how) = own-step site (event_fd e) e d d₁ c a (Agree-flip (event_fd e) c d g) h in
    elim how [
      | inl (mine, stepped, kept) ↦ (c₁, stepped)
      | inr (other, same_c, dropped) ↦ absurd (true-false (sym (==_refl (event_fd e)) ∙ other))
    ]

-- The first step of a run that is defined, and the rest of it.
run-head :
    (site : Site) (e : Event) (es : List Event) (d : Connections)
    → Defined (run site (e ∷ es) d)
    → (a : List Action) × (d₁ : Connections) × (step site e d ≡ some (a, d₁))
      × Defined (run site es d₁)
run-head site e es d ((out, d'), h) =
    let (a, d₁, more, stepped, ran, joined) = run-parts site e es d d' out h in
    (a, d₁, stepped, ((more, d'), ran))

own-mine :
    (k : ℕ) (e : Event) (es : List Event) → (event_fd e == k) ≡ true → own k (e ∷ es) ≡ e ∷ own k es
unfolding own
own-mine k e es h = rw h refl

own-not_mine :
    (k : ℕ) (e : Event) (es : List Event) → (event_fd e == k) ≡ false → own k (e ∷ es) ≡ own k es
unfolding own
own-not_mine k e es h = rw h refl

-- Behind the first event, what is left for a descriptor is defined still.
own-next :
    (site : Site) (k : ℕ) (e : Event) (es : List Event) (c c₁ d : Connections) (a : List Action)
    → Agree k c d
    → step site e c ≡ some (a, c₁)
    → Defined (run site (own k (e ∷ es)) d)
    → (d₁ : Connections) × Agree k c₁ d₁ × Defined (run site (own k es) d₁)
own-next site k e es c c₁ d a g h all =
    let (d₁, g₁, how) = own-step site k e c c₁ d a g h in
    elim how [
      | inl (mine, stepped, kept) ↦
          let whole = subst (λ l. Defined (run site l d)) (own-mine k e es mine) all in
          let (a', d', stepped', left) = run-head site e (own k es) d whole in
          (
            d₁,
            g₁,
            subst (λ x. Defined (run site (own k es) x)) (second (sym stepped' ∙ stepped)) left,
          )
      | inr (other, same_d, dropped) ↦ (
        d₁,
        g₁,
        subst (λ x. Defined (run site (own k es) x)) (sym same_d)
            (subst (λ l. Defined (run site l d)) (own-not_mine k e es other) all),
      )
    ]

run-joined :
    (site : Site) (e : Event) (es : List Event) (c c₁ c₂ : Connections) (a more : List Action)
    → step site e c ≡ some (a, c₁)
    → run site es c₁ ≡ some (more, c₂)
    → run site (e ∷ es) c ≡ some (a ++ more, c₂)
unfolding run
run-joined site e es c c₁ c₂ a more stepped ran = rw (stepped, ran) refl

-- If the own events of every descriptor have a run, from slots that agree with c for it, so have all.
run-Defined :
    (site : Site) (es : List Event) (c : Connections) (d : ℕ → Connections)
    → ((k : ℕ) → Agree k c (d k))
    → ((k : ℕ) → Defined (run site (own k es) (d k)))
    → Defined (run site es c)
run-Defined site [] c d g all = unfold run in (([], c), refl)
run-Defined site (e ∷ es) c d g all =
    let k = event_fd e in
    let mine = subst (λ l. Defined (run site l (d k))) (own-mine k e es (==_refl k)) (all k) in
    let (a, d₁, stepped, _) = run-head site e (own k es) (d k) mine in
    let (c₁, stepped_c) = step-Defined site e c (d k) d₁ a (g k) stepped in
    let next = λ (j : ℕ). own-next site j e es c c₁ (d j) a (g j) stepped_c (all j) in
    let ((more, c₂), ran) =
      run-Defined site es c₁ (λ j. (next j).0) (λ j. (next j).1) (λ j. (next j).2) in
    ((a ++ more, c₂), run-joined site e es c c₁ c₂ a more stepped_c ran)

-- Let a run of the event loop have no undefined step, or let the events of each descriptor have none in a
-- run by themselves, a failed accept being counted among those of descriptor 0. Then both hold; and in
-- whatever order the events of the other connections come between its own, the server does for a
-- descriptor just what it does in the run of that descriptor's events alone, and leaves its slot in the
-- same state.
pub run-own :
    (site : Site) (es : List Event) (conns : Connections)
    → Defined (run site es conns) ⊎ ((k : ℕ) → Defined (run site (own k es) conns))
    → (out : List Action) × (conns' : Connections) × (run site es conns ≡ some (out, conns'))
      × ((k : ℕ)
          → (alone : Connections) × (run site (own k es) conns ≡ some (own_actions k out, alone))
            × (get_elem? alone k ≡ get_elem? conns' k))
run-own site es conns h =
    let ((out, conns'), ran) = whole in
    (
      out,
      conns',
      ran,
      λ k.
          (let (alone, own_ran, g) = own-run site k es conns conns' conns out (itself k) ran in
            (alone, own_ran, sym g.same_slot)),
    )
  where
    itself : (k : ℕ) → Agree k conns conns
    itself k = record { same_length = refl; same_slot = refl }

    whole : Defined (run site es conns)
    whole = elim h [ inl d ↦ d | inr all ↦ run-Defined site es conns (λ k. conns) itself all ]
