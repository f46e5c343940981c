-- ===== src/Server/Overflow.antt =====
-- The descriptors that have no slot in HW12-FileServer/src/server.c.
use otus_c.Prelude.{
  ltb, length, ℕ, ◌≤◌, ◌≡◌, refl, ◌∙◌, false, Option, none, some, List, [], ◌∷◌, ◌++◌, arith,
}
use otus_c.Server.{Site, Event, accepted, Action, Connections, put_conn, step, run, max_events}
use otus_c.Server.Steps.{step-length}

-- The array has ten slots: a history in which accept gives a descriptor of ten or more, or fails, is
-- undefined from there on, whatever came before.
pub run-overflow :
    (site : Site) (es more : List Event) (fd : Option ℕ) (conns : Connections)
    → length conns ≡ max_events
    → ((k : ℕ) → fd ≡ some k → max_events ≤ k)
    → run site (es ++ (accepted fd ∷ more)) conns ≡ none
run-overflow site [] more none conns slots high = unfold run step in refl
run-overflow site [] more (some k) conns slots high =
    let e : ltb k (length conns) ≡ false = ground (arith, high k refl) in
    unfold run step put_conn in (rw e refl)
run-overflow site (e ∷ es) more fd conns slots high =
    next (step site e conns) refl (λ c h. run-overflow site es more fd c h high)
  where
    next :
        (r : Option (List Action × Connections))
        → step site e conns ≡ r
        → ((c : Connections)
            → length c ≡ max_events
            → run site (es ++ (accepted fd ∷ more)) c ≡ none)
        → run site (e ∷ (es ++ (accepted fd ∷ more))) conns ≡ none
    next none h ih = unfold run in (rw (run, h) refl)
    next (some (a, conns')) h ih =
        let later = ih conns' (step-length site e conns conns' a h ∙ slots) in
        unfold run in (rw (run, h, later) refl)
