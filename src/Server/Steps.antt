-- ===== src/Server/Steps.antt =====
-- What one event does to the slots of HW12-FileServer/src/server.c.
use otus_c.Prelude.{
  Bool-cases, length, set, length-set, ℕ, ◌<◌, ◌≡◌, refl, sym, subst, ap, ◌∙◌, inl, inr, false,
  Option, none, some, List, [], arith,
}
use otus_c.Prelude.Text.{codes}
use otus_c.Prelude.Partial.{◌>>=◌, >>=-eq-some}
use otus_c.Server.{
  ConnectionInfo, Site, Recv, again, failed, closed, received, Event, accepted, ready, Action,
  answers, Connections, new_conn, put_conn, get_conn, add_bytes, finish, receive, step,
  handle_request, strstr,
}
use otus_c.Server.Slots.{event_fd, action_fd, About, answers-About, Agree, put_conn-eq, put_conn-lt}

get_conn-Agree : (k : ℕ) (c d : Connections) → Agree k c d → get_conn c k ≡ get_conn d k
unfolding get_conn
get_conn-Agree k c d a = rw (get_conn, a.same_slot) refl

some-injective {ℓ} : {A : Type ℓ} {p q : A} → some p ≡ some q → p ≡ q
some-injective e = cc

-- The actions and the state of a step that has a result.
abbrev pub Result {ℓ} : Type ℓ → Type ℓ
Result B = Option (List Action × B)

pub first {ℓ} : {B : Type ℓ} {p q : List Action × B} → some p ≡ some q → p.0 ≡ q.0
first e = ap (λ r. r.0) (some-injective e)

pub second {ℓ} : {B : Type ℓ} {p q : List Action × B} → some p ≡ some q → p.1 ≡ q.1
second e = ap (λ r. r.1) (some-injective e)

finish-About :
    (site : Site) (k : ℕ) (info info' : ConnectionInfo) (a : List Action)
    → finish site k info ≡ some (a, info')
    → About k a
unfolding finish
finish-About site k info info' a h = elim (Bool-cases (strstr info.buffer (codes "\r\n\r\n"))) [
  | inl e ↦ ended (handle_request site info.buffer) (rw (finish, e) at h)
  | inr e ↦ subst (About k) (first (rw (finish, e) at h)) tt
]
  where
    ended :
        (r : Option (List (List ℕ) × List ℕ))
        → let out : Result ConnectionInfo =
            r >>= λ t. some (answers k t.0, record info { buffer = t.1; reading_state = false }) in
          out ≡ some (a, info') → About k a
    ended none e = cc
    ended (some (texts, request)) e = subst (About k) (first e) (answers-About k texts)

receive-About :
    (site : Site) (k : ℕ) (info info' : ConnectionInfo) (what : Recv) (a : List Action)
    → receive site k info what ≡ some (a, info')
    → About k a
unfolding receive action_fd
receive-About site k info info' again a h = subst (About k) (first h) tt
receive-About site k info info' failed a h = subst (About k) (first h) (refl, (refl, tt))
receive-About site k info info' closed a h = subst (About k) (first h) (refl, (refl, tt))
receive-About site k info info' (received bytes) a h =
    let (i, rest, _) = >>=-eq-some (add_bytes info bytes) _ h in finish-About site k i info' a rest

-- How a step that has a result goes: it sets the slot of its descriptor, or nothing, and would do
-- so with any other connections in the other slots.
pub data Stepped (site : Site) (e : Event) (c : Connections) (a : List Action) (c' : Connections)
    : Type 0 where
  sets :
      (info : ConnectionInfo)
      → event_fd e < length c
      → c' ≡ set c (event_fd e) (some info)
      → ((d : Connections)
          → Agree (event_fd e) c d
          → step site e d ≡ some (a, set d (event_fd e) (some info)))
      → Stepped site e c a c'
  stays :
      c' ≡ c
      → ((d : Connections) → Agree (event_fd e) c d → step site e d ≡ some (a, d))
      → Stepped site e c a c'

accepted-Stepped :
    (site : Site) (k : ℕ) (c c' : Connections) (a : List Action)
    → step site (accepted (some k)) c ≡ some (a, c')
    → About k a × Stepped site (accepted (some k)) c a c'
unfolding step event_fd action_fd
accepted-Stepped site k c c' a h =
    let (c₁, rest, put) = >>=-eq-some (put_conn c k (new_conn k)) _ h in
    let (lt, e) = put_conn-eq c k (new_conn k) put in
    (
      subst (About k) (first rest) (refl, tt),
      sets (new_conn k) lt (sym (second rest) ∙ e) (λ d g.
          rw (put_conn-lt d k (new_conn k) (omega (arith, g.same_length)))
            (ap (λ x. some (x, set d k (some (new_conn k)))) (first rest))),
    )

ready-Stepped :
    (site : Site) (k : ℕ) (what : Recv) (c c' : Connections) (a : List Action)
    → step site (ready k what) c ≡ some (a, c')
    → About k a × Stepped site (ready k what) c a c'
unfolding step event_fd
ready-Stepped site k what c c' a h =
    let (info, rest, got) = >>=-eq-some (get_conn c k) _ h in
    elim (Bool-cases info.reading_state) [
      | inl reading ↦
          let ((a₁, i), rest', took) =
            >>=-eq-some (receive site k info what) _ (rw reading at rest) in
          let (c₁, done, put) = >>=-eq-some (put_conn c k i) _ rest' in
          let (lt, e) = put_conn-eq c k i put in
          let p = first done in
          (
            subst (About k) p (receive-About site k info i what a₁ took),
            sets i lt (sym (second done) ∙ e) (λ d g.
                rw
                  (
                    sym (get_conn-Agree k c d g) ∙ got,
                    reading,
                    took,
                    put_conn-lt d k i (omega (arith, g.same_length)),
                  )
                  (ap (λ x. some (x, set d k (some i))) p)),
          )
      | inr over ↦
          let same_state : some ([], c) ≡ some (a, c') = (rw over at rest) in
          (
            subst (About k) (first same_state) tt,
            stays (sym (second same_state)) (λ d g.
                rw (sym (get_conn-Agree k c d g) ∙ got, over)
                  (ap (λ x. some (x, d)) (first same_state))),
          )
    ]

pub step-Stepped :
    (site : Site) (e : Event) (c c' : Connections) (a : List Action)
    → step site e c ≡ some (a, c')
    → About (event_fd e) a × Stepped site e c a c'
unfolding event_fd
step-Stepped site (accepted (some k)) c c' a h = accepted-Stepped site k c c' a h
step-Stepped site (accepted none) c c' a h = absurd (failed_accept h)
  where
    failed_accept : {r : List Action × Connections} → step site (accepted none) c ≡ some r → ⊥
    failed_accept e = unfold step in (cc e)
step-Stepped site (ready k what) c c' a h = ready-Stepped site k what c c' a h

-- No step changes the number of slots.
pub step-length :
    (site : Site) (e : Event) (c c' : Connections) (a : List Action)
    → step site e c ≡ some (a, c')
    → length c' ≡ length c
step-length site e c c' a h = kept (step-Stepped site e c c' a h).1
  where
    kept : Stepped site e c a c' → length c' ≡ length c
    kept (sets info lt q same_step) = ap length q ∙ length-set c (event_fd e) (some info)
    kept (stays q same_step) = ap length q
