-- ===== src/Server/Slots.antt =====
-- The slots of HW12-FileServer/src/server.c as one descriptor sees them.
use otus_c.Prelude.{
  ◌==◌, if◌then◌else◌, lt→ltb, ==_refl, Bool-cases, length, get_elem?, set, All, length-set,
  get_elem?-set_self, get_elem?-set_ne, ℕ, ◌<◌, ◌≡◌, refl, sym, ap, ◌∙◌, ◌≢◌, inl, inr, false, none,
  some, List, [], ◌∷◌, ◌++◌, arith,
}
use otus_c.Server.{
  ConnectionInfo, Event, accepted, ready, Action, watch, unwatch, close, write, answers,
  Connections, put_conn,
}

-- The descriptor that an event or an action is about.
unfoldable pub event_fd : Event → ℕ
event_fd (accepted none) = 0
event_fd (accepted (some fd)) = fd
event_fd (ready fd what) = fd

unfoldable pub action_fd : Action → ℕ
action_fd (watch fd) = fd
action_fd (unwatch fd) = fd
action_fd (close fd) = fd
action_fd (write fd text) = fd

unfoldable pub own : ℕ → List Event → List Event
own k [] = []
own k (e ∷ es) = let rest = own k es in if event_fd e == k then e ∷ rest else rest

unfoldable pub own_actions : ℕ → List Action → List Action
own_actions k [] = []
own_actions k (a ∷ as_) =
    let rest = own_actions k as_ in if action_fd a == k then a ∷ rest else rest

pub own_actions-append :
    (k : ℕ) (a b : List Action) → own_actions k (a ++ b) ≡ own_actions k a ++ own_actions k b
unfolding own_actions
own_actions-append k [] b = refl
own_actions-append k (x ∷ a) b = elim (Bool-cases (action_fd x == k)) [
  | inl e ↦ rw (e, own_actions-append k a b)
  | inr e ↦ rw (e, own_actions-append k a b)
]

-- Every action is about the descriptor.
abbrev pub About : ℕ → List Action → Type 0
About k = All (λ a. action_fd a ≡ k)

pub own_actions_self : (k : ℕ) (a : List Action) → About k a → own_actions k a ≡ a
unfolding own_actions
own_actions_self k [] h = refl
own_actions_self k (x ∷ a) (e, h) = rw (e, ==_refl k) (ap (λ r. x ∷ r) (own_actions_self k a h))

pub own_actions-other :
    (k j : ℕ) (a : List Action) → About j a → (j == k) ≡ false → own_actions k a ≡ []
unfolding own_actions
own_actions-other k j [] h ne = refl
own_actions-other k j (x ∷ a) (e, h) ne = rw (e, ne) (own_actions-other k j a h ne)

pub answers-About : (fd : ℕ) (texts : List (List ℕ)) → About fd (answers fd texts)
unfolding answers action_fd
answers-About fd [] = (refl, tt)
answers-About fd (t ∷ texts) = (refl, answers-About fd texts)

-- The same slots as far as descriptor k sees them.
pub record Agree (k : ℕ) (c d : Connections) : Type 0 where
  pub same_length : length c ≡ length d
  pub same_slot : get_elem? c k ≡ get_elem? d k

pub put_conn-eq :
    (c : Connections) (k : ℕ) (info : ConnectionInfo) {c' : Connections}
    → put_conn c k info ≡ some c'
    → (k < length c) × (c' ≡ set c k (some info))
unfolding put_conn
put_conn-eq c k info e = ground arith

pub put_conn-lt :
    (c : Connections) (k : ℕ) (info : ConnectionInfo)
    → k < length c
    → put_conn c k info ≡ some (set c k (some info))
unfolding put_conn
put_conn-lt c k info h = rw (lt→ltb k (length c) h)

pub set-Agree :
    (k : ℕ) (c d : Connections) (info : ConnectionInfo)
    → Agree k c d
    → k < length c
    → Agree k (set c k (some info)) (set d k (some info))
set-Agree k c d info a h = record {
  same_length = length-set c k (some info) ∙ a.same_length ∙ sym (length-set d k (some info));
  same_slot =
      get_elem?-set_self c k (some info) h
      ∙ sym (get_elem?-set_self d k (some info) (omega (arith, a.same_length)));
}

pub set-Agree_other :
    (k j : ℕ) (c d : Connections) (info : ConnectionInfo)
    → Agree k c d
    → j ≢ k
    → Agree k (set c j (some info)) d
set-Agree_other k j c d info a ne = record {
  same_length = length-set c j (some info) ∙ a.same_length;
  same_slot = get_elem?-set_ne c j k (some info) ne ∙ a.same_slot;
}
