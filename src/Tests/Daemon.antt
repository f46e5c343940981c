-- ===== src/Tests/Daemon.antt =====
-- A process with four open descriptors that becomes a daemon, over a table of descriptors in a list.
use otus_c.Prelude.{
  ℕ, zero, suc, ◌≤◌, ◌<◌, ◌≡◌, refl, ap, ◌≢◌, ◌↔◌, ◌⊎◌, inl, inr, false, ◌&&◌, Option, none, some,
  List, [], ◌∷◌, arith,
}
use otus_c.Prelude.Int.{ℤ, pos, negsuc}
use otus_c.Ipc.Daemon.{File, dev_null, other, Kernel, Launch, Message, limit, goes_on, daemonize}
use otus_c.Ipc.Daemon.Descriptors.{Standard, complains, daemonize_lem}

abbrev Table : Type 0
Table = List (Option File)

abbrev file : Table → ℕ → Option File
file [] i = none
file (f ∷ fs) zero = f
file (f ∷ fs) (suc i) = file fs i

abbrev put : ℕ → Option File → Table → Table
put zero f [] = f ∷ []
put zero f (g ∷ t) = f ∷ t
put (suc n) f [] = none ∷ put n f []
put (suc n) f (g ∷ t) = g ∷ put n f t

abbrev lowest : Table → ℕ
lowest [] = 0
lowest (none ∷ t) = 0
lowest (some f ∷ t) = suc (lowest t)

put-same : (n : ℕ) (f : Option File) (t : Table) → file (put n f t) n ≡ f
put-same zero f [] = refl
put-same zero f (g ∷ t) = refl
put-same (suc n) f [] = put-same n f []
put-same (suc n) f (g ∷ t) = put-same n f t

put-other : (n : ℕ) (f : Option File) (t : Table) (j : ℕ) → n ≢ j → file (put n f t) j ≡ file t j
put-other zero f [] zero h = absurd (h refl)
put-other zero f [] (suc j) h = refl
put-other zero f (g ∷ t) zero h = absurd (h refl)
put-other zero f (g ∷ t) (suc j) h = refl
put-other (suc n) f [] zero h = refl
put-other (suc n) f [] (suc j) h = put-other n f [] j (λ e. h (ap suc e))
put-other (suc n) f (g ∷ t) zero h = refl
put-other (suc n) f (g ∷ t) (suc j) h = put-other n f t j (λ e. h (ap suc e))

lowest_lem :
    (t : Table) (n : ℕ) → ((i : ℕ) → i < n → file t i ≢ none) → file t n ≡ none → lowest t ≡ n
lowest_lem [] zero used e = refl
lowest_lem [] (suc n) used e = absurd (used 0 (omega arith) refl)
lowest_lem (none ∷ t) zero used e = refl
lowest_lem (none ∷ t) (suc n) used e = absurd (used 0 (omega arith) refl)
lowest_lem (some f ∷ t) zero used e = absurd (cc e)
lowest_lem (some f ∷ t) (suc n) used e =
    ap suc (lowest_lem t n (λ i h. used (suc i) (omega arith)) e)

-- A copy of what a descriptor stands for, under the lowest free descriptor.
abbrev copy : Option File → Table → ℤ × Table
copy none t = (negsuc 0, t)
copy (some f) t = (pos (lowest t), put (lowest t) (some f) t)

copy_lem :
    (f : Option File) (t : Table) (n : ℕ)
    → ((i : ℕ) → i < n → file t i ≢ none)
    → file t n ≡ none
    → (copy f t ≡ (negsuc 0, t))
      ⊎ (((copy f t).0 ≡ pos n)
          × (file (copy f t).1 n ≡ f)
          × ((j : ℕ) → n ≢ j → file (copy f t).1 j ≡ file t j))
copy_lem none t n used e = inl refl
copy_lem (some f) t n used e =
    rw (lowest_lem t n used e) (inr (refl, put-same n (some f) t, put-other n (some f) t))

abbrev kernel : Kernel
kernel = record {
  Table = Table;
  file = file;
  close = λ i t. put i none t;
  open_null = copy (some dev_null);
  dup = λ k t. copy (file t k) t;
  close_same = λ i t. put-same i none t;
  close_other = λ i j t h. put-other i none t j h;
  open_lowest = copy_lem (some dev_null);
  dup_closed = λ k t e. rw e refl;
  dup_lowest = λ k t n used e. copy_lem (file t k) t n used e;
}

abbrev launch : Launch
launch = record {
  getrlimit = pos 0;
  rlim_max = some 8;
  first_pid = pos 0;
  second_pid = negsuc 0;
  chdir = pos 0;
}

abbrev inherited : Table
inherited = some (other 1) ∷ some (other 1) ∷ some (other 2) ∷ some (other 3) ∷ []

daemonize_lem_example :
    ((goes_on launch.first_pid && goes_on launch.second_pid ≡ false)
      × (daemonize kernel launch inherited ≡ none))
    ⊎ ((t' : Table) × (log : List Message) × (daemonize kernel launch inherited ≡ some (t', log))
        × ((complains log ≡ false) ↔ Standard kernel t')
        × ((i : ℕ) → 3 ≤ i → i < limit launch.rlim_max → file t' i ≡ none)
        × ((i : ℕ) → limit launch.rlim_max ≤ i → file t' i ≡ file inherited i))
unfolding limit
daemonize_lem_example = daemonize_lem kernel launch inherited (omega arith)
