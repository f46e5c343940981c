-- ===== src/Ipc/Daemon/Descriptors.antt =====
-- What the descriptors of the daemon of HW08-IPC/src/main.c stand for.
use otus_c.Prelude.{
  ◌==◌, ==_iff, Bool-cases, ℕ, zero, suc, ◌+◌, ◌≤◌, ◌<◌, ◌≡◌, refl, sym, subst, ◌∙◌, ◌≢◌, ◌↔◌, ◌⊎◌,
  inl, inr, Bool, true, false, not, ◌&&◌, ◌||◌, none, some, List, [], ◌∷◌, ◌++◌, arith,
}
use otus_c.Prelude.Int.{ℤ}
use otus_c.Ipc.Daemon.{
  File, dev_null, Kernel, Launch, Message, no_limit, no_fork, no_second_fork, no_chdir,
  wrong_descriptors, limit, goes_on, negative, equals, told, messages, close_from, standard_streams,
  daemonize,
}

module _ (os : Kernel) where
  -- The three standard streams are /dev/null.
  abbrev pub Standard : os.Table → Type 0
  Standard t =
      (os.file t 0 ≡ some dev_null) × (os.file t 1 ≡ some dev_null) × (os.file t 2 ≡ some dev_null)

  closed-after : (i j : ℕ) (t : os.Table) → os.file t j ≡ none → os.file (os.close i t) j ≡ none
  closed-after i j t h = elim (Bool-cases (i == j)) [
    | inl e ↦ subst (λ k. os.file (os.close i t) k ≡ none) ((==_iff i j).0 e) (os.close_same i t)
    | inr e ↦ os.close_other i j t (grind (arith, e)) ∙ h
  ]

  close_from-closed :
      (n i j : ℕ) (t : os.Table) → os.file t j ≡ none → os.file (close_from os i n t) j ≡ none
  unfolding close_from
  close_from-closed zero i j t h = h
  close_from-closed (suc n) i j t h =
      close_from-closed n (i + 1) j (os.close i t) (closed-after i j t h)

  close_from-below :
      (n i j : ℕ) (t : os.Table) → i ≤ j → j < i + n → os.file (close_from os i n t) j ≡ none
  unfolding close_from
  close_from-below zero i j t low high = absurd (omega arith)
  close_from-below (suc n) i j t low high = elim (Bool-cases (i == j)) [
    | inl e ↦
        close_from-closed n (i + 1) j (os.close i t)
          (subst (λ k. os.file (os.close i t) k ≡ none) ((==_iff i j).0 e) (os.close_same i t))
    | inr e ↦ close_from-below n (i + 1) j (os.close i t) (ground arith) (omega arith)
  ]

  close_from-above :
      (n i j : ℕ) (t : os.Table) → i + n ≤ j → os.file (close_from os i n t) j ≡ os.file t j
  unfolding close_from
  close_from-above zero i j t h = refl
  close_from-above (suc n) i j t h =
      close_from-above n (i + 1) j (os.close i t) (omega arith) ∙ os.close_other i j t (grind arith)

  -- A test that fails exactly if the three streams are right, and nothing else has changed.
  abbrev Result : os.Table → Bool → os.Table → Type 0
  Result t wrong t' =
      ((wrong ≡ false) ↔ Standard t') × ((j : ℕ) → 3 ≤ j → os.file t' j ≡ os.file t j)

  missing :
      (t t' : os.Table)
      → os.file t' 2 ≡ none
      → ((j : ℕ) → 3 ≤ j → os.file t' j ≡ os.file t j)
      → Result t true t'
  missing t t' h same = ((λ e. cc, λ (a, b, c). cc (h, c)), same)

  used : (t : os.Table) (i : ℕ) (f : File) → os.file t i ≡ some f → os.file t i ≢ none
  used t i f h e = cc (h, e)

  -- The second dup, once the descriptors 0 and 1 are right.
  second_dup :
      (t : os.Table)
      → os.file t 0 ≡ some dev_null
      → os.file t 1 ≡ some dev_null
      → os.file t 2 ≡ none
      → Result t (not (equals (os.dup 0 t).0 2)) (os.dup 0 t).1
  unfolding equals
  second_dup t a b c = elim (os.dup_lowest 0 t 2 in_use c) [
    | inl fails ↦ rw fails (missing t t c (λ j h. refl))
    | inr (fd, null2, same) ↦ rw fd (
        (
          (λ e. (same 0 (omega arith) ∙ a, same 1 (omega arith) ∙ b, null2 ∙ a), λ s. refl),
          λ j h. same j (omega arith),
        ))
  ]
    where
      in_use : (i : ℕ) → i < 2 → os.file t i ≢ none
      in_use zero h = used t 0 _ a
      in_use (suc zero) h = used t 1 _ b
      in_use (suc (suc i)) h = absurd (omega arith)

  -- The second dup, where the first has failed.
  second_dup-late :
      (t : os.Table)
      → os.file t 0 ≡ some dev_null
      → os.file t 1 ≡ none
      → os.file t 2 ≡ none
      → Result t true (os.dup 0 t).1
  second_dup-late t a b c =
      elim (os.dup_lowest 0 t 1
        (λ i h. subst (λ k. os.file t k ≢ none) (omega arith) (used t 0 _ a)) b) [
          | inl fails ↦ rw fails (missing t t c (λ j h. refl))
          | inr (fd, null1, same) ↦
              missing t _ (same 2 (omega arith) ∙ c) (λ j h. same j (omega arith))
        ]

  both_dups :
      (t : os.Table)
      → os.file t 0 ≡ some dev_null
      → os.file t 1 ≡ none
      → os.file t 2 ≡ none
      → let (fd1, t1) = os.dup 0 t in
        let (fd2, t2) = os.dup 0 t1 in Result t (not (equals fd1 1) || not (equals fd2 2)) t2
  unfolding equals
  both_dups t a b c =
      elim (os.dup_lowest 0 t 1
        (λ i h. subst (λ k. os.file t k ≢ none) (omega arith) (used t 0 _ a)) b) [
          | inl fails ↦ rw fails (second_dup-late t a b c)
          | inr (fd, null1, same) ↦
              let t1 = (os.dup 0 t).1 in
              let (exact, kept) =
                second_dup t1 (same 0 (omega arith) ∙ a) (null1 ∙ a) (same 2 (omega arith) ∙ c) in
              rw fd (exact, λ j h. kept j h ∙ same j (omega arith))
        ]

  told_lem : (reason : Bool) (m : Message) → (told reason m ≡ []) ↔ (reason ≡ false)
  unfolding told
  told_lem true m = (λ e. cc, λ e. cc)
  told_lem false m = (λ e. refl, λ e. refl)

  -- The three calls leave no message exactly if the streams are right, and change nothing else.
  standard_streams_lem :
      (t : os.Table)
      → os.file t 0 ≡ none
      → os.file t 1 ≡ none
      → os.file t 2 ≡ none
      → (((standard_streams os t).1 ≡ []) ↔ Standard (standard_streams os t).0)
        × ((j : ℕ) → 3 ≤ j → os.file (standard_streams os t).0 j ≡ os.file t j)
  unfolding standard_streams equals
  standard_streams_lem t a b c = elim (os.open_lowest t 0 (λ i lt. absurd (omega arith)) a) [
    | inl fails ↦
        rw (fails, os.dup_closed 0 t a) rw (os.dup_closed 0 t a)
          (((λ e. absurd (cc ((told_lem true _).0 e)), λ s. absurd (cc (a, s.0))), λ j h. refl))
    | inr (fd0, null0, same0) ↦
        let t0 = (os.open_null t).1 in
        let (exact, kept) =
          both_dups t0 null0 (same0 1 (omega arith) ∙ b) (same0 2 (omega arith) ∙ c) in
        rw fd0 (
          (λ e. exact.0 ((told_lem _ _).0 e), λ s. (told_lem _ _).1 (exact.1 s)),
          λ j h. kept j h ∙ same0 j (omega arith),
        )
  ]

-- A message about the standard streams is among the messages.
unfoldable pub complains : List Message → Bool
complains [] = false
complains (no_limit ∷ log) = complains log
complains (no_fork ∷ log) = complains log
complains (no_second_fork ∷ log) = complains log
complains (no_chdir ∷ log) = complains log
complains (wrong_descriptors fd0 fd1 fd2 ∷ log) = true

complains-told :
    (reason : Bool) (m : Message) (log : List Message)
    → complains (m ∷ log) ≡ complains log
    → complains (told reason m ++ log) ≡ complains log
unfolding told complains
complains-told true m log h = h
complains-told false m log h = refl

complains-messages :
    (l : Launch) (wrong : List Message) → complains (messages l wrong) ≡ complains wrong
unfolding messages complains
complains-messages l wrong =
    complains-told (negative l.getrlimit) no_limit _ refl
    ∙ complains-told (negative l.first_pid) no_fork _ refl
    ∙ complains-told (negative l.second_pid) no_second_fork _ refl
    ∙ complains-told (negative l.chdir) no_chdir wrong refl

complains-streams :
    (os : Kernel) (t : os.Table)
    → (complains (standard_streams os t).1 ≡ false) ↔ ((standard_streams os t).1 ≡ [])
unfolding standard_streams told complains
complains-streams os t = of _ _ _ _
  where
    of :
        (reason : Bool) (fd0 fd1 fd2 : ℤ)
        → (complains (told reason (wrong_descriptors fd0 fd1 fd2)) ≡ false)
          ↔ (told reason (wrong_descriptors fd0 fd1 fd2) ≡ [])
    of true fd0 fd1 fd2 = (λ e. cc, λ e. cc)
    of false fd0 fd1 fd2 = (λ e. refl, λ e. refl)

-- With a limit of three descriptors or more, for any descriptors at the start: if either fork gives a
-- process number above zero, the process ends. Otherwise, all descriptors below the limit are closed but
-- for the three standard streams, the descriptors from the limit on are what they were, and the log holds
-- a message about the standard streams exactly if these are not all open on /dev/null, whichever of open
-- and the two calls of dup fail.
pub daemonize_lem :
    (os : Kernel) (l : Launch) (t : os.Table)
    → 3 ≤ limit l.rlim_max
    → ((goes_on l.first_pid && goes_on l.second_pid ≡ false) × (daemonize os l t ≡ none))
      ⊎ ((t' : os.Table) × (log : List Message) × (daemonize os l t ≡ some (t', log))
          × ((complains log ≡ false) ↔ Standard os t')
          × ((i : ℕ) → 3 ≤ i → i < limit l.rlim_max → os.file t' i ≡ none)
          × ((i : ℕ) → limit l.rlim_max ≤ i → os.file t' i ≡ os.file t i))
unfolding daemonize complains
daemonize_lem os l t three = elim (Bool-cases (goes_on l.first_pid && goes_on l.second_pid)) [
  | inr ends ↦ inl (ends, rw ends refl)
  | inl on ↦
      let n = limit l.rlim_max in
      let t1 = close_from os 0 n t in
      let below = λ (j : ℕ) (h : j < n). close_from-below os n 0 j t (omega arith) (omega arith) in
      let (exact, kept) =
        standard_streams_lem os t1 (below 0 (omega arith)) (below 1 (omega arith))
          (below 2 (omega arith)) in
      let wrong = (standard_streams os t1).1 in
      let quiet = complains-messages l wrong in
      let (to, from) = complains-streams os t1 in
      inr (
        (standard_streams os t1).0,
        messages l wrong,
        rw on refl,
        (λ e. exact.0 (to (sym quiet ∙ e)), λ s. quiet ∙ from (exact.1 s)),
        λ i low high. kept i low ∙ below i high,
        λ i h. kept i (omega arith) ∙ close_from-above os n 0 i t (omega arith),
      )
]
