-- ===== src/Ipc/Daemon.antt =====
-- daemonize of HW08-IPC/src/main.c. The system's calls are a parameter, with what their manual says of
-- descriptors: a new one is the lowest that is not in use. The counter of the loop is an int, so a limit
-- above 2 ^ 31 - 1, where it would overflow, is left out. umask and
-- setsid change nothing that is modelled.
use otus_c.Prelude.{
  ◌==◌, if◌then◌else◌, ℕ, zero, suc, ◌+◌, ◌<◌, ◌≡◌, ◌≢◌, ◌⊎◌, Bool, true, false, not, ◌&&◌, ◌||◌,
  Option, none, some, List, [], ◌∷◌, ◌++◌,
}
use otus_c.Prelude.Int.{ℤ, pos, negsuc}
pub mod Descriptors

pub data File : Type 0 where
  dev_null : File
  other : ℕ → File

-- The descriptors of the process, and the calls that change them.
pub record Kernel : Type 1 where
  pub Table : Type 0
  pub file : Table → ℕ → Option File
  pub close : ℕ → Table → Table
  pub open_null : Table → ℤ × Table
  pub dup : ℕ → Table → ℤ × Table
  pub close_same : (i : ℕ) (t : Table) → file (close i t) i ≡ none
  pub close_other : (i j : ℕ) (t : Table) → i ≢ j → file (close i t) j ≡ file t j
  pub open_lowest :
      (t : Table) (n : ℕ)
      → ((i : ℕ) → i < n → file t i ≢ none)
      → file t n ≡ none
      → (open_null t ≡ (negsuc 0, t))
        ⊎ (((open_null t).0 ≡ pos n)
            × (file (open_null t).1 n ≡ some dev_null)
            × ((j : ℕ) → n ≢ j → file (open_null t).1 j ≡ file t j))
  pub dup_closed : (k : ℕ) (t : Table) → file t k ≡ none → dup k t ≡ (negsuc 0, t)
  pub dup_lowest :
      (k : ℕ) (t : Table) (n : ℕ)
      → ((i : ℕ) → i < n → file t i ≢ none)
      → file t n ≡ none
      → (dup k t ≡ (negsuc 0, t))
        ⊎ (((dup k t).0 ≡ pos n)
            × (file (dup k t).1 n ≡ file t k)
            × ((j : ℕ) → n ≢ j → file (dup k t).1 j ≡ file t j))

-- What getrlimit, the two calls of fork and chdir return, and the limit that stands in rl.rlim_max after
-- getrlimit, or none for RLIM_INFINITY.
pub record Launch : Type 0 where
  pub getrlimit : ℤ
  pub rlim_max : Option ℕ
  pub first_pid : ℤ
  pub second_pid : ℤ
  pub chdir : ℤ

pub data Message : Type 0 where
  no_limit no_fork no_second_fork no_chdir : Message
  wrong_descriptors : ℤ → ℤ → ℤ → Message

unfoldable pub limit : Option ℕ → ℕ
limit none = 1024
limit (some rlim_max) = rlim_max

unfoldable pub negative : ℤ → Bool
negative (pos n) = false
negative (negsuc n) = true

unfoldable pub goes_on : ℤ → Bool
goes_on (pos zero) = true
goes_on (pos (suc pid)) = false
goes_on (negsuc n) = true

-- A message if there is a reason for it.
pub told : Bool → Message → List Message
told reason message = if reason then message ∷ [] else []

unfoldable pub equals : ℤ → ℕ → Bool
equals (pos m) n = m == n
equals (negsuc m) n = false

-- The messages in front of those about the standard streams.
pub messages : Launch → List Message → List Message
messages l wrong =
    told (negative l.getrlimit) no_limit
    ++ (told (negative l.first_pid) no_fork
        ++ (told (negative l.second_pid) no_second_fork
            ++ (told (negative l.chdir) no_chdir ++ wrong)))

module _ (os : Kernel) where
  pub close_from : ℕ → ℕ → os.Table → os.Table
  close_from i zero t = t
  close_from i (suc n) t = close_from (i + 1) n (os.close i t)

  -- open and twice dup: the table, and a message unless they give 0, 1 and 2.
  pub standard_streams : os.Table → os.Table × List Message
  standard_streams t =
      let (fd0, t0) = os.open_null t in
      let (fd1, t1) = os.dup 0 t0 in
      let (fd2, t2) = os.dup 0 t1 in
      (
        t2,
        told (not (equals fd0 0) || (not (equals fd1 1) || not (equals fd2 2)))
            (wrong_descriptors fd0 fd1 fd2),
      )

  -- The process that goes on, with its messages, or none where it exits with 0: the two parents.
  pub daemonize : Launch → os.Table → Option (os.Table × List Message)
  daemonize l t =
      if goes_on l.first_pid && goes_on l.second_pid
      then (let (table, wrong) = standard_streams (close_from 0 (limit l.rlim_max) t) in
          some (table, messages l wrong))
      else none
