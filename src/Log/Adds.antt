-- ===== src/Log/Adds.antt =====
-- Every step of HW10-LogParser/src/main.c up to a whole file adds the same to any statistics.
use otus_c.Prelude.Text.{codes}
use otus_c.Prelude.{
  ◌==◌, if◌then◌else◌, length, drop, ℕ, ◌≡◌, refl, sym, ap, ◌∙◌, Bool, true, false, Option, none,
  some, List, [], ◌∷◌,
}
use otus_c.Prelude.Int.{ℤ, pos, ◌+ℤ◌, zero_ℤ, +ℤ_assoc, +ℤ_zero}
use otus_c.Log.{
  ThreadStats, add_url, add_ref, parse_ref, parse_size, parse_log_line, parse_lines, process_file,
  thread_function, trim, strchr, behind,
}
use otus_c.Log.Values.{Query, total, url, ref, answer, share, add_entry-entries, value_of-put}

-- The function adds to each answer a number that does not depend on the statistics it changes.
pub record Adds (f : ThreadStats → ThreadStats) : Type 0 where
  pub share_of : Query → ℤ
  pub adds : (q : Query) (s : ThreadStats) → answer q (f s) ≡ answer q s +ℤ share_of q

Adds-id : Adds (λ s. s)
Adds-id = record { share_of = λ q. zero_ℤ; adds = λ q s. sym (+ℤ_zero _) }

pub Adds-compose : {f g : ThreadStats → ThreadStats} → Adds f → Adds g → Adds (λ s. g (f s))
Adds-compose {f} {g} a b = record {
  share_of = λ q. a.share_of q +ℤ b.share_of q;
  adds = λ q s. b.adds q (f s) ∙ ap (λ x. x +ℤ b.share_of q) (a.adds q s) ∙ +ℤ_assoc _ _ _;
}

-- The same for one url, one referer and the total.
abbrev only : Query → ℤ → Query → ℤ
only total d total = d
only total d (url k) = zero_ℤ
only total d (ref k) = zero_ℤ
only (url k) d total = zero_ℤ
only (url k) d (url q) = share q k d
only (url k) d (ref q) = zero_ℤ
only (ref k) d total = zero_ℤ
only (ref k) d (url q) = zero_ℤ
only (ref k) d (ref q) = share q k d

Adds-url : (k : List ℕ) (d : ℤ) → Adds (λ s. add_url s k d)
unfolding add_url answer
Adds-url k d = record { share_of = only (url k) d; adds = adds }
  where
    adds : (q : Query) (s : ThreadStats) → answer q (add_url s k d) ≡ answer q s +ℤ only (url k) d q
    adds total s = sym (+ℤ_zero _)
    adds (url u) s = rw (add_entry-entries s.url_map k d) (value_of-put u k d s.url_map.entries)
    adds (ref r) s = sym (+ℤ_zero _)

Adds-ref : (k : List ℕ) (d : ℤ) → Adds (λ s. add_ref s k d)
unfolding add_ref answer
Adds-ref k d = record { share_of = only (ref k) d; adds = adds }
  where
    adds : (q : Query) (s : ThreadStats) → answer q (add_ref s k d) ≡ answer q s +ℤ only (ref k) d q
    adds total s = sym (+ℤ_zero _)
    adds (url u) s = sym (+ℤ_zero _)
    adds (ref r) s = rw (add_entry-entries s.ref_map k d) (value_of-put r k d s.ref_map.entries)

Adds-total : (d : ℤ) → Adds (λ s. record s { total_bytes = s.total_bytes +ℤ d })
unfolding answer
Adds-total d = record { share_of = only total d; adds = adds }
  where
    adds :
        (q : Query) (s : ThreadStats)
        → answer q (record s { total_bytes = s.total_bytes +ℤ d }) ≡ answer q s +ℤ only total d q
    adds total s = refl
    adds (url u) s = sym (+ℤ_zero _)
    adds (ref r) s = sym (+ℤ_zero _)

Adds-elim {ℓ} :
    {A : Type ℓ} (r : Option A) (f : A → ThreadStats → ThreadStats)
    → ((a : A) → Adds (f a))
    → Adds (λ s. elim r [ none ↦ s | some a ↦ f a s ])
Adds-elim none f h = Adds-id
Adds-elim (some a) f h = h a

Adds-if :
    (b : Bool) {f g : ThreadStats → ThreadStats}
    → Adds f
    → Adds g
    → Adds (λ s. if b then f s else g s)
Adds-if true a b = a
Adds-if false a b = b

Adds-parse_ref : (text : List ℕ) → Adds (parse_ref text)
unfolding parse_ref
Adds-parse_ref text = Adds-elim (strchr text b'"') _ (λ (_, quote).
    Adds-elim (strchr (drop 1 quote) b'"') _
      (λ (name, _). Adds-if (length name == 0) Adds-id (Adds-ref name (pos 1))))

Adds-parse_size :
    (scan : List ℕ → Option ℤ) (path url_end : List ℕ) → Adds (parse_size scan path url_end)
unfolding parse_size
Adds-parse_size scan path url_end = Adds-elim (strchr url_end b'"') _ (λ (_, quote).
    Adds-elim (strchr (drop 1 quote) b' ') _ (λ (_, text). Adds-elim (scan text) _ (λ size.
      Adds-compose (Adds-compose (Adds-total size) (Adds-url (trim path) size))
        (Adds-parse_ref text))))

Adds-parse_log_line : (scan : List ℕ → Option ℤ) (line : List ℕ) → Adds (parse_log_line scan line)
unfolding parse_log_line
Adds-parse_log_line scan line = Adds-elim (strchr line b'"') _ (λ (_, quote).
    Adds-elim (behind (codes "GET ") (drop 1 quote)) _ (λ text.
      Adds-elim (strchr text b' ') _ (λ (path, url_end). Adds-parse_size scan path url_end)))

Adds-parse_lines :
    (scan : List ℕ → Option ℤ) (lines : List (List ℕ)) → Adds (parse_lines scan lines)
unfolding parse_lines
Adds-parse_lines scan [] = Adds-id
Adds-parse_lines scan (line ∷ lines) =
    Adds-compose (Adds-parse_log_line scan line) (Adds-parse_lines scan lines)

module _ (scan : List ℕ → Option ℤ) (file : List ℕ → Option (List (List ℕ))) where
  pub Adds-process_file : (name : List ℕ) → Adds (process_file scan file name)
  unfolding process_file
  Adds-process_file name = Adds-elim (file name) _ (Adds-parse_lines scan)

  pub Adds-thread_function : (names : List (List ℕ)) → Adds (thread_function scan file names)
  unfolding thread_function
  Adds-thread_function [] = Adds-id
  Adds-thread_function (name ∷ names) =
      Adds-compose (Adds-process_file name) (Adds-thread_function names)
