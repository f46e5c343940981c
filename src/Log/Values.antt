-- ===== src/Log/Values.antt =====
-- What the statistics of HW10-LogParser/src/main.c count: what add_entry and merge_maps add to it.
use otus_c.Prelude.Text.{same, same-eq}
use otus_c.Prelude.{
  if◌then◌else◌, Bool-cases, ℕ, ◌≡◌, refl, sym, ap, ◌∙◌, inl, inr, Option, none, some, List, [],
  ◌∷◌, ◌++◌, arith,
}
use otus_c.Prelude.Int.{ℤ, ◌+ℤ◌, zero_ℤ, +ℤ_assoc, +ℤ_comm, +ℤ_zero}
use otus_c.Log.{
  HashEntry, HashMap, bump, grow, store, add_entry, merge_maps, ThreadStats, no_stats, merge_stats,
}

-- What a map holds for a key.
unfoldable pub value_of : List ℕ → List HashEntry → ℤ
value_of k [] = zero_ℤ
value_of k (e ∷ es) = (if same e.key k then e.value else zero_ℤ) +ℤ value_of k es

-- A number that the program reports: the bytes, those of a url, the uses of a referer.
pub data Query : Type 0 where
  total : Query
  url ref : List ℕ → Query

unfoldable pub answer : Query → ThreadStats → ℤ
unfolding value_of
answer total s = s.total_bytes
answer (url k) s = value_of k s.url_map.entries
answer (ref k) s = value_of k s.ref_map.entries

pub zero_plus : (a : ℤ) → zero_ℤ +ℤ a ≡ a
zero_plus a = +ℤ_comm zero_ℤ a ∙ +ℤ_zero a

-- What adding `d` under key `k` adds for the key `q`.
abbrev pub share : List ℕ → List ℕ → ℤ → ℤ
share q k d = if same k q then d else zero_ℤ

-- What add_entry does to the entries of a map.
unfoldable pub put : List HashEntry → List ℕ → ℤ → List HashEntry
put [] k d = record { key = k; value = d } ∷ []
put (e ∷ es) k d =
    let rest = put es k d in
    if same e.key k then record e { value = e.value +ℤ d } ∷ es else e ∷ rest

abbrev bumped : Option (List HashEntry) → List HashEntry → HashEntry → List HashEntry
bumped none es e = es ++ (e ∷ [])
bumped (some es') es e = es'

bumped-bump :
    (es : List HashEntry) (k : List ℕ) (d : ℤ)
    → bumped (bump es k d) es (record { key = k; value = d }) ≡ put es k d
unfolding bump put
bumped-bump [] k d = refl
bumped-bump (e ∷ es) k d = elim (Bool-cases (same e.key k)) [
  | inl hit ↦ rw hit refl
  | inr miss ↦ rw miss (behind_head (bump es k d) (bumped-bump es k d))
]
  where
    behind_head :
        (r : Option (List HashEntry))
        → bumped r es (record { key = k; value = d }) ≡ put es k d
        → bumped
            (elim r [ none ↦ none | some es' ↦ some (e ∷ es') ])
            (e ∷ es)
            (record { key = k; value = d })
          ≡ e ∷ put es k d
    behind_head none h = ap (λ r. e ∷ r) h
    behind_head (some es') h = ap (λ r. e ∷ r) h

grow-entries : (m : HashMap) → (grow m).entries ≡ m.entries
unfolding grow
grow-entries m = ground arith

pub add_entry-entries :
    (m : HashMap) (k : List ℕ) (d : ℤ) → (add_entry m k d).entries ≡ put m.entries k d
unfolding add_entry store
add_entry-entries m k d = either (bump m.entries k d) ∙ bumped-bump m.entries k d
  where
    either :
        (r : Option (List HashEntry))
        → HashMap.entries (elim r as (λ _. HashMap) [
          | some es ↦ record m { entries = es }
          | none ↦ store (grow m) (record { key = k; value = d })
        ])
          ≡ bumped r m.entries (record { key = k; value = d })
    either none = rw (grow-entries m)
    either (some es) = refl

pub value_of-put :
    (q k : List ℕ) (d : ℤ) (es : List HashEntry)
    → value_of q (put es k d) ≡ value_of q es +ℤ share q k d
unfolding value_of put
value_of-put q k d [] = +ℤ_zero _ ∙ sym (zero_plus _)
value_of-put q k d (e ∷ es) = elim (Bool-cases (same e.key k)) [
  | inl hit ↦
      rw (hit, same-eq e.key k hit)
        (elim (Bool-cases (same k q)) [
          | inl found ↦
              rw (found)
                (+ℤ_assoc _ _ _ ∙ ap (λ x. e.value +ℤ x) (+ℤ_comm _ _) ∙ sym (+ℤ_assoc _ _ _))
          | inr absent ↦ rw (absent) (sym (+ℤ_zero _))
        ])
  | inr miss ↦ rw (miss, value_of-put q k d es) (sym (+ℤ_assoc _ _ _))
]

value_of-merge :
    (q : List ℕ) (es : List HashEntry) (m : HashMap)
    → value_of q (merge_maps m es).entries ≡ value_of q m.entries +ℤ value_of q es
unfolding merge_maps value_of
value_of-merge q [] m = sym (+ℤ_zero _)
value_of-merge q (e ∷ es) m =
    value_of-merge q es (add_entry m e.key e.value)
    ∙ rw (add_entry-entries m e.key e.value, value_of-put q e.key e.value m.entries)
        (+ℤ_assoc _ _ _)

-- Merging the statistics of a thread adds its answers to the final ones.
pub answer-merge_stats :
    (q : Query) (s t : ThreadStats) → answer q (merge_stats s t) ≡ answer q s +ℤ answer q t
unfolding answer merge_stats
answer-merge_stats total s t = refl
answer-merge_stats (url k) s t = value_of-merge k t.url_map.entries s.url_map
answer-merge_stats (ref k) s t = value_of-merge k t.ref_map.entries s.ref_map

pub answer-no_stats : (q : Query) → answer q no_stats ≡ zero_ℤ
unfolding answer value_of
answer-no_stats total = refl
answer-no_stats (url k) = refl
answer-no_stats (ref k) = refl
