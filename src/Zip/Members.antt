-- ===== src/Zip/Members.antt =====
-- What is known of a header that was read, and of a member that zip_read let pass.
use otus_c.Prelude.{
  ltb, ◌==◌, ℕ, zero, suc, ◌+◌, ◌-◌, ◌≤◌, ◌≡◌, refl, subst, ap, ◌∙◌, true, false, ◌||◌, Option,
  none, some, arith,
}
use otus_c.Zip.Run.{ok, >>=-eq-ok, Holds, Holds->>=, Holds-ok, Holds-if}
use otus_c.Zip.Detail.{Memory, read16le, read32le}
use otus_c.Zip.Header.{Cfh, Lfh, cfh_fields, read_cfh, read_lfh}
use otus_c.Zip.Archive.{
  has_nul, check_data, check_header, check_member, read_members, next_offset, supported,
}

-- The name stands behind the fixed part of the header.
abbrev NameBehind : ℕ → Cfh → Type 0
NameBehind o c = c.name ≡ o + 46

cfh_fields-name : (m : Memory) (o : ℕ) → Holds (NameBehind o) (cfh_fields m o)
unfolding cfh_fields
cfh_fields-name m o =
    let P = NameBehind o in
    Holds->>= P (read16le m (o + 4)) _ λ _ _. Holds->>= P (read16le m (o + 6)) _ λ _ _.
      Holds->>= P (read16le m (o + 8)) _ λ _ _. Holds->>= P (read16le m (o + 10)) _ λ _ _.
        Holds->>= P (read16le m (o + 12)) _ λ _ _. Holds->>= P (read16le m (o + 14)) _ λ _ _.
          Holds->>= P (read32le m (o + 16)) _ λ _ _. Holds->>= P (read32le m (o + 20)) _ λ _ _.
            Holds->>= P (read32le m (o + 24)) _ λ _ _. Holds->>= P (read16le m (o + 28)) _ λ _ _.
              Holds->>= P (read16le m (o + 30)) _ λ _ _. Holds->>= P (read16le m (o + 32)) _ λ _ _.
                Holds->>= P (read16le m (o + 34)) _ λ _ _.
                  Holds->>= P (read16le m (o + 36)) _ λ _ _.
                    Holds->>= P (read32le m (o + 38)) _
                      λ _ _. Holds->>= P (read32le m (o + 42)) _ λ _ _. Holds-ok P _ refl

-- A header that is accepted lies inside the archive with its name, extra field and comment.
abbrev CfhFits : ℕ → ℕ → Option Cfh → Type 0
CfhFits len o none = Unit {0}
CfhFits len o (some c) = (c.name ≡ o + 46) × (next_offset o c ≤ len)

pub read_cfh-fits : (m : Memory) (len o : ℕ) → Holds (CfhFits len o) (read_cfh m len o)
unfolding read_cfh
read_cfh-fits m len o =
    let P = CfhFits len o in
    Holds-if P (ltb len o || ltb (len - o) 46) (λ _. Holds-ok P none tt)
      (λ room. Holds->>= P (read32le m o) _ (λ s _.
        Holds-if P (s == 0x02014b50)
          (λ _. Holds->>= P (cfh_fields m o) _ (λ c e.
            Holds-if P (ltb (len - o - 46) (c.name_len + c.extra_len + c.comment_len))
              (λ _. Holds-ok P none tt)
              (λ fits. Holds-ok P (some c) ((cfh_fields-name m o).apply c e, ground arith))))
          (λ _. Holds-ok P none tt)))

-- What zip_read has seen of a member when it goes on to the next.
pub record Passed (m : Memory) (len o : ℕ) (c : Cfh) : Type 0 where
  pub header : read_cfh m len o ≡ ok (some c)
  pub method_ok : supported c ≡ true
  pub name_ok : has_nul m c.name c.name_len ≡ ok false
  pub local : Lfh
  pub local_header : read_lfh m len c.lfh_offset ≡ ok (some local)
  pub data_fits : c.comp_size ≤ len - (local.extra + local.extra_len)

abbrev PassedIf : Memory → ℕ → ℕ → Option Cfh → Type 0
PassedIf m len o none = Unit {0}
PassedIf m len o (some c) = Passed m len o c

check_data-Passed :
    (m : Memory) (len o : ℕ) (c : Cfh)
    → read_cfh m len o ≡ ok (some c)
    → supported c ≡ true
    → has_nul m c.name c.name_len ≡ ok false
    → (r : Option Lfh) → read_lfh m len c.lfh_offset ≡ ok r
    → Holds (PassedIf m len o) (check_data len c r)
unfolding check_data
check_data-Passed m len o c h s n none e = Holds-ok (PassedIf m len o) none tt
check_data-Passed m len o c h s n (some l) e =
    Holds-if (PassedIf m len o) (ltb (len - (l.extra + l.extra_len)) c.comp_size)
      (λ _. Holds-ok (PassedIf m len o) none tt)
      (λ fits. Holds-ok (PassedIf m len o) (some c) (record {
        header = h;
        method_ok = s;
        name_ok = n;
        local = l;
        local_header = e;
        data_fits = ground arith;
      }))

check_header-Passed :
    (m : Memory) (len o : ℕ) (r : Option Cfh)
    → read_cfh m len o ≡ ok r
    → Holds (PassedIf m len o) (check_header m len r)
unfolding check_header
check_header-Passed m len o none e = Holds-ok (PassedIf m len o) none tt
check_header-Passed m len o (some c) e =
    let P = PassedIf m len o in
    let stop_here = Holds-ok P none tt in
    Holds-if P (supported c)
      (λ s. Holds->>= P (has_nul m c.name c.name_len) _ (λ bad n.
        Holds-if P bad (λ _. stop_here)
          (λ good.
            Holds->>= P (read_lfh m len c.lfh_offset) _
              (check_data-Passed m len o c e s (n ∙ ap ok good)))))
      (λ _. stop_here)

pub check_member-Passed : (m : Memory) (len o : ℕ) → Holds (PassedIf m len o) (check_member m len o)
unfolding check_member
check_member-Passed m len o =
    Holds->>= (PassedIf m len o) (read_cfh m len o) _ (check_header-Passed m len o)

-- The chain of members that zip_read's loop went through from `o` to `end`.
pub data Chain (m : Memory) (len : ℕ) : ℕ → ℕ → ℕ → Type 0 where
  done : {o : ℕ} → Chain m len zero o o
  link :
      {n o end : ℕ} (c : Cfh)
      → Passed m len o c
      → Chain m len n (next_offset o c) end
      → Chain m len (suc n) o end

-- If zip_read's loop goes through, it has passed every member in turn.
pub read_members-Chain :
    (m : Memory) (len n o end : ℕ) → read_members m len n o ≡ ok (some end) → Chain m len n o end
unfolding read_members
read_members-Chain m len zero o end e = subst (Chain m len zero o) same done
  where
    same : o ≡ end
    same = cc
read_members-Chain m len (suc n) o end e =
    let (r, rest, checked) = >>=-eq-ok (check_member m len o) _ e in
    next r checked rest (λ c q. read_members-Chain m len n (next_offset o c) end q)
  where
    next :
        (r : Option Cfh)
        → check_member m len o ≡ ok r
        → (elim r [ none ↦ ok none | some c ↦ read_members m len n (next_offset o c) ])
          ≡ ok (some end)
        → ((c : Cfh)
            → read_members m len n (next_offset o c) ≡ ok (some end)
            → Chain m len n (next_offset o c) end)
        → Chain m len (suc n) o end
    next none a b ih = cc
    next (some c) a b ih = link c ((check_member-Passed m len o).apply (some c) a) (ih c b)
