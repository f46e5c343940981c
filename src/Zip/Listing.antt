-- ===== src/Zip/Listing.antt =====
-- list_zip on an archive that zip_read accepted.
use otus_c.Prelude.{
  leb, ◌==◌, lt→ltb, ==_refl, Bool-cases, length, All, ℕ, zero, suc, ◌+◌, ◌≤◌, ◌<◌, ◌≡◌, refl, ap,
  ap₂, ◌∙◌, inl, inr, true, false, ◌&&◌, Option, none, some, List, [], ◌∷◌, arith,
}
use otus_c.Prelude.Int.{ℤ}
use otus_c.Zip.Run.{ok, >>=-eq-ok, Holds, Holds->>=, Holds-ok, Holds-if}
use otus_c.Zip.Detail.{Memory, byte_at, Tm}
use otus_c.Zip.Header.{Cfh, Eocdr, find_eocdr}
use otus_c.Zip.Archive.{
  Zip, Member, member_of, has_nul, read_members, next_offset, archive_len, archive_memory, zip_of,
  read_archive, zip_read, asserted, zip_member, name_bytes, list_from,
}
use otus_c.Zip.Members.{Passed, Chain, done, link, read_members-Chain}

-- No byte of a name that memchr went through is 0.
name_bytes-Returns :
    (m : Memory) (p n : ℕ)
    → has_nul m p n ≡ ok false
    → (bs : List ℕ) × (name_bytes m p n ≡ ok bs) × (length bs ≡ n) × All (λ b. 0 < b) bs
unfolding has_nul name_bytes
name_bytes-Returns m p zero h = ([], refl, refl, tt)
name_bytes-Returns m p (suc n) h =
    let (b, rest, read) = >>=-eq-ok (byte_at m p) _ h in
    elim (Bool-cases (b == 0)) [
      | inl z ↦ absurd (impossible (rw z at rest))
      | inr nz ↦
          let (bs, got, len, all) = name_bytes-Returns m (p + 1) n (rw nz at rest) in
          (b ∷ bs, rw (read, got), ap suc len, (ground arith, all))
    ]
  where
    impossible : ok true ≡ ok false → ⊥
    impossible e = cc

Chain-le : {m : Memory} {len n o end : ℕ} → Chain m len n o end → o + n ≤ end
Chain-le done = omega arith
Chain-le (link c p rest) = omega (arith, Chain-le rest)

-- zip_member on a member that zip_read passed: no assert fails.
pub zip_member-Passed :
    (mktime : Tm → ℤ) (z : Zip) (o : ℕ) (c : Cfh)
    → Passed z.memory z.src_len o c
    → z.members_begin ≤ o
    → next_offset o c ≤ z.members_end
    → (r : Member) × (zip_member mktime z o ≡ ok r)
      × (r.name ≡ c.name)
      × (r.name_len ≡ c.name_len)
      × (r.next ≡ next_offset o c)
unfolding zip_member asserted
zip_member-Passed mktime z o c p lo hi = (
  member_of mktime o c p.local,
  rw (
    leb_true z.members_begin o lo,
    lt→ltb o z.members_end (omega arith),
    p.header,
    p.local_header,
    leb_true (next_offset o c) z.members_end hi,
  ),
  refl,
  refl,
  refl,
)
  where
    leb_true : (a b : ℕ) → a ≤ b → leb a b ≡ true
    leb_true a b h = ground arith

pub list_from-end :
    (mktime : Tm → ℤ) (n : ℕ) (z : Zip) → list_from mktime (suc n) z z.members_end ≡ ok []
unfolding list_from
list_from-end mktime n z = rw (==_refl z.members_end, list_from)

pub list_from-step :
    (mktime : Tm → ℤ) (n : ℕ) (z : Zip) (o : ℕ) (r : Member) (bs : List ℕ) (names : List (List ℕ))
    → o < z.members_end
    → zip_member mktime z o ≡ ok r
    → name_bytes z.memory r.name r.name_len ≡ ok bs
    → list_from mktime n z r.next ≡ ok names
    → list_from mktime (suc n) z o ≡ ok (bs ∷ names)
unfolding list_from
list_from-step mktime n z o r bs names lt got read listed =
    rw (differs o z.members_end lt, list_from, got, read, listed)
  where
    differs : (a b : ℕ) → a < b → (a == b) ≡ false
    differs a b h = ground arith

-- The loop of list_zip over a chain of passed members, with one more round of fuel than members.
list_from-Chain :
    (mktime : Tm → ℤ) (z : Zip) (n o end : ℕ)
    → Chain z.memory z.src_len n o end
    → end ≡ z.members_end
    → z.members_begin ≤ o
    → (names : List (List ℕ)) × (list_from mktime (suc n) z o ≡ ok names)
      × (length names ≡ n)
      × All (All (λ b. 0 < b)) names
list_from-Chain mktime z zero o end done e lo = ([], rw e (list_from-end mktime zero z), refl, tt)
list_from-Chain mktime z (suc n) o end (link c p rest) e lo =
    let hi : next_offset o c ≤ z.members_end = omega (arith, Chain-le rest) in
    let (r, got, name, len, next) = zip_member-Passed mktime z o c p lo hi in
    let (bs, read, count, pos) = name_bytes-Returns z.memory c.name c.name_len p.name_ok in
    let (names, listed, total, all) =
      list_from-Chain mktime z n (next_offset o c) end rest e (omega arith) in
    (
      bs ∷ names,
      list_from-step mktime (suc n) z o r bs names (omega arith) got
          (ap₂ (name_bytes z.memory) name len ∙ read)
          (ap (list_from mktime (suc n) z) next ∙ listed),
      ap suc total,
      (pos, all),
    )

-- What zip_read stores in the struct when it returns 1.
abbrev ChainIf : Option Zip → Type 0
ChainIf none = Unit {0}
ChainIf (some z) = Chain z.memory z.src_len z.num_members z.members_begin z.members_end

zip_of-Chain :
    (e : Eocdr) (m : Memory) (len : ℕ) (r : Option ℕ)
    → read_members m len e.cd_entries e.cd_offset ≡ ok r
    → ChainIf (zip_of e m len r)
unfolding zip_of
zip_of-Chain e m len none q = tt
zip_of-Chain e m len (some end) q = read_members-Chain m len e.cd_entries e.cd_offset end q

read_archive-Chain : (file : List ℕ) (r : Option (ℕ × Eocdr)) → Holds ChainIf (read_archive file r)
unfolding read_archive
read_archive-Chain file none = Holds-ok ChainIf none tt
read_archive-Chain file (some (o, e)) =
    let len = archive_len e (length file) o in
    let m = archive_memory file len in
    Holds-if ChainIf (o == 0) (λ _. Holds-ok ChainIf none tt)
      (λ _.
        Holds-if ChainIf
          (e.disk_nbr == 0 && (e.cd_start_disk == 0 && e.disk_cd_entries == e.cd_entries))
          (λ _.
            Holds->>= ChainIf (read_members m len e.cd_entries e.cd_offset) _
              (λ r q. Holds-ok ChainIf (zip_of e m len r) (zip_of-Chain e m len r q)))
          (λ _. Holds-ok ChainIf none tt))

zip_read-Chain :
    (file : List ℕ) (z : Zip)
    → zip_read file ≡ ok (some z)
    → Chain z.memory z.src_len z.num_members z.members_begin z.members_end
unfolding zip_read
zip_read-Chain file z e =
    (Holds->>= ChainIf (find_eocdr (record { file = file; base = 0 }) (length file)) _
        (λ r _. read_archive-Chain file r)).apply
      (some z) e

-- On every file that zip_read accepts, the loop of list_zip comes to its end within num_members + 1
-- tests, no assert of zip_member fails and no read leaves the file; it prints num_members names, none
-- of which has a zero byte.
pub list_zip-Returns :
    (mktime : Tm → ℤ) (file : List ℕ) (z : Zip)
    → zip_read file ≡ ok (some z)
    → (names : List (List ℕ)) × (list_from mktime (suc z.num_members) z z.members_begin ≡ ok names)
      × (length names ≡ z.num_members)
      × All (All (λ b. 0 < b)) names
list_zip-Returns mktime file z e =
    list_from-Chain mktime z z.num_members z.members_begin z.members_end (zip_read-Chain file z e)
      refl (omega arith)
