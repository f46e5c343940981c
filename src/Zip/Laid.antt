-- ===== src/Zip/Laid.antt =====
-- The members of a written archive, one after the other: each one passes the checks of zip_read.
use otus_c.Prelude.{
  ==_refl, length, All, length-append, ℕ, ◌+◌, ◌-◌, ◌^◌, ◌≤◌, ◌<◌, ◌≡◌, refl, subst, inl, inr, true,
  List, [], ◌∷◌, ◌++◌, append_assoc, arith,
}
use otus_c.Zip.Detail.{Memory}
use otus_c.Zip.Archive.{supported, next_offset}
use otus_c.Zip.LittleEndian.{Stands}
use otus_c.Zip.Bytes.{Stands-front, Stands-behind, has_nul-Stands}
use otus_c.Zip.Image.{
  Entry, IsEntry, local_header, local_entry, locals, central_header, central_entry, central,
}
use otus_c.Zip.Written.{cfh_of, lfh_of, read_cfh_lem, read_lfh_lem}
use otus_c.Zip.Members.{Passed}

length-local_entry :
    (e : Entry)
    → length (local_entry e) ≡ 30 + length e.name + length e.local_extra + length e.contents
unfolding local_entry local_header
length-local_entry e = omega (
  arith,
  length-append e.name (e.local_extra ++ e.contents),
  length-append e.local_extra e.contents,
)

length-central_entry :
    (at : ℕ) (e : Entry)
    → length (central_entry at e) ≡ 46 + length e.name + length e.extra + length e.comment
unfolding central_entry central_header
length-central_entry at e =
    omega (arith, length-append e.name (e.extra ++ e.comment), length-append e.extra e.comment)

supported_lem : (o at : ℕ) (e : Entry) → IsEntry e → supported (cfh_of o at e) ≡ true
unfolding supported cfh_of
supported_lem o at e v = elim v.method_ok [
  | inl (z, same_size) ↦ rw (v.plain, z, same_size, ==_refl (length e.contents)) refl
  | inr z ↦ rw (v.plain, z) refl
]

-- A member takes more than one byte.
pub length-locals-ge : (es : List Entry) → length es ≤ length (locals es)
unfolding locals
length-locals-ge [] = omega arith
length-locals-ge (e ∷ es) =
    omega
      (arith, length-append (local_entry e) (locals es), length-local_entry e, length-locals-ge es)

-- Central headers of some members stand at `o`, and their local headers and data at `at`, inside an
-- archive of `len` bytes.
pub record Laid (m : Memory) (len o at : ℕ) (es : List Entry) : Type 0 where
  pub tail : List ℕ
  pub rest : List ℕ
  pub central_stands : Stands m o (central at es ++ tail)
  pub locals_stands : Stands m at (locals es ++ rest)
  pub entries_ok : All IsEntry es
  pub central_fits : o + length (central at es) ≤ len
  pub locals_fit : at + length (locals es) ≤ len
  pub small : at + length (locals es) < 2 ^ 32

Stands-assoc :
    (m : Memory) (o : ℕ) (xs ys zs : List ℕ)
    → Stands m o ((xs ++ ys) ++ zs)
    → Stands m o (xs ++ (ys ++ zs))
Stands-assoc m o xs ys zs s = subst (Stands m o) (append_assoc xs ys zs) s

module _ (m : Memory) (len o at : ℕ) (e : Entry) (es : List Entry)
    (l : Laid m len o at (e ∷ es)) where
  central_split :
      Stands m o (central_entry at e ++ (central (at + length (local_entry e)) es ++ l.tail))
  central_split =
      Stands-assoc m o (central_entry at e) _ l.tail (unfold central in l.central_stands)

  locals_split : Stands m at (local_entry e ++ (locals es ++ l.rest))
  locals_split =
      Stands-assoc m at (local_entry e) (locals es) l.rest (unfold locals in l.locals_stands)

  length-central :
      length (central at (e ∷ es))
      ≡ length (central_entry at e) + length (central (at + length (local_entry e)) es)
  unfolding central
  length-central = length-append (central_entry at e) _

  length-locals : length (locals (e ∷ es)) ≡ length (local_entry e) + length (locals es)
  unfolding locals
  length-locals = length-append (local_entry e) (locals es)

  pub next-cfh_of : next_offset o (cfh_of o at e) ≡ o + length (central_entry at e)
  unfolding cfh_of
  next-cfh_of = omega (arith, length-central_entry at e)

  central_texts : Stands m o (
      central_header at e
      ++ ((e.name ++ (e.extra ++ e.comment))
          ++ (central (at + length (local_entry e)) es ++ l.tail)))
  unfolding central_entry
  central_texts =
      Stands-assoc m o (central_header at e) (e.name ++ (e.extra ++ e.comment))
        (central (at + length (local_entry e)) es ++ l.tail) central_split

  locals_texts :
      Stands m at
        (local_header e ++ ((e.name ++ (e.local_extra ++ e.contents)) ++ (locals es ++ l.rest)))
  unfolding local_entry
  locals_texts =
      Stands-assoc m at (local_header e) (e.name ++ (e.local_extra ++ e.contents))
        (locals es ++ l.rest) locals_split

  pub name-Stands : Stands m (o + 46) e.name
  name-Stands = Stands-front m (o + 46) e.name _ (
      Stands-front m (o + 46) (e.name ++ (e.extra ++ e.comment)) _
        (Stands-behind m o (o + 46) (central_header at e) _ header_size central_texts))
    where
      header_size : o + 46 ≡ o + length (central_header at e)
      header_size = unfold central_header in refl

  sizes :
      (at < 2 ^ 32)
      × (length e.contents < 2 ^ 32)
      × (o + (46 + length e.name + length e.extra + length e.comment) ≤ len)
      × (at + (30 + length e.name + length e.local_extra) ≤ len)
      × (length e.contents ≤ len - (at + 30 + length e.name + length e.local_extra))
  sizes = (
    omega (arith, l.small),
    omega (arith, l.small, length-locals, length-local_entry e),
    omega (arith, l.central_fits, length-central, length-central_entry at e),
    omega (arith, l.locals_fit, length-locals, length-local_entry e),
    omega (arith, l.locals_fit, length-locals, length-local_entry e),
  )

  -- The first member is let pass.
  pub Laid-Passed : Passed m len o (cfh_of o at e)
  unfolding cfh_of lfh_of
  Laid-Passed =
      let v = l.entries_ok.0 in
      let (at_small, contents_small, central_room, locals_room, data_room) = sizes in
      record {
        header = read_cfh_lem m o _ len at e at_small contents_small v central_texts central_room;
        method_ok = supported_lem o at e v;
        name_ok = has_nul-Stands m (o + 46) e.name name-Stands v.name_ok;
        local = lfh_of at e;
        local_header = read_lfh_lem m at _ len e contents_small v locals_texts locals_room;
        data_fits = data_room;
      }

  -- The others are laid out behind it.
  pub Laid-rest : Laid m len (next_offset o (cfh_of o at e)) (at + length (local_entry e)) es
  Laid-rest = record {
    tail = l.tail;
    rest = l.rest;
    central_stands = Stands-behind m o _ (central_entry at e) _ next-cfh_of central_split;
    locals_stands = Stands-behind m at _ (local_entry e) _ refl locals_split;
    entries_ok = l.entries_ok.1;
    central_fits = omega (arith, l.central_fits, length-central, next-cfh_of);
    locals_fit = omega (arith, l.locals_fit, length-locals);
    small = omega (arith, l.small, length-locals);
  }
