-- ===== src/Tests/Browser.antt =====
-- A run of the directory walk.
use otus_c.Prelude.{if◌then◌else◌, ◌<◌, ◌≡◌, refl, true, false, ◌||◌, none, some, [], ◌∷◌, arith}
use otus_c.Prelude.Text.{codes, same}
use otus_c.Browser.{Files, create_and_fill_model, is_directory, is_dot_directory}
use otus_c.Browser.Walk.{
  Entries, nothing, plain, locked, folder, shown, names_of, Agrees, depth, entered, within,
  create_and_fill_model_lem,
}

-- A working directory with a folder src of one file, a folder that is locked, and a file.
abbrev disk : Files
disk = record {
  opendir = λ path.
      if same path (codes ".")
      then some (codes "." ∷ codes ".." ∷ codes "src" ∷ codes "key" ∷ codes "a.txt" ∷ [])
      else if same path (codes "./src")
      then some (codes "." ∷ codes "main.c" ∷ [])
      else none;
  stat = λ path.
      if same path (codes "./a.txt") || same path (codes "./src/main.c")
      then some false
      else some true;
}

abbrev entries : Entries
entries = plain (codes ".") (
    plain (codes "..") (
      folder (codes "src") (plain (codes ".") (plain (codes "main.c") nothing))
        (locked (codes "key") (plain (codes "a.txt") nothing))))

entries-Agrees : Agrees disk (codes ".") entries
unfolding Agrees entered within is_directory is_dot_directory same names_of
entries-Agrees = (refl, (refl, (refl, refl, (refl, (refl, tt)), (refl, refl, (refl, tt)))))

opens : disk.opendir (codes ".") ≡ some (names_of entries)
unfolding names_of same
opens = refl

deep : depth entries < 2
unfolding depth
deep = omega arith

create_and_fill_model_lem_example : create_and_fill_model disk 2 ≡ some (shown entries)
create_and_fill_model_lem_example =
    create_and_fill_model_lem disk entries 2 opens entries-Agrees deep
