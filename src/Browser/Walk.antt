-- ===== src/Browser/Walk.antt =====
-- The walk of HW05-Gtk/src/dir_view.c against the directory tree.
use otus_c.Prelude.{
  if◌then◌else◌, lt→ltb, length, length-append, ℕ, zero, suc, ◌+◌, ◌≤◌, ◌<◌, max, ◌≡◌, refl, ap,
  ◌∙◌, Bool, true, false, not, ◌&&◌, Option, none, some, List, [], ◌∷◌, ◌++◌, arith,
}
use otus_c.Prelude.Text.{codes}
use otus_c.Prelude.Partial.{◌>>=◌}
use otus_c.Browser.{
  Rows, end, row, Files, is_dot_directory, get_full_path, is_directory, add_entries,
  add_directory_to_model, add_if_open, create_and_fill_model,
}

-- The entries of a directory: one that is not entered, a directory that cannot be opened, and one that
-- can, with its entries.
pub data Entries : Type 0 where
  nothing : Entries
  plain locked : List ℕ → Entries → Entries
  folder : List ℕ → Entries → Entries → Entries

unfoldable pub names_of : Entries → List (List ℕ)
names_of nothing = []
names_of (plain name rest) = name ∷ names_of rest
names_of (locked name rest) = name ∷ names_of rest
names_of (folder name inside rest) = name ∷ names_of rest

-- The tree to be shown.
pub shown : Entries → Rows
shown nothing = end
shown (plain name rest) = row name end (shown rest)
shown (locked name rest) = row name end (shown rest)
shown (folder name inside rest) = row name (shown inside) (shown rest)

-- How deep the calls are nested below that of the directory.
unfoldable pub depth : Entries → ℕ
depth nothing = 0
depth (plain name rest) = depth rest
depth (locked name rest) = max 1 (depth rest)
depth (folder name inside rest) = max (suc (depth inside)) (depth rest)

unfoldable pub within : List ℕ → List ℕ → List ℕ
within path name = path ++ (codes "/" ++ name)

module _ (files : Files) where
  -- The program enters a name that stat calls a directory and that is not one of the two dots.
  unfoldable pub entered : List ℕ → List ℕ → Bool
  entered path name = is_directory files (within path name) && not (is_dot_directory name)

  -- What the system says of the entries of `path` and of all that is below them.
  unfoldable pub Agrees : List ℕ → Entries → Type 0
  Agrees path nothing = Unit
  Agrees path (plain name rest) = (entered path name ≡ false) × Agrees path rest
  Agrees path (locked name rest) =
      (entered path name ≡ true) × (files.opendir (within path name) ≡ none) × Agrees path rest
  Agrees path (folder name inside rest) =
      (entered path name ≡ true)
      × (files.opendir (within path name) ≡ some (names_of inside))
      × Agrees (within path name) inside
      × Agrees path rest

  -- The buffer has room for the name, and the zero byte behind it.
  get_full_path_lem :
      (path name : List ℕ)
      → get_full_path (length path + length name + 2) path name ≡ some (within path name)
  unfolding get_full_path within
  get_full_path_lem path name = rw (lt→ltb _ _ room) refl
    where
      room : length (path ++ (codes "/" ++ name)) < length path + length name + 2
      room = omega (arith, length-append path (codes "/" ++ name))

  add_entries-cons :
      (enter : List ℕ → Option Rows) (path name : List ℕ) (names : List (List ℕ))
      → add_entries files enter path (name ∷ names)
        ≡ (if entered path name then enter (within path name) else some end)
          >>= (λ below. add_entries files enter path names >>= (λ rest. some (row name below rest)))
  unfolding add_entries entered
  add_entries-cons enter path name names = rw (get_full_path_lem path name) refl

  -- An entry whose directory, if it is entered, gives the rows `below`.
  step_lem :
      (enter : List ℕ → Option Rows) (path name : List ℕ) (names : List (List ℕ))
      (below rest : Rows)
      → (if entered path name then enter (within path name) else some end) ≡ some below
      → add_entries files enter path names ≡ some rest
      → add_entries files enter path (name ∷ names) ≡ some (row name below rest)
  step_lem enter path name names below rest e f =
      add_entries-cons enter path name names ∙ rw (e, f) refl

  opened :
      (fuel : ℕ) (path : List ℕ) (names : List (List ℕ))
      → files.opendir path ≡ some names
      → add_directory_to_model files (suc fuel) path
        ≡ add_entries files (add_directory_to_model files fuel) path names
  unfolding add_directory_to_model add_if_open
  opened fuel path names e = ap (add_if_open files (add_directory_to_model files fuel) path) e

  unopened :
      (fuel : ℕ) (path : List ℕ)
      → files.opendir path ≡ none
      → add_directory_to_model files (suc fuel) path ≡ some end
  unfolding add_directory_to_model add_if_open
  unopened fuel path e = ap (add_if_open files (add_directory_to_model files fuel) path) e

  walk_lem :
      (fuel : ℕ) (path : List ℕ) (e : Entries)
      → Agrees path e
      → depth e ≤ fuel
      → add_entries files (add_directory_to_model files fuel) path (names_of e) ≡ some (shown e)
  unfolding Agrees depth names_of shown
  walk_lem fuel path nothing a h = unfold add_entries in refl
  walk_lem fuel path (plain name rest) (out, a) h =
      step_lem _ path name (names_of rest) end (shown rest) (rw out) (walk_lem fuel path rest a h)
  walk_lem zero path (locked name rest) a h = absurd (omega arith)
  walk_lem (suc fuel) path (locked name rest) (into, fails, a) h =
      step_lem _ path name (names_of rest) end (shown rest)
        (rw into (unopened fuel (within path name) fails))
        (walk_lem (suc fuel) path rest a (omega arith))
  walk_lem zero path (folder name inside rest) a h = absurd (omega arith)
  walk_lem (suc fuel) path (folder name inside rest) (into, opens, b, a) h =
      step_lem _ path name (names_of rest) (shown inside) (shown rest)
        (rw into (
          opened fuel (within path name) (names_of inside) opens
          ∙ walk_lem fuel (within path name) inside b (omega arith)))
        (walk_lem (suc fuel) path rest a (omega arith))

  -- For a working directory with entries as the system tells them, and fuel for a call in each folder of
  -- the longest chain and one more, the walk ends and has written nothing behind its buffers; the rows
  -- are the entries in the order of readdir, each folder's own entries under it, and nothing under the
  -- two dots, files, and folders that cannot be opened.
  pub create_and_fill_model_lem :
      (e : Entries) (fuel : ℕ)
      → files.opendir (codes ".") ≡ some (names_of e)
      → Agrees (codes ".") e
      → depth e < fuel
      → create_and_fill_model files fuel ≡ some (shown e)
  unfolding create_and_fill_model
  create_and_fill_model_lem e zero opens a h = absurd (omega arith)
  create_and_fill_model_lem e (suc fuel) opens a h =
      opened fuel (codes ".") (names_of e) opens ∙ walk_lem fuel (codes ".") e a (omega arith)
