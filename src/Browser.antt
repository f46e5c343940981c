-- ===== src/Browser.antt =====
-- HW05-Gtk/src/dir_view.c: the tree of names under the working directory. opendir with readdir and stat
-- are parameters. `none` stands for a write behind the end of `dst`, or for the end of the fuel.
use otus_c.Prelude.{
  ltb, if◌then◌else◌, length, ℕ, zero, suc, ◌+◌, Bool, false, not, ◌&&◌, ◌||◌, Option, none, some,
  List, [], ◌∷◌, ◌++◌,
}
use otus_c.Prelude.Text.{codes, same}
use otus_c.Prelude.Partial.{require, ◌>>◌, ◌>>=◌}
pub mod Walk

-- The tree store: the rows under one parent, each with its name and the rows under it.
pub data Rows : Type 0 where
  end : Rows
  row : List ℕ → Rows → Rows → Rows

-- What the system says of a path: the names that readdir gives, in their order, if opendir succeeds,
-- and whether it is a directory, if stat succeeds.
pub record Files : Type 0 where
  pub opendir : List ℕ → Option (List (List ℕ))
  pub stat : List ℕ → Option Bool

unfoldable pub is_dot_directory : List ℕ → Bool
is_dot_directory path = same path (codes "..") || same path (codes ".")

-- The text of strcpy and two strcat in the `len` bytes of `dst`.
pub get_full_path : ℕ → List ℕ → List ℕ → Option (List ℕ)
get_full_path len dir name = do
  let dst = dir ++ (codes "/" ++ name)
  require (ltb (length dst) len)
  some dst

unfoldable pub is_directory : Files → List ℕ → Bool
is_directory files path = elim (files.stat path) [ none ↦ false | some is_dir ↦ is_dir ]

-- The loop over the names of the directory `path`; `enter` is the call of add_directory_to_model.
pub add_entries : Files → (List ℕ → Option Rows) → List ℕ → List (List ℕ) → Option Rows
add_entries files enter path [] = some end
add_entries files enter path (name ∷ names) = do
  dst ← get_full_path (length path + length name + 2) path name
  below ← if is_directory files dst && not (is_dot_directory name) then enter dst else some end
  rest ← add_entries files enter path names
  some (row name below rest)

-- The test of what opendir gives.
pub add_if_open : Files → (List ℕ → Option Rows) → List ℕ → Option (List (List ℕ)) → Option Rows
add_if_open files enter path none = some end
add_if_open files enter path (some names) = add_entries files enter path names

-- The rows that are added under the parent.
pub add_directory_to_model : Files → ℕ → List ℕ → Option Rows
add_directory_to_model files zero path = none
add_directory_to_model files (suc fuel) path =
    add_if_open files (add_directory_to_model files fuel) path (files.opendir path)

pub create_and_fill_model : Files → ℕ → Option Rows
create_and_fill_model files fuel = add_directory_to_model files fuel (codes ".")
