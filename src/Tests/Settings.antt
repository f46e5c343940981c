-- ===== src/Tests/Settings.antt =====
-- A run of the settings' theorem, with key files as functions.
use otus_c.Prelude.{
  if◌then◌else◌, ℕ, ◌≡◌, refl, ap, Bool, true, false, ◌&&◌, Option, none, some, List, [], ◌∷◌,
}
use otus_c.Prelude.Int.{ℤ, pos}
use otus_c.Prelude.Text.{codes, same, same_refl}
use otus_c.Settings.{
  Value, integer, boolean, string, KeyFiles, default_settings, App, Change, work_duration_changed,
  sound_changed, file_set, language_changed, change, changes, on_window_close, start,
}
use otus_c.Settings.Persist.{chosen, kept, start_lem}

abbrev Table : Type 0
Table = List ℕ → List ℕ → Option Value

abbrev set_value : Table → List ℕ → List ℕ → Value → Table
set_value f g k v h j = if same g h && same k j then some v else f h j

abbrev as_integer : Option Value → Option ℤ
as_integer none = none
as_integer (some (integer n)) = some n
as_integer (some (boolean b)) = none
as_integer (some (string s)) = none

abbrev as_boolean : Option Value → Option Bool
as_boolean none = none
as_boolean (some (integer n)) = none
as_boolean (some (boolean b)) = some b
as_boolean (some (string s)) = none

abbrev as_string : Option Value → Option (List ℕ)
as_string none = none
as_string (some (integer n)) = none
as_string (some (boolean b)) = none
as_string (some (string s)) = some s

set_value_self : (f : Table) (g k : List ℕ) (v : Value) → set_value f g k v g k ≡ some v
set_value_self f g k v = rw (same_refl g, same_refl k)

set_value_other :
    (f : Table) (g k j : List ℕ) (v : Value) → same j k ≡ false → set_value f g j v g k ≡ f g k
set_value_other f g k j v h = rw (same_refl g, h)

abbrev tables : KeyFiles
tables = record {
  KeyFile = Table;
  Text = Table;
  is_utf8 = λ s. true;
  new = λ g k. none;
  set_value = set_value;
  get_integer = λ f g k. as_integer (f g k);
  get_boolean = λ f g k. as_boolean (f g k);
  get_string = λ f g k. as_string (f g k);
  to_data = λ f. f;
  load = λ f. f;
  get_integer-new = λ g k. refl;
  get_boolean-new = λ g k. refl;
  get_string-new = λ g k. refl;
  get_integer-set_value = λ f g k n. ap as_integer (set_value_self f g k (integer n));
  get_boolean-set_value = λ f g k b. ap as_boolean (set_value_self f g k (boolean b));
  get_string-set_value = λ f g k s valid. ap as_string (set_value_self f g k (string s));
  get_integer-other = λ f g k j v h. ap as_integer (set_value_other f g k j v h);
  get_boolean-other = λ f g k j v h. ap as_boolean (set_value_other f g k j v h);
  get_string-other = λ f g k j v h. ap as_string (set_value_other f g k j v h);
  get_integer-load = λ f g k. refl;
  get_boolean-load = λ f g k. refl;
  get_string-load = λ f g k. refl;
}

abbrev first_start : App tables
first_start = record {
  settings = default_settings;
  file = none;
  desktop = record { system_desktop = none; autostart_path = none };
}

abbrev session : List Change
session =
    work_duration_changed (pos 50)
    ∷ sound_changed false
    ∷ work_duration_changed (pos 45)
    ∷ file_set none
    ∷ []

start_lem_example :
    let last = chosen session first_start.settings in
    (first_start.file ≡ none
      → (start tables first_start).settings ≡ record {
        work_duration = pos 25;
        break_duration = pos 5;
        language = codes "en_US.UTF-8";
        sound_enabled = true;
        sound_path = some (codes "/usr/share/sounds/freedesktop/stereo/bell.oga");
        autostart_enabled = false;
      })
    × ((changes tables session first_start).settings ≡ last)
    × ((start tables (on_window_close tables (changes tables session first_start))).settings
        ≡ kept last)
    × ((new_lang : List ℕ)
        → same new_lang last.language ≡ false
        → true ≡ true
        → (start tables (
            change tables
              (language_changed (some new_lang))
              (changes tables session first_start))).settings
          ≡ record (kept last) { language = new_lang })
start_lem_example = start_lem tables first_start session (refl, λ p e. refl)
