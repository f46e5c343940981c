-- ===== src/Settings.antt =====
-- pomodoro/src/settings.c and the handlers of main_window.c that change the settings. GLib's key
-- files are a parameter, with what its manual says of setting, getting and writing values. Writing
-- the file is taken to succeed, as the program does not look at that.
use otus_c.Prelude.{
  if◌then◌else◌, ℕ, ◌≡◌, Bool, true, false, Option, none, some, List, [], ◌∷◌, ◌++◌,
}
use otus_c.Prelude.Int.{ℤ, pos}
use otus_c.Prelude.Text.{codes, same}
pub mod Persist

pub data Value : Type 0 where
  integer : ℤ → Value
  boolean : Bool → Value
  string : List ℕ → Value

-- g_key_file_new, _set_integer, _set_boolean, _set_string, _get_integer, _get_boolean, _get_string,
-- _to_data and _load_from_file; a getter gives none where it sets an error. The name of a group comes
-- before that of a key. Only a text that is UTF-8 can be got again as a string.
pub record KeyFiles : Type 1 where
  pub KeyFile : Type 0
  pub Text : Type 0
  pub is_utf8 : List ℕ → Bool
  pub new : KeyFile
  pub set_value : KeyFile → List ℕ → List ℕ → Value → KeyFile
  pub get_integer : KeyFile → List ℕ → List ℕ → Option ℤ
  pub get_boolean : KeyFile → List ℕ → List ℕ → Option Bool
  pub get_string : KeyFile → List ℕ → List ℕ → Option (List ℕ)
  pub to_data : KeyFile → Text
  pub load : Text → KeyFile
  pub get_integer-new : (g k : List ℕ) → get_integer new g k ≡ none
  pub get_boolean-new : (g k : List ℕ) → get_boolean new g k ≡ none
  pub get_string-new : (g k : List ℕ) → get_string new g k ≡ none
  pub get_integer-set_value :
      (f : KeyFile) (g k : List ℕ) (n : ℤ) → get_integer (set_value f g k (integer n)) g k ≡ some n
  pub get_boolean-set_value :
      (f : KeyFile) (g k : List ℕ) (b : Bool)
      → get_boolean (set_value f g k (boolean b)) g k ≡ some b
  pub get_string-set_value :
      (f : KeyFile) (g k s : List ℕ)
      → is_utf8 s ≡ true
      → get_string (set_value f g k (string s)) g k ≡ some s
  pub get_integer-other :
      (f : KeyFile) (g k j : List ℕ) (v : Value)
      → same j k ≡ false
      → get_integer (set_value f g j v) g k ≡ get_integer f g k
  pub get_boolean-other :
      (f : KeyFile) (g k j : List ℕ) (v : Value)
      → same j k ≡ false
      → get_boolean (set_value f g j v) g k ≡ get_boolean f g k
  pub get_string-other :
      (f : KeyFile) (g k j : List ℕ) (v : Value)
      → same j k ≡ false
      → get_string (set_value f g j v) g k ≡ get_string f g k
  pub get_integer-load :
      (f : KeyFile) (g k : List ℕ) → get_integer (load (to_data f)) g k ≡ get_integer f g k
  pub get_boolean-load :
      (f : KeyFile) (g k : List ℕ) → get_boolean (load (to_data f)) g k ≡ get_boolean f g k
  pub get_string-load :
      (f : KeyFile) (g k : List ℕ) → get_string (load (to_data f)) g k ≡ get_string f g k

-- The path is a null pointer after a file chooser without a file name.
pub record Settings : Type 0 where
  pub work_duration : ℤ
  pub break_duration : ℤ
  pub language : List ℕ
  pub sound_enabled : Bool
  pub sound_path : Option (List ℕ)
  pub autostart_enabled : Bool

abbrev pub default_path : List ℕ
default_path = codes "/usr/share/sounds/freedesktop/stereo/bell.oga"

pub default_settings : Settings
default_settings = record {
  work_duration = pos 25;
  break_duration = pos 5;
  language = codes "en_US.UTF-8";
  sound_enabled = true;
  sound_path = some default_path;
  autostart_enabled = false;
}

pub group_name : List ℕ
group_name = codes "Settings"

-- The three load functions of one type each: the value, or the default where GLib reports an error.
pub or_default {ℓ} : {A : Type ℓ} → Option A → A → A
or_default none def = def
or_default (some value) def = value

-- What the user does in the window: a handler of main_window.c each, with what the widget gives. The
-- combo box may give no language, and the file chooser no file name.
pub data Change : Type 0 where
  work_duration_changed break_duration_changed : ℤ → Change
  sound_changed autostart_changed : Bool → Change
  file_set : Option (List ℕ) → Change
  language_changed : Option (List ℕ) → Change

-- The desktop files of handle_autostart: the system's, if it can be read, and the user's.
pub record Desktop : Type 0 where
  pub system_desktop : Option (List ℕ)
  pub autostart_path : Option (List ℕ)

pub handle_autostart : Bool → Desktop → Desktop
handle_autostart false d = record d { autostart_path = none }
handle_autostart true d = elim d.system_desktop [
  | none ↦ d
  | some contents ↦ record d {
    autostart_path = some (contents ++ codes "\nX-GNOME-Autostart-enabled=true\n");
  }
]

module _ (g : KeyFiles) where
  -- The file on disk, if there is one, is loaded; a file that is missing leaves the key file empty.
  pub open_file : Option g.Text → g.KeyFile
  open_file none = g.new
  open_file (some text) = g.load text

  pub load_settings : Option g.Text → Settings
  load_settings file =
      let key_file = open_file file in
      record {
        work_duration =
            or_default (g.get_integer key_file group_name (codes "work_duration"))
              default_settings.work_duration;
        break_duration =
            or_default (g.get_integer key_file group_name (codes "break_duration"))
              default_settings.break_duration;
        sound_enabled =
            or_default (g.get_boolean key_file group_name (codes "sound_enabled"))
              default_settings.sound_enabled;
        language =
            or_default (g.get_string key_file group_name (codes "language"))
              default_settings.language;
        sound_path =
            some (or_default (g.get_string key_file group_name (codes "sound_path")) default_path);
        autostart_enabled =
            or_default (g.get_boolean key_file group_name (codes "autostart"))
              default_settings.autostart_enabled;
      }

  -- g_key_file_set_string, which does nothing with a null pointer.
  pub set_string : g.KeyFile → List ℕ → Option (List ℕ) → g.KeyFile
  set_string f k none = f
  set_string f k (some text) = g.set_value f group_name k (string text)

  -- The values that save_settings sets, in its order, from the last one to the first.
  pub saved : Settings → g.KeyFile
  saved s =
      g.set_value
        (set_string
          (g.set_value
            (g.set_value
              (g.set_value
                (g.set_value g.new group_name (codes "work_duration") (integer s.work_duration))
                group_name (codes "break_duration") (integer s.break_duration))
              group_name (codes "sound_enabled") (boolean s.sound_enabled))
            group_name (codes "language") (string s.language))
          (codes "sound_path") s.sound_path)
        group_name (codes "autostart") (boolean s.autostart_enabled)

  -- What save_settings writes to the file.
  pub save_settings : Settings → g.Text
  save_settings s = g.to_data (saved s)

  -- The running program: its settings, the file of settings, and the desktop files.
  pub record App : Type 0 where
    pub settings : Settings
    pub file : Option g.Text
    pub desktop : Desktop

  pub on_language_changed : Option (List ℕ) → App → App
  on_language_changed none app = app
  on_language_changed (some new_lang) app =
      let s = record app.settings { language = new_lang } in
      if same new_lang app.settings.language
      then app
      else record app { settings = s; file = some (save_settings s) }

  -- The handler of a change.
  pub change : Change → App → App
  change (work_duration_changed n) app = record app {
    settings = record app.settings { work_duration = n };
  }
  change (break_duration_changed n) app = record app {
    settings = record app.settings { break_duration = n };
  }
  change (sound_changed b) app = record app { settings = record app.settings { sound_enabled = b } }
  change (autostart_changed b) app = record app {
    settings = record app.settings { autostart_enabled = b };
    desktop = handle_autostart b app.desktop;
  }
  change (file_set path) app = record app { settings = record app.settings { sound_path = path } }
  change (language_changed new_lang) app = on_language_changed new_lang app

  pub changes : List Change → App → App
  changes [] app = app
  changes (c ∷ cs) app = changes cs (change c app)

  pub on_window_close : App → App
  on_window_close app = record app { file = some (save_settings app.settings) }

  -- The start of the program with what the last run left.
  pub start : App → App
  start app = record app { settings = load_settings app.file }
