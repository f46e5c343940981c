-- ===== src/Settings/Persist.antt =====
-- The settings of pomodoro/src/settings.c outlive the program.
use otus_c.Prelude.{
  Bool-cases, ℕ, ◌≡◌, refl, sym, subst, ap, ◌∙◌, inl, inr, Bool, true, false, Option, none, some,
  List, [], ◌∷◌,
}
use otus_c.Prelude.Text.{codes, same, same-eq}
use otus_c.Prelude.Int.{ℤ, pos}
use otus_c.Settings.{
  string, KeyFiles, Settings, default_path, default_settings, group_name, or_default, open_file,
  load_settings, set_string, saved, save_settings, App, Change, work_duration_changed,
  break_duration_changed, sound_changed, autostart_changed, file_set, language_changed, change,
  changes, on_language_changed, on_window_close, start,
}

-- The value after some changes: that of the last one that gives a value.
pub latest {ℓ} : {A : Type ℓ} → (Change → Option A) → List Change → A → A
latest gives [] value = value
latest gives (c ∷ cs) value = latest gives cs (or_default (gives c) value)

abbrev pub work : Change → Option ℤ
work (work_duration_changed n) = some n
work other = none

abbrev pub rest : Change → Option ℤ
rest (break_duration_changed n) = some n
rest other = none

abbrev pub sound : Change → Option Bool
sound (sound_changed b) = some b
sound other = none

abbrev pub autostart : Change → Option Bool
autostart (autostart_changed b) = some b
autostart other = none

abbrev pub path : Change → Option (Option (List ℕ))
path (file_set p) = some p
path other = none

abbrev pub language : Change → Option (List ℕ)
language (language_changed new_lang) = new_lang
language other = none

-- The settings that the window has after some changes.
abbrev pub chosen : List Change → Settings → Settings
chosen cs s = record {
  work_duration = latest work cs s.work_duration;
  break_duration = latest rest cs s.break_duration;
  language = latest language cs s.language;
  sound_enabled = latest sound cs s.sound_enabled;
  sound_path = latest path cs s.sound_path;
  autostart_enabled = latest autostart cs s.autostart_enabled;
}

-- What is kept of a path: the default if there is none.
abbrev pub kept_path : Option (List ℕ) → List ℕ
kept_path none = codes "/usr/share/sounds/freedesktop/stereo/bell.oga"
kept_path (some text) = text

abbrev pub kept : Settings → Settings
kept s = record s { sound_path = some (kept_path s.sound_path) }

module _ (g : KeyFiles) where
  changes-chosen :
      (cs : List Change) (app : App g) → (changes g cs app).settings ≡ chosen cs app.settings
  unfolding changes change on_language_changed latest or_default
  changes-chosen [] app = refl
  changes-chosen (c ∷ cs) app = changes-chosen cs (change g c app) ∙ ap (chosen cs) (one c)
    where
      one : (c : Change) → (change g c app).settings ≡ chosen (c ∷ []) app.settings
      one (work_duration_changed n) = refl
      one (break_duration_changed n) = refl
      one (sound_changed b) = refl
      one (autostart_changed b) = refl
      one (file_set path) = refl
      one (language_changed none) = refl
      one (language_changed (some l)) = elim (Bool-cases (same l app.settings.language)) [
        | inl e ↦ rw e (
            ap (λ text. record app.settings { language = text })
              (sym (same-eq l app.settings.language e)))
        | inr e ↦ rw e refl
      ]

  -- The strings are UTF-8.
  abbrev pub Readable : Settings → Type 0
  Readable s =
      (g.is_utf8 s.language ≡ true) × ((p : List ℕ) → s.sound_path ≡ some p → g.is_utf8 p ≡ true)

  get_integer-set_string :
      (f : g.KeyFile) (k j : List ℕ) (p : Option (List ℕ))
      → same j k ≡ false
      → g.get_integer (set_string g f j p) group_name k ≡ g.get_integer f group_name k
  unfolding set_string
  get_integer-set_string f k j none h = refl
  get_integer-set_string f k j (some p) h = g.get_integer-other f group_name k j (string p) h

  get_boolean-set_string :
      (f : g.KeyFile) (k j : List ℕ) (p : Option (List ℕ))
      → same j k ≡ false
      → g.get_boolean (set_string g f j p) group_name k ≡ g.get_boolean f group_name k
  unfolding set_string
  get_boolean-set_string f k j none h = refl
  get_boolean-set_string f k j (some p) h = g.get_boolean-other f group_name k j (string p) h

  get_string-set_string :
      (f : g.KeyFile) (k j : List ℕ) (p : Option (List ℕ))
      → same j k ≡ false
      → g.get_string (set_string g f j p) group_name k ≡ g.get_string f group_name k
  unfolding set_string
  get_string-set_string f k j none h = refl
  get_string-set_string f k j (some p) h = g.get_string-other f group_name k j (string p) h

  work_lem :
      (s : Settings)
      → g.get_integer (g.load (save_settings g s)) group_name (codes "work_duration")
        ≡ some s.work_duration
  unfolding save_settings saved same
  work_lem s =
      simp
        (g.get_integer-load, g.get_integer-other, get_integer-set_string, g.get_integer-set_value)

  break_lem :
      (s : Settings)
      → g.get_integer (g.load (save_settings g s)) group_name (codes "break_duration")
        ≡ some s.break_duration
  unfolding save_settings saved same
  break_lem s =
      simp
        (g.get_integer-load, g.get_integer-other, get_integer-set_string, g.get_integer-set_value)

  sound_lem :
      (s : Settings)
      → g.get_boolean (g.load (save_settings g s)) group_name (codes "sound_enabled")
        ≡ some s.sound_enabled
  unfolding save_settings saved same
  sound_lem s =
      simp
        (g.get_boolean-load, g.get_boolean-other, get_boolean-set_string, g.get_boolean-set_value)

  autostart_lem :
      (s : Settings)
      → g.get_boolean (g.load (save_settings g s)) group_name (codes "autostart")
        ≡ some s.autostart_enabled
  unfolding save_settings saved same
  autostart_lem s = simp (g.get_boolean-load, g.get_boolean-set_value)

  language_lem :
      (s : Settings)
      → g.is_utf8 s.language ≡ true
      → g.get_string (g.load (save_settings g s)) group_name (codes "language") ≡ some s.language
  unfolding save_settings saved same
  language_lem s valid =
      let own = λ (f : g.KeyFile).
        g.get_string-set_value f group_name (codes "language") s.language valid in
      simp (g.get_string-load, g.get_string-other, get_string-set_string, own)

  path_lem :
      (s : Settings) (p : Option (List ℕ))
      → s.sound_path ≡ p
      → ((text : List ℕ) → p ≡ some text → g.is_utf8 text ≡ true)
      → or_default
          (g.get_string (g.load (save_settings g s)) group_name (codes "sound_path"))
          default_path
        ≡ kept_path p
  unfolding save_settings saved same set_string or_default
  path_lem s none e valid = rw e (simp (g.get_string-load, g.get_string-other, g.get_string-new))
  path_lem s (some p) e valid =
      let own = λ (f : g.KeyFile).
        g.get_string-set_value f group_name (codes "sound_path") p (valid p refl) in
      rw e (simp (g.get_string-load, g.get_string-other, own))

  -- What is saved is loaded again, each value under its own key.
  load-save_settings :
      (s : Settings) → Readable s → load_settings g (some (save_settings g s)) ≡ kept s
  unfolding load_settings open_file or_default
  load-save_settings s (language_valid, path_valid) =
      rw
        (
          path_lem s s.sound_path refl path_valid,
          work_lem s,
          break_lem s,
          sound_lem s,
          language_lem s language_valid,
          autostart_lem s,
        )
        refl

  no_file : load_settings g none ≡ default_settings
  unfolding load_settings open_file or_default default_settings
  no_file = simp (g.get_integer-new, g.get_boolean-new, g.get_string-new)

  language_changed-start :
      (app : App g) (new_lang : List ℕ)
      → same new_lang app.settings.language ≡ false
      → Readable (record app.settings { language = new_lang })
      → (start g (change g (language_changed (some new_lang)) app)).settings
        ≡ kept (record app.settings { language = new_lang })
  unfolding start change on_language_changed
  language_changed-start app new_lang other readable = rw other (load-save_settings _ readable)

  -- After any changes, in any order, let the strings among the settings that the last changes of their kinds
  -- have made be UTF-8. Then the settings of the program are these. If the window is closed, the next start
  -- has them, with the default path if the file chooser gave no file name last; and so has a start right
  -- after a change to another language that is UTF-8, with that language. A start without a file of settings
  -- has the default settings.
  pub start_lem :
      (app : App g) (cs : List Change)
      → Readable (chosen cs app.settings)
      → let last = chosen cs app.settings in
        (app.file ≡ none
          → (start g app).settings ≡ record {
            work_duration = pos 25;
            break_duration = pos 5;
            language = codes "en_US.UTF-8";
            sound_enabled = true;
            sound_path = some (codes "/usr/share/sounds/freedesktop/stereo/bell.oga");
            autostart_enabled = false;
          })
        × ((changes g cs app).settings ≡ last)
        × ((start g (on_window_close g (changes g cs app))).settings ≡ kept last)
        × ((new_lang : List ℕ)
            → same new_lang last.language ≡ false
            → g.is_utf8 new_lang ≡ true
            → (start g (change g (language_changed (some new_lang)) (changes g cs app))).settings
              ≡ record (kept last) { language = new_lang })
  unfolding start on_window_close default_settings
  start_lem app cs readable =
      let same_settings = changes-chosen cs app in
      (
        λ e. ap (load_settings g) e ∙ unfold default_settings in no_file,
        same_settings,
        ap (λ s. load_settings g (some (save_settings g s))) same_settings
            ∙ load-save_settings (chosen cs app.settings) readable,
        λ new_lang other valid.
            (language_changed-start (changes g cs app) new_lang
                (ap (λ s. same new_lang s.language) same_settings ∙ other)
                (subst (λ s. Readable (record s { language = new_lang })) (sym same_settings)
                  (valid, readable.1))
              ∙ ap (λ s. kept (record s { language = new_lang })) same_settings),
      )
