-- ===== src/Tests/Weather.antt =====
-- A run of the weather program, with numbered nodes as the JSON objects.
use otus_c.Prelude.{
  ◌==◌, if◌then◌else◌, ℕ, ◌+◌, ◌≡◌, refl, true, ◌&&◌, Option, none, some, List, [], ◌∷◌, map,
}
use otus_c.Prelude.Text.{codes, same}
use otus_c.Weather.{
  Json, Line, place, description, wind_direction, wind_speed, temperature, Transfer, get_request,
  main,
}
use otus_c.Weather.Answers.{whole, flatten, Answer, complete, HasText, HasFirst, main-Answer}

abbrev child : ℕ → List ℕ → Option (Option ℕ)
child n key =
    if n == 0 && same key (codes "current_condition")
    then some (some 1)
    else if n == 2 && same key (codes "lang_ru")
    then some (some 3)
    else if n == 4 && same key (codes "value")
    then some (some 5)
    else if n == 2 && same key (codes "winddir16Point")
    then some (some 6)
    else if n == 2 && same key (codes "windspeedKmph")
    then some (some 7)
    else if n == 2 && same key (codes "temp_C")
    then some (some 8)
    else none

abbrev get_ex : Option ℕ → List ℕ → Option (Option ℕ)
get_ex none key = none
get_ex (some n) key = child n key

-- An array's first element is the next node.
abbrev array_get_idx : Option ℕ → ℕ → Option (Option ℕ)
array_get_idx none i = none
array_get_idx (some n) i = some (some (n + 1))

abbrev get_string : Option ℕ → Option (List ℕ)
get_string none = none
get_string (some n) =
    if n == 5
    then some (codes "Sunny")
    else if n == 6
    then some (codes "NW")
    else if n == 7
    then some (codes "11")
    else some (codes "25")

abbrev parse_verbose : List ℕ → Option (Option ℕ)
parse_verbose text = if same text (codes "{...}") then some (some 0) else none

abbrev nodes : Json
nodes = record {
  Object = ℕ;
  parse_verbose = parse_verbose;
  get_ex = get_ex;
  array_get_idx = array_get_idx;
  get_string = get_string;
  get_ex-null = λ key. refl;
}

abbrev curl : List ℕ → Transfer
curl request = record { chunks = map whole (codes "{." ∷ codes "..}" ∷ []); ok = true }

abbrev printed : Option (List Line)
printed = some (
    place (codes "Minsk")
    ∷ description (codes "Sunny")
    ∷ wind_direction (codes "NW")
    ∷ wind_speed (codes "11")
    ∷ temperature (codes "25")
    ∷ [])

answer : Answer nodes (codes "Minsk") (flatten (codes "{." ∷ codes "..}" ∷ [])) printed
unfolding HasText HasFirst flatten same
answer =
    complete (some 0) (some 2) (some 4) refl (some 1, refl, refl) (some 3, refl, refl)
      (some 5, refl, refl) (some 6, refl, refl) (some 7, refl, refl) (some 8, refl, refl)

requested :
    get_request true (codes "Minsk") ≡ some (codes "https://wttr.in/Minsk?format=j1&lang=ru")
unfolding get_request
requested = refl

main-Answer_example : main nodes true curl (codes "weather" ∷ codes "Minsk" ∷ []) ≡ printed
main-Answer_example =
    main-Answer nodes curl (codes "weather") (codes "Minsk")
      (codes "https://wttr.in/Minsk?format=j1&lang=ru") (codes "{.") (codes "..}" ∷ []) printed
      requested refl answer
