-- ===== src/Weather/Answers.antt =====
-- What HW04-Weather/src prints for an answer of the service that comes in pieces.
use otus_c.Prelude.{
  ==_refl, length, ℕ, ◌≡◌, refl, sym, ap, ◌∙◌, true, Option, none, some, List, [], ◌∷◌, ◌++◌, map,
  append_assoc, append-nil,
}
use otus_c.Prelude.Text.{codes}
use otus_c.Weather.{
  Json, Line, place, description, wind_direction, wind_speed, temperature, Chunk, Transfer, bytes,
  write_memory_callback, perform, get_request, get_serialized_weather, print_value,
  get_string_value, get_current_condition, get_description, get_wind_direction, get_wind_speed,
  get_temperature, print_condition, print_text, print_weather, main,
}

-- A piece of the answer that there is memory for.
pub whole : List ℕ → Chunk
whole piece = record { contents = piece; allocated = true }

unfoldable pub flatten : List (List ℕ) → List ℕ
flatten [] = []
flatten (piece ∷ pieces) = piece ++ flatten pieces

-- The pieces are put together.
perform_lem :
    (pieces : List (List ℕ)) (text : List ℕ)
    → perform (map whole pieces) true (some text) ≡ some (some (text ++ flatten pieces))
unfolding perform flatten whole
perform_lem [] text = ap (λ x. some (some x)) (sym (append-nil text))
perform_lem (piece ∷ pieces) text =
    rw (callback_lem, ==_refl (length piece))
      (perform_lem pieces (text ++ piece)
        ∙ ap (λ x. some (some x)) (append_assoc text piece (flatten pieces)))
  where
    callback_lem :
        write_memory_callback (whole piece) (some text) ≡ (some (text ++ piece), length piece)
    callback_lem = unfold write_memory_callback whole bytes in refl

perform-first :
    (piece : List ℕ) (pieces : List (List ℕ))
    → perform (map whole (piece ∷ pieces)) true none ≡ some (some (flatten (piece ∷ pieces)))
unfolding perform flatten whole write_memory_callback bytes
perform-first piece pieces = rw (==_refl (length piece)) (perform_lem pieces piece)

serialized_lem :
    (curl : List ℕ → Transfer) (location request piece : List ℕ) (pieces : List (List ℕ))
    → get_request true location ≡ some request
    → curl request ≡ record { chunks = map whole (piece ∷ pieces); ok = true }
    → get_serialized_weather true curl location ≡ (some (some (flatten (piece ∷ pieces))), [])
unfolding get_serialized_weather
serialized_lem curl location request piece pieces r c =
    rw (get_serialized_weather, r, c, perform-first piece pieces) refl

module _ (j : Json) where
  -- The value that is found under a key is a text.
  unfoldable pub HasText : Option j.Object → List ℕ → List ℕ → Type 0
  HasText source key value =
      (val : Option j.Object) × (j.get_ex source key ≡ some val) × (j.get_string val ≡ some value)

  -- The first element of the array under a key.
  unfoldable pub HasFirst : Option j.Object → List ℕ → Option j.Object → Type 0
  HasFirst source key first =
      (array : Option j.Object) × (j.get_ex source key ≡ some array)
      × (j.array_get_idx array 0 ≡ some first)

  -- Kinds of answers, with what is printed: one with all the values; a text that is no JSON; and one
  -- without a condition. The last two end with a null pointer for %s.
  pub data Answer (location text : List ℕ) : Option (List Line) → Type 0 where
    complete :
        (object condition first : Option j.Object) {desc direction speed temp : List ℕ}
        → j.parse_verbose text ≡ some object
        → HasFirst object (codes "current_condition") condition
        → HasFirst condition (codes "lang_ru") first
        → HasText first (codes "value") desc
        → HasText condition (codes "winddir16Point") direction
        → HasText condition (codes "windspeedKmph") speed
        → HasText condition (codes "temp_C") temp
        → Answer location text (
            some (
              place location
              ∷ description desc
              ∷ wind_direction direction
              ∷ wind_speed speed
              ∷ temperature temp
              ∷ []))
    unparsed : j.parse_verbose text ≡ none → Answer location text none
    unconditioned :
        (object : Option j.Object)
        → j.parse_verbose text ≡ some object
        → j.get_ex object (codes "current_condition") ≡ none
        → Answer location text none

  get_string_value_lem :
      (source : Option j.Object) (key value : List ℕ)
      → HasText source key value
      → get_string_value j source key ≡ (some value, [])
  unfolding get_string_value HasText
  get_string_value_lem source key value (val, found, text) = rw (get_string_value, found, text) refl

  get_description_lem :
      (condition first : Option j.Object) (desc : List ℕ)
      → HasFirst condition (codes "lang_ru") first
      → HasText first (codes "value") desc
      → get_description j condition ≡ some (some desc, [])
  unfolding get_description HasFirst
  get_description_lem condition first desc (array, found, e) t =
      rw (get_description, found, e, get_string_value_lem first (codes "value") desc t) refl

  get_current_condition_lem :
      (text : List ℕ) (object condition : Option j.Object)
      → j.parse_verbose text ≡ some object
      → HasFirst object (codes "current_condition") condition
      → get_current_condition j (some text) ≡ some (condition, [])
  unfolding get_current_condition HasFirst
  get_current_condition_lem text object condition p (array, found, e) =
      rw (get_current_condition, p, found, e) refl

  print_condition_lem :
      (location : List ℕ) (condition first : Option j.Object) (desc direction speed temp : List ℕ)
      → HasFirst condition (codes "lang_ru") first
      → HasText first (codes "value") desc
      → HasText condition (codes "winddir16Point") direction
      → HasText condition (codes "windspeedKmph") speed
      → HasText condition (codes "temp_C") temp
      → print_condition j location condition
        ≡ some (
            place location
            ∷ description desc
            ∷ wind_direction direction
            ∷ wind_speed speed
            ∷ temperature temp
            ∷ [])
  unfolding print_condition get_wind_direction get_wind_speed get_temperature print_value
  print_condition_lem location condition first desc direction speed temp f t w s c =
      rw
        (
          get_description_lem condition first desc f t,
          get_string_value_lem condition (codes "winddir16Point") direction w,
          get_string_value_lem condition (codes "windspeedKmph") speed s,
          get_string_value_lem condition (codes "temp_C") temp c,
        )
        refl

  -- Without a condition the description is a null pointer.
  print_condition-null : (location : List ℕ) → print_condition j location none ≡ none
  unfolding print_condition get_description print_value
  print_condition-null location =
      rw (print_condition, get_description, j.get_ex-null (codes "lang_ru")) refl

  print_text_lem :
      (location text : List ℕ) (printed : Option (List Line))
      → Answer location text printed
      → print_text j location (some text) ≡ printed
  unfolding print_text get_current_condition
  print_text_lem location text _ (complete object condition first p c f t w s k) =
      rw
        (
          print_text,
          get_current_condition_lem text object condition p c,
          print_condition_lem location condition first _ _ _ _ f t w s k,
        )
        refl
  print_text_lem location text _ (unparsed p) =
      rw (print_text, get_current_condition, p, print_condition-null location) refl
  print_text_lem location text _ (unconditioned object p c) =
      rw (print_text, get_current_condition, p, c, print_condition-null location) refl

  -- If the service answers with at least one piece, and each piece finds memory, then what is printed is
  -- determined by the text of all pieces one after the other, wherever it was cut: with all values in it
  -- the five lines, and undefined behaviour if it is no JSON or has no condition.
  pub main-Answer :
      (curl : List ℕ → Transfer) (program location request piece : List ℕ) (pieces : List (List ℕ))
      (printed : Option (List Line))
      → get_request true location ≡ some request
      → curl request ≡ record { chunks = map whole (piece ∷ pieces); ok = true }
      → Answer location (flatten (piece ∷ pieces)) printed
      → main j true curl (program ∷ location ∷ []) ≡ printed
  unfolding main print_weather
  main-Answer curl program location request piece pieces printed r c a =
      rw (main, print_weather, serialized_lem curl location request piece pieces r c)
        (print_text_lem location (flatten (piece ∷ pieces)) printed a)
