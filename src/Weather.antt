-- ===== src/Weather.antt =====
-- HW04-Weather/src: the weather at a place. libcurl and json-c are parameters; `none` stands for an
-- undefined step: a null pointer for %s, or the index of what is not an array.
use otus_c.Prelude.{
  ◌==◌, if◌then◌else◌, length, ℕ, ◌≡◌, Bool, Option, none, some, List, [], ◌∷◌, ◌++◌,
}
use otus_c.Prelude.Text.{codes}
use otus_c.Prelude.Partial.{◌>>◌, ◌>>=◌}
pub mod Answers

-- json-c, with `none` for a null pointer inside a value. parse_verbose gives none on an error, get_ex
-- where the key is not found or the source is not an object, and array_get_idx for what is no array.
pub record Json : Type 1 where
  pub Object : Type 0
  pub parse_verbose : List ℕ → Option (Option Object)
  pub get_ex : Option Object → List ℕ → Option (Option Object)
  pub array_get_idx : Option Object → ℕ → Option (Option Object)
  pub get_string : Option Object → Option (List ℕ)
  pub get_ex-null : (key : List ℕ) → get_ex none key ≡ none

-- What the program prints; the labels of the lines are Russian.
pub data Line : Type 0 where
  no_memory usage failed_to_parse no_condition no_description : Line
  failed_to_get : List ℕ → Line
  failed_request : List ℕ → Line
  place description wind_direction wind_speed temperature : List ℕ → Line

-- A call of WriteMemoryCallback: the bytes, and whether realloc succeeds.
pub record Chunk : Type 0 where
  pub contents : List ℕ
  pub allocated : Bool

-- The transfer as curl_easy_perform makes it: the chunks, and whether it ends with CURLE_OK if every
-- chunk is taken. It ends with an error once the callback returns another size than it was given.
pub record Transfer : Type 0 where
  pub chunks : List Chunk
  pub ok : Bool

-- chunk.memory: `none` while its one byte is not set, then the text that ends with a zero byte.
pub bytes : Option (List ℕ) → List ℕ
bytes none = []
bytes (some text) = text

-- The memory after the callback, and the size that it returns.
pub write_memory_callback : Chunk → Option (List ℕ) → Option (List ℕ) × ℕ
write_memory_callback chunk memory =
    if chunk.allocated
    then (some (bytes memory ++ chunk.contents), length chunk.contents)
    else (memory, 0)

pub perform : List Chunk → Bool → Option (List ℕ) → Option (Option (List ℕ))
perform [] ok memory = if ok then some memory else none
perform (chunk ∷ chunks) ok memory =
    let (memory', written) = write_memory_callback chunk memory in
    let more = perform chunks ok memory' in if written == length chunk.contents then more else none

-- The Boolean says whether malloc succeeds.
unfoldable pub get_request : Bool → List ℕ → Option (List ℕ)
get_request allocated location =
    if allocated
    then some (codes "https://wttr.in/" ++ (location ++ codes "?format=j1&lang=ru"))
    else none

-- A null pointer, or the memory, with what is printed.
pub get_serialized_weather :
    Bool → (List ℕ → Transfer) → List ℕ → Option (Option (List ℕ)) × List Line
get_serialized_weather allocated curl location = elim (get_request allocated location) [
  | none ↦ (none, no_memory ∷ [])
  | some request ↦ elim (perform (curl request).chunks (curl request).ok none) [
    | none ↦ (none, failed_request request ∷ [])
    | some memory ↦ (some memory, [])
  ]
]

-- printf with %s.
pub print_value : (List ℕ → Line) → Option (List ℕ) × List Line → Option (List Line)
print_value label (none, lines) = none
print_value label (some value, lines) = some (lines ++ (label value ∷ []))

module _ (j : Json) where
  pub get_string_value : Option j.Object → List ℕ → Option (List ℕ) × List Line
  get_string_value source key = elim (j.get_ex source key) [
    | none ↦ (none, failed_to_get key ∷ [])
    | some val ↦ (j.get_string val, [])
  ]

  pub get_current_condition : Option (List ℕ) → Option (Option j.Object × List Line)
  get_current_condition none = none
  get_current_condition (some text) = elim (j.parse_verbose text) [
    | none ↦ some (none, failed_to_parse ∷ [])
    | some object ↦ elim (j.get_ex object (codes "current_condition")) [
      | none ↦ some (none, no_condition ∷ [])
      | some conditions ↦ j.array_get_idx conditions 0 >>= (λ condition. some (condition, []))
    ]
  ]

  pub get_description : Option j.Object → Option (Option (List ℕ) × List Line)
  get_description condition = elim (j.get_ex condition (codes "lang_ru")) [
    | none ↦ some (none, no_description ∷ [])
    | some desc ↦
        j.array_get_idx desc 0 >>= (λ first. some (get_string_value first (codes "value")))
  ]

  pub get_wind_direction : Option j.Object → Option (List ℕ) × List Line
  get_wind_direction condition = get_string_value condition (codes "winddir16Point")

  pub get_wind_speed : Option j.Object → Option (List ℕ) × List Line
  get_wind_speed condition = get_string_value condition (codes "windspeedKmph")

  pub get_temperature : Option j.Object → Option (List ℕ) × List Line
  get_temperature condition = get_string_value condition (codes "temp_C")

  -- The five lines about the place.
  pub print_condition : List ℕ → Option j.Object → Option (List Line)
  print_condition location condition = do
    desc ← get_description condition
    first ← print_value description desc
    second ← print_value wind_direction (get_wind_direction condition)
    third ← print_value wind_speed (get_wind_speed condition)
    fourth ← print_value temperature (get_temperature condition)
    some (place location ∷ (first ++ (second ++ (third ++ fourth))))

  pub print_text : List ℕ → Option (List ℕ) → Option (List Line)
  print_text location text = do
    found ← get_current_condition text
    lines ← print_condition location found.0
    some (found.1 ++ lines)

  pub print_weather : Bool → (List ℕ → Transfer) → List ℕ → Option (List Line)
  print_weather allocated curl location =
      let (serialized_weather, lines) = get_serialized_weather allocated curl location in
      elim serialized_weather [ none ↦ some lines | some text ↦ print_text location text ]

  pub main : Bool → (List ℕ → Transfer) → List (List ℕ) → Option (List Line)
  main allocated curl [] = some (usage ∷ [])
  main allocated curl (program ∷ []) = some (usage ∷ [])
  main allocated curl (program ∷ location ∷ others) = print_weather allocated curl location
