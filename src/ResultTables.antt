-- ===== src/ResultTables.antt =====
-- simplex/eval/benchmark/json_to_csv.py: a row of 13 cells for each benchmark of the JSON that Hayai prints.
-- What the JSON parser returned is an argument, as the entries that the script looks up, and so is the order
-- of its numbers.
pub mod Summaries
pub mod Endings
mod Examples
use simplex.Base.{ℕ, zero, suc, ◌+◌, Bool, if◌then◌else◌, String, Option, none, some, List, [], ◌∷◌}

abbrev pub cols : List String
cols =
    "fixture" ∷ "name" ∷ "parameters" ∷ "iterations_per_run" ∷ "disabled" ∷ "runs" ∷ "mean"
    ∷ "std_dev" ∷ "median" ∷ "quartile_1" ∷ "quartile_3" ∷ "minimum" ∷ "maximum" ∷ []

pub data Error : Type 0 where
  key_error : String → Error
  value_error : Error

pub data Result (A : Type 0) : Type 0 where
  error : Error → Result A
  value : A → Result A

infixl 1 ◌>>=◌
abbrev pub ◌>>=◌ : {A B : Type 0} → Result A → (A → Result B) → Result B
error e >>= f = error e
value a >>= f = f a

-- `dictionary[key]`.
abbrev pub look_up : {A : Type 0} → String → Option A → Result A
look_up key none = error (key_error key)
look_up key (some a) = value a

-- `row[i] = a`, which is never used behind the end of a row.
abbrev put_at : {A : Type 0} → ℕ → A → List A → List A
put_at i a [] = []
put_at zero a (x ∷ xs) = a ∷ xs
put_at (suc i) a (x ∷ xs) = x ∷ put_at i a xs

abbrev pub map : {A B : Type 0} → (A → B) → List A → List B
map f [] = []
map f (x ∷ xs) = f x ∷ map f xs

abbrev pub length : {A : Type 0} → List A → ℕ
length [] = 0
length (x ∷ xs) = 1 + length xs

pub record Parameter : Type 0 where
  pub declaration : Option String
  pub value_of : Option String

abbrev pub spaced : List String → List String
spaced [] = []
spaced (x ∷ xs) = " " ∷ x ∷ xs

-- The pieces of the string that joins the parameters.
unfoldable pub parameter_string : List Parameter → Result (List String)
parameter_string [] = value []
parameter_string (p ∷ ps) =
    let rest = parameter_string ps in
    do
      d ← look_up "declaration" p.declaration
      v ← look_up "value" p.value_of
      pieces ← rest
      value (d ∷ "=" ∷ v ∷ spaced pieces)

-- `J` is a JSON value that is copied, `D` a number of the JSON.
pub data Cell (J D : Type 0) : Type 0 where
  given : Option J → Cell J D
  text : List String → Cell J D
  count : ℕ → Cell J D
  duration : D → Cell J D

pub record Benchmark (J D : Type 0) : Type 0 where
  pub get : String → Option J
  pub parameters : Option (List Parameter)
  pub runs : Option (List (Option D))

-- The durations of the runs.
unfoldable pub durations : {D : Type 0} → List (Option D) → Result (List D)
durations [] = value []
durations (run ∷ runs) =
    let rest = durations runs in do d ← look_up "duration" run; ds ← rest; value (d ∷ ds)

module _ {D : Type 0} (lt : D → D → Bool) where
  -- `min` and `max` of a list that begins with `d`.
  unfoldable pub min_of : D → List D → D
  min_of d [] = d
  min_of d (x ∷ xs) = min_of (if lt x d then x else d) xs

  unfoldable pub max_of : D → List D → D
  max_of d [] = d
  max_of d (x ∷ xs) = max_of (if lt d x then x else d) xs

  abbrev pub extremes : List D → Result (D × D)
  extremes [] = error value_error
  extremes (d ∷ ds) = value (min_of d ds, max_of d ds)

abbrev pub with_parameters :
    {J D : Type 0} → Option (List Parameter) → List (Cell J D) → Result (List (Cell J D))
with_parameters none row = value row
with_parameters (some ps) row = do pieces ← parameter_string ps; value (put_at 2 (text pieces) row)

abbrev pub written :
    {J D : Type 0}
    → Result (List (Cell J D))
    → List (List (Cell J D)) × Option Error
    → List (List (Cell J D)) × Option Error
written (error e) rest = ([], some e)
written (value row) rest = (row ∷ rest.0, rest.1)

module _ {J D : Type 0} (lt : D → D → Bool) where
  unfoldable pub csv_row : Benchmark J D → Result (List (Cell J D))
  unfolding parameter_string durations min_of max_of
  csv_row b = do
    row ← with_parameters b.parameters (map (λ col. given (b.get col)) cols)
    runs ← look_up "runs" b.runs
    ds ← durations runs
    ends ← extremes lt ds
    value (
        put_at 12 (duration ends.1)
          (put_at 11 (duration ends.0) (put_at 5 (count (length ds)) row)))

  -- The rows below the header, and the error that ended the script.
  unfoldable pub table : List (Benchmark J D) → List (List (Cell J D)) × Option Error
  unfolding csv_row
  table [] = ([], none)
  table (b ∷ bs) = written (csv_row b) (table bs)
