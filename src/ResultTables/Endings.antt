-- ===== src/ResultTables/Endings.antt =====
-- Which benchmarks stop simplex/eval/benchmark/json_to_csv.py.
use simplex.Base.{
  arith, ◌≡◌, ◌↔◌, refl, ap, ap₂, ◌∙◌, Bool, true, false, String, Option, none, some, List, [], ◌∷◌,
}
use simplex.ResultTables.{
  Error, key_error, value_error, given, cols, Result, error, value, ◌>>=◌, look_up, map, Parameter,
  parameter_string, Cell, Benchmark, durations, extremes, with_parameters, csv_row, written, table,
}
use simplex.ResultTables.Summaries.{stated, stated_if, IsComplete, AllComplete, csv_row-thirteen}

abbrev is_value : {A : Type 0} → Result A → Bool
is_value (error e) = false
is_value (value a) = true

abbrev or_else : {A : Type 0} → A → Result A → A
or_else a (error e) = a
or_else a (value b) = b

error-value : {A B : Type 0} (e : Error) {a : A} → error e ≡ value a → B
error-value e h = let same = ap is_value h in absurd (ground (arith, same))

bound :
    {A B : Type 0} (r : Result A) (f : A → Result B) {b : B}
    → (r >>= f) ≡ value b
    → (a : A) × (r ≡ value a) × (f a ≡ value b)
bound (error e) f h = error-value e h
bound (value a) f h = (a, refl, h)

found : {A : Type 0} (key : String) (o : Option A) {a : A} → look_up key o ≡ value a → o ≡ some a
found key none h = error-value (key_error key) h
found key (some x) h = ap (λ r. some (or_else x r)) h

were_durations :
    {D : Type 0} (runs : List (Option D)) {ds : List D}
    → durations runs ≡ value ds
    → runs ≡ map some ds
unfolding durations
were_durations [] h = ap (λ r. map some (or_else [] r)) h
were_durations {D} (run ∷ runs) {ds} h =
    let (d, e, h1) =
      bound (look_up "duration" run) (λ d. durations runs >>= λ ds. value (d ∷ ds)) h in
    let (others, e1, h2) = bound (durations runs) (λ ds. value (d ∷ ds)) h1 in
    ap₂ (λ (x : Option D) xs. x ∷ xs) (found "duration" run e) (were_durations runs e1)
    ∙ ap (λ r. map some (or_else ds r)) h2

was_stated :
    (ps : List Parameter) {pieces : List String}
    → parameter_string ps ≡ value pieces
    → (qs : List (String × String)) × (ps ≡ stated qs)
unfolding parameter_string
was_stated [] h = ([], refl)
was_stated (p ∷ ps) h =
    let (d, e, h1) = bound (look_up "declaration" p.declaration) _ h in
    let (v, e1, h2) = bound (look_up "value" p.value_of) _ h1 in
    let (rest, e2, h3) = bound (parameter_string ps) _ h2 in
    let (qs, same) = was_stated ps e2 in
    (
      ((d, v)) ∷ qs,
      λ i.
          record {
            declaration = found "declaration" p.declaration e i;
            value_of = found "value" p.value_of e1 i;
          }
          ∷ same i,
    )

were_parameters :
    {J D : Type 0} (ps : Option (List Parameter)) (cells : List (Cell J D)) {row : List (Cell J D)}
    → with_parameters ps cells ≡ value row
    → (assigned : Option (List (String × String))) × (ps ≡ stated_if assigned)
were_parameters none cells h = (none, refl)
were_parameters (some ps) cells h =
    let (pieces, e, h1) = bound (parameter_string ps) _ h in
    let (qs, same) = was_stated ps e in (some qs, ap some same)

not_empty :
    {D : Type 0} (lt : D → D → Bool) (ds : List D) {ends : D × D}
    → extremes lt ds ≡ value ends
    → (first : D) × (others : List D) × (ds ≡ first ∷ others)
not_empty lt [] h = error-value value_error h
not_empty lt (d ∷ ds) h = (d, ds, refl)

csv_row-IsComplete :
    {J D : Type 0} (lt : D → D → Bool) (b : Benchmark J D) {row : List (Cell J D)}
    → csv_row lt b ≡ value row
    → IsComplete lt b
unfolding csv_row
csv_row-IsComplete lt b h =
    let (row, e, h1) =
      bound (with_parameters b.parameters (map (λ col. given (b.get col)) cols)) _ h in
    let (runs, e1, h2) = bound (look_up "runs" b.runs) _ h1 in
    let (ds, e2, h3) = bound (durations runs) _ h2 in
    let (ends, e3, h4) = bound (extremes lt ds) _ h3 in
    let (assigned, same) = were_parameters b.parameters _ e in
    let (first, others, listed) = not_empty lt ds e3 in
    record {
      assigned = assigned;
      parameters = same;
      first = first;
      others = others;
      runs = found "runs" b.runs e1 ∙ ap some (were_durations runs e2 ∙ ap (map some) listed);
    }

goes_on :
    {J D : Type 0} (r : Result (List (Cell J D))) (rest : List (List (Cell J D)) × Option Error)
    → (written r rest).1 ≡ none
    → (row : List (Cell J D)) × (r ≡ value row) × (rest.1 ≡ none)
goes_on (error e) rest h = absurd (cc h)
goes_on (value row) rest h = (row, refl, h)

module _ {J D : Type 0} (lt : D → D → Bool) where
  ended : (bs : List (Benchmark J D)) → (table lt bs).1 ≡ none → AllComplete lt bs
  unfolding table
  ended [] h = tt
  ended (b ∷ bs) h =
      let (row, e, later) = goes_on (csv_row lt b) (table lt bs) h in
      (csv_row-IsComplete lt b e, ended bs later)

  ends : (bs : List (Benchmark J D)) → AllComplete lt bs → (table lt bs).1 ≡ none
  unfolding table
  ends [] h = refl
  ends (b ∷ bs) h =
      let c = h.0 in
      ap (λ r. (written r (table lt bs)).1)
        (csv_row-thirteen lt b c.assigned c.parameters c.first c.others c.runs)
      ∙ ends bs h.1

  -- The script ends without an error exactly if every benchmark has at least one run, all its runs have a
  -- duration, and all the parameters that it lists have a declaration and a value.
  pub table-AllComplete : (bs : List (Benchmark J D)) → ((table lt bs).1 ≡ none) ↔ AllComplete lt bs
  table-AllComplete bs = (ended bs, ends bs)
