-- ===== src/ResultTables/Summaries.antt =====
-- What the rows of simplex/eval/benchmark/json_to_csv.py say of their benchmarks.
use simplex.Base.{
  ℕ, ap₂, subst, sym, ◌+◌, ◌≡◌, refl, inl, inr, ◌⊎◌, Bool, Bool-cases, true, false, if◌then◌else◌,
  String, Option, none, some, List, [], ◌∷◌, ◌++◌,
}
use simplex.ResultTables.{
  value, map, length, Parameter, spaced, parameter_string, Cell, given, text, count, duration,
  Benchmark, durations, min_of, max_of, csv_row, written, table,
}

-- `lt` compares as numbers do: what is not less is at least as large.
pub record IsOrder {D : Type 0} (lt : D → D → Bool) : Type 0 where
  pub irreflexive : (a : D) → lt a a ≡ false
  pub asymmetric : (a b : D) → lt a b ≡ true → lt b a ≡ false
  pub transitive : (a b c : D) → lt b a ≡ false → lt c b ≡ false → lt c a ≡ false

abbrev flipped : {D : Type 0} → (D → D → Bool) → D → D → Bool
flipped lt a b = lt b a

flipped-IsOrder : {D : Type 0} {lt : D → D → Bool} → IsOrder lt → IsOrder (flipped lt)
flipped-IsOrder o = record {
  irreflexive = o.irreflexive;
  asymmetric = λ a b h. o.asymmetric b a h;
  transitive = λ a b c h k. o.transitive c b a k h;
}

abbrev pub Among : {D : Type 0} → D → List D → Type 0
Among x [] = ⊥
Among x (y ∷ ys) = (x ≡ y) ⊎ Among x ys

abbrev pub NoneLess : {D : Type 0} → (D → D → Bool) → D → List D → Type 0
NoneLess lt x [] = Unit
NoneLess lt x (y ∷ ys) = (lt y x ≡ false) × NoneLess lt x ys

-- A least element, and with the order turned round a greatest one.
abbrev pub IsLeast : {D : Type 0} → (D → D → Bool) → D → List D → Type 0
IsLeast lt x ys = Among x ys × NoneLess lt x ys

module _ {D : Type 0} {lt : D → D → Bool} (o : IsOrder lt) where
  min_step :
      (d x : D) (xs : List D) {b : Bool}
      → lt x d ≡ b
      → IsLeast lt (min_of lt (if b then x else d) xs) (d ∷ x ∷ xs)
      → IsLeast lt (min_of lt d (x ∷ xs)) (d ∷ x ∷ xs)
  unfolding min_of
  min_step d x xs e h =
      subst (λ c. IsLeast lt (min_of lt (if c then x else d) xs) (d ∷ x ∷ xs)) (sym e) h

  min_of-IsLeast : (d : D) (ds : List D) → IsLeast lt (min_of lt d ds) (d ∷ ds)
  unfolding min_of
  min_of-IsLeast d [] = (inl refl, (o.irreflexive d, tt))
  min_of-IsLeast d (x ∷ xs) = elim (Bool-cases (lt x d)) [
    | inl less ↦
        (let (among, above) = min_of-IsLeast x xs in
          min_step d x xs less
            (inr among, (o.transitive _ x d above.0 (o.asymmetric x d less), above)))
    | inr not_less ↦
        (let (among, above) = min_of-IsLeast d xs in
          min_step d x xs not_less
            (skip among, (above.0, (o.transitive _ d x above.0 not_less, above.1))))
  ]
    where
      skip : {y : D} → Among y (d ∷ xs) → Among y (d ∷ x ∷ xs)
      skip (inl e) = inl e
      skip (inr t) = inr (inr t)

max_of-min_of :
    {D : Type 0} (lt : D → D → Bool) (d : D) (ds : List D)
    → max_of lt d ds ≡ min_of (flipped lt) d ds
unfolding max_of min_of
max_of-min_of lt d [] = refl
max_of-min_of lt d (x ∷ xs) = max_of-min_of lt (if lt d x then x else d) xs

-- Complete parameters and runs, as the framework prints them.
abbrev pub stated : List (String × String) → List Parameter
stated [] = []
stated (p ∷ ps) = record { declaration = some p.0; value_of = some p.1 } ∷ stated ps

abbrev pub stated_if : Option (List (String × String)) → Option (List Parameter)
stated_if none = none
stated_if (some ps) = some (stated ps)

-- `declaration=value`, with spaces between.
abbrev pub assignments : List (String × String) → List String
assignments [] = []
assignments (p ∷ ps) = p.0 ∷ "=" ∷ p.1 ∷ spaced (assignments ps)

module _ {J D : Type 0} (b : Benchmark J D) where
  abbrev pub third_cell : Option (List (String × String)) → Cell J D
  third_cell none = given (b.get "parameters")
  third_cell (some ps) = text (assignments ps)

  abbrev pub thirteen : Option (List (String × String)) → ℕ → D → D → List (Cell J D)
  thirteen assigned runs low high =
      given (b.get "fixture")
      ∷ given (b.get "name")
      ∷ third_cell assigned
      ∷ given (b.get "iterations_per_run")
      ∷ given (b.get "disabled")
      ∷ count runs
      ∷ given (b.get "mean")
      ∷ given (b.get "std_dev")
      ∷ given (b.get "median")
      ∷ given (b.get "quartile_1")
      ∷ given (b.get "quartile_3")
      ∷ duration low
      ∷ duration high
      ∷ []

module _ {J D : Type 0} (lt : D → D → Bool) where
  pub record IsComplete (b : Benchmark J D) : Type 0 where
    pub assigned : Option (List (String × String))
    pub parameters : b.parameters ≡ stated_if assigned
    pub first : D
    pub others : List D
    pub runs : b.runs ≡ some (map some (first ∷ others))

  pub record Summarises (b : Benchmark J D) (c : IsComplete b) (row : List (Cell J D))
      : Type 0 where
    pub low : D
    pub high : D
    pub least : IsLeast lt low (c.first ∷ c.others)
    greatest : IsLeast (flipped lt) high (c.first ∷ c.others)
    pub cells : row ≡ thirteen b c.assigned (1 + length c.others) low high

parameter_string-stated :
    (ps : List (String × String)) → parameter_string (stated ps) ≡ value (assignments ps)
unfolding parameter_string
parameter_string-stated [] = refl
parameter_string-stated (p ∷ ps) = rw (parameter_string-stated ps) refl

durations_complete : {D : Type 0} (ds : List D) → durations (map some ds) ≡ value ds
unfolding durations
durations_complete [] = refl
durations_complete (d ∷ ds) = rw (durations_complete ds) refl

pub csv_row-thirteen :
    {J D : Type 0} (lt : D → D → Bool) (b : Benchmark J D)
    (assigned : Option (List (String × String)))
    → b.parameters ≡ stated_if assigned
    → (d : D) (ds : List D) → b.runs ≡ some (map some (d ∷ ds))
    → csv_row lt b ≡ value (thirteen b assigned (1 + length ds) (min_of lt d ds) (max_of lt d ds))
unfolding csv_row
csv_row-thirteen lt b none p d ds r = rw (p, r, durations_complete (d ∷ ds)) refl
csv_row-thirteen lt b (some ps) p d ds r =
    rw (p, parameter_string-stated ps, r, durations_complete (d ∷ ds)) refl

abbrev pub AllSummarise :
    {J D : Type 0} (lt : D → D → Bool) (bs : List (Benchmark J D)) → List (List (Cell J D)) → Type 0
AllSummarise lt [] [] = Unit
AllSummarise lt [] (row ∷ rows) = ⊥
AllSummarise lt (b ∷ bs) [] = ⊥
AllSummarise lt (b ∷ bs) (row ∷ rows) =
    ((c : IsComplete lt b) × Summarises lt b c row) × AllSummarise lt bs rows

abbrev pub AllComplete : {J D : Type 0} (lt : D → D → Bool) → List (Benchmark J D) → Type 0
AllComplete lt [] = Unit
AllComplete lt (b ∷ bs) = IsComplete lt b × AllComplete lt bs

module _ {J D : Type 0} {lt : D → D → Bool} (o : IsOrder lt) where
  thirteen-Summarises :
      (b : Benchmark J D) (c : IsComplete lt b)
      → Summarises lt b c (
          thirteen b c.assigned
            (1 + length c.others)
            (min_of lt c.first c.others)
            (max_of lt c.first c.others))
  thirteen-Summarises b c = record {
    low = min_of lt c.first c.others;
    high = max_of lt c.first c.others;
    least = min_of-IsLeast o c.first c.others;
    greatest =
        subst (λ y. IsLeast (flipped lt) y (c.first ∷ c.others))
          (sym (max_of-min_of lt c.first c.others))
          (min_of-IsLeast (flipped-IsOrder o) c.first c.others);
    cells = refl;
  }

  -- Where numbers compare as an order, and `bs` are benchmarks with at least one run, all with a duration,
  -- and with the name and value of every parameter they list: the script writes for `bs` a row each, in
  -- their order, and then what it writes for the benchmarks behind them, and ends as on those. A row has 13
  -- cells: the number of the runs, a least and a greatest of their durations, the parameters joined, and
  -- what the JSON has under the other names.
  pub table-Summarise :
      (bs rest : List (Benchmark J D))
      → AllComplete lt bs
      → (rows : List (List (Cell J D))) × (table lt (bs ++ rest)
          ≡ (rows ++ (table lt rest).0, (table lt rest).1))
        × AllSummarise lt bs rows
  unfolding table
  table-Summarise [] rest h = ([], refl, tt)
  table-Summarise (b ∷ bs) rest h =
      let c = h.0 in
      let (rows, ends, all) = table-Summarise bs rest h.1 in
      (
        thirteen b c.assigned (1 + length c.others) (min_of lt c.first c.others)
              (max_of lt c.first c.others)
            ∷ rows,
        ap₂ written (csv_row-thirteen lt b c.assigned c.parameters c.first c.others c.runs) ends,
        ((c, thirteen-Summarises b c), all),
      )
