-- ===== src/Charts/Axes.antt =====
-- What the axes of a suggested chart are.
use live_data_architecture.Base.{
  some-injective, suc, ◌≤◌, ◌<◌, String, ◌≡◌, ◌≢◌, inl, inr, refl, sym, ap, ◌∙◌, subst, Bool, true,
  false, not, ◌&&◌, ◌||◌, none, some, List, [], ◌∷◌, arith, eqb, ◌==◌, eq_iff, eq_refl, length,
  contains, if◌then◌else◌, ◌⊎◌, All, Bool-cases, Option-cases,
}
use live_data_architecture.Charts.{
  AnalyticsRows, ChartKind, ChartSuggestion, is_numeric_column, is_empty, filter, numeric_columns,
  find, head, first_non_numeric_column, series_axis, looks_temporal, plot, suggest_chart,
}

some-not-none : {A : Type 0} {a : A} → some a ≡ none → ⊥
some-not-none h = cc

false-not-true : false ≡ true → ⊥
false-not-true h = cc

find_sound :
    (p : String → Bool) (xs : List String) (x : String)
    → find p xs ≡ some x
    → (contains xs x ≡ true) × (p x ≡ true)
find_sound p [] x h = cc
find_sound p (y ∷ xs) x h = elim (Bool-cases (p y)) [
  | inl t ↦
      let same : y ≡ x = some-injective (rw t at h) in
      (ground (arith, (eq_iff y x).1 same), subst (λ z. p z ≡ true) same t)
  | inr f ↦ let (found, holds) = find_sound p xs x (rw f at h) in (ground arith, holds)
]

find-cong :
    (p q : String → Bool) (xs ys : List String)
    → ((c : String) → contains ys c ≡ true → p c ≡ q c)
    → ((c : String) → contains xs c ≡ true → contains ys c ≡ true)
    → find p xs ≡ find q xs
find-cong p q [] ys h s = refl
find-cong p q (x ∷ xs) ys h s =
    rw (h x (s x (ground (arith, eq_refl x))), find-cong p q xs ys h (λ c k. s c (ground arith)))
      refl

find-none-length :
    (p : String → Bool) (xs : List String)
    → find (λ c. not (p c)) xs ≡ none
    → length (filter p xs) ≡ length xs
find-none-length p [] h = refl
find-none-length p (x ∷ xs) h = elim (Bool-cases (p x)) [
  | inl t ↦ rw t (ap suc (find-none-length p xs (rw t at h)))
  | inr f ↦ absurd (some-not-none (rw f at h))
]

-- Where no column is left for the series, each is on an axis.
on_axes :
    (x y : String) (xs : List String)
    → find (λ c. not (c == x || c == y)) xs ≡ none
    → All (λ c. (c ≡ x) ⊎ (c ≡ y)) xs
on_axes x y [] h = tt
on_axes x y (c ∷ xs) h = elim (Bool-cases (c == x)) [
  | inl t ↦ (inl ((eq_iff c x).0 t), on_axes x y xs (ground arith))
  | inr f ↦ elim (Bool-cases (c == y)) [
    | inl t ↦ (inr ((eq_iff c y).0 t), on_axes x y xs (ground arith))
    | inr g ↦ absurd (some-not-none (rw (f, g) at h))
  ]
]

contains-filter :
    (p : String → Bool) (xs : List String) (n : String)
    → contains (filter p xs) n ≡ (contains xs n && p n)
contains-filter p [] n = refl
contains-filter p (x ∷ xs) n = elim (Bool-cases (x == n)) [
  | inl t ↦
      let same : p x ≡ p n = ap p ((eq_iff x n).0 t) in ground (arith, contains-filter p xs n, same)
  | inr f ↦ ground (arith, contains-filter p xs n)
]

length-filter-le : (p : String → Bool) (xs : List String) → length (filter p xs) ≤ length xs
length-filter-le p [] = omega arith
length-filter-le p (x ∷ xs) = ground (arith, length-filter-le p xs)

length-filter-lt :
    (p : String → Bool) (xs : List String) (n : String)
    → contains xs n ≡ true
    → p n ≡ false
    → length (filter p xs) < length xs
length-filter-lt p [] n h k = cc
length-filter-lt p (x ∷ xs) n h k = elim (Bool-cases (x == n)) [
  | inl t ↦
      let refused : p x ≡ false = ap p ((eq_iff x n).0 t) ∙ k in
      ground (arith, length-filter-le p xs, refused)
  | inr f ↦ ground (arith, length-filter-lt p xs n (ground arith) k)
]

head-contains : (xs : List String) (y : String) → head xs ≡ some y → contains xs y ≡ true
head-contains [] y h = cc
head-contains (x ∷ xs) y h = ground (arith, (eq_iff x y).1 (some-injective h))

numeric_iff :
    (r : AnalyticsRows) (c : String)
    → contains (numeric_columns r) c ≡ (contains r.columns c && is_numeric_column r c)
unfolding numeric_columns
numeric_iff r c = contains-filter (is_numeric_column r) r.columns c

none-length :
    (r : AnalyticsRows)
    → find (λ c. not (contains (numeric_columns r) c)) r.columns ≡ none
    → length (numeric_columns r) ≡ length r.columns
unfolding numeric_columns
none-length r e = find-none-length (is_numeric_column r) r.columns (
    sym (
      find-cong (λ c. not (contains (numeric_columns r) c)) (λ c. not (is_numeric_column r c))
        r.columns r.columns (λ c h. ground (arith, numeric_iff r c)) (λ c h. h))
    ∙ e)

length-numeric_columns-lt :
    (r : AnalyticsRows) (n : String)
    → contains r.columns n ≡ true
    → is_numeric_column r n ≡ false
    → length (numeric_columns r) < length r.columns
unfolding numeric_columns
length-numeric_columns-lt r n h k = length-filter-lt (is_numeric_column r) r.columns n h k

contains-is_empty : (xs : List String) (n : String) → contains xs n ≡ true → is_empty xs ≡ false
contains-is_empty [] n h = cc
contains-is_empty (x ∷ xs) n h = refl

two_long :
    (xs : List String) (m n : String)
    → contains xs m ≡ true
    → contains xs n ≡ true
    → m ≢ n
    → 1 < length xs
two_long [] m n h k d = cc
two_long (x ∷ []) m n h k d =
    absurd (d (sym ((eq_iff x m).0 (ground arith)) ∙ (eq_iff x n).0 (ground arith)))
two_long (x ∷ y ∷ xs) m n h k d = omega arith

head-exists : (xs : List String) → is_empty xs ≡ false → (x : String) × (head xs ≡ some x)
head-exists [] h = cc
head-exists (x ∷ xs) h = (x, refl)

first-exists :
    (columns numeric : List String)
    → is_empty columns ≡ false
    → (x : String) × (first_non_numeric_column columns numeric ≡ some x)
unfolding first_non_numeric_column
first-exists columns numeric h =
    elim (Option-cases (find (λ c. not (contains numeric c)) columns)) [
      | inl e ↦ let (x, found) = head-exists columns h in (x, rw e found)
      | inr (x, e) ↦ (x, rw e refl)
    ]

-- Where some column is not numeric, the first such column is found and the fallback is not used.
first_sound :
    (r : AnalyticsRows) (x : String)
    → (length (numeric_columns r) ≢ length r.columns)
    → first_non_numeric_column r.columns (numeric_columns r) ≡ some x
    → (contains r.columns x ≡ true) × (is_numeric_column r x ≡ false)
unfolding first_non_numeric_column
first_sound r x n h =
    elim (Option-cases (find (λ c. not (contains (numeric_columns r) c)) r.columns)) [
      | inl e ↦ absurd (n (none-length r e))
      | inr (y, e) ↦
          let same : y ≡ x = some-injective (rw e at h) in
          let (listed, other) =
            find_sound (λ c. not (contains (numeric_columns r) c)) r.columns y e in
          let category : is_numeric_column r y ≡ false = ground (arith, numeric_iff r y) in
          subst (λ z. (contains r.columns z ≡ true) × (is_numeric_column r z ≡ false)) same
            (listed, category)
    ]

module _ (lower : String → String) where
  -- A suggestion that plots the rows: a category on the x axis, a measure on the y axis, and as the
  -- series a further column, or none if every column is on one of the axes.
  pub record IsPlot (r : AnalyticsRows) (s : ChartSuggestion) (x y : String) : Type 0 where
    pub x_axis : s.x_axis ≡ some x
    pub x_listed : contains r.columns x ≡ true
    pub x_category : is_numeric_column r x ≡ false
    pub y_axis : s.y_axis ≡ some y
    pub y_listed : contains r.columns y ≡ true
    pub y_numeric : is_numeric_column r y ≡ true
    pub kind : s.chart_kind ≡ (if looks_temporal lower x then ChartKind.line else ChartKind.bar)
    pub series :
        ((z : String) × (s.series_axis ≡ some z)
          × (contains r.columns z ≡ true)
          × (z ≢ x)
          × (z ≢ y))
        ⊎ ((s.series_axis ≡ none) × All (λ c. (c ≡ x) ⊎ (c ≡ y)) r.columns)

  plot-IsPlot :
      (r : AnalyticsRows) (x y : String)
      → first_non_numeric_column r.columns (numeric_columns r) ≡ some x
      → head (numeric_columns r) ≡ some y
      → (length (numeric_columns r) ≢ length r.columns)
      → IsPlot r (plot lower r (some x) (some y)) x y
  unfolding plot series_axis
  plot-IsPlot r x y hx hy n =
      let (x_listed, x_category) = first_sound r x n hx in
      let in_numeric = head-contains (numeric_columns r) y hy in
      record {
        x_axis = refl;
        x_listed = x_listed;
        x_category = x_category;
        y_axis = refl;
        y_listed = ground (arith, numeric_iff r y);
        y_numeric = ground (arith, numeric_iff r y);
        kind = refl;
        series = elim (Option-cases (find (λ c. not (c == x || c == y)) r.columns)) [
          | inl e ↦ inr (e, on_axes x y r.columns e)
          | inr (z, h) ↦
              let (listed, other) = find_sound (λ c. not (c == x || c == y)) r.columns z h in
              inl (
                z,
                h,
                listed,
                λ e. false-not-true (sym (ground (arith, (eq_iff z x).1 e))),
                λ e. false-not-true (sym (ground (arith, (eq_iff z y).1 e))),
              )
        ];
      }

  -- If a result has a numeric column and one that is not, the suggested chart plots a category
  -- against a measure; the fallback to the first column is never used. The series is a third column
  -- wherever there is one.
  pub suggest_chart_plots :
      (r : AnalyticsRows) (m n : String)
      → contains r.columns m ≡ true
      → is_numeric_column r m ≡ true
      → contains r.columns n ≡ true
      → is_numeric_column r n ≡ false
      → (x : String) × (y : String) × IsPlot r (suggest_chart lower r) x y
  unfolding suggest_chart
  suggest_chart_plots r m n hm mm hn nn =
      let few = length-numeric_columns-lt r n hn nn in
      let listed : contains (numeric_columns r) m ≡ true = ground (arith, numeric_iff r m) in
      let differ : m ≢ n = λ e. false-not-true (sym nn ∙ ap (is_numeric_column r) (sym e) ∙ mm) in
      let many = two_long r.columns m n hm hn differ in
      let no_metric : (eqb (length r.columns) 1
            || eqb (length (numeric_columns r)) (length r.columns))
          ≡ false =
        ground (arith, few, many) in
      let some_numeric = contains-is_empty (numeric_columns r) m listed in
      let (y, hy) = head-exists (numeric_columns r) some_numeric in
      let (x, hx) = first-exists r.columns (numeric_columns r) (contains-is_empty r.columns m hm) in
      (
        x,
        y,
        rw (contains-is_empty r.columns m hm, no_metric, some_numeric, hx, hy)
            (plot-IsPlot r x y hx hy (λ e. absurd (omega (arith, few, e)))),
      )
