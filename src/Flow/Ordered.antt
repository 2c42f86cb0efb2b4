-- ===== src/Flow/Ordered.antt =====
-- Rows that are ordered by a column (`ORDER BY`): the same rows, as many of them.
use callytics.Flow.Load.{insert_by, order_by}
use callytics.Prelude.{
  ℕ, suc, ◌≤◌, ◌≡◌, refl, ap, ◌∙◌, ◌⊎◌, inl, inr, Bool, true, false, List, [], ◌∷◌, arith, leb, eqb,
  if◌then◌else◌, Bool-cases, if-holds, length, filter, All, In, In-filter, filter-In, All-weaken,
  All-each, eqb-same,
}

module _ {A : Type 0} (key : A → ℕ) where
  length-insert_by : (x : A) (xs : List A) → length (insert_by key x xs) ≡ suc (length xs)
  unfolding insert_by
  length-insert_by x [] = refl
  length-insert_by x (y ∷ xs) = ground (arith, length-insert_by x xs)

  pub length-order_by : (xs : List A) → length (order_by key xs) ≡ length xs
  unfolding order_by
  length-order_by [] = refl
  length-order_by (x ∷ xs) = length-insert_by x (order_by key xs) ∙ ap suc (length-order_by xs)

  insert_by-In : (x c : A) (rows : List A) → In c (x ∷ rows) → In c (insert_by key x rows)
  unfolding insert_by
  insert_by-In x c [] m = m
  insert_by-In x c (y ∷ rows) m =
      if-holds (In c) (leb (key x) (key y)) (λ _. m) (λ _. swapped m (insert_by-In x c rows))
    where
      swapped :
          In c (x ∷ y ∷ rows)
          → (In c (x ∷ rows) → In c (insert_by key x rows))
          → In c (y ∷ insert_by key x rows)
      swapped (inl e) rec = inr (rec (inl e))
      swapped (inr (inl e)) rec = inl e
      swapped (inr (inr m)) rec = inr (rec (inr m))

  pub order_by-In : (c : A) (rows : List A) → In c rows → In c (order_by key rows)
  unfolding order_by
  order_by-In c [] m = m
  order_by-In c (x ∷ rows) (inl e) = insert_by-In x c (order_by key rows) (inl e)
  order_by-In c (x ∷ rows) (inr m) =
      insert_by-In x c (order_by key rows) (inr (order_by-In c rows m))

  In-insert_by : (x c : A) (rows : List A) → In c (insert_by key x rows) → In c (x ∷ rows)
  unfolding insert_by
  In-insert_by x c [] m = m
  In-insert_by x c (y ∷ rows) m = by_test (leb (key x) (key y)) m (In-insert_by x c rows)
    where
      by_test :
          (b : Bool)
          → In c (if b then x ∷ y ∷ rows else y ∷ insert_by key x rows)
          → (In c (insert_by key x rows) → In c (x ∷ rows))
          → In c (x ∷ y ∷ rows)
      by_test true m rec = m
      by_test false (inl e) rec = inr (inl e)
      by_test false (inr m) rec = elim (rec m) [ inl e ↦ inl e | inr n ↦ inr (inr n) ]

  pub In-order_by : (c : A) (rows : List A) → In c (order_by key rows) → In c rows
  unfolding order_by
  In-order_by c [] m = m
  In-order_by c (x ∷ rows) m = elim (In-insert_by x c (order_by key rows) m) [
    | inl e ↦ inl e
    | inr n ↦ inr (In-order_by c rows n)
  ]

  -- Each row's key is at most those of the rows behind it.
  abbrev pub IsOrdered : List A → Type 0
  IsOrdered [] = Unit
  IsOrdered (x ∷ rows) = All (λ y. key x ≤ key y) rows × IsOrdered rows

  insert_by-All :
      (n : ℕ) (x : A) (rows : List A)
      → n ≤ key x
      → All (λ y. n ≤ key y) rows
      → All (λ y. n ≤ key y) (insert_by key x rows)
  unfolding insert_by
  insert_by-All n x [] h a = (h, tt)
  insert_by-All n x (y ∷ rows) h (b, a) =
      if-holds (All (λ z. n ≤ key z)) (leb (key x) (key y)) (λ _. (h, (b, a)))
        (λ _. (b, insert_by-All n x rows h a))

  insert_by-IsOrdered : (x : A) (rows : List A) → IsOrdered rows → IsOrdered (insert_by key x rows)
  unfolding insert_by
  insert_by-IsOrdered x [] o = (tt, tt)
  insert_by-IsOrdered x (y ∷ rows) (a, o) =
      if-holds IsOrdered (leb (key x) (key y))
        (λ t.
          let low : key x ≤ key y = ground (arith, t) in
          (
            (
              low,
              All-weaken (λ z. key y ≤ key z) (λ z. key x ≤ key z) rows
                  (λ z h. omega (arith, low, h)) a,
            ),
            (a, o),
          ))
        (λ f. (insert_by-All (key y) x rows (ground (arith, f)) a, insert_by-IsOrdered x rows o))

  pub order_by-IsOrdered : (rows : List A) → IsOrdered (order_by key rows)
  unfolding order_by
  order_by-IsOrdered [] = tt
  order_by-IsOrdered (x ∷ rows) =
      insert_by-IsOrdered x (order_by key rows) (order_by-IsOrdered rows)

  -- The rows of one version out of a table, in the order of their keys.
  abbrev pub IsSelection : (A → ℕ) → ℕ → List A → List A → Type 0
  IsSelection version v table rows =
      IsOrdered rows
      × All (λ r. In r table × (version r ≡ v)) rows
      × All (λ r. (eqb (version r) v ≡ false) ⊎ In r rows) table
      × (length rows ≡ length (filter (λ r. eqb (version r) v) table))

  pub order_by-IsSelection :
      (version : A → ℕ) (v : ℕ) (table : List A)
      → IsSelection version v table (order_by key (filter (λ r. eqb (version r) v) table))
  order_by-IsSelection version v table =
      let of_version = λ (r : A). eqb (version r) v in
      (
        order_by-IsOrdered (filter of_version table),
        All-each (λ r. In r table × (version r ≡ v)) (order_by key (filter of_version table))
            (λ r m.
              let (there, own) =
                In-filter of_version table r (In-order_by r (filter of_version table) m) in
              (there, eqb-same (version r) v own)),
        All-each (λ r. (eqb (version r) v ≡ false) ⊎ In r (order_by key (filter of_version table)))
            table
            (λ r m. elim (Bool-cases (eqb (version r) v)) [
              | inl t ↦
                  inr (order_by-In r (filter of_version table) (filter-In of_version table r m t))
              | inr f ↦ inl f
            ]),
        length-order_by (filter of_version table),
      )
