-- ===== src/Copies/Shared.antt =====
-- What a copy by api/v1/zz_generated.deepcopy.go shares with its original.
use sunwukong.Base.{
  ℕ, zero, suc, ◌≤◌, ◌<◌, ◌≡◌, ◌≢◌, refl, ap, sym, ◌∙◌, Option, none, some, List, [], ◌∷◌, ◌++◌,
  length, length-append, length-set, get_elem?, set, arith,
}
use sunwukong.Copies.{
  MetaValue, HoumaoValue, Cell, houmao, Heap, read, write, copied_value, deep_copy_into, deep_copy,
}

module _ {ℓ} {A : Type ℓ} where
  get_elem?-set : (xs : List A) (i : ℕ) (v : A) → i < length xs → get_elem? (set xs i v) i ≡ some v
  get_elem?-set [] i v h = absurd (omega arith)
  get_elem?-set (x ∷ xs) zero v h = refl
  get_elem?-set (x ∷ xs) (suc i) v h = get_elem?-set xs i v (omega arith)

  get_elem?-set_ne :
      (xs : List A) (i j : ℕ) (v : A) → i ≢ j → get_elem? (set xs i v) j ≡ get_elem? xs j
  get_elem?-set_ne [] i j v h = refl
  get_elem?-set_ne (x ∷ xs) zero zero v h = absurd (h refl)
  get_elem?-set_ne (x ∷ xs) zero (suc j) v h = refl
  get_elem?-set_ne (x ∷ xs) (suc i) zero v h = refl
  get_elem?-set_ne (x ∷ xs) (suc i) (suc j) v h = get_elem?-set_ne xs i j v (λ e. h (ap suc e))

  pub get_elem?-append :
      (xs ys : List A) (i : ℕ) → i < length xs → get_elem? (xs ++ ys) i ≡ get_elem? xs i
  get_elem?-append [] ys i h = absurd (omega arith)
  get_elem?-append (x ∷ xs) ys zero h = refl
  get_elem?-append (x ∷ xs) ys (suc i) h = get_elem?-append xs ys i (omega arith)

  get_elem?-lt : (xs : List A) (i : ℕ) {v : A} → get_elem? xs i ≡ some v → i < length xs
  get_elem?-lt [] i h = absurd (ground arith)
  get_elem?-lt (x ∷ xs) zero h = omega arith
  get_elem?-lt (x ∷ xs) (suc i) h = let below = get_elem?-lt xs i h in omega arith

  get_elem?-length : (xs : List A) → get_elem? xs (length xs) ≡ none
  get_elem?-length [] = refl
  get_elem?-length (x ∷ xs) = get_elem?-length xs

-- What the library's copy of metadata leaves of the store.
pub record IsCopy (copy_meta : MetaValue → Heap → MetaValue × Heap) : Type 0 where
  pub grows :
      (metadata : MetaValue) (heap : Heap) → length heap ≤ length (copy_meta metadata heap).1
  pub keeps :
      (metadata : MetaValue) (heap : Heap) (a : ℕ)
      → a < length heap
      → read (copy_meta metadata heap).1 a ≡ read heap a

abbrev pub pointed : Heap → Option ℕ → Option Cell
pointed heap none = none
pointed heap (some p) = read heap p

abbrev pub metrics_in : Heap → Option Cell → Option Cell
metrics_in heap (some (houmao value)) = pointed heap value.spec.metrics
metrics_in heap _ = none

-- The metrics of the object at an address.
abbrev pub metrics_of : Heap → ℕ → Option Cell
metrics_of heap a = metrics_in heap (read heap a)

module _ (copy_meta : MetaValue → Heap → MetaValue × Heap) (copies : IsCopy copy_meta) (heap : Heap)
    (value : HoumaoValue) where
  copy_of : HoumaoValue
  unfolding copied_value
  copy_of = (copied_value copy_meta value (heap ++ (Cell.zero ∷ []))).0

  after : Heap
  unfolding deep_copy_into
  after = deep_copy_into copy_meta value (length heap) (heap ++ (Cell.zero ∷ []))

  room : length heap < length (copy_meta value.metadata (heap ++ (Cell.zero ∷ []))).1
  room = omega (
    arith,
    length-append heap (Cell.zero ∷ []),
    copies.grows value.metadata (heap ++ (Cell.zero ∷ [])),
  )

  read-copy : read after (length heap) ≡ some (houmao copy_of)
  unfolding after copy_of
  read-copy =
      get_elem?-set (copy_meta value.metadata (heap ++ (Cell.zero ∷ []))).1 (length heap)
        (houmao copy_of) room

  read-old : (b : ℕ) → b < length heap → read after b ≡ read heap b
  unfolding after
  read-old b below =
      get_elem?-set_ne (copy_meta value.metadata (heap ++ (Cell.zero ∷ []))).1 (length heap) b _
        (omega arith)
      ∙ (copies.keeps value.metadata (heap ++ (Cell.zero ∷ [])) b
            (omega (arith, length-append heap (Cell.zero ∷ [])))
          ∙ get_elem?-append heap (Cell.zero ∷ []) b below)

  length-after : length heap < length after
  unfolding after copy_of
  length-after =
      let same : length after ≡ length (copy_meta value.metadata (heap ++ (Cell.zero ∷ []))).1 =
        length-set (copy_meta value.metadata (heap ++ (Cell.zero ∷ []))).1 (length heap)
          (houmao copy_of) in
      omega (arith, room)

  metrics_of-write :
      (h : Heap) (a p : ℕ) (cell : Cell)
      → read h a ≡ some (houmao value)
      → value.spec.metrics ≡ some p
      → p < length h
      → a ≢ p
      → metrics_of (write p cell h) a ≡ some cell
  metrics_of-write h a p cell at has below apart =
      ap (metrics_in (write p cell h)) (get_elem?-set_ne h p a cell (λ e. apart (sym e)) ∙ at)
      ∙ (ap (pointed (write p cell h)) has ∙ get_elem?-set h p cell below)

  -- A copy is an object of its own, at a new address: no assignment to it changes the original. It
  -- shares the original's slice of metrics: what is written into that slice through the copy is
  -- what the original holds from then on.
  pub deep_copy_shares :
      (a p : ℕ) {old : Cell}
      → read heap a ≡ some (houmao value)
      → value.spec.metrics ≡ some p
      → read heap p ≡ some old
      → a ≢ p
      → (out : ℕ) × (copy : HoumaoValue) × (heap' : Heap) × (deep_copy copy_meta (some value) heap
          ≡ (some out, heap'))
        × (read heap out ≡ none)
        × (read heap' out ≡ some (houmao copy))
        × ((cell : Cell) → read (write out cell heap') a ≡ some (houmao value))
        × (copy.spec.metrics ≡ some p)
        × ((cell : Cell) → metrics_of (write p cell heap') a ≡ some cell)
  unfolding deep_copy copy_of after
  deep_copy_shares a p at has points apart =
      let below = get_elem?-lt heap a at in
      let p_below = get_elem?-lt heap p points in
      (
        length heap,
        copy_of,
        after,
        refl,
        get_elem?-length heap,
        read-copy,
        λ cell. get_elem?-set_ne after (length heap) a cell (omega arith) ∙ (read-old a below ∙ at),
        has,
        λ cell.
            metrics_of-write after a p cell (read-old a below ∙ at) has
              (omega (arith, length-after)) apart,
      )
