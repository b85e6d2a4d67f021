-- ===== src/Base/Family.antt =====
-- A value for each thread, and sums over the first `n` threads.
use Prim.Native.Nat.{ℕ, zero, suc, ◌+◌, ◌*◌, ◌≤◌, ◌<◌}
use mathlib.Core.Path.{◌≡◌, refl, sym, ap, ◌∙◌}
use mathlib.Core.Bool.{false}
use mathlib.Core.Logic.{◌⊎◌, inl, inr}
use native.Mathlib.Omega.{arith}
use bourse_server.Base.Tests.{◌==◌, ==_iff, if◌then◌else◌, Bool-cases}

module _ {A : Type 0} where
  unfoldable pub move : (ℕ → A) → ℕ → A → ℕ → A
  move f me c i = if i == me then c else f i

  pub move_self : (me : ℕ) (f : ℕ → A) (c : A) → move f me c me ≡ c
  unfolding move
  move_self me f c = rw ((==_iff me me).1 refl)

  pub move_ne : (me : ℕ) (f : ℕ → A) (c : A) (i : ℕ) → (i == me) ≡ false → move f me c i ≡ f i
  unfolding move
  move_ne me f c i e = rw e

module _ {A : Type 0} (w : A → ℕ) where
  -- The weight of the threads below `n`.
  unfoldable pub total : ℕ → (ℕ → A) → ℕ
  total zero f = 0
  total (suc n) f = w (f n) + total n f

  total-above : (n i : ℕ) (f : ℕ → A) (c : A) → n ≤ i → total n (move f i c) ≡ total n f
  unfolding total
  total-above zero i f c h = refl
  total-above (suc n) i f c h = omega (
    arith,
    total-above n i f c (omega arith),
    ap w (move_ne i f c n (ground (arith, ==_iff n i))),
  )

  -- A change at one thread.
  pub total-move :
      (n i : ℕ) (f : ℕ → A) (c : A) → i < n → total n (move f i c) + w (f i) ≡ total n f + w c
  unfolding total
  total-move zero i f c h = absurd (omega arith)
  total-move (suc n) i f c h = elim (Bool-cases (n == i)) [
    | inl here ↦
        let same : n ≡ i = (==_iff n i).0 here in
        omega (
          arith,
          total-above n i f c (omega arith),
          ap w (ap (move f i c) same ∙ move_self i f c),
          ap (λ k. w (f k)) same,
        )
    | inr other ↦
        omega (arith, total-move n i f c (ground (arith, ==_iff n i)), ap w (move_ne i f c n other))
  ]

  pub total-ge : (n i : ℕ) (f : ℕ → A) → i < n → w (f i) ≤ total n f
  unfolding total
  total-ge zero i f h = absurd (omega arith)
  total-ge (suc n) i f h = elim (Bool-cases (n == i)) [
    | inl here ↦ omega (arith, ap (λ k. w (f k)) ((==_iff n i).0 here))
    | inr other ↦ omega (arith, total-ge n i f (ground (arith, ==_iff n i)))
  ]

  -- Two threads.
  pub total-two :
      (n i j : ℕ) (f : ℕ → A) → i < n → j < n → (i == j) ≡ false → w (f i) + w (f j) ≤ total n f
  unfolding total
  total-two zero i j f hi hj apart = absurd (omega arith)
  total-two (suc n) i j f hi hj apart = elim (Bool-cases (n == i)) [
    | inl at_i ↦
        let same : n ≡ i = (==_iff n i).0 at_i in
        let other : j < n = ground (arith, ==_iff i j) in
        omega (arith, ap (λ k. w (f k)) same, total-ge n j f other)
    | inr not_i ↦ elim (Bool-cases (n == j)) [
      | inl at_j ↦
          let same : n ≡ j = (==_iff n j).0 at_j in
          let other : i < n = ground (arith, ==_iff i j) in
          omega (arith, ap (λ k. w (f k)) same, total-ge n i f other)
      | inr not_j ↦
          omega (
            arith,
            total-two n i j f (ground (arith, ==_iff n i)) (ground (arith, ==_iff n j)) apart,
          )
    ]
  ]

  pub total-zero : (n : ℕ) (f : ℕ → A) → ((i : ℕ) → i < n → w (f i) ≡ 0) → total n f ≡ 0
  unfolding total
  total-zero zero f h = refl
  total-zero (suc n) f h =
      omega (arith, h n (omega arith), total-zero n f (λ i lt. h i (omega (arith, lt))))

  pub total-const : (n : ℕ) (c : A) → total n (λ _. c) ≡ w c * n
  unfolding total
  total-const zero c = omega arith
  total-const (suc n) c = omega (arith, total-const n c)

  -- Some thread has weight, or none.
  pub total-find :
      (n : ℕ) (f : ℕ → A) → ((i : ℕ) × (i < n) × (1 ≤ w (f i))) ⊎ ((i : ℕ) → i < n → w (f i) ≡ 0)
  total-find zero f = inr (λ i lt. absurd (omega (arith, lt)))
  total-find (suc n) f = elim (Bool-cases (w (f n) == 0)) [
    | inr here ↦ inl (n, omega arith, ground (arith, here))
    | inl empty ↦ elim (total-find n f) [
      | inl (i, lt, some_weight) ↦ inl (i, omega (arith, lt), some_weight)
      | inr nowhere ↦ inr (λ i lt. elim (Bool-cases (n == i)) [
        | inl same ↦ ap (λ k. w (f k)) (sym ((==_iff n i).0 same)) ∙ (==_iff (w (f n)) 0).0 empty
        | inr other ↦ nowhere i (ground (arith, ==_iff n i))
      ])
    ]
  ]

-- A weight that is nowhere above another one, and below it at a thread.
module _ {A : Type 0} (w v : A → ℕ) (le : (a : A) → w a ≤ v a) where
  pub total-le : (n : ℕ) (f : ℕ → A) → total w n f ≤ total v n f
  unfolding total
  total-le zero f = omega arith
  total-le (suc n) f = omega (arith, le (f n), total-le n f)

  pub total-lt : (n i : ℕ) (f : ℕ → A) → i < n → w (f i) < v (f i) → total w n f < total v n f
  unfolding total
  total-lt zero i f h less = absurd (omega arith)
  total-lt (suc n) i f h less = elim (Bool-cases (n == i)) [
    | inl here ↦
        let same : n ≡ i = (==_iff n i).0 here in
        omega (arith, ap (λ k. w (f k)) same, ap (λ k. v (f k)) same, total-le n f)
    | inr other ↦ omega (arith, le (f n), total-lt n i f (ground (arith, ==_iff n i)) less)
  ]

-- Two weights that agree where a third one is 0.
pub total-same :
    {A : Type 0} (w v z : A → ℕ)
    → ((a : A) → z a ≡ 0 → w a ≡ v a)
    → (n : ℕ) (f : ℕ → A) → total z n f ≡ 0
    → total w n f ≡ total v n f
unfolding total
total-same w v z same zero f h = refl
total-same w v z same (suc n) f h =
    omega (arith, same (f n) (omega (arith, h)), total-same w v z same n f (omega (arith, h)))
