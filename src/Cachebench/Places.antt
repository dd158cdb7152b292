-- ===== src/Cachebench/Places.antt =====
-- The places of the items of the benchmark: `i * nprocs + rank` numbers the pairs of a rank and an
-- item without gaps.
use cachercise.Base.{ℕ, zero, suc, ◌*◌, ◌/◌, ◌%◌, ◌<◌, ◌≤◌, ◌≡◌, arith}
use native.Mathlib.Nat.{
  mul-le-mul_right, suc-mul, div-add-mod', mod-lt, lt_of_mul-lt-mul_right, mul-zero,
}
use cachercise.Cachebench.{place}

pub place_lt :
    (nprocs nr_items rank i : ℕ)
    → rank < nprocs
    → i < nr_items
    → place nprocs rank i < nr_items * nprocs
place_lt nprocs nr_items rank i a b =
    let m : suc i * nprocs ≤ nr_items * nprocs = mul-le-mul_right nprocs (omega arith) in
    omega (arith, m, suc-mul i nprocs)

-- The pair that a place belongs to.
pub place_of :
    (nprocs nr_items j : ℕ)
    → j < nr_items * nprocs
    → (rank : ℕ) × (i : ℕ) × (rank < nprocs) × (i < nr_items) × (place nprocs rank i ≡ j)
place_of zero nr_items j l = absurd (omega (arith, mul-zero nr_items))
place_of (suc n) nr_items j l = (
  j % suc n,
  j / suc n,
  mod-lt j (omega arith),
  lt_of_mul-lt-mul_right (suc n) (omega (arith, div-add-mod' j (suc n))),
  div-add-mod' j (suc n),
)
