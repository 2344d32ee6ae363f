-- ===== src/Klib/TimeSpec/Exact.antt =====
-- Sums and differences of times, in nanoseconds.
use saba_os.Base.{ℕ, ◌+◌, ◌*◌, ◌≡◌, ◌<◌, ◌≤◌, inl, inr, Bool-cases, if◌then◌else◌, ltb, arith}
use saba_os.Klib.TimeSpec.{TimeSpec, add, sub, sub_seconds}

unfoldable pub IsNormal : TimeSpec → Type 0
IsNormal t = t.nanoseconds < 1000000000

unfoldable pub total : TimeSpec → ℕ
total t = t.seconds * 1000000000 + t.nanoseconds

-- The sum of two times whose nanoseconds are below a second is exact, and its nanoseconds are again.
pub add_lem :
    (a b : TimeSpec)
    → IsNormal a
    → IsNormal b
    → IsNormal (add a b) × (total (add a b) ≡ total a + total b)
unfolding add IsNormal total
add_lem a b n n' = elim (Bool-cases (ltb 999999999 (a.nanoseconds + b.nanoseconds))) [
  | inl carry ↦ simp carry (ground (arith, n, n', carry), ground (arith, n, n', carry))
  | inr none ↦ simp none (ground (arith, n, n', none), omega arith)
]

-- The difference of two times whose nanoseconds are below a second, the second no later, is exact when the nanoseconds of the second
-- are no more than those of the first, and one nanosecond short when they are more.
pub sub_lem :
    (a b : TimeSpec)
    → IsNormal a
    → IsNormal b
    → total b ≤ total a
    → IsNormal (sub a b)
      × (total (sub a b) + total b + (if ltb a.nanoseconds b.nanoseconds then 1 else 0) ≡ total a)
unfolding sub sub_seconds IsNormal total
sub_lem a b n n' le = ground (arith, n, n', le)
