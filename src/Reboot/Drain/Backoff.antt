-- ===== src/Reboot/Drain/Backoff.antt =====
-- The backoff after a denied eviction.
use Prim.Native.Nat.{min}
use native.Mathlib.Nat.{pow-suc}
use simplek8s_controller.Prelude.{
  ℕ, zero, suc, ◌-◌, ◌*◌, ◌^◌, ◌≤◌, ◌<◌, ◌≡◌, some, arith, inl, inr, false, ◌==◌, leb, leb→le,
  Bool-cases,
}
use simplek8s_controller.Stdlib.Text.{Time, second}
use simplek8s_controller.Reboot.Drain.{max_backoff, grow, deny_backoff}

pow-pos : (n : ℕ) → 1 ≤ 2 ^ n
pow-pos zero = omega arith
pow-pos (suc n) = rw pow-suc (omega (arith, pow-pos n))

-- b * 2 * 2 ^ n
mul-pow-suc : (b n : ℕ) → b * 2 ^ suc n ≡ b * 2 * 2 ^ n
mul-pow-suc b n = rw pow-suc (omega arith)

le-mul-pow : (b n : ℕ) → b ≤ b * 2 ^ n
le-mul-pow b n = grind (arith, pow-pos n)

grow-min : (left b : ℕ) → b < max_backoff → grow left b ≡ min max_backoff (b * 2 ^ left)
unfolding grow
grow-min zero b h = omega arith
grow-min (suc left) b h = elim (Bool-cases (leb max_backoff (b * 2))) [
  | inl capped ↦ rw capped (
      omega (arith, leb→le max_backoff (b * 2) capped, mul-pow-suc b left, le-mul-pow (b * 2) left))
  | inr below ↦ rw (below, grow-min left (b * 2) (ground arith), mul-pow-suc b left)
]

-- After `count` denials in a row, at least one, the backoff is 5 s doubled `count - 1` times, but at
-- most 60 s.
pub deny_backoff-min :
    (count : ℕ) (at : Time)
    → deny_backoff (some (record { count = suc count; last_attempt = at }))
      ≡ min (60 * second) (5 * second * 2 ^ count)
unfolding deny_backoff
deny_backoff-min count at =
    let positive : (suc count == 0) ≡ false = ground arith in
    let rounds : suc count - 1 ≡ count = omega arith in
    rw (positive, rounds) (grow-min count (5 * second) (omega arith))
