-- ===== src/Runner/Stagger.antt =====
-- `stagger` of runner.go, and the 64-bit FNV-1a hash of hash/fnv.
use Prim.Native.Nat.{bit_xor}
use ducklake_metrics_daemon.Prelude.{
  ◌⊎◌, ℕ, zero, suc, inl, inr, ◌⊎◌, ◌*◌, ◌%◌, ◌^◌, ◌≡◌, refl, [], ◌∷◌, arith, if◌then◌else◌,
}
use ducklake_metrics_daemon.Prelude.Int.{ℤ, pos, negsuc, pos_part, ltb_ℤ, ◌≤ℤ◌, ◌<ℤ◌}
use ducklake_metrics_daemon.Prelude.Text.{Text, codes}

-- One byte of the hash, in uint64.
fnv_write : ℕ → Text → ℕ
fnv_write h [] = h
fnv_write h (b ∷ s) = fnv_write (bit_xor h b * 1099511628211 % 2 ^ 64) s

unfoldable pub fnv1a : Text → ℕ
unfolding fnv_write
fnv1a s = fnv_write 14695981039346656037 s

-- A remainder by a positive int64 fits an int64, so the conversions change nothing.
unfoldable pub stagger : Text → ℤ → ℤ
stagger tenant interval =
    if ltb_ℤ (pos 0) interval then pos (fnv1a tenant % pos_part interval) else pos 0

-- A positive interval gives an offset from 0 on and below the interval; any other gives 0.
pub stagger_bounds :
    (tenant : Text) (interval : ℤ)
    → ((pos 0 <ℤ interval)
        × (pos 0 ≤ℤ stagger tenant interval)
        × (stagger tenant interval <ℤ interval))
      ⊎ ((interval ≤ℤ pos 0) × (stagger tenant interval ≡ pos 0))
unfolding stagger
stagger_bounds tenant (negsuc k) = inr (omega arith, ground arith)
stagger_bounds tenant (pos zero) = inr (omega arith, ground arith)
stagger_bounds tenant (pos (suc k)) = inl (omega arith, ground arith, ground arith)

fnv1a-a : fnv1a (codes "a") ≡ 0xaf63dc4c8601ec8c
unfolding fnv1a
fnv1a-a = refl
