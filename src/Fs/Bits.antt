-- ===== src/Fs/Bits.antt =====
-- The bits of a byte, as xv6-public/fs.c tests, sets and clears them.
use ele3021_spring.Common.{
  ℕ, zero, suc, ◌≡◌, ◌≢◌, ◌+◌, ◌*◌, ◌/◌, ◌%◌, refl, ap, ◌∙◌, true, false, ◌==◌, arith, ◌<◌,
}
use ele3021_spring.Fs.{test_bit, set_bit, clear_bit}

halves : (r w : ℕ) → r < 2 → (r + 2 * w) / 2 ≡ w
halves r w h = omega arith

parity : (r w : ℕ) → r < 2 → (r + 2 * w) % 2 ≡ r
parity r w h = omega arith

pub test-set : (v k : ℕ) → test_bit (set_bit v k) k ≡ true
unfolding test_bit set_bit
test-set v zero = ground arith
test-set v (suc k) =
    ap (λ (x : ℕ). test_bit x k) (halves (v % 2) (set_bit (v / 2) k) (omega arith))
    ∙ test-set (v / 2) k

pub test-set_ne : (v k j : ℕ) → k ≢ j → test_bit (set_bit v k) j ≡ test_bit v j
unfolding test_bit set_bit
test-set_ne v zero zero ne = absurd (ne refl)
test-set_ne v zero (suc j) ne = ap (λ (x : ℕ). test_bit x j) (omega arith)
test-set_ne v (suc k) zero ne =
    ap (λ (x : ℕ). x == 1) (parity (v % 2) (set_bit (v / 2) k) (omega arith))
test-set_ne v (suc k) (suc j) ne =
    ap (λ (x : ℕ). test_bit x j) (halves (v % 2) (set_bit (v / 2) k) (omega arith))
    ∙ test-set_ne (v / 2) k j (λ e. ne (ap suc e))

pub test-clear : (v k : ℕ) → test_bit (clear_bit v k) k ≡ false
unfolding test_bit clear_bit
test-clear v zero = ground arith
test-clear v (suc k) =
    ap (λ (x : ℕ). test_bit x k) (halves (v % 2) (clear_bit (v / 2) k) (omega arith))
    ∙ test-clear (v / 2) k

pub test-clear_ne : (v k j : ℕ) → k ≢ j → test_bit (clear_bit v k) j ≡ test_bit v j
unfolding test_bit clear_bit
test-clear_ne v zero zero ne = absurd (ne refl)
test-clear_ne v zero (suc j) ne = ap (λ (x : ℕ). test_bit x j) (omega arith)
test-clear_ne v (suc k) zero ne =
    ap (λ (x : ℕ). x == 1) (parity (v % 2) (clear_bit (v / 2) k) (omega arith))
test-clear_ne v (suc k) (suc j) ne =
    ap (λ (x : ℕ). test_bit x j) (halves (v % 2) (clear_bit (v / 2) k) (omega arith))
    ∙ test-clear_ne (v / 2) k j (λ e. ne (ap suc e))

-- Setting a clear bit and clearing it again gives the byte back.
pub clear-set : (v k : ℕ) → test_bit v k ≡ false → clear_bit (set_bit v k) k ≡ v
unfolding test_bit set_bit clear_bit
clear-set v zero h = ground (arith, h)
clear-set v (suc k) h =
    let w = set_bit (v / 2) k in
    ap (λ (x : ℕ). (v % 2 + 2 * w) % 2 + 2 * clear_bit x k) (halves (v % 2) w (omega arith))
    ∙ omega (arith, clear-set (v / 2) k h, parity (v % 2) w (omega arith))
