-- ===== src/Worker/Backoff.antt =====
-- internal/worker/worker.go: the delays of `backoff`.
use native.Mathlib.Nat.{pow-succ'}
use device_telemetry_ro.Prelude.{
  leb, if◌then◌else◌, Bool-cases, ℕ, zero, suc, ◌-◌, ◌*◌, ◌^◌, ◌≤◌, ◌<◌, ◌≡◌, sym, ap, ◌∙◌, inl,
  inr, Bool, true, arith,
}
use device_telemetry_ro.Prelude.Int.{ℤ, pos, ltb_ℤ, double64, double64_exact}
use device_telemetry_ro.Parser.{minute}
use device_telemetry_ro.Worker.{backoff_loop, backoff}

abbrev pub smaller : ℕ → ℕ → ℕ
smaller a b = if leb a b then a else b

-- One round of the loop on a delay within the ceiling.
double_round : (b : ℕ) → b ≤ minute → double64 (pos b) ≡ pos (b * 2)
double_round b h = double64_exact b (omega arith)

-- `b`, doubled `n` times.
unfoldable pub doubled : ℕ → ℕ → ℕ
doubled zero b = b
doubled (suc n) b = 2 * doubled n b

le_doubled : (n b : ℕ) → b ≤ doubled n b
unfolding doubled
le_doubled zero b = omega arith
le_doubled (suc n) b = omega (arith, le_doubled n b)

doubled-twice : (n b : ℕ) → doubled n (b * 2) ≡ doubled (suc n) b
unfolding doubled
doubled-twice zero b = omega arith
doubled-twice (suc n) b = omega (arith, doubled-twice n b)

backoff_loop-step :
    (n b : ℕ)
    → b ≤ minute
    → backoff_loop (suc n) (pos b)
      ≡ (if ltb_ℤ (pos minute) (pos (b * 2)) then pos minute else backoff_loop n (pos (b * 2)))
unfolding backoff_loop
backoff_loop-step n b h =
    ap (λ (z : ℤ). if ltb_ℤ (pos minute) z then pos minute else backoff_loop n z) (double_round b h)

below_ceiling : (b : ℕ) → b ≤ minute → backoff_loop 0 (pos b) ≡ pos (smaller (doubled 0 b) minute)
unfolding backoff_loop doubled
below_ceiling b h = ground arith

over_ceiling : (n b : ℕ) → ltb_ℤ (pos minute) (pos (b * 2)) ≡ true → minute ≤ doubled (suc n) b
over_ceiling n b e =
    let l : minute < b * 2 = ground arith in omega (arith, doubled-twice n b, le_doubled n (b * 2))

smaller-capped : (x : ℕ) → minute ≤ x → smaller x minute ≡ minute
smaller-capped x h = ground arith

swap_two : (b x : ℕ) → 2 * (b * x) ≡ b * (2 * x)
swap_two b x = omega arith

doubled-power : (n b : ℕ) → doubled n b ≡ b * 2 ^ n
unfolding doubled
doubled-power zero b = omega arith
doubled-power (suc n) b =
    ap (λ (x : ℕ). 2 * x) (doubled-power n b)
    ∙ swap_two b (2 ^ n)
    ∙ ap (λ (x : ℕ). b * x) (sym (pow-succ' 2 n))

-- The loop from a delay within the ceiling never wraps.
backoff_loop-smaller :
    (n b : ℕ) → b ≤ minute → backoff_loop n (pos b) ≡ pos (smaller (doubled n b) minute)
backoff_loop-smaller zero b h = below_ceiling b h
backoff_loop-smaller (suc n) b h = elim (Bool-cases (ltb_ℤ (pos minute) (pos (b * 2)))) [
  | inl e ↦
      backoff_loop-step n b h
      ∙ ap (λ (t : Bool). if t then pos minute else backoff_loop n (pos (b * 2))) e
      ∙ ap pos (sym (smaller-capped _ (over_ceiling n b e)))
  | inr e ↦
      backoff_loop-step n b h
      ∙ ap (λ (t : Bool). if t then pos minute else backoff_loop n (pos (b * 2))) e
      ∙ backoff_loop-smaller n (b * 2) (ground arith)
      ∙ ap (λ (x : ℕ). pos (smaller x minute)) (doubled-twice n b)
]

sub_one : (n : ℕ) → suc n - 1 ≡ n
sub_one n = omega arith

-- `backoff` is the base delay doubled once for each attempt after the first, and at most one minute:
-- for a base delay that is itself at most one minute, and any attempt from the first on.
pub backoff-smaller :
    (base attempt : ℕ)
    → base ≤ minute
    → backoff (pos base) (suc attempt) ≡ pos (smaller (base * 2 ^ attempt) minute)
unfolding backoff
backoff-smaller base attempt h =
    ap (λ (n : ℕ). backoff_loop n (pos base)) (sub_one attempt)
    ∙ backoff_loop-smaller attempt base h
    ∙ ap (λ (x : ℕ). pos (smaller x minute)) (doubled-power attempt base)
