-- ===== src/Outbox/Delay.antt =====
-- The delay before a retry, and the error text that is stored with it.
use essentials_merchant.Base.{
  ℕ, ◌-◌, ◌*◌, ◌^◌, ◌≤◌, min, String, Char, ◌≡◌, inl, inr, true, not, arith, clamp, le-clamp,
  clamp-le, i32_max, saturating_mul, pow_two_pos, pow_two_mono, is_control, map_chars, count_chars,
  all_chars, count_chars-take_chars, all_chars-take_chars, all_chars-map_chars, Bool-cases,
}
use essentials_merchant.Outbox.{
  OutboxPolicy, delay_seconds, sanitize_integration_error, space_for_control,
}

product_pos : (a b : ℕ) → 1 ≤ a → 1 ≤ b → 1 ≤ a * b
product_pos a b h k = grind arith

delay_core :
    (base top power : ℕ)
    → 1 ≤ base
    → 1 ≤ top
    → top ≤ 86400
    → 1 ≤ power
    → power ≤ 1048576
    → let delay = min (saturating_mul base (min power i32_max)) top in
      (delay ≡ min (base * power) top) × (1 ≤ delay) × (delay ≤ 86400)
delay_core base top power b t m p q = rw (small power q) (
  omega (arith, product_pos base power b p),
  omega (arith, product_pos base power b p),
  omega arith,
)
  where
    small : (n : ℕ) → n ≤ 1048576 → min n i32_max ≡ n
    small n h = omega arith

-- The delay doubles with each attempt, up to twenty times, and stays between one second and the
-- policy's maximum, a day at most: the saturation of i32 never shows.
pub delay_seconds-eq :
    (policy : OutboxPolicy) (attempts : ℕ)
    → let delay = delay_seconds policy attempts in
      (delay
        ≡ min
            (clamp 1 3600 policy.retry_base_seconds * 2 ^ min (attempts - 1) 20)
            (clamp 1 86400 policy.retry_max_seconds))
      × (1 ≤ delay)
      × (delay ≤ 86400)
unfolding delay_seconds
delay_seconds-eq policy attempts =
    let base = clamp 1 3600 policy.retry_base_seconds in
    let top = clamp 1 86400 policy.retry_max_seconds in
    let power = 2 ^ min (attempts - 1) 20 in
    delay_core base top power (le-clamp 1 3600 policy.retry_base_seconds (omega arith))
      (le-clamp 1 86400 policy.retry_max_seconds (omega arith))
      (clamp-le 1 86400 policy.retry_max_seconds (omega arith))
      (pow_two_pos (min (attempts - 1) 20)) (pow_two_mono (min (attempts - 1) 20) 20 (omega arith))

space_for_control-clean : (c : Char) → not (is_control (space_for_control c)) ≡ true
unfolding space_for_control
space_for_control-clean c = elim (Bool-cases (is_control c)) [
  | inl hit ↦ rw hit
  | inr miss ↦ rw (miss, miss)
]

-- A stored integration error has at most 512 characters, none of them a control character.
pub sanitize_integration_error_clean :
    (error : String)
    → (count_chars (sanitize_integration_error error) ≤ 512)
      × (all_chars (λ c. not (is_control c)) (sanitize_integration_error error) ≡ true)
unfolding sanitize_integration_error
sanitize_integration_error_clean error = (
  count_chars-take_chars 512 (map_chars space_for_control error),
  all_chars-take_chars _ 512 (map_chars space_for_control error)
      (all_chars-map_chars _ space_for_control error space_for_control-clean),
)
