-- ===== src/Generator/EventId/Unique.antt =====
-- No generator emits an event id twice, and two generators share ids only if they share a prefix.
use mathlib.Core.List.{append_cancel_left}
use live_data_architecture.Base.{
  ℕ, zero, suc, ◌+◌, ◌*◌, ◌%◌, ◌^◌, ◌<◌, ◌≡◌, ◌≢◌, refl, ap, List, ◌++◌, arith,
}
use live_data_architecture.Generator.Hex.{
  format_hex, parse_hex, parse_hex-append, parse_hex-format_hex, parse_hex-format_hex_after,
}
use live_data_architecture.Generator.EventId.{
  IdSource, event_id_counter_modulus, permuted_counter, event_id, choose_event_id,
}
use live_data_architecture.Generator.Hex.{codes}

-- The multiplier is odd, so it has an inverse modulo 2^64.
abbrev counter_inverse : ℕ
counter_inverse = 0xf1de83e19937733d

permuted_counter_inverse :
    (n : ℕ)
    → n < event_id_counter_modulus
    → permuted_counter n * counter_inverse % event_id_counter_modulus ≡ n
unfolding permuted_counter
permuted_counter_inverse n h = omega arith

permuted_counter-lt : (n : ℕ) → permuted_counter n < 16 ^ 16
unfolding permuted_counter
permuted_counter-lt n = omega arith

-- The digits of an id, read as one number.
id_digits : ℕ → ℕ → List ℕ
id_digits prefix sequence = format_hex 8 prefix ++ format_hex 16 (permuted_counter sequence)

parse_hex-id_digits :
    (prefix sequence : ℕ)
    → parse_hex 0 (id_digits prefix sequence) ≡ prefix * 16 ^ 16 + permuted_counter sequence
unfolding id_digits
parse_hex-id_digits prefix sequence = omega (
  arith,
  parse_hex-append 0 (format_hex 8 prefix) (format_hex 16 (permuted_counter sequence)),
  parse_hex-format_hex_after 16 (parse_hex 0 (format_hex 8 prefix)) (permuted_counter sequence)
      (permuted_counter-lt sequence),
  parse_hex-format_hex 8 prefix,
)

same-id_digits :
    (p q i j : ℕ)
    → event_id p i ≡ event_id q j
    → parse_hex 0 (id_digits p i) ≡ parse_hex 0 (id_digits q j)
unfolding event_id id_digits
same-id_digits p q i j e = ap (parse_hex 0) (append_cancel_left (codes "evt_") _ _ e)

-- An event id determines the prefix of the generator that made it and the number of the event
-- below 2^64.
pub event_id-injective :
    (p q i j : ℕ)
    → i < event_id_counter_modulus
    → j < event_id_counter_modulus
    → event_id p i ≡ event_id q j
    → (p ≡ q) × (i ≡ j)
event_id-injective p q i j hi hj e =
    let same : p * 16 ^ 16 + permuted_counter i ≡ q * 16 ^ 16 + permuted_counter j =
      omega (arith, same-id_digits p q i j e, parse_hex-id_digits p i, parse_hex-id_digits q j) in
    let counters : permuted_counter i ≡ permuted_counter j =
      omega (arith, same, permuted_counter-lt i, permuted_counter-lt j) in
    (
      omega (arith, same, counters),
      omega (arith, permuted_counter_inverse i hi, permuted_counter_inverse j hj, counters),
    )

-- The generator's counter after some calls.
pub after : ℕ → IdSource → IdSource
after zero g = g
after (suc k) g = after k (choose_event_id g).1

after_counts :
    (k : ℕ) (g : IdSource)
    → ((after k g).event_sequence ≡ g.event_sequence + k)
      × ((after k g).event_id_prefix ≡ g.event_id_prefix)
unfolding after choose_event_id
after_counts zero g = (omega arith, refl)
after_counts (suc k) g = ground (arith, after_counts k (choose_event_id g).1)

choose_event_id_lem :
    (g : IdSource) → (choose_event_id g).0 ≡ event_id g.event_id_prefix (g.event_sequence + 1)
unfolding choose_event_id
choose_event_id_lem g = refl

nth_id :
    (k : ℕ) (g : IdSource)
    → (choose_event_id (after k g)).0 ≡ event_id g.event_id_prefix (g.event_sequence + k + 1)
nth_id k g = cc (choose_event_id_lem (after k g), (after_counts k g).0, (after_counts k g).1)

-- Two calls of `_choose_event_id` on one generator never return the same id, while the counter
-- stays below 2^64.
pub choose_event_id_fresh :
    (g : IdSource) (i j : ℕ)
    → i < j
    → g.event_sequence + j + 1 < event_id_counter_modulus
    → (choose_event_id (after i g)).0 ≢ (choose_event_id (after j g)).0
choose_event_id_fresh g i j lt h e = omega (
  arith,
  (event_id-injective g.event_id_prefix g.event_id_prefix (g.event_sequence + i + 1)
      (g.event_sequence + j + 1) (omega arith) h (cc (nth_id i g, nth_id j g))).1,
)
