-- ===== src/BenchUser/Counting.antt =====
-- server/test_user.cpp, `receiving_loop`: the sums of the latencies.
use native.Mathlib.Nat.{mul-le-mul_right, mul-le-mul_left}
use distributed_computing_fr.Prelude.{
  ℕ, ◌+◌, ◌*◌, ◌%◌, ◌^◌, ◌<◌, ◌≤◌, ◌≡◌, ◌⊎◌, true, false, List, [], ◌∷◌, ltb, if◌then◌else◌,
  Bool-cases, inl, inr, arith,
}
use distributed_computing_fr.BenchUser.{
  Stats, finished, failed, Bench, count_result, BenchEvent, input_sent, send_failed, receive_failed,
  result_came,
}

-- The latencies of all results together.
abbrev pub latencies : List BenchEvent → ℕ
latencies [] = 0
latencies (input_sent time_is_up ∷ es) = latencies es
latencies (send_failed ∷ es) = latencies es
latencies (receive_failed ∷ es) = latencies es
latencies (result_came check latency ∷ es) = latency + latencies es

-- The sum of the latencies lies between as many times the least and the greatest of them.
abbrev pub IsBetween : Stats → Type 0
IsBetween s =
    (s.latency_min * s.messages_received ≤ s.total_latency)
    × (s.total_latency ≤ s.messages_received * s.latency_max)

count_lower :
    (latency least r total : ℕ)
    → least * r ≤ total
    → (if ltb latency least then latency else least) * (r + 1) ≤ total + latency
count_lower latency least r total low = elim (Bool-cases (ltb latency least)) [
  | inl less ↦
      rw less (
        let le : latency ≤ least = ground (arith, less) in
        omega (arith, low, mul-le-mul_right r le))
  | inr more ↦ rw more (omega (arith, low, above more))
]
  where
    above : ltb latency least ≡ false → least ≤ latency
    above more = ground (arith, more)

count_upper :
    (latency greatest r total : ℕ)
    → total ≤ r * greatest
    → total + latency ≤ (r + 1) * (if ltb greatest latency then latency else greatest)
count_upper latency greatest r total high = elim (Bool-cases (ltb greatest latency)) [
  | inl less ↦ rw less (
      let le : greatest ≤ latency = ground (arith, less) in
      omega (arith, high, mul-le-mul_left r le))
  | inr more ↦ rw more (omega (arith, high, below more))
]
  where
    below : ltb greatest latency ≡ false → latency ≤ greatest
    below more = ground (arith, more)

pub count_result-IsBetween :
    (latency : ℕ) (s : Stats)
    → IsBetween s
    → s.messages_received + 1 < 2 ^ 64
    → s.total_latency + latency < 2 ^ 64
    → IsBetween (count_result latency s)
      × ((count_result latency s).messages_received ≡ s.messages_received + 1)
      × ((count_result latency s).total_latency ≡ s.total_latency + latency)
unfolding count_result
count_result-IsBetween latency s (low, high) few small =
    let one_more : (s.messages_received + 1) % 2 ^ 64 ≡ s.messages_received + 1 =
      omega (arith, few) in
    let summed : (s.total_latency + latency) % 2 ^ 64 ≡ s.total_latency + latency =
      omega (arith, small) in
    (
      rw (one_more, summed)
          (
            count_lower latency s.latency_min s.messages_received s.total_latency low,
            count_upper latency s.latency_max s.messages_received s.total_latency high,
          ),
      one_more,
      summed,
    )

-- What a loop that has ended says. The receiving loop has come to its end only after the sending is done
-- and as many results were accepted as inputs were sent, at least one; and a loop that has returned -1
-- has closed the connection.
abbrev pub IsEnded : Bench → Type 0
IsEnded b =
    (b.sending_done ≡ true → (0 < b.messages_sent) × (b.sending ≡ finished))
    × (b.receiving ≡ finished
        → (b.sending_done ≡ true) × (b.messages_sent ≤ b.stats.messages_received))
    × ((b.sending ≡ failed) ⊎ (b.receiving ≡ failed) → b.closed ≡ true)

abbrev pub IsCounted : Bench → Type 0
IsCounted b = IsBetween b.stats × IsEnded b

abbrev pub IsNext : BenchEvent → Bench → Bench → Type 0
IsNext e b b' =
    IsCounted b'
    × (b'.messages_sent ≤ b.messages_sent + 1)
    × (b'.stats.messages_received ≤ b.stats.messages_received + 1)
    × (b'.stats.total_latency ≤ b.stats.total_latency + latencies (e ∷ []))
