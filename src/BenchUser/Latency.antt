-- ===== src/BenchUser/Latency.antt =====
-- server/test_user.cpp, `receiving_loop`: the latencies at its end.
use native.Mathlib.Nat.{le-div_iff_mul-le, div-le_of_le-mul}
use distributed_computing_fr.Prelude.{
  ℕ, ◌+◌, ◌/◌, ◌^◌, ◌<◌, ◌≤◌, ◌≡◌, ◌≢◌, ◌⊎◌, subst, true, some, some_injective, List, [], ◌∷◌,
  length, Option-cases, inl, inr, arith,
}
use distributed_computing_fr.BenchUser.{
  Stats, finished, failed, Bench, start_bench, latency_avg, BenchEvent, input_sent, send_failed,
  receive_failed, result_came, bench_step, bench_steps,
}
use distributed_computing_fr.BenchUser.Counting.{latencies, IsCounted}
use distributed_computing_fr.BenchUser.Running.{bench_step-IsNext}

latencies_cons :
    (e : BenchEvent) (es : List BenchEvent) → latencies (e ∷ es) ≡ latencies (e ∷ []) + latencies es
latencies_cons (input_sent time_is_up) es = omega arith
latencies_cons send_failed es = omega arith
latencies_cons receive_failed es = omega arith
latencies_cons (result_came check latency) es = omega arith

bench_steps-IsCounted :
    (es : List BenchEvent) (b b' : Bench)
    → IsCounted b
    → b.messages_sent + length es < 2 ^ 64
    → b.stats.messages_received + length es < 2 ^ 64
    → b.stats.total_latency + latencies es < 2 ^ 64
    → bench_steps es b ≡ some b'
    → IsCounted b'
unfolding bench_steps
bench_steps-IsCounted [] b b' h few_sent few small e = subst IsCounted (some_injective e) h
bench_steps-IsCounted (e ∷ es) b b' h few_sent few small ran =
    elim (Option-cases (bench_step e b)) [
      | inl stuck ↦ absurd (ground (arith, ran, stuck))
      | inr (b₁, stepped) ↦
          let (counted, sent_le, received_le, total) =
            bench_step-IsNext e b b₁ h (omega (arith, few_sent)) (omega (arith, few))
              (omega (arith, small, latencies_cons e es)) stepped in
          bench_steps-IsCounted es b₁ b' counted (omega (arith, few_sent, sent_le))
            (omega (arith, few, received_le)) (omega (arith, small, total, latencies_cons e es))
            (rw stepped at ran)
    ]

average_of :
    (s : Stats)
    → 0 < s.messages_received
    → latency_avg s ≡ some (s.total_latency / s.messages_received)
unfolding latency_avg
average_of s h = ground arith

-- What the two loops end with. If the receiving loop comes to its end, so has the sending loop before, at
-- least as many results were accepted as inputs were sent, and the average is there and lies between the
-- least and the greatest latency. If a loop returns -1, it has closed the connection; and after a
-- failed send the receiving loop never comes to its end.
abbrev pub Averages : Bench → Type 0
Averages b =
    (b.receiving ≡ finished
      → (b.sending ≡ finished)
        × (b.messages_sent ≤ b.stats.messages_received)
        × (average : ℕ) × (latency_avg b.stats ≡ some average)
        × (b.stats.latency_min ≤ average)
        × (average ≤ b.stats.latency_max))
    × ((b.sending ≡ failed) ⊎ (b.receiving ≡ failed) → b.closed ≡ true)
    × (b.sending ≡ failed → b.receiving ≢ finished)

-- In every run of the two loops, with sends and receives that fail and results that are refused, of fewer
-- than 2^64 steps and with latencies that sum up to less than 2^64: if the receiving loop has come to
-- its end, so has the sending loop, at least as many results were accepted as inputs were sent, and the
-- average is computed without a division by zero and lies between the least and the greatest latency.
-- If a loop has returned -1, the connection is closed; and if it was the sending loop, the receiving
-- loop has not come to its end.
pub bench_steps-Averages :
    (es : List BenchEvent) (b : Bench)
    → length es < 2 ^ 64
    → latencies es < 2 ^ 64
    → bench_steps es start_bench ≡ some b
    → Averages b
bench_steps-Averages es b few small ran =
    let ((low, high), (done, ended, closed)) =
      bench_steps-IsCounted es start_bench b start-IsCounted (omega (arith, few))
        (omega (arith, few)) (omega (arith, small)) ran in
    (
      (λ over.
          let (all_sent, all_back) = ended over in
          let some_back : 0 < b.stats.messages_received =
            omega (arith, all_back, (done all_sent).0) in
          (
            (done all_sent).1,
            all_back,
            b.stats.total_latency / b.stats.messages_received,
            average_of b.stats some_back,
            (le-div_iff_mul-le some_back).1 low,
            div-le_of_le-mul b.stats.messages_received high,
          )),
      closed,
      (λ lost over. absurd (cc (lost, (done (ended over).0).1))),
    )
  where
    start-IsCounted : IsCounted start_bench
    start-IsCounted = (
      (omega arith, omega arith),
      (
        (λ h. absurd (cc (h))),
        (λ h. absurd (cc (h))),
        (λ h. elim h [ inl f ↦ absurd (cc (f)) | inr f ↦ absurd (cc (f)) ]),
      ),
    )
