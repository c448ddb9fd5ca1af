-- ===== src/BenchUser/Running.antt =====
-- server/test_user.cpp, `sending_loop` and `receiving_loop`: each step of the two loops.

use distributed_computing_fr.Prelude.{
  ℕ, ◌+◌, ◌^◌, ◌<◌, ◌≤◌, ◌≡◌, ◌≢◌, ◌&&◌, refl, subst, Bool, true, false, Option, none, some,
  some_injective, List, [], ◌∷◌, leb, if◌then◌else◌, Bool-cases, inl, inr, arith,
}
use distributed_computing_fr.BenchUser.{
  ResultCheck, accepted, non_data, invalid_output_size, invalid_output_count, LoopPlace, running,
  finished, failed, Bench, count_result, BenchEvent, input_sent, send_failed, receive_failed,
  result_came, send_step, give_up, receive_step, bench_step,
}
use distributed_computing_fr.BenchUser.Counting.{
  latencies, count_result-IsBetween, IsEnded, IsCounted, IsNext,
}

-- Nothing has ended in a way that a running sending loop excludes.
not_ended :
    (b : Bench)
    → IsEnded b
    → b.sending ≡ running
    → (b.sending_done ≢ true) × (b.receiving ≢ finished)
not_ended b (done, ended, closed) goes =
    ((λ h. absurd (cc (goes, (done h).1))), (λ h. absurd (cc (goes, (done (ended h).0).1))))

send_step-IsNext :
    (sent : Option Bool) (place : LoopPlace) (b b' : Bench)
    → IsCounted b
    → b.messages_sent + 1 < 2 ^ 64
    → b.sending ≡ place
    → send_step sent place b ≡ some b'
    → IsNext send_failed b b'
unfolding send_step
send_step-IsNext (some true) running b b' (between, is_ended) few at_place e =
    let (_, not_received) = not_ended b is_ended at_place in
    subst (IsNext send_failed b) (some_injective e) (
      (
        between,
        (
          (λ _. (omega (arith, few), refl)),
          (λ h. absurd (not_received h)),
          (λ h. elim h [ inl f ↦ absurd (cc (f)) | inr f ↦ is_ended.2 (inr f) ]),
        ),
      ),
      omega arith,
      omega arith,
      omega arith,
    )
send_step-IsNext (some false) running b b' (between, is_ended) few at_place e =
    let (_, not_received) = not_ended b is_ended at_place in
    subst (IsNext send_failed b) (some_injective e) (
      (
        between,
        (
          (λ h. absurd (cc (h))),
          (λ h. absurd (not_received h)),
          (λ h. elim h [ inl f ↦ absurd (cc (f)) | inr f ↦ is_ended.2 (inr f) ]),
        ),
      ),
      omega arith,
      omega arith,
      omega arith,
    )
send_step-IsNext none running b b' (between, is_ended) few at_place e =
    let (not_done, not_received) = not_ended b is_ended at_place in
    subst (IsNext send_failed b) (some_injective e) (
      (between, ((λ h. absurd (not_done h)), (λ h. absurd (not_received h)), (λ _. refl))),
      omega arith,
      omega arith,
      omega arith,
    )
send_step-IsNext (some time_is_up) finished b b' h few at_place e = absurd (cc (e))
send_step-IsNext (some time_is_up) failed b b' h few at_place e = absurd (cc (e))
send_step-IsNext none finished b b' h few at_place e = absurd (cc (e))
send_step-IsNext none failed b b' h few at_place e = absurd (cc (e))

give_up-IsNext :
    (latency : ℕ) (check : ResultCheck) (b : Bench)
    → IsCounted b
    → IsNext (result_came check latency) b (give_up b)
give_up-IsNext latency check b (between, (done, ended, closed)) =
    ((between, (done, (λ h. absurd (cc (h))), (λ _. refl))), omega arith, omega arith, omega arith)

both : (done : Bool) (x y : ℕ) → (done && leb x y) ≡ true → (done ≡ true) × (x ≤ y)
both true x y h = (refl, ground (arith, h))
both false x y h = absurd (cc (h))

closes :
    (done : Bool) (x y : ℕ)
    → (if done && leb x y then finished else running) ≡ finished
    → (done ≡ true) × (x ≤ y)
closes done x y h = elim (Bool-cases (done && leb x y)) [
  | inl all ↦ both done x y all
  | inr some_left ↦ absurd (cc (rw some_left at h))
]

not_failed : (c : Bool) → (if c then finished else running) ≢ failed
not_failed true h = absurd (cc (h))
not_failed false h = absurd (cc (h))

accepted-IsNext :
    (create_time : List ℕ) (latency : ℕ) (b b' : Bench)
    → IsCounted b
    → b.stats.messages_received + 1 < 2 ^ 64
    → b.stats.total_latency + latency < 2 ^ 64
    → receive_step (some (accepted create_time, latency)) running b ≡ some b'
    → IsNext (result_came (accepted create_time) latency) b b'
unfolding receive_step
accepted-IsNext create_time latency b b' (between, (done, ended, closed)) few small e =
    let (between', one_more, summed) = count_result-IsBetween latency b.stats between few small in
    subst (IsNext (result_came (accepted create_time) latency) b) (some_injective e) (
      (
        between',
        (
          done,
          (λ h.
              closes b.sending_done b.messages_sent (count_result latency b.stats).messages_received
                h),
          (λ h. elim h [ inl f ↦ closed (inl f) | inr f ↦ absurd (not_failed _ f) ]),
        ),
      ),
      omega arith,
      omega (arith, one_more),
      omega (arith, summed),
    )

receive_step-stuck :
    (check : ResultCheck) (latency : ℕ) (place : LoopPlace) (b b' : Bench)
    → place ≢ running
    → receive_step (some (check, latency)) place b ≢ some b'
unfolding receive_step
receive_step-stuck check latency running b b' h e = h refl
receive_step-stuck (accepted create_time) latency finished b b' h e = absurd (cc (e))
receive_step-stuck non_data latency finished b b' h e = absurd (cc (e))
receive_step-stuck invalid_output_size latency finished b b' h e = absurd (cc (e))
receive_step-stuck invalid_output_count latency finished b b' h e = absurd (cc (e))
receive_step-stuck (accepted create_time) latency failed b b' h e = absurd (cc (e))
receive_step-stuck non_data latency failed b b' h e = absurd (cc (e))
receive_step-stuck invalid_output_size latency failed b b' h e = absurd (cc (e))
receive_step-stuck invalid_output_count latency failed b b' h e = absurd (cc (e))

receive_step-IsNext :
    (check : ResultCheck) (latency : ℕ) (place : LoopPlace) (b b' : Bench)
    → IsCounted b
    → b.stats.messages_received + 1 < 2 ^ 64
    → b.stats.total_latency + latency < 2 ^ 64
    → receive_step (some (check, latency)) place b ≡ some b'
    → IsNext (result_came check latency) b b'
unfolding receive_step
receive_step-IsNext (accepted create_time) latency running b b' h few small e =
    accepted-IsNext create_time latency b b' h few small e
receive_step-IsNext non_data latency running b b' h few small e =
    subst (IsNext (result_came non_data latency) b) (some_injective e)
      (give_up-IsNext latency non_data b h)
receive_step-IsNext invalid_output_size latency running b b' h few small e =
    subst (IsNext (result_came invalid_output_size latency) b) (some_injective e)
      (give_up-IsNext latency invalid_output_size b h)
receive_step-IsNext invalid_output_count latency running b b' h few small e =
    subst (IsNext (result_came invalid_output_count latency) b) (some_injective e)
      (give_up-IsNext latency invalid_output_count b h)
receive_step-IsNext check latency finished b b' h few small e =
    absurd (receive_step-stuck check latency finished b b' (λ r. absurd (cc (r))) e)
receive_step-IsNext check latency failed b b' h few small e =
    absurd (receive_step-stuck check latency failed b b' (λ r. absurd (cc (r))) e)

receive_failed-IsNext :
    (place : LoopPlace) (b b' : Bench)
    → IsCounted b
    → receive_step none place b ≡ some b'
    → IsNext receive_failed b b'
unfolding receive_step
receive_failed-IsNext running b b' h e =
    subst (IsNext receive_failed b) (some_injective e) (give_up-IsNext 0 non_data b h)
receive_failed-IsNext finished b b' h e = absurd (cc (e))
receive_failed-IsNext failed b b' h e = absurd (cc (e))

pub bench_step-IsNext :
    (e : BenchEvent) (b b' : Bench)
    → IsCounted b
    → b.messages_sent + 1 < 2 ^ 64
    → b.stats.messages_received + 1 < 2 ^ 64
    → b.stats.total_latency + latencies (e ∷ []) < 2 ^ 64
    → bench_step e b ≡ some b'
    → IsNext e b b'
unfolding bench_step
bench_step-IsNext (input_sent time_is_up) b b' h few_sent few small e =
    send_step-IsNext (some time_is_up) b.sending b b' h few_sent refl e
bench_step-IsNext send_failed b b' h few_sent few small e =
    send_step-IsNext none b.sending b b' h few_sent refl e
bench_step-IsNext (result_came check latency) b b' h few_sent few small e =
    receive_step-IsNext check latency b.receiving b b' h few (omega (arith, small)) e
bench_step-IsNext receive_failed b b' h few_sent few small e =
    receive_failed-IsNext b.receiving b b' h e
