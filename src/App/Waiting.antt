-- ===== src/App/Waiting.antt =====
-- How long handleWebRTCOffer waits for the codec of a stream that it has started.
use media_stream.Base.{
  ℕ, zero, suc, ◌+◌, ◌*◌, ◌≤◌, ◌<◌, ◌≡◌, refl, subst, String, false, Option, some, arith, str_eq,
  eq_iff, ltb, inl, inr, Bool-cases,
}
use media_stream.App.Offers.{poll_interval, wait_codec}

-- The wait ends after round `k`: the codec was empty before, and is not if the time was not up.
pub record Waited (codec : ℕ → String) (max_wait first : ℕ) (o : Option ℕ) : Type 0 where
  pub rounds : ℕ
  pub returned : o ≡ some (rounds * poll_interval)
  pub bounded : rounds * poll_interval < max_wait + poll_interval
  pub started : first ≤ rounds
  pub empty_before : (j : ℕ) → first ≤ j → j < rounds → codec j ≡ ""
  pub found : rounds * poll_interval < max_wait → str_eq (codec rounds) "" ≡ false

Waited-here :
    (codec : ℕ → String) (max_wait i elapsed : ℕ) (o : Option ℕ)
    → o ≡ some elapsed
    → elapsed ≡ i * poll_interval
    → elapsed < max_wait + poll_interval
    → (elapsed < max_wait → str_eq (codec i) "" ≡ false)
    → Waited codec max_wait i o
Waited-here codec max_wait i elapsed o h e b f = record {
  rounds = i;
  returned = ground (arith, h, e);
  bounded = omega (arith, e, b);
  started = omega arith;
  empty_before = λ j l u. absurd (omega (arith, l, u));
  found = λ u. f (omega (arith, e, u));
}

Waited-later :
    (codec : ℕ → String) (max_wait i : ℕ) (o o' : Option ℕ)
    → o ≡ o'
    → codec i ≡ ""
    → Waited codec max_wait (suc i) o'
    → Waited codec max_wait i o
Waited-later codec max_wait i o o' h e w = record {
  rounds = w.rounds;
  returned = rw h w.returned;
  bounded = w.bounded;
  started = omega (arith, w.started);
  empty_before = λ j l u. elim (Bool-cases (ltb i j)) [
    | inl q ↦ w.empty_before j (ground (arith, q)) u
    | inr q ↦ (let same : i ≡ j = ground (arith, q, l) in subst (λ k. codec k ≡ "") same e)
  ];
  found = w.found;
}

wait_codec-Waited :
    (n : ℕ) (codec : ℕ → String) (max_wait i elapsed : ℕ)
    → elapsed ≡ i * poll_interval
    → max_wait ≤ (i + n) * poll_interval
    → elapsed < max_wait + poll_interval
    → Waited codec max_wait i (wait_codec (suc n) codec max_wait i elapsed)
unfolding wait_codec
wait_codec-Waited zero codec max_wait i elapsed e m b =
    Waited-here codec max_wait i elapsed (wait_codec (suc zero) codec max_wait i elapsed)
      (ground (arith, e, m)) e b (λ u. absurd (omega (arith, e, m, u)))
wait_codec-Waited (suc n) codec max_wait i elapsed e m b =
    let o = wait_codec (suc (suc n)) codec max_wait i elapsed in
    elim (Bool-cases (ltb elapsed max_wait)) [
      | inr q ↦
          Waited-here codec max_wait i elapsed o (rw (q, wait_codec) refl) e b
            (λ u. absurd (ground (arith, q, u)))
      | inl q ↦ elim (Bool-cases (str_eq (codec i) "")) [
        | inr c ↦ Waited-here codec max_wait i elapsed o (rw (q, c, wait_codec) refl) e b (λ u. c)
        | inl c ↦
            Waited-later codec max_wait i o
              (wait_codec (suc n) codec max_wait (suc i) (elapsed + poll_interval))
              (rw (q, c, wait_codec) refl) ((eq_iff (codec i) "").0 c)
              (wait_codec-Waited n codec max_wait (suc i) (elapsed + poll_interval)
                (omega (arith, e)) (omega (arith, m)) (ground (arith, q)))
      ]
    ]

-- The wait of handleWebRTCOffer ends, with one round of fuel more than the time has poll intervals,
-- rounded up. It has waited a whole number of intervals and less than one interval too long, and it
-- stops at the first round that finds a codec, or else when the time is up.
pub wait_is_bounded :
    (n max_wait : ℕ) (codec : ℕ → String)
    → max_wait ≤ n * poll_interval
    → Waited codec max_wait 0 (wait_codec (suc n) codec max_wait 0 0)
wait_is_bounded n max_wait codec h =
    wait_codec-Waited n codec max_wait 0 0 refl (omega (arith, h)) (omega arith)
