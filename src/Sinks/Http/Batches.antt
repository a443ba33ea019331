-- ===== src/Sinks/Http/Batches.antt =====
-- The batches of `take_batch` in crates/rrjj-sinks/src/http.rs.
use rrjj.Prelude.{
  ℕ, zero, suc, ◌+◌, ◌≤◌, ◌<◌, ◌≡◌, ◌≢◌, refl, subst, ap, sym, ◌∙◌, Bool, true, false, ◌&&◌, String,
  List, [], ◌∷◌, ◌++◌, arith, inl, inr, ◌⊎◌, ltb, ◌==◌, if◌then◌else◌, length, take, drop, min,
  take-append-drop,
}
use rrjj.Prelude.Action.{Result, ok, err, and_then, map_err}
use rrjj.Schema.{Event}
use rrjj.Sinks.Error.{SinkError}
use rrjj.Sinks.Util.{Encoder}
use rrjj.Sinks.Http.{fit, take_batch, at_least_one}

module _ (encode : Encoder) where
  -- The bytes of one event's JSON, and of a list of events that follows `count` others in an array.
  abbrev pub line_size : Result String (List ℕ) → ℕ
  line_size (ok line) = length line
  line_size (err e) = 0

  abbrev pub tail_size : ℕ → List Event → ℕ
  tail_size count [] = 0
  tail_size count (e ∷ es) =
      line_size (encode e) + (if count == 0 then 0 else 1) + tail_size (count + 1) es

  -- The bytes of a JSON array: the brackets, the events and the commas between them.
  abbrev pub array_size : List Event → ℕ
  array_size es = 2 + tail_size 0 es

  -- What the loop has counted.
  record Counts (max_bytes more : ℕ) (events : List Event) (bytes count n : ℕ) : Type 0 where
    taken : ℕ
    total : n ≡ count + taken
    few : taken ≤ more
    there : taken ≤ length events
    fits : 0 < n → bytes + tail_size count (take taken events) ≤ max_bytes
    some_taken : 0 < count + more → 0 < count + length events → 0 < n

  stop :
      (max_bytes more : ℕ) (events : List Event) (bytes count n : ℕ)
      → n ≡ count
      → (0 < count → bytes ≤ max_bytes)
      → (0 < count + more → 0 < count + length events → 0 < n)
      → Counts max_bytes more events bytes count n
  stop max_bytes more events bytes count n same small h = record {
    taken = 0;
    total = omega (arith, same);
    few = omega arith;
    there = omega arith;
    fits = λ p. omega (arith, small (omega (arith, p, same)));
    some_taken = h;
  }

  count_one :
      (max_bytes more : ℕ) (e : Event) (es : List Event) (bytes count n : ℕ) (line : List ℕ)
      → encode e ≡ ok line
      → Counts max_bytes more es
          (bytes + (length line + (if count == 0 then 0 else 1)))
          (count + 1)
          n
      → Counts max_bytes (suc more) (e ∷ es) bytes count n
  count_one max_bytes more e es bytes count n line q r = record {
    taken = suc r.taken;
    total = omega (arith, r.total);
    few = omega (arith, r.few);
    there = omega (arith, r.there);
    fits = λ p. rw q (omega (arith, r.fits p));
    some_taken = λ p q. omega (arith, r.total);
  }

  ok_inj : {A : Type 0} {a b : A} → ◌≡◌ {A = Result SinkError A} (ok a) (ok b) → a ≡ b
  ok_inj h = cc

  same_count : (a b : ℕ) → ◌≡◌ {A = Result SinkError ℕ} (ok a) (ok b) → b ≡ a
  same_count a b h = cc

  choose :
      (b1 b2 : Bool) (n : ℕ) (stopped : ℕ) (e : SinkError) (rest : Result SinkError ℕ)
      → (if b1 then ok stopped else if b2 then err e else rest) ≡ ok n
      → ((b1 ≡ true) × (n ≡ stopped)) ⊎ ((b1 ≡ false) × (b2 ≡ false) × (rest ≡ ok n))
  choose true b2 n stopped e rest h = inl (refl, cc)
  choose false true n stopped e rest h = cc
  choose false false n stopped e rest h = inr (refl, refl, h)

  fit-Counts :
      (max_bytes more : ℕ) (events : List Event) (bytes count n : ℕ)
      → fit encode max_bytes more events bytes count ≡ ok n
      → (0 < count → bytes ≤ max_bytes)
      → (count ≡ 0 → bytes ≡ 2)
      → Counts max_bytes more events bytes count n
  unfolding fit
  fit-Counts max_bytes zero events bytes count n h small first =
      stop max_bytes zero events bytes count n (cc) small
        (λ p q. omega (arith, same_count count n h, p, q))
  fit-Counts max_bytes (suc more) [] bytes count n h small first =
      stop max_bytes (suc more) [] bytes count n (cc) small
        (λ p q. omega (arith, same_count count n h, p, q))
  fit-Counts max_bytes (suc more) (e ∷ es) bytes count n h small first =
      go (encode e) refl h (λ b. fit-Counts max_bytes more es b (count + 1) n)
    where
      go :
          (r : Result String (List ℕ))
          → encode e ≡ r
          → and_then (map_err SinkError.serialize r) (λ encoded.
            let extra = length encoded + (if count == 0 then 0 else 1) in
            let rest = fit encode max_bytes more es (bytes + extra) (count + 1) in
            if ltb 0 count && ltb max_bytes (bytes + extra)
            then ok count
            else if count == 0 && ltb max_bytes (length encoded + 2)
            then err (SinkError.invalid_flush "single event exceeds HTTP batch byte limit")
            else rest)
            ≡ ok n
          → ((b : ℕ)
              → fit encode max_bytes more es b (count + 1) ≡ ok n
              → (0 < count + 1 → b ≤ max_bytes)
              → (count + 1 ≡ 0 → b ≡ 2)
              → Counts max_bytes more es b (count + 1) n)
          → Counts max_bytes (suc more) (e ∷ es) bytes count n
      go (err x) q g ih = cc
      go (ok line) q g ih =
          elim (choose
            (ltb 0 count && ltb max_bytes (bytes + (length line + (if count == 0 then 0 else 1))))
            (count == 0 && ltb max_bytes (length line + 2)) n count _ _ g) [
              | inl (full, same) ↦
                  stop max_bytes (suc more) (e ∷ es) bytes count n same small (λ p q. ground arith)
              | inr (b1, b2, rest) ↦
                  count_one max_bytes more e es bytes count n line q
                    (ih _ rest (λ p. ground (arith, first)) (λ z. absurd (omega (arith, z))))
            ]

  -- A batch: the first events, at least one, within the limits.
  pub record IsBatch (max_events max_bytes : ℕ) (events batch : List Event) : Type 0 where
    pub rest : List Event
    pub split : batch ++ rest ≡ events
    pub some_event : 0 < length batch
    pub few : length batch ≤ max_events
    pub small : array_size batch ≤ max_bytes

  length-take : {A : Type 0} (n : ℕ) (xs : List A) → n ≤ length xs → length (take n xs) ≡ n
  length-take zero xs h = refl
  length-take (suc n) [] h = absurd (omega (arith, h))
  length-take (suc n) (x ∷ xs) h = omega (arith, length-take n xs (omega (arith, h)))

  counted :
      (count taken : ℕ) (events : List Event)
      → count ≡ 0 + taken
      → 0 < count
      → taken ≤ length events
      → min (at_least_one count) (length events) ≡ taken
  counted zero taken events same p few = absurd (omega (arith, p))
  counted (suc count) taken events same p few = omega (arith, same, few)

  batched :
      (max_events max_bytes : ℕ) (e : Event) (es : List Event) (batch : List Event)
      (r : Result SinkError ℕ)
      → ((n : ℕ) → r ≡ ok n → Counts max_bytes max_events (e ∷ es) 2 0 n)
      → 0 < max_events
      → and_then r (λ count. ok (take (min (at_least_one count) (length (e ∷ es))) (e ∷ es)))
        ≡ ok batch
      → IsBatch max_events max_bytes (e ∷ es) batch
  batched max_events max_bytes e es batch (err x) c p h = cc
  batched max_events max_bytes e es batch (ok n) c p h =
      let k = c n refl in
      let some_event = k.some_taken (omega (arith, p)) (omega arith) in
      let same = counted n k.taken (e ∷ es) k.total some_event k.there in
      let long = length-take k.taken (e ∷ es) k.there in
      subst (IsBatch max_events max_bytes (e ∷ es))
        (ap (λ m. take m (e ∷ es)) (sym same) ∙ ok_inj h)
        (record {
          rest = drop k.taken (e ∷ es);
          split = take-append-drop k.taken (e ∷ es);
          some_event = omega (arith, long, some_event, k.total);
          few = omega (arith, long, k.few);
          small = k.fits some_event;
        })

  -- When `take_batch` returns a batch of events that are not empty, under a limit that lets an event
  -- through, the batch is the first of these events, at least one, no more than the limit on events
  -- and no longer, as a JSON array, than the limit on bytes.
  pub take_batch-IsBatch :
      (events : List Event) (max_events max_bytes : ℕ) (batch : List Event)
      → events ≢ []
      → 0 < max_events
      → take_batch encode events max_events max_bytes ≡ ok batch
      → IsBatch max_events max_bytes events batch
  unfolding take_batch
  take_batch-IsBatch [] max_events max_bytes batch ne p h = absurd (ne refl)
  take_batch-IsBatch (e ∷ es) max_events max_bytes batch ne p h =
      batched max_events max_bytes e es batch (fit encode max_bytes max_events (e ∷ es) 2 0)
        (λ n q.
          fit-Counts max_bytes max_events (e ∷ es) 2 0 n q (λ z. absurd (omega (arith, z)))
            (λ _. refl))
        p h
