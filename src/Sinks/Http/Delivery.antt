-- ===== src/Sinks/Http/Delivery.antt =====
-- The retries of `post_batch` in crates/rrjj-sinks/src/http.rs.
use rrjj.Prelude.{
  ℕ, zero, suc, ◌+◌, ◌%◌, ◌≤◌, ◌<◌, ◌≡◌, ◌≢◌, refl, Bool, true, false, String, Option, none, some,
  List, arith, inl, inr, Bool-cases, ltb, if◌then◌else◌, last,
}
use rrjj.Prelude.Action.{Result, ok, err, Action, and_then, fail, Outcome}
use rrjj.Schema.{Event}
use rrjj.Sinks.Error.{SinkError}
use rrjj.Sinks.Traits.{DurableWatermark, EventAcknowledgement}
use rrjj.Sinks.Http.{
  HttpEventBatch, HttpError, HttpClass, Network, Response, sink_error, out_of_fuel, as_sink_error,
  as_failed, as_conflict, validate_ack, accept_success, accept_conflict, answer, read_text, turn,
  classify_http_status, post_from, post_batch, u32_modulus,
}

-- An error of the sink, not the model's.
abbrev pub IsReported : HttpError → Type 0
IsReported e = e ≢ out_of_fuel

-- The acknowledgement reaches the last of these events.
abbrev pub Reaches : List Event → EventAcknowledgement → Type 0
Reaches events ack = (end : Event) → last events ≡ some end → end.seq ≤ ack.accepted_through_seq

validate_ack-reaches :
    (ack : EventAcknowledgement) (o : Option Event) (durable : Option DurableWatermark)
    (end : Event)
    → validate_ack ack o durable ≡ ok tt
    → o ≡ some end
    → end.seq ≤ ack.accepted_through_seq
unfolding validate_ack
validate_ack-reaches ack none durable end h q = cc
validate_ack-reaches ack (some x) durable end h q =
    elim (Bool-cases (ltb ack.accepted_through_seq x.seq)) [
      | inl early ↦ absurd (ground (arith, h))
      | inr late ↦ ground (arith, q)
    ]

module _ {N : Type 0} (net : Network N) where
  abbrev Posted : HttpEventBatch → Result HttpError EventAcknowledgement → N → Type 0
  Posted batch r n = Outcome IsReported (λ ack (_ : N). Reaches batch.events ack) r n

  reported : (e : SinkError) → IsReported (sink_error e)
  reported e same = cc

  checked :
      (batch : HttpEventBatch) (ack : EventAcknowledgement) (v : Result SinkError Unit) (n : N)
      → validate_ack ack (last batch.events) batch.durable ≡ v
      → Posted batch (as_sink_error (and_then v (λ _. ok ack))) n
  checked batch ack (ok tt) n q = λ end same. validate_ack-reaches ack _ batch.durable end q same
  checked batch ack (err e) n q = reported e

  checked_conflict :
      (batch : HttpEventBatch) (ack : EventAcknowledgement) (v : Result SinkError Unit) (n : N)
      → validate_ack ack (last batch.events) batch.durable ≡ v
      → Posted batch (as_sink_error (and_then (as_conflict v) (λ _. ok ack))) n
  checked_conflict batch ack (ok tt) n q =
      λ end same. validate_ack-reaches ack _ batch.durable end q same
  checked_conflict batch ack (err e) n q = reported _

  accept_success-Posted :
      (batch : HttpEventBatch) (text : String) (n : N)
      → Posted batch (as_sink_error (accept_success net batch text)) n
  unfolding accept_success
  accept_success-Posted batch text n = go (net.decode_ack text)
    where
      go :
          (r : Result String EventAcknowledgement)
          → Posted batch
              (as_sink_error (
                and_then (as_failed r) (λ ack.
                  and_then (validate_ack ack (last batch.events) batch.durable) (λ _. ok ack))))
              n
      go (ok ack) = checked batch ack _ n refl
      go (err e) = reported _

  accept_conflict-Posted :
      (batch : HttpEventBatch) (text : String) (n : N)
      → Posted batch (as_sink_error (accept_conflict net batch text)) n
  unfolding accept_conflict
  accept_conflict-Posted batch text n = go (net.decode_ack text)
    where
      go :
          (r : Result String EventAcknowledgement)
          → Posted batch
              (as_sink_error (
                and_then (as_conflict r) (λ ack.
                  and_then
                    (as_conflict (validate_ack ack (last batch.events) batch.durable))
                    (λ _. ok ack))))
              n
      go (ok ack) = checked_conflict batch ack _ n refl
      go (err e) = reported _

  retried :
      (b : Bool) (e : SinkError) (batch : HttpEventBatch) (n : N)
      (again : Action N HttpError EventAcknowledgement)
      → (b ≡ false → Posted batch (again n).0 (again n).1)
      → Posted batch
          ((if b then fail (sink_error e) else again) n).0
          ((if b then fail (sink_error e) else again) n).1
  retried true e batch n again h = reported e
  retried false e batch n again h = h refl

  answer-Posted :
      (max_retries attempt : ℕ) (batch : HttpEventBatch) (class : HttpClass) (text : String)
      (again : Action N HttpError EventAcknowledgement) (n : N)
      → (ltb max_retries attempt ≡ false → Posted batch (again n).0 (again n).1)
      → Posted batch
          (answer net max_retries attempt batch class text again n).0
          (answer net max_retries attempt batch class text again n).1
  answer-Posted max_retries attempt batch HttpClass.success text again n h =
      accept_success-Posted batch text n
  answer-Posted max_retries attempt batch HttpClass.conflict text again n h =
      accept_conflict-Posted batch text n
  answer-Posted max_retries attempt batch HttpClass.retryable text again n h =
      retried (ltb max_retries attempt) _ batch n again h
  answer-Posted max_retries attempt batch HttpClass.permanent text again n h = reported _

  turn-Posted :
      (max_retries attempt : ℕ) (batch : HttpEventBatch) (a : Result String Response × N)
      (again : Action N HttpError EventAcknowledgement)
      → ((n : N) → ltb max_retries attempt ≡ false → Posted batch (again n).0 (again n).1)
      → Posted batch
          (turn net max_retries attempt batch a again).0
          (turn net max_retries attempt batch a again).1
  turn-Posted max_retries attempt batch (err e, n) again h =
      retried (ltb max_retries attempt) _ batch n again (h n)
  turn-Posted max_retries attempt batch (ok response, n) again h = go response.text
    where
      go :
          (t : Result String String)
          → Posted batch
              (read_text net t
                (λ text.
                  answer net max_retries attempt batch (classify_http_status response) text again)
                n).0
              (read_text net t
                (λ text.
                  answer net max_retries attempt batch (classify_http_status response) text again)
                n).1
      go (ok text) =
          answer-Posted max_retries attempt batch (classify_http_status response) text again n (h n)
      go (err e) = reported _

  post_from-Posted :
      (fuel max_retries attempt : ℕ) (batch : HttpEventBatch)
      → max_retries + 1 < u32_modulus
      → attempt ≤ max_retries
      → max_retries < attempt + fuel
      → (n : N)
      → Posted batch
          (post_from net fuel max_retries attempt batch n).0
          (post_from net fuel max_retries attempt batch n).1
  unfolding post_from
  post_from-Posted zero max_retries attempt batch small few enough n =
      absurd (omega (arith, few, enough))
  post_from-Posted (suc fuel) max_retries attempt batch small few enough n =
      turn-Posted max_retries ((attempt + 1) % u32_modulus) batch (net.send batch n)
        (post_from net fuel max_retries ((attempt + 1) % u32_modulus) batch)
        (λ n' more.
          post_from-Posted fuel max_retries ((attempt + 1) % u32_modulus) batch small
            (ground (arith, more)) (omega (arith, few, enough, small)) n')

  -- The retries of a batch end, however the server answers: with an error, or with an acknowledgement
  -- that reaches the end of the batch.
  pub post_batch-Posted :
      (max_retries : ℕ) (batch : HttpEventBatch)
      → max_retries + 1 < u32_modulus
      → (n : N)
      → Posted batch (post_batch net max_retries batch n).0 (post_batch net max_retries batch n).1
  unfolding post_batch
  post_batch-Posted max_retries batch small =
      post_from-Posted (max_retries + 1) max_retries 0 batch small (omega arith) (omega arith)
