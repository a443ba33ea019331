-- ===== src/Reader/Session/Lookup.antt =====
-- The lookup of an event in a session opened by crates/rrjj-reader/src/lib.rs.
use rrjj.Prelude.{
  ℕ, zero, suc, ◌≤◌, ◌<◌, ◌≡◌, refl, ap, sym, ◌∙◌, subst, inl, inr, String, Option, none, some,
  List, [], ◌∷◌, arith, length, last, get_elem?,
}
use rrjj.Prelude.Action.{and_then-eq-ok, Result, ok, map_err}
use rrjj.Schema.{Event}
use rrjj.Schema.Numbering.{CountsFrom, get_elem?-CountsFrom, last-CountsFrom}
use rrjj.Schema.Manifest.{SessionManifest}
use rrjj.Reader.Errors.{ReadError, io, json, not_durable}
use rrjj.Reader.Timeline.{Timeline, Text, read}
use rrjj.Reader.Timeline.Order.{IsRead, read-IsRead}
use rrjj.Reader.Session.{
  event, Session, Files, ok_or, or_value, manifest_error, check_format, check_watermark,
  open_session,
}

-- What opening has established: the timeline counts up from 0 to the durable watermark.
pub record IsDurable (s : Session) : Type 0 where
  pub durable : ℕ
  pub watermark : s.manifest.durable_seq ≡ some durable
  pub counted : CountsFrom 0 s.timeline.events
  pub total : length s.timeline.events ≡ suc durable

ok_or-ok : {E A : Type 0} (e : E) (o : Option A) (a : A) → ok_or e o ≡ ok a → o ≡ some a
ok_or-ok e none a h = cc
ok_or-ok e (some b) a h = cc

at_end :
    (durable : ℕ) (o : Option Event)
    → check_watermark durable o ≡ ok tt
    → (e : Event) × (o ≡ some e) × (e.seq ≡ durable)
unfolding check_watermark
at_end durable none h = cc
at_end durable (some e) h = (e, refl, ground arith)

counted_read : (events : List Event) → IsRead events → CountsFrom 0 events
counted_read events (inl nil) = rw nil tt
counted_read events (inr (session, t)) = t.counted

in_range :
    (events : List Event) (n : ℕ) → n < length events → (e : Event) × (get_elem? events n ≡ some e)
in_range [] n h = absurd (omega (arith, h))
in_range (e ∷ es) zero h = (e, refl)
in_range (e ∷ es) (suc n) h = in_range es n (omega (arith, h))

opened :
    (root : String) (manifest : SessionManifest) (timeline : Timeline) (s : Session)
    → ◌≡◌ {A = Result ReadError Session}
        (ok (record { root = root; manifest = manifest; timeline = timeline }))
        (ok s)
    → (s.manifest ≡ manifest) × (s.timeline ≡ timeline)
opened root manifest timeline s h = (cc, cc)

IsDurable-session :
    (manifest : SessionManifest) (timeline : Timeline) (durable : ℕ) (s : Session)
    → (s.manifest ≡ manifest) × (s.timeline ≡ timeline)
    → manifest.durable_seq ≡ some durable
    → CountsFrom 0 timeline.events
    → (e : Event) × (last timeline.events ≡ some e) × (e.seq ≡ durable)
    → IsDurable s
IsDurable-session manifest timeline durable s (m, t) watermark counted (e, ends, number) = record {
  durable = durable;
  watermark = ap (λ (x : SessionManifest). x.durable_seq) m ∙ watermark;
  counted = subst (λ (x : Timeline). CountsFrom 0 x.events) (sym t) counted;
  total =
      ap (λ (x : Timeline). length x.events) t
      ∙ omega (arith, last-CountsFrom 0 timeline.events counted ends, number);
}

open_session-IsDurable :
    {B L : Type 0} (files : Files B L) (text : Text L) (root : String) (s : Session)
    → open_session files text root ≡ ok s
    → IsDurable s
unfolding open_session
open_session-IsDurable files text root s h =
    let (bytes, q1, h1) =
      and_then-eq-ok (map_err manifest_error (files.read root "manifest.json")) _ h in
    let (manifest, q2, h2) = and_then-eq-ok (map_err (json 0) (files.decode_manifest bytes)) _ h1 in
    let (_, q3, h3) = and_then-eq-ok (check_format manifest) _ h2 in
    let (durable, q4, h4) = and_then-eq-ok (ok_or not_durable manifest.durable_seq) _ h3 in
    let (lines, q5, h5) =
      and_then-eq-ok
        (map_err io
          (files.open_lines root (or_value "events/000000.ndjson" manifest.events_object)))
        _ h4 in
    let (timeline, q6, h6) = and_then-eq-ok (read text lines) _ h5 in
    let (_, q7, h7) = and_then-eq-ok (check_watermark durable (last timeline.events)) _ h6 in
    IsDurable-session manifest timeline durable s (opened root manifest timeline s h7)
      (ok_or-ok not_durable manifest.durable_seq durable q4)
      (counted_read timeline.events (read-IsRead text lines timeline q6))
      (at_end durable (last timeline.events) q7)

module _ (s : Session) (d : IsDurable s) where
  event-within : (n : ℕ) → n ≤ d.durable → (e : Event) × (event n s ≡ ok e) × (e.seq ≡ n)
  unfolding event
  event-within n few =
      let (e, there) = in_range s.timeline.events n (omega (arith, d.total, few)) in
      (
        e,
        ground (arith, d.watermark, there),
        get_elem?-CountsFrom 0 n s.timeline.events d.counted there ∙ omega arith,
      )

same_watermark : (a b : ℕ) (o : Option ℕ) → o ≡ some a → o ≡ some b → b ≡ a
same_watermark a b none p q = cc
same_watermark a b (some c) p q = cc

-- Every event through the durable watermark of a session that was opened is there, under its number.
pub open_session-event :
    {B L : Type 0} (files : Files B L) (text : Text L) (root : String) (s : Session) (durable n : ℕ)
    → open_session files text root ≡ ok s
    → s.manifest.durable_seq ≡ some durable
    → n ≤ durable
    → (e : Event) × (event n s ≡ ok e) × (e.seq ≡ n)
open_session-event files text root s durable n h watermark few =
    let d = open_session-IsDurable files text root s h in
    event-within s d n (
      omega
        (arith, few, same_watermark d.durable durable s.manifest.durable_seq d.watermark watermark))
