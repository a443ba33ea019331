-- ===== src/Sinks/Git/Refs.antt =====
-- The reference that a sink of Sinks/Git writes.
use Prim.Native.String.{◌++◌, [], ◌∷◌}
use Prim.Native.String.append
use text.Mathlib.TextLemmas.{append_assoc}
use rrjj.Prelude.{◌≡◌, refl, sym, ap, ◌∙◌, subst, true, false, String, arith}
use rrjj.Prelude.Action.{and_then-eq-ok, ok-injective, ok}
use rrjj.Prelude.Texts.{
  starts_with, contains_char, ends_with_char, trim_end-clean, starts_with-append, starts_with-split,
  starts_with-same, starts_with-separated,
}
use rrjj.Sinks.Files.{Files}
use rrjj.Sinks.Git.{
  slash, Git, CursorFile, GitCheckpointConfig, GitCheckpointSink, validate_ref_prefix, session_ref,
  check_ref, create, validate_session_id, read_pushed_oid,
}

-- What a valid prefix is.
pub record IsSafe (prefix : String) : Type 0 where
  pub qualified : starts_with "refs/" prefix ≡ true
  pub outside : starts_with "refs/heads" prefix ≡ false
  pub closed : ends_with_char slash prefix ≡ false

validate_ref_prefix-IsSafe : (prefix : String) → validate_ref_prefix prefix ≡ ok tt → IsSafe prefix
unfolding validate_ref_prefix
validate_ref_prefix-IsSafe prefix h = ground (arith, h)

outside_heads :
    (prefix id : String)
    → starts_with "refs/" prefix ≡ true
    → starts_with "refs/heads" prefix ≡ false
    → starts_with "refs/heads/" (prefix ++ ("/" ++ id)) ≡ false
unfolding contains_char
outside_heads prefix id q o =
    let (rest, split) = starts_with-split "refs/" prefix q in
    let inner = starts_with-separated slash "heads" rest id refl (
      sym (starts_with-same "refs/" "heads" rest)
      ∙ ap (starts_with "refs/heads") (sym split)
      ∙ o) in
    ap (starts_with "refs/heads/") (
      ap (λ t. t ++ ("/" ++ id)) split
      ∙ append_assoc "refs/" rest ("/" ++ id)
      ∙ ap (λ t. "refs/" ++ (rest ++ t))
          (append.cons slash [] id ∙ ap (λ t. slash ∷ t) (append.nil id)))
    ∙ starts_with-same "refs/" "heads/" (rest ++ slash ∷ id)
    ∙ inner

session_ref-checked :
    (config : GitCheckpointConfig)
    → IsSafe config.ref_prefix
    → check_ref (session_ref config) ≡ ok tt
unfolding check_ref session_ref
session_ref-checked config safe =
    let name = config.ref_prefix ++ ("/" ++ config.session_id) in
    rw
      (
        trim_end-clean slash config.ref_prefix safe.closed,
        outside_heads config.ref_prefix config.session_id safe.qualified safe.outside,
        starts_with-append "refs/" config.ref_prefix ("/" ++ config.session_id) safe.qualified,
      )
      refl

-- A sink is created only with a prefix and a session for which the reference that it writes passes
-- the check that every checkpoint makes: it is under refs/ and not under refs/heads/.
pub create-check_ref :
    {W F : Type 0} (git : Git W) (files : Files F) (cursor : CursorFile)
    (config : GitCheckpointConfig) (world : W) (disk : F) {s : GitCheckpointSink W F}
    → create git files cursor config world disk ≡ ok s
    → check_ref (session_ref s.config) ≡ ok tt
unfolding create
create-check_ref {W} {F} git files cursor config world disk {s} h =
    let (_, valid, h1) = and_then-eq-ok (validate_ref_prefix config.ref_prefix) _ h in
    let (_, named, h2) = and_then-eq-ok (validate_session_id config.session_id) _ h1 in
    let (last_pushed, was_read, h3) =
      and_then-eq-ok (read_pushed_oid git files cursor config.cursor_path disk) _ h2 in
    subst {A = GitCheckpointSink W F} (λ t. check_ref (session_ref t.config) ≡ ok tt)
      (ok-injective h3)
      (session_ref-checked config (validate_ref_prefix-IsSafe config.ref_prefix valid))
