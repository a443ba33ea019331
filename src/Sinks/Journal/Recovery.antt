-- ===== src/Sinks/Journal/Recovery.antt =====
-- The file of the journal, and the parser of crates/rrjj-sinks/src/util.rs that reads it back.
use rrjj.Prelude.{
  ℕ, suc, ◌≡◌, ◌≢◌, refl, false, not, ◌&&◌, String, eq_iff, ◌⊎◌, inl, inr, some, List, [], ◌∷◌,
  ◌++◌, arith, last, All, is_empty,
}
use rrjj.Prelude.Action.{Action, ok}
use rrjj.Schema.{Event}
use rrjj.Schema.Numbering.{CountsFrom, OfSession}
use rrjj.Sinks.Journal.{Journal, Writer}
use rrjj.Sinks.Util.{
  Encoder, Decoder, newline, split_lines, check_event, parse_line, parse_lines, parse_event_spool,
  ends_with_newline,
}

-- What serde's JSON promises of an encoded event: it can be read back, and it is one non-empty line.
pub record IsJson (encode : Encoder) (decode : Decoder) : Type 0 where
  pub round_trip : (e : Event) (line : List ℕ) → encode e ≡ ok line → decode line ≡ ok e
  pub one_line : (e : Event) (line : List ℕ) → encode e ≡ ok line → All (λ b. b ≢ newline) line
  pub nonempty : (e : Event) (line : List ℕ) → encode e ≡ ok line → line ≢ []

-- The bytes of a spool that holds these events.
abbrev pub Written : Encoder → List Event → List ℕ → Type 0
Written encode [] bytes = bytes ≡ []
Written encode (e ∷ es) bytes =
    (line : List ℕ) × (rest : List ℕ) × (encode e ≡ ok line)
    × (bytes ≡ line ++ newline ∷ rest)
    × Written encode es rest

split_lines-line :
    (line rest : List ℕ)
    → All (λ b. b ≢ newline) line
    → split_lines (line ++ newline ∷ rest) ≡ line ∷ split_lines rest
unfolding split_lines
split_lines-line [] rest h = refl
split_lines-line (b ∷ line) rest h = ground (arith, split_lines-line line rest h.1, h.0)

-- What the parser makes of one good line.
module _ (encode : Encoder) (decode : Decoder) (json : IsJson encode decode) (session : String)
    (version : ℕ) where
  check_event-ok :
      (n : ℕ) (e : Event)
      → e.seq ≡ n
      → OfSession session version e
      → check_event session version n e ≡ ok e
  unfolding check_event
  check_event-ok n e number o = ground (arith, eq_iff e.session_id session)

  parse_line-ok :
      (n : ℕ) (e : Event) (line : List ℕ)
      → encode e ≡ ok line
      → e.seq ≡ n
      → OfSession session version e
      → parse_line decode session version n line ≡ ok e
  unfolding parse_line
  parse_line-ok n e line encoded number o =
      rw (json.round_trip e line encoded) (check_event-ok n e number o)

  parse_lines-cons :
      (n : ℕ) (e : Event) (es : List Event) (line : List ℕ) (lines : List (List ℕ))
      → line ≢ []
      → parse_line decode session version n line ≡ ok e
      → parse_lines decode session version (suc n) lines ≡ ok es
      → parse_lines decode session version n (line ∷ lines) ≡ ok (e ∷ es)
  unfolding parse_lines
  parse_lines-cons n e es [] lines ne p q = absurd (ne refl)
  parse_lines-cons n e es (b ∷ line) lines ne p q = rw (p, q)

  parse_lines-Written :
      (n : ℕ) (es : List Event) (bytes : List ℕ)
      → CountsFrom n es
      → All (OfSession session version) es
      → Written encode es bytes
      → parse_lines decode session version n (split_lines bytes) ≡ ok es
  parse_lines-Written n [] bytes c o w = rw w (unfold split_lines parse_lines in refl)
  parse_lines-Written n (e ∷ es) bytes c o (line, rest, encoded, same, w) =
      rw (same, split_lines-line line rest (json.one_line e line encoded))
        (parse_lines-cons n e es line (split_lines rest) (json.nonempty e line encoded)
          (parse_line-ok n e line encoded c.0 o.0) (parse_lines-Written (suc n) es rest c.1 o.1 w))

  last-line :
      (line rest : List ℕ)
      → (rest ≡ []) ⊎ (last rest ≡ some newline)
      → last (line ++ newline ∷ rest) ≡ some newline
  last-line [] [] h = refl
  last-line [] (b ∷ rest) (inl e) = cc
  last-line [] (b ∷ rest) (inr e) = e
  last-line (a ∷ []) rest h = last-line [] rest h
  last-line (a ∷ b ∷ line) rest h = last-line (b ∷ line) rest h

  Written-last :
      (es : List Event) (bytes : List ℕ)
      → Written encode es bytes
      → (bytes ≡ []) ⊎ (last bytes ≡ some newline)
  Written-last [] bytes w = inl w
  Written-last (e ∷ es) bytes (line, rest, encoded, same, w) =
      inr (rw same (last-line line rest (Written-last es rest w)))

  complete :
      (bytes : List ℕ)
      → (bytes ≡ []) ⊎ (last bytes ≡ some newline)
      → (not (is_empty bytes) && not (ends_with_newline (last bytes))) ≡ false
  complete bytes (inl e) = rw e
  complete bytes (inr e) = ground arith

  -- A spool that holds consecutive events of one session is read back as exactly these events.
  pub parse_event_spool-Written :
      (es : List Event) (bytes : List ℕ)
      → CountsFrom 0 es
      → All (OfSession session version) es
      → Written encode es bytes
      → parse_event_spool decode session version bytes ≡ ok es
  unfolding parse_event_spool
  parse_event_spool-Written es bytes c o w =
      rw (complete bytes (Written-last es bytes w)) (parse_lines-Written 0 es bytes c o w)

-- What tokio's writer promises: a write goes to the buffer and from there, sooner or later, to the end
-- of the file; a flush leaves no byte in the buffer; a sync makes the file's contents durable. None of
-- them changes a byte that is there.
pub record IsAppending {W : Type 0} (file : Writer W) : Type 0 where
  pub buffered : W → List ℕ
  pub contents : W → List ℕ
  pub durable : W → List ℕ
  pub write_all :
      (line : List ℕ) (w w' : W)
      → file.write_all line w ≡ (ok tt, w')
      → contents w' ++ buffered w' ≡ (contents w ++ buffered w) ++ line
  pub flush :
      (w w' : W)
      → file.flush w ≡ (ok tt, w')
      → (buffered w' ≡ []) × (contents w' ≡ contents w ++ buffered w)
  pub sync_data :
      (w w' : W)
      → file.sync_data w ≡ (ok tt, w')
      → (buffered w' ≡ buffered w) × (contents w' ≡ contents w) × (durable w' ≡ contents w)

module _ {W : Type 0} (file : Writer W) (disk : IsAppending file) (encode : Encoder) where
  -- The buffer is empty and the file is durable as it is.
  pub record IsSynced (w : W) : Type 0 where
    pub empty : disk.buffered w ≡ []
    pub synced : disk.durable w ≡ disk.contents w
