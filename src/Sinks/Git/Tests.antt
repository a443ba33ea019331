-- ===== src/Sinks/Git/Tests.antt =====
-- A remote in memory, on which the theorems about Sinks/Git are applied.
use rrjj.Prelude.Texts.{contains_char, ends_with_char, contains, starts_with}
use rrjj.Prelude.{◌≡◌, refl, true, false, String, Option, none, some, [], ◌∷◌}
use rrjj.Prelude.Action.{ok, err}
use rrjj.Sinks.Error.{not_found}
use rrjj.Sinks.Files.{Files}
use rrjj.Sinks.Git.{
  Git, GitCheckpointConfig, GitCheckpointSink, CursorFile, check_ref, create, session_ref,
  push_checkpoint_from_shadow,
}
use rrjj.Sinks.Git.Refs.{create-check_ref}
use rrjj.Sinks.Git.Check.{HasRemote}

-- The local and the remote reference.
record Pair : Type 0 where
  local : Option String
  remote : Option String

abbrev memory_git : Git Pair
memory_git = record {
  open_bare = λ d w. ok tt;
  oid_from_str = λ c. ok c;
  find_commit = λ o w. ok tt;
  reference = λ n o w. (ok tt, record w { local = some o });
  opens = λ u w. true;
  remote_reference = λ u n w. w.remote;
  local_reference = λ n w. w.remote;
  remote_anonymous = λ u w. ok tt;
  fetch = λ a r w. (ok tt, w);
  push = λ a n w. (ok none, record w { remote = w.local });
  others = λ w. record w { remote = some "beef" };
}

abbrev config : GitCheckpointConfig
config = record {
  remote_url = "/remote.git";
  authorization = none;
  ref_prefix = "refs/rrjj/sessions";
  session_id = "s1";
  cursor_path = "cursor.json" ∷ [];
}

memory_laws : HasRemote memory_git config "refs/rrjj/sessions/s1"
memory_laws = record {
  remote = λ w. w.remote;
  local = λ w. w.local;
  reference-local = λ o w h. refl;
  reference-remote = λ o w. refl;
  opened = λ w h. refl;
  fetch-remote = λ w. refl;
  fetch-local = λ w. refl;
  fetched = λ w h. refl;
  missing = λ w m h. cc;
  interfere = λ r. some "beef";
  others-remote = λ w. refl;
  others-local = λ w. refl;
  pushed = λ w h. refl;
}

abbrev before : Pair
before = record { local = none; remote = some "c0ffee" }

moved :
    (push_checkpoint_from_shadow memory_git config "/shadow" "refs/rrjj/sessions/s1" "decaf0"
      (some "c0ffee")
      before)
    ≡ (
      ok (record { checkpoint = "decaf0" }),
      record { local = some "decaf0"; remote = some "decaf0" },
    )
unfolding push_checkpoint_from_shadow starts_with
moved = refl

abbrev no_files : Files Unit
no_files = record {
  create_dir_all = λ p s. (ok tt, s);
  exists = λ p s. false;
  read = λ p s. err not_found;
  metadata_len = λ p s. err not_found;
  chunks = λ p s. err not_found;
  write = λ p b s. (ok tt, s);
  sync_all = λ p s. (ok tt, s);
  rename = λ a b s. (ok tt, s);
  remove_file = λ p s. (err not_found, s);
  copy = λ a b s. (err not_found, s);
  hard_link = λ a b s. (err not_found, s);
  read_dir = λ p s. err not_found;
}

abbrev cursor : CursorFile
cursor = record { decode = λ b. ok none; encode = λ t. ok [] }

abbrev made : GitCheckpointSink Pair Unit
made = record { config = config; last_pushed = none; world = before; disk = tt }

create-check_ref_example : check_ref (session_ref made.config) ≡ ok tt
unfolding create starts_with contains ends_with_char contains_char
create-check_ref_example =
    create-check_ref memory_git no_files cursor config before tt {s = made} refl
