-- ===== src/Sinks/Local/Content.antt =====
-- What the copy of one file in Sinks/Local/Repository does to the files of the disk.
use rrjj.Prelude.{none, some, [], ◌∷◌, ◌++◌, ℕ, ◌≡◌, ◌≢◌, refl, ◌∙◌, Option, List}
use rrjj.Prelude.Action.{Result, ok, err, Runs, Runs-bind, After}
use rrjj.Sinks.Error.{IoError}
use rrjj.Sinks.Files.{
  Location, Files, temporary_path, unless_missing, remove_temporary, copy_file_atomic,
}

-- The bytes of successive reads
abbrev pub joined : List (List ℕ) → List ℕ
joined [] = []
joined (c ∷ cs) = c ++ joined cs

-- What the code relies on of a file system. Names may be hard links of one file, so copying onto a
-- name that exists may change others; onto a name that does not, it makes a file of its own.
pub record HasContent {F : Type 0} (files : Files F) : Type 0 where
  pub content : F → Location → Option (List ℕ)
  pub sync_all-same : (p q : Location) (f : F) → content (files.sync_all p f).1 q ≡ content f q
  pub remove-other :
      (p q : Location) (f : F) → q ≢ p → content (files.remove_file p f).1 q ≡ content f q
  pub removed :
      (p : Location) (f : F)
      → (unless_missing files (files.remove_file p f)).0 ≡ ok tt
      → content (files.remove_file p f).1 p ≡ none
  pub copy-other :
      (a p q : Location) (f : F)
      → content f p ≡ none
      → q ≢ p
      → content (files.copy a p f).1 q ≡ content f q
  pub copied-same :
      (a p : Location) (f : F) {n : ℕ}
      → (files.copy a p f).0 ≡ ok n
      → content (files.copy a p f).1 p ≡ content f a
  pub link-other :
      (a p q : Location) (f : F) → q ≢ p → content (files.hard_link a p f).1 q ≡ content f q
  pub linked-same :
      (a p : Location) (f : F)
      → (files.hard_link a p f).0 ≡ ok tt
      → content (files.hard_link a p f).1 p ≡ content f a
  pub not_linked :
      (a p q : Location) (f : F) {e : IoError}
      → (files.hard_link a p f).0 ≡ err e
      → content (files.hard_link a p f).1 q ≡ content f q
  pub read :
      (p : Location) (f : F) {cs : List (List ℕ)}
      → files.chunks p f ≡ ok cs
      → content f p ≡ some (joined cs)
  pub rename-other :
      (a p q : Location) (f : F) → q ≢ a → q ≢ p → content (files.rename a p f).1 q ≡ content f q
  -- a rename happens whole or not at all
  pub renamed :
      (a p : Location) (f : F)
      → (files.rename a p f).0 ≡ ok tt
      → content (files.rename a p f).1 p ≡ content f a
  pub not_renamed :
      (a p q : Location) (f : F) {e : IoError}
      → (files.rename a p f).0 ≡ err e
      → content (files.rename a p f).1 q ≡ content f q

module _ {F : Type 0} (files : Files F) (laws : HasContent files)
    (source destination : Location) where
  open laws use {content}

  abbrev pub temporary : Location
  temporary = temporary_path destination

  -- Only the temporary file may differ from what was there.
  pub record Untouched (before after : F) : Type 0 where
    pub others :
        (q : Location) → q ≢ temporary_path destination → content after q ≡ content before q

  -- The destination has the source's content, and nothing else differs.
  pub record Copied (before after : F) : Type 0 where
    pub others :
        (q : Location)
        → q ≢ temporary_path destination
        → q ≢ destination
        → content after q ≡ content before q
    pub whole : content after destination ≡ content before source

  module _ (before : F) (apart : source ≢ temporary_path destination)
      (own : destination ≢ temporary_path destination) where
    abbrev pub Same : F → Type 0
    Same f = Untouched before f

    pub record Ready (f : F) : Type 0 where
      pub same : Same f
      pub made : content f temporary ≡ content before source

    -- The temporary name is free.
    pub record Cleared (f : F) : Type 0 where
      pub same : Same f
      pub absent : content f temporary ≡ none

    pub remove_temporary-Runs : Runs Same (remove_temporary files temporary) (λ _. Cleared) Same
    unfolding remove_temporary
    remove_temporary-Runs = record {
      at = λ f h.
          onward f (files.remove_file temporary f) h (λ q. laws.remove-other temporary q f)
            (laws.removed temporary f);
    }
      where
        onward :
            (f : F) (a : Result IoError Unit × F)
            → Same f
            → ((q : Location) → q ≢ temporary → content a.1 q ≡ content f q)
            → ((unless_missing files a).0 ≡ ok tt → content a.1 temporary ≡ none)
            → After (λ _. Cleared) Same (unless_missing files a)
        onward f (ok u, g) h k gone = record {
          same = record { others = λ q ne. k q ne ∙ h.others q ne };
          absent = gone refl;
        }
        onward f (err IoError.not_found, g) h k gone = record {
          same = record { others = λ q ne. k q ne ∙ h.others q ne };
          absent = gone refl;
        }
        onward f (err IoError.no_space, g) h k gone = record {
          others = λ q ne. k q ne ∙ h.others q ne;
        }
        onward f (err (IoError.other m), g) h k gone = record {
          others = λ q ne. k q ne ∙ h.others q ne;
        }

    pub copy-Runs : Runs Cleared (files.copy source temporary) (λ _. Ready) Same
    copy-Runs = record {
      at = λ f h.
          onward f (files.copy source temporary f) h.same
            (λ q. laws.copy-other source temporary q f h.absent)
            (λ n. laws.copied-same source temporary f);
    }
      where
        onward :
            (f : F) (a : Result IoError ℕ × F)
            → Same f
            → ((q : Location) → q ≢ temporary → content a.1 q ≡ content f q)
            → ((n : ℕ) → a.0 ≡ ok n → content a.1 temporary ≡ content f source)
            → After (λ _. Ready) Same a
        onward f (ok n, g) h k made = record {
          same = record { others = λ q ne. k q ne ∙ h.others q ne };
          made = made n refl ∙ h.others source apart;
        }
        onward f (err e, g) h k made = record { others = λ q ne. k q ne ∙ h.others q ne }

    pub sync-Runs : Runs Ready (files.sync_all temporary) (λ _. Ready) Same
    sync-Runs = record {
      at = λ f h. onward f (files.sync_all temporary f) h (λ q. laws.sync_all-same temporary q f);
    }
      where
        onward :
            (f : F) (a : Result IoError Unit × F)
            → Ready f
            → ((q : Location) → content a.1 q ≡ content f q)
            → After (λ _. Ready) Same a
        onward f (ok u, g) h k = record {
          same = record { others = λ q ne. k q ∙ h.same.others q ne };
          made = k temporary ∙ h.made;
        }
        onward f (err e, g) h k = record { others = λ q ne. k q ∙ h.same.others q ne }

    pub rename-Runs : Runs Ready (files.rename temporary destination) (λ _. Copied before) Same
    rename-Runs = record {
      at = λ f h.
          onward f (files.rename temporary destination f) h
            (λ q. laws.rename-other temporary destination q f)
            (laws.renamed temporary destination f)
            (λ q e. laws.not_renamed temporary destination q f);
    }
      where
        onward :
            (f : F) (a : Result IoError Unit × F)
            → Ready f
            → ((q : Location) → q ≢ temporary → q ≢ destination → content a.1 q ≡ content f q)
            → (a.0 ≡ ok tt → content a.1 destination ≡ content f temporary)
            → ((q : Location) (e : IoError) → a.0 ≡ err e → content a.1 q ≡ content f q)
            → After (λ _. Copied before) Same a
        onward f (ok u, g) h other moved kept = record {
          others = λ q ne nd. other q ne nd ∙ h.same.others q ne;
          whole = moved refl ∙ h.made;
        }
        onward f (err e, g) h other moved kept = record {
          others = λ q ne. kept q e refl ∙ h.same.others q ne;
        }

    pub copy_file_atomic-Runs :
        Runs Same (copy_file_atomic files source destination) (λ _. Copied before) Same
    unfolding copy_file_atomic
    copy_file_atomic-Runs =
        Runs-bind (λ _. Cleared) _ _ remove_temporary-Runs
          λ _.
            Runs-bind (λ _. Ready) _ _ copy-Runs
              λ n.
                Runs-bind (λ _. Ready) _ _ sync-Runs
                  λ _. Runs-bind (λ _. Copied before) _ _ rename-Runs λ _. record { at = λ f h. h }
