-- ===== src/Sinks/Local/Synced.antt =====
-- `sync_repository_file` of Sinks/Local/Repository on every branch.
use rrjj.Prelude.{
  ℕ, List, [], ◌∷◌, some, ap, not, ◌==◌, ◌≡◌, ◌≢◌, refl, sym, subst, ◌∙◌, ◌⊎◌, inr, Bool, true,
  false, arith, if◌then◌else◌,
}
use rrjj.Prelude.Action.{
  and_then-eq-ok, ok-injective, Result, ok, err, Action, Runs, Runs-bind, After, resume, modify,
  ◌>>=◌, ◌>>◌,
}
use rrjj.Sinks.Error.{IoError}
use rrjj.Sinks.Files.{Location, Files, parent, temporary_path, copy_file_atomic}
use rrjj.Sinks.Local.Immutable.{is_immutable_repository_file}
use rrjj.Sinks.Local.Repository.{
  Sync, on_disk, with_disk, copied, replaced, reused, add_bytes, mark, files_equal, same_bytes,
  same_chunks, copy_new, copy_unless, is_same,
}
use rrjj.Sinks.Local.Content.{
  HasContent, joined, Untouched, Copied, Ready, Cleared, copy_file_atomic-Runs,
}

abbrev Disk : {F : Type 0} → (F → Type 0) → Sync F → Type 0
Disk P s = P s.disk

module _ {F A : Type 0} (files : Files F) {P X : F → Type 0} {Q : A → F → Type 0} where
  on_disk-Runs :
      (call : Action F IoError A)
      → Runs P call Q X
      → Runs (Disk P) (on_disk files call) (λ a. Disk (Q a)) (Disk X)
  on_disk-Runs call r = record { at = λ s p. onward s (call s.disk) (r.at s.disk p) }
    where
      onward :
          (s : Sync F) (a : Result IoError A × F)
          → After Q X a
          → After (λ b. Disk (Q b)) (Disk X) (with_disk files a s)
      onward s (ok b, g) q = q
      onward s (err e, g) x = x

modify-Runs :
    {F : Type 0} (P X : F → Type 0) (f : Sync F → Sync F)
    → ((s : Sync F) → (f s).disk ≡ s.disk)
    → Runs {E = IoError} (Disk P) (modify f) (λ _. Disk P) (Disk X)
modify-Runs P X f same = record { at = λ s h. subst P (sym (same s)) h }

guard_true :
    (b : Bool) (r : Result IoError Bool)
    → (if b then r else ok false) ≡ ok true
    → (b ≡ true) × (r ≡ ok true)
guard_true true r h = (refl, h)
guard_true false r h = ground arith

guard_false :
    (b : Bool) (r : Result IoError Bool) → (if not b then ok false else r) ≡ ok true → r ≡ ok true
guard_false true r h = h
guard_false false r h = ground arith

module _ {F : Type 0} (files : Files F) (laws : HasContent files) (source destination : Location)
    (before : F) (apart : source ≢ temporary_path destination)
    (own : destination ≢ temporary_path destination) where
  abbrev Same : F → Type 0
  Same = Untouched files laws source destination before

  abbrev Made : F → Type 0
  Made = Ready files laws source destination before apart own

  abbrev Done : F → Type 0
  Done = Copied files laws source destination before

  abbrev Free : F → Type 0
  Free = Cleared files laws source destination before apart own

  counted :
      (replacing : Bool) (s : Sync F)
      → ((if replacing then replaced files else copied files) s).disk ≡ s.disk
  unfolding replaced copied
  counted true s = refl
  counted false s = refl

  copy_new-Runs : Runs (Disk Same) (copy_new files source destination) (λ _. Disk Done) (Disk Same)
  unfolding copy_new mark add_bytes replaced copied
  copy_new-Runs = record { at = λ s h. (onward (files.exists destination s.disk)).at s h }
    where
      onward :
          (replacing : Bool)
          → Runs
              (Disk Same)
              (do
                bytes ← on_disk files (copy_file_atomic files source destination)
                modify (add_bytes files bytes)
                modify (if replacing then replaced files else copied files)
                modify (mark files (parent destination)))
              (λ _. Disk Done)
              (Disk Same)
      onward replacing =
          Runs-bind (λ _. Disk Done) _ _
            (on_disk-Runs files _
              (copy_file_atomic-Runs files laws source destination before apart own))
            λ n.
              Runs-bind (λ _. Disk Done) _ _ (modify-Runs Done Same (add_bytes files n) (λ t. refl))
                λ _.
                  Runs-bind (λ _. Disk Done) _ _
                    (modify-Runs Done Same (if replacing then replaced files else copied files)
                      (counted replacing))
                    λ _. modify-Runs Done Same (mark files (parent destination)) (λ t. refl)

same_bytes-eq : (left right : List ℕ) → same_bytes left right ≡ true → left ≡ right
unfolding same_bytes
same_bytes-eq [] [] h = refl
same_bytes-eq (a ∷ left) (b ∷ right) h = ground (arith, same_bytes-eq left right)
same_bytes-eq [] (b ∷ right) h = ground arith
same_bytes-eq (a ∷ left) [] h = ground arith

same_chunks-eq : (left right : List (List ℕ)) → same_chunks left right ≡ true → left ≡ right
unfolding same_chunks
same_chunks-eq [] [] h = refl
same_chunks-eq (l ∷ left) (r ∷ right) h =
    ground (arith, same_bytes-eq l r, same_chunks-eq left right)
same_chunks-eq [] (r ∷ right) h = ground arith
same_chunks-eq (l ∷ left) [] h = ground arith

-- Files that are read as equal have the same content.
files_equal-content :
    {F : Type 0} (files : Files F) (laws : HasContent files) (left right : Location) (f : F)
    → files_equal files left right f ≡ ok true
    → laws.content f right ≡ laws.content f left
unfolding files_equal
files_equal-content files laws left right f h =
    let (l, _, h1) = and_then-eq-ok (files.metadata_len left f) _ h in
    let (r, _, h2) = and_then-eq-ok (files.metadata_len right f) _ h1 in
    let h3 = (guard_false (l == r) _ h2) in
    let (cl, read_left, h4) = and_then-eq-ok (files.chunks left f) _ h3 in
    let (cr, read_right, h5) = and_then-eq-ok (files.chunks right f) _ h4 in
    laws.read right f read_right
    ∙ ap (λ c. some (joined c)) (sym (same_chunks-eq cl cr (ok-injective h5)))
    ∙ sym (laws.read left f read_left)

-- How the copy of a file from the disk `before` ends.
pub data Synced {F : Type 0} (files : Files F) (laws : HasContent files)
    (source destination relative : Location) (before : F)
    : Result IoError Unit × Sync F → Type 0 where
  -- there already: an immutable file, or a file of the same content
  kept :
      (s : Sync F)
      → (is_immutable_repository_file relative ≡ true)
        ⊎ (laws.content before destination ≡ laws.content before source)
      → files.exists destination before ≡ true
      → s.disk ≡ before
      → Synced files laws source destination relative before (ok tt, s)
  brought :
      (s : Sync F)
      → Copied files laws source destination before s.disk
      → Synced files laws source destination relative before (ok tt, s)
  failed :
      (e : IoError) (s : Sync F)
      → Untouched files laws source destination before s.disk
      → Synced files laws source destination relative before (err e, s)

module _ {F : Type 0} (files : Files F) (laws : HasContent files)
    (source destination relative : Location) (s : Sync F)
    (apart : source ≢ temporary_path destination)
    (own : destination ≢ temporary_path destination) where
  abbrev Ended : Result IoError Unit × Sync F → Type 0
  Ended = Synced files laws source destination relative s.disk

  ended :
      (a : Result IoError Unit × Sync F)
      → After
          (λ _. Disk (Copied files laws source destination s.disk))
          (Disk (Untouched files laws source destination s.disk))
          a
      → Ended a
  ended (ok u, t) q = brought t q
  ended (err e, t) x = failed e t x

  nothing_yet : Untouched files laws source destination s.disk s.disk
  nothing_yet = record { others = λ q ne. refl }

  compared :
      (r : Result IoError Bool)
      → is_same files source destination s.disk ≡ r
      → Ended (resume r (copy_unless files source destination) s)
  unfolding copy_unless is_same reused
  compared (ok true) h =
      let (there, equal) =
        guard_true (files.exists destination s.disk) (files_equal files source destination s.disk)
          h in
      kept _ (inr (files_equal-content files laws source destination s.disk equal)) there refl
  compared (ok false) h =
      ended _ ((copy_new-Runs files laws source destination s.disk apart own).at s nothing_yet)
  compared (err e) h = failed e s nothing_yet
