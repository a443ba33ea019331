-- ===== src/Core/Watcher/Filter.antt =====
-- Which paths `watcher_path` of Core/Watcher passes on.
use mathlib.Core.Option.{some-injective}
use rrjj.Prelude.{
  ◌≡◌, ◌≢◌, refl, sym, ap, subst, inl, inr, ◌↔◌, Bool, true, false, ◌||◌, String, some, List, [],
  ◌∷◌, ◌++◌, All, arith, Option-cases, str_eq, eq_iff, eq_refl, either_false, false_either,
  is_empty, guarded_some, none-≢-some, barred_some,
}
use rrjj.Prelude.Texts.{trim}
use rrjj.Core.Watcher.{
  FilePath, Watch, slash, absolute, strip, strip_prefix, same_root, is_some, is_excluded,
  is_literal, has_literal, is_match, path_text, is_ignored, relative_text, absolute_text,
  watcher_path,
}

strip-append : (p r : List String) → strip p (p ++ r) ≡ some r
unfolding strip
strip-append [] r = refl
strip-append (n ∷ p) r = rw (eq_refl n) (strip-append p r)

append-strip : (p names : List String) {r : List String} → strip p names ≡ some r → names ≡ p ++ r
unfolding strip
append-strip [] names h = cc
append-strip (n ∷ p) [] h = cc
append-strip (n ∷ p) (m ∷ names) h =
    let (same, rest) = guarded_some (str_eq n m) (strip p names) h in
    cc (sym ((eq_iff n m).0 same), append-strip p names rest)

-- `path` is `dir` and then `rest`.
pub record IsBelow (dir : FilePath) (rest : List String) (path : FilePath) : Type 0 where
  pub rooted : dir.is_absolute ≡ path.is_absolute
  pub continued : path.components ≡ dir.components ++ rest

same_root-eq : (a b : Bool) → same_root a b ≡ true → a ≡ b
same_root-eq true b h = sym h
same_root-eq false b h = ground arith

same_root_refl : (a : Bool) → same_root a a ≡ true
same_root_refl true = refl
same_root_refl false = refl

strip_prefix-IsBelow :
    (dir path : FilePath) {r : List String} → strip_prefix dir path ≡ some r → IsBelow dir r path
unfolding strip_prefix
strip_prefix-IsBelow dir path h =
    let (same, rest) = guarded_some (same_root dir.is_absolute path.is_absolute) _ h in
    record {
      rooted = same_root-eq _ _ same;
      continued = append-strip dir.components path.components rest;
    }

IsBelow-strip_prefix :
    (dir path : FilePath) (r : List String) → IsBelow dir r path → strip_prefix dir path ≡ some r
unfolding strip_prefix
IsBelow-strip_prefix dir path r b =
    rw (b.rooted, same_root_refl path.is_absolute, b.continued) (strip-append dir.components r)

is_some-none :
    (e path : FilePath)
    → ((r : List String) → ¬ IsBelow e r path)
    → is_some (strip_prefix e path) ≡ false
is_some-none e path h = elim (Option-cases (strip_prefix e path)) [
  | inl none_there ↦ ap is_some none_there
  | inr (r, there) ↦ absurd (h r (strip_prefix-IsBelow e path there))
]

none-is_some :
    (e path : FilePath) (r : List String)
    → is_some (strip_prefix e path) ≡ false
    → ¬ IsBelow e r path
none-is_some e path r h b = ground (arith, h, IsBelow-strip_prefix e path r b)

-- No excluded directory holds the path.
pub IsOutside : List FilePath → FilePath → Type 0
IsOutside excluded path = All (λ e. (r : List String) → ¬ IsBelow e r path) excluded

is_excluded-IsOutside :
    (es : List FilePath) (path : FilePath) → (is_excluded es path ≡ false) ↔ IsOutside es path
unfolding is_excluded IsOutside
is_excluded-IsOutside [] path = (λ h. tt, λ h. refl)
is_excluded-IsOutside (e ∷ es) path = (
  λ h.
      let (out, outs) = either_false (is_some (strip_prefix e path)) (is_excluded es path) h in
      (λ r. none-is_some e path r out, (is_excluded-IsOutside es path).0 outs),
  λ (out, outs).
      false_either (is_some (strip_prefix e path)) (is_excluded es path) (is_some-none e path out)
        ((is_excluded-IsOutside es path).1 outs),
)

-- No pattern, its slashes taken off, is the name.
pub IsUnnamed : List String → String → Type 0
IsUnnamed ignores name = All (λ i. name ≢ trim slash i) ignores

is_literal-IsUnnamed :
    (is : List String) (name : String) → (is_literal is name ≡ false) ↔ IsUnnamed is name
unfolding is_literal IsUnnamed
is_literal-IsUnnamed [] name = (λ h. tt, λ h. refl)
is_literal-IsUnnamed (i ∷ is) name =
    ground (arith, eq_iff name (trim slash i), is_literal-IsUnnamed is name)

has_literal-IsUnnamed :
    (is names : List String) → (has_literal is names ≡ false) ↔ All (IsUnnamed is) names
unfolding has_literal
has_literal-IsUnnamed is [] = (λ h. tt, λ h. refl)
has_literal-IsUnnamed is (n ∷ names) =
    ground (arith, is_literal-IsUnnamed is n, has_literal-IsUnnamed is names)

module _ {G : Type 0} (w : Watch G) where
  is_match-All :
      (gs : List G) (relative : List String)
      → (is_match w.globs gs relative ≡ false) ↔ All (λ g. w.globs.matches g relative ≡ false) gs
  unfolding is_match
  is_match-All [] relative = (λ h. tt, λ h. refl)
  is_match-All (g ∷ gs) relative = ground (arith, is_match-All gs relative)

  -- The path lies below the watched root, in no excluded directory, and neither matches a pattern
  -- nor has a component that one of the patterns names; `text` is what is reported of it.
  pub record IsWatched (path : FilePath) (text : String) : Type 0 where
    pub full : FilePath
    pub is_full : absolute w.current_dir path ≡ some full
    pub outside : IsOutside w.excluded full
    pub relative : List String
    pub below : IsBelow w.root relative full
    pub proper : is_empty relative ≡ false
    pub unmatched : All (λ g. w.globs.matches g relative ≡ false) w.ignores
    pub unnamed : All (IsUnnamed w.literal_ignores) relative
    pub is_text : path_text w relative ≡ text

  IsWatched-intro :
      (path full : FilePath) (relative : List String) {text : String}
      → absolute w.current_dir path ≡ some full
      → is_excluded w.excluded full ≡ false
      → strip_prefix w.root full ≡ some relative
      → is_ignored w relative ≡ false
      → path_text w relative ≡ text
      → IsWatched path text
  unfolding is_ignored
  IsWatched-intro path full relative is_full out below kept is_text =
      let matched = is_match w.globs w.ignores relative in
      let named = has_literal w.literal_ignores relative in
      let (rest, unnamed) = either_false (is_empty relative || matched) named kept in
      let (proper, unmatched) = either_false (is_empty relative) matched rest in
      record {
        full = full;
        is_full = is_full;
        outside = (is_excluded-IsOutside w.excluded full).0 out;
        relative = relative;
        below = strip_prefix-IsBelow w.root full below;
        proper = proper;
        unmatched = (is_match-All w.ignores relative).0 unmatched;
        unnamed = (has_literal-IsUnnamed w.literal_ignores relative).0 unnamed;
        is_text = is_text;
      }

  watcher_path-IsWatched :
      (path : FilePath) {text : String} → watcher_path w path ≡ some text → IsWatched path text
  unfolding watcher_path absolute_text relative_text
  watcher_path-IsWatched path {text} h = elim (Option-cases (absolute w.current_dir path)) [
    | inl nowhere ↦ absurd (none-≢-some (subst (λ o. absolute_text w o ≡ some text) nowhere h))
    | inr (full, is_full) ↦
        let (out, found) =
          barred_some (is_excluded w.excluded full) (relative_text w (strip_prefix w.root full))
            {a = text} (subst (λ o. absolute_text w o ≡ some text) is_full h) in
        elim (Option-cases (strip_prefix w.root full)) [
          | inl beside ↦
              absurd (none-≢-some (subst (λ o. relative_text w o ≡ some text) beside found))
          | inr (relative, below) ↦
              let (kept, same) =
                barred_some (is_ignored w relative) (some (path_text w relative)) {a = text}
                  (subst (λ o. relative_text w o ≡ some text) below found) in
              IsWatched-intro path full relative is_full out below kept (some-injective _ _ same)
        ]
  ]

  IsWatched-watcher_path :
      (path : FilePath) {text : String} → IsWatched path text → watcher_path w path ≡ some text
  unfolding watcher_path absolute_text relative_text is_ignored
  IsWatched-watcher_path path h =
      rw
        (
          h.is_full,
          (is_excluded-IsOutside w.excluded h.full).1 h.outside,
          IsBelow-strip_prefix w.root h.full h.relative h.below,
          h.proper,
          (is_match-All w.ignores h.relative).1 h.unmatched,
          (has_literal-IsUnnamed w.literal_ignores h.relative).1 h.unnamed,
          h.is_text,
        )
        refl

-- A changed path is passed on, with a text, exactly when it lies below the watched root and outside
-- every excluded directory, is not the root itself, matches no ignored pattern and has no component
-- that a pattern names.
pub watcher_path_iff :
    {G : Type 0} (w : Watch G) (path : FilePath) (text : String)
    → (watcher_path w path ≡ some text) ↔ IsWatched w path text
watcher_path_iff w path text = (watcher_path-IsWatched w path, IsWatched-watcher_path w path)
