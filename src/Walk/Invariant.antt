-- ===== src/Walk/Invariant.antt =====
-- What a callback keeps, the walk keeps.
use vire_fs.Base.{
  ℕ, zero, suc, Bool, true, false, Option, none, some, List, [], ◌∷◌, if◌then◌else◌, Bool-cases,
  inl, inr, ◌≡◌, refl,
}
use vire_fs.Bytes.{Bytes}
use vire_fs.Errors.{Error, skip_dir, errors_is, Result, ok, err}
use vire_fs.Effect.{Context}
use vire_fs.Fs.{Fs, FileInfo, no_info}
use vire_fs.Walk.{
  WalkFunc, returned, exhausted, Walked, sub_prefix, and_then, after_dir, after_file, after_entry,
  visit, walk_files, after_list, walk,
}

module _ {W R : Type 0} (P : W × R → Type 0) (Q : Error → W × R → Type 0) where
  -- `P` after an answer with no error, and `Q` of the error after one with an error.
  abbrev pub Answers : Option Error × (W × R) → Type 0
  Answers (none, s) = P s
  Answers (some e, s) = Q e s

  -- The same for a directory, where `ErrSkipDir` goes on.
  abbrev pub DirAnswers : Option Error × (W × R) → Type 0
  DirAnswers (none, s) = P s
  DirAnswers (some e, s) = if errors_is e skip_dir then P s else Q e s

  abbrev pub Keeps : Walked W R → Type 0
  Keeps (returned none, s) = P s
  Keeps (returned (some e), s) = Q e s
  Keeps (exhausted, s) = Unit

  -- What a callback and a store have to keep.
  pub record IsInvariant (ctx : Context W) (fn : WalkFunc W R) (fsys : Fs W) : Type 0 where
    pub cancelled : (e : Error) (s : W × R) → ctx s.0 ≡ some e → P s → Q e s
    pub on_list : (prefix : Bytes) (s : W × R) → P s → P ((fsys.list ctx prefix s.0).1, s.1)
    pub on_file :
        (fi : FileInfo) (s : W × R) → fi.is_dir ≡ false → P s → Answers (fn fi.key fi none s)
    pub on_dir :
        (fi : FileInfo) (s : W × R) → fi.is_dir ≡ true → P s → DirAnswers (fn fi.key fi none s)
    pub on_error :
        (prefix : Bytes) (e : Error) (w v : W) (r : R)
        → fsys.list ctx prefix w ≡ (err e, v)
        → P (v, r)
        → Answers (fn prefix no_info (some e) (v, r))

  and_then-Keeps :
      (r : Walked W R) (rest : W × R → Walked W R)
      → Keeps r
      → ((s : W × R) → P s → Keeps (rest s))
      → Keeps (and_then r rest)
  and_then-Keeps (returned none, s) rest p more = more s p
  and_then-Keeps (returned (some e), s) rest q more = q
  and_then-Keeps (exhausted, s) rest _ more = tt

  after_dir-Keeps :
      (a : Option Error × (W × R)) (below rest : W × R → Walked W R)
      → DirAnswers a
      → ((s : W × R) → P s → Keeps (below s))
      → ((s : W × R) → P s → Keeps (rest s))
      → Keeps (after_dir a below rest)
  after_dir-Keeps (none, s) below rest p deeper more =
      and_then-Keeps (below s) rest (deeper s p) more
  after_dir-Keeps (some e, s) below rest d deeper more = elim (Bool-cases (errors_is e skip_dir)) [
    | inl skip ↦ rw skip (more s (rw skip at d))
    | inr stop ↦ rw stop (rw stop at d)
  ]

  after_file-Keeps :
      (a : Option Error × (W × R)) (rest : W × R → Walked W R)
      → Answers a
      → ((s : W × R) → P s → Keeps (rest s))
      → Keeps (after_file a rest)
  after_file-Keeps (none, s) rest p more = more s p
  after_file-Keeps (some e, s) rest q more = q

  after_entry-Keeps :
      (is_dir : Bool) (a : Option Error × (W × R)) (below rest : W × R → Walked W R)
      → (is_dir ≡ true → DirAnswers a)
      → (is_dir ≡ false → Answers a)
      → ((s : W × R) → P s → Keeps (below s))
      → ((s : W × R) → P s → Keeps (rest s))
      → Keeps (after_entry is_dir a below rest)
  after_entry-Keeps true a below rest d f deeper more =
      after_dir-Keeps a below rest (d refl) deeper more
  after_entry-Keeps false a below rest d f deeper more = after_file-Keeps a rest (f refl) more

  module _ (ctx : Context W) (fn : WalkFunc W R) (fsys : Fs W) (inv : IsInvariant ctx fn fsys) where
    visit-Keeps :
        (o : Option Error) (fi : FileInfo) (below rest : W × R → Walked W R) (s : W × R)
        → ctx s.0 ≡ o
        → P s
        → ((t : W × R) → P t → Keeps (below t))
        → ((t : W × R) → P t → Keeps (rest t))
        → Keeps (visit ctx fn o fi below rest s)
    visit-Keeps (some e) fi below rest s dead p deeper more = inv.cancelled e s dead p
    visit-Keeps none fi below rest s alive p deeper more =
        after_entry-Keeps fi.is_dir (fn fi.key fi none s) below rest (λ d. inv.on_dir fi s d p)
          (λ f. inv.on_file fi s f p) deeper more

    walk_files-Keeps :
        (walk : Bytes → W × R → Walked W R)
        → ((prefix : Bytes) (s : W × R) → P s → Keeps (walk prefix s))
        → (prefix : Bytes) (files : List FileInfo) (s : W × R) → P s
        → Keeps (walk_files ctx fn walk prefix files s)
    unfolding walk_files
    walk_files-Keeps walk deep prefix [] s p = p
    walk_files-Keeps walk deep prefix (fi ∷ files) s p =
        visit-Keeps (ctx s.0) fi (walk (sub_prefix prefix fi.key))
          (walk_files ctx fn walk prefix files) s refl p (deep (sub_prefix prefix fi.key))
          (walk_files-Keeps walk deep prefix files)

    after_list-Keeps :
        (walk : Bytes → W × R → Walked W R)
        → ((prefix : Bytes) (s : W × R) → P s → Keeps (walk prefix s))
        → (prefix : Bytes) (w : W) (r : R) (l : Result (List FileInfo) × W)
        → fsys.list ctx prefix w ≡ l
        → P (l.1, r)
        → Keeps (after_list ctx fn walk prefix r l)
    after_list-Keeps walk deep prefix w r (ok files, v) lists p =
        walk_files-Keeps walk deep prefix files (v, r) p
    after_list-Keeps walk deep prefix w r (err e, v) lists p =
        of_answer (fn prefix no_info (some e) (v, r)) (inv.on_error prefix e w v r lists p)
      where
        of_answer : (a : Option Error × (W × R)) → Answers a → Keeps (returned a.0, a.1)
        of_answer (none, s) h = h
        of_answer (some d, s) h = h

    pub walk-Keeps :
        (fuel : ℕ) (prefix : Bytes) (s : W × R) → P s → Keeps (walk ctx fn fsys fuel prefix s)
    unfolding walk
    walk-Keeps zero prefix s p = tt
    walk-Keeps (suc fuel) prefix s p =
        after_list-Keeps (walk ctx fn fsys fuel) (walk-Keeps fuel) prefix s.0 s.1
          (fsys.list ctx prefix s.0) refl (inv.on_list prefix s p)
