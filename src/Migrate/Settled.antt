-- ===== src/Migrate/Settled.antt =====
-- What a run of Migrate's calls leaves, under any policy, if no two files go to the same key.
use vire_fs.Base.{
  true, false, none, some, List, [], ◌∷◌, ◌≡◌, ◌≢◌, refl, sym, ◌∙◌, ◌⊎◌, inl, inr, Option-cases,
  All,
}
use vire_fs.Bytes.{Bytes}
use vire_fs.Effect.{Context}
use vire_fs.Fs.{Fs, FileInfo}
use vire_fs.Fs.Contents.{Contents, Unchanged}
use vire_fs.Migrate.{MigrateConfig, destination_key}
use vire_fs.Migrate.Handled.{Settled, Settled-map, Handled}

module _ {W : Type 0} (cfg : MigrateConfig W) (src_prefix dst_prefix : Bytes) where
  abbrev target : Bytes → Bytes
  target key = destination_key cfg.key_func src_prefix dst_prefix key

  -- Two entries that do not go to the same key.
  abbrev pub Elsewhere : FileInfo → FileInfo → Type 0
  Elsewhere fi other =
      (fi.is_dir ≡ true) ⊎ ((other.is_dir ≡ true) ⊎ (target fi.key ≢ target other.key))

  -- No two files go to the same key.
  abbrev pub Distinct : List FileInfo → Type 0
  Distinct [] = Unit
  Distinct (fi ∷ fis) = All (Elsewhere fi) fis × Distinct fis

  -- A key that no file goes to.
  abbrev pub Untouched : Bytes → FileInfo → Type 0
  Untouched q fi = (fi.is_dir ≡ true) ⊎ (q ≢ target fi.key)

  Elsewhere-Untouched :
      (fi : FileInfo) (fis : List FileInfo)
      → fi.is_dir ≡ false
      → All (Elsewhere fi) fis
      → All (Untouched (target fi.key)) fis
  Elsewhere-Untouched fi [] file _ = tt
  Elsewhere-Untouched fi (other ∷ fis) file (inl is_dir, apart) = cc (sym file ∙ is_dir)
  Elsewhere-Untouched fi (other ∷ fis) file (inr (inl is_dir), apart) =
      (inl is_dir, Elsewhere-Untouched fi fis file apart)
  Elsewhere-Untouched fi (other ∷ fis) file (inr (inr ne), apart) =
      (inr ne, Elsewhere-Untouched fi fis file apart)

module _ {W : Type 0} (from to : Contents W) (Turn : Bytes → W → Type 0) (ctx : Context W)
    (dst : Fs W) (cfg : MigrateConfig W) (src_prefix dst_prefix : Bytes) where
  abbrev goal : Bytes → Bytes
  goal key = destination_key cfg.key_func src_prefix dst_prefix key

  -- What became of an entry.
  abbrev pub Entry : W → W → FileInfo → Type 0
  Entry w w' fi =
      (fi.is_dir ≡ true) ⊎ Settled from to Turn ctx dst cfg.conflict fi.key (goal fi.key) w w'

  -- Every file that is listed is settled, what the destination held at other keys is as it was, and
  -- so is the source.
  pub record AllSettled (fis : List FileInfo) (w w' : W) : Type 0 where
    pub files : All (Entry w w') fis
    pub others :
        (q c : Bytes)
        → All (Untouched cfg src_prefix dst_prefix q) fis
        → to w q ≡ some c
        → to w' q ≡ some c
    pub source : Unchanged from w w'

  -- What later calls leave of a file that is settled: they do not touch its key.
  Settled-after :
      (key dst_key : Bytes) (w v w' : W)
      → ((c : Bytes) → to v dst_key ≡ some c → to w' dst_key ≡ some c)
      → Settled from to Turn ctx dst cfg.conflict key dst_key w v
      → Settled from to Turn ctx dst cfg.conflict key dst_key w w'
  Settled-after key dst_key w v w' kept (inl (there, found)) = elim (Option-cases (from w key)) [
    | inl missing ↦ absurd (found missing)
    | inr (c, held) ↦ inl (kept c (there ∙ held) ∙ sym held, found)
  ]
  Settled-after key dst_key w v w' kept (inr (skips, asked, inl nothing)) =
      inr (skips, asked, inl nothing)
  Settled-after key dst_key w v w' kept (inr (skips, asked, inr same)) =
      elim (Option-cases (to w dst_key)) [
        | inl nothing ↦ inr (skips, asked, inl nothing)
        | inr (c, held) ↦ inr (skips, asked, inr (kept c (same ∙ held) ∙ sym held))
      ]

  -- What an earlier call leaves for a file that is settled later.
  Settled-before :
      (key dst_key : Bytes) (w v w' : W)
      → Unchanged from w v
      → ((c : Bytes) → to w dst_key ≡ some c → to v dst_key ≡ some c)
      → Settled from to Turn ctx dst cfg.conflict key dst_key v w'
      → Settled from to Turn ctx dst cfg.conflict key dst_key w w'
  Settled-before key dst_key w v w' calm kept (inl (there, found)) =
      inl (there ∙ calm key, λ missing. found (calm key ∙ missing))
  Settled-before key dst_key w v w' calm kept (inr (skips, asked, rest)) =
      elim (Option-cases (to w dst_key)) [
        | inl nothing ↦ inr (skips, asked, inl nothing)
        | inr (c, held) ↦ by_rest c held rest
      ]
    where
      by_rest :
          (c : Bytes)
          → to w dst_key ≡ some c
          → (to v dst_key ≡ none) ⊎ (to w' dst_key ≡ to v dst_key)
          → Settled from to Turn ctx dst cfg.conflict key dst_key w w'
      by_rest c held (inl nothing) = cc (sym nothing ∙ kept c held)
      by_rest c held (inr same) = inr (skips, asked, inr (same ∙ kept c held ∙ sym held))

  Entries-before :
      (fis : List FileInfo) (w v w' : W)
      → Unchanged from w v × Unchanged to w v
      → All (Entry v w') fis
      → All (Entry w w') fis
  Entries-before [] w v w' calm _ = tt
  Entries-before (fi ∷ fis) w v w' calm (inl is_dir, es) =
      (inl is_dir, Entries-before fis w v w' calm es)
  Entries-before (fi ∷ fis) w v w' calm (inr e, es) = (
    inr (
        Settled-map from to Turn ctx dst cfg.conflict fi.key (goal fi.key) w v w' w' calm
          (λ q. refl) e),
    Entries-before fis w v w' calm es,
  )

  pub AllSettled-before :
      (fis : List FileInfo) (w v w' : W)
      → Unchanged from w v × Unchanged to w v
      → AllSettled fis v w'
      → AllSettled fis w w'
  AllSettled-before fis w v w' (calm_from, calm_to) d = record {
    files = Entries-before fis w v w' (calm_from, calm_to) d.files;
    others = λ q c apart there. d.others q c apart (calm_to q ∙ there);
    source = λ q. d.source q ∙ calm_from q;
  }

  -- A call for a file, before those for files that go elsewhere.
  Entries-call :
      (fi : FileInfo) (fis : List FileInfo) (w v w' : W)
      → Handled from to Turn ctx dst cfg.conflict fi.key (goal fi.key) w v
      → All (Elsewhere cfg src_prefix dst_prefix fi) fis
      → fi.is_dir ≡ false
      → All (Entry v w') fis
      → All (Entry w w') fis
  Entries-call fi [] w v w' h _ file _ = tt
  Entries-call fi (other ∷ fis) w v w' h (apart, aparts) file (inl is_dir, es) =
      (inl is_dir, Entries-call fi fis w v w' h aparts file es)
  Entries-call fi (other ∷ fis) w v w' h (apart, aparts) file (inr e, es) =
      (by_apart apart, Entries-call fi fis w v w' h aparts file es)
    where
      by_apart : Elsewhere cfg src_prefix dst_prefix fi other → Entry w w' other
      by_apart (inl is_dir) = cc (sym file ∙ is_dir)
      by_apart (inr (inl is_dir)) = inl is_dir
      by_apart (inr (inr ne)) = inr (
          Settled-before other.key (goal other.key) w v w' h.source
            (λ c held. h.others (goal other.key) c (λ same. ne (sym same)) held) e)

  pub AllSettled-call :
      (fi : FileInfo) (fis : List FileInfo) (w v w' : W)
      → fi.is_dir ≡ false
      → Handled from to Turn ctx dst cfg.conflict fi.key (goal fi.key) w v
      → All (Elsewhere cfg src_prefix dst_prefix fi) fis
      → AllSettled fis v w'
      → AllSettled (fi ∷ fis) w w'
  AllSettled-call fi fis w v w' file h apart d = record {
    files = (
      inr (
          Settled-after fi.key (goal fi.key) w v w'
            (λ c.
              d.others (goal fi.key) c
                (Elsewhere-Untouched cfg src_prefix dst_prefix fi fis file apart))
            h.settled),
      Entries-call fi fis w v w' h apart file d.files,
    );
    others = λ q c (here, there) held. others_of q c here there held;
    source = λ q. d.source q ∙ h.source q;
  }
    where
      others_of :
          (q c : Bytes)
          → Untouched cfg src_prefix dst_prefix q fi
          → All (Untouched cfg src_prefix dst_prefix q) fis
          → to w q ≡ some c
          → to w' q ≡ some c
      others_of q c (inl is_dir) there held = cc (sym file ∙ is_dir)
      others_of q c (inr ne) there held = d.others q c there (h.others q c ne held)
